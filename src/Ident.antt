-- ===== src/Ident.antt =====
-- yjs/id.go: client and clock identifiers, and the optional ids of yjs/store.go.
pub mod Laws
use cert_yjs.Base.{ℕ, Bool, true, false, Option, none, some, ◌&&◌, ◌==◌, add64, sub64}

-- A replica, and its logical timestamp; both are uint64.
abbrev pub Client : Type 0
Client = ℕ

abbrev pub Clock : Type 0
Clock = ℕ

pub record ItemId : Type 0 where
  pub client_id : Client
  pub clock : Clock

unfoldable pub new_id : Client → Clock → ItemId
new_id client clock = record { client_id = client; clock = clock }

unfoldable pub add : ItemId → ℕ → ItemId
add i n = record { client_id = i.client_id; clock = add64 i.clock n }

unfoldable pub sub : ItemId → ℕ → ItemId
sub i n = record { client_id = i.client_id; clock = sub64 i.clock n }

unfoldable pub equal : ItemId → ItemId → Bool
equal i other = i.client_id == other.client_id && i.clock == other.clock

-- A nil pointer to an id is `none`.
unfoldable pub id_opt_equal : Option ItemId → Option ItemId → Bool
unfolding equal
id_opt_equal none none = true
id_opt_equal none (some b) = false
id_opt_equal (some a) none = false
id_opt_equal (some a) (some b) = equal a b
