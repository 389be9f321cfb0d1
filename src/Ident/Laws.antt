-- ===== src/Ident/Laws.antt =====
-- Equality of ids, and moving an id forth and back.
use cert_yjs.Base.{ℕ, ◌<◌, ◌≡◌, ◌↔◌, true, Option, none, some, arith, u64_mod, add64, sub64}
use cert_yjs.Ident.{ItemId, add, sub, equal, id_opt_equal}

-- The test on ids decides their equality.
pub equal_iff : (a b : ItemId) → (equal a b ≡ true) ↔ (a ≡ b)
unfolding equal
equal_iff a b = ground arith

-- The test on optional ids decides their equality.
pub id_opt_equal_iff : (a b : Option ItemId) → (id_opt_equal a b ≡ true) ↔ (a ≡ b)
unfolding id_opt_equal
id_opt_equal_iff none none = ground arith
id_opt_equal_iff none (some b) = ground arith
id_opt_equal_iff (some a) none = ground arith
id_opt_equal_iff (some a) (some b) = ground arith

-- `Sub` undoes `Add`, also where the clock wraps.
pub sub-add : (a : ItemId) (n : ℕ) → a.clock < u64_mod → n < u64_mod → sub (add a n) n ≡ a
unfolding add sub add64 sub64
sub-add a n h k = ground arith
