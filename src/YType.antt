-- ===== src/YType.antt =====
-- yjs/ytype.go: walks over the item list of a root type.
-- Each walk takes as fuel one round more than there are items in memory.
pub mod Chain
pub mod Links
pub mod Distinct
pub mod Same
pub mod Valid
pub mod Seek
pub mod Position
pub mod Chars
use cert_yjs.Base.{
  ℕ, zero, suc, Bool, true, false, Option, none, some, List, [], ◌∷◌, ◌++◌, ◌==◌, ltb, ◌-◌, add64,
  sub64, if◌then◌else◌, Run, done, out_of_fuel, ◌>>=◌,
}
use cert_yjs.Ident.{Client, Clock, ItemId}
use cert_yjs.Item.{Ptr, TypePtr, Item, len, deleted, indexable}
use cert_yjs.Heap.{Heap, YType}

unfoldable pub new_y_type : YType
new_y_type = record { start = none; len = 0 }

-- Leading tombstones: the cursor (left, right) after the first loop of findPos.
unfoldable pub skip_tombstones : ℕ → Heap → Option Ptr → Option Ptr → Run (Option Ptr × Option Ptr)
skip_tombstones zero h left right = out_of_fuel
skip_tombstones (suc k) h left none = done (left, none)
skip_tombstones (suc k) h left (some p) =
    let rest = skip_tombstones k h (some p) (h.item_at p).right in
    if deleted (h.item_at p) then rest else done (left, some p)

-- What one item takes of the budget: what remains, and the offset.
unfoldable pub spend : Item → ℕ → ℕ → ℕ × ℕ
spend it remaining offset =
    if indexable it
    then (if ltb remaining (len it) then (0, remaining) else (sub64 remaining (len it), offset))
    else (remaining, offset)

-- The second loop of findPos.
unfoldable pub seek : ℕ → Heap → ℕ → ℕ → Option Ptr → Option Ptr → Run (Option Ptr × Option Ptr × ℕ)
unfolding spend
seek zero h remaining offset left right = out_of_fuel
seek (suc k) h remaining offset left none = done (left, none, offset)
seek (suc k) h remaining offset left (some p) =
    let (remaining', offset') = spend (h.item_at p) remaining offset in
    let rest = seek k h remaining' offset' (some p) (h.item_at p).right in
    if remaining == 0 then done (left, some p, offset) else rest

unfoldable pub find_pos : Heap → TypePtr → ℕ → Run (Option Ptr × Option Ptr × ℕ)
unfolding skip_tombstones seek
find_pos h y index = do
  (left, right) ← skip_tombstones (suc h.next_item) h none (h.type_at y).start
  seek (suc h.next_item) h index 0 left right

unfoldable pub text_loop : ℕ → Heap → Option Ptr → List ℕ → Run (List ℕ)
text_loop zero h cur result = out_of_fuel
text_loop (suc k) h none result = done result
text_loop (suc k) h (some p) result =
    text_loop k h (h.item_at p).right
      (if deleted (h.item_at p) then result else result ++ (h.item_at p).content)

-- yType.Text
unfoldable pub text : Heap → TypePtr → Run (List ℕ)
unfolding text_loop
text h y = text_loop (suc h.next_item) h (h.type_at y).start []

-- yjs/text.go: one character of a text as a read saw it.
pub record SnapshotChar : Type 0 where
  pub client : Client
  pub clock : Clock
  pub deleted : Bool
  pub unit : ℕ

-- The inner loop, over the units of one item from index `k` on.
unfoldable pub snapshot_item : Item → ℕ → List ℕ → List SnapshotChar → List SnapshotChar
snapshot_item it k [] result = result
snapshot_item it k (u ∷ units) result =
    let c : SnapshotChar = record {
      client = it.id.client_id;
      clock = add64 it.id.clock k;
      deleted = deleted it;
      unit = u;
    } in
    snapshot_item it (suc k) units (result ++ c ∷ [])

unfoldable pub snapshot_loop : ℕ → Heap → Option Ptr → List SnapshotChar → Run (List SnapshotChar)
unfolding snapshot_item
snapshot_loop zero h cur result = out_of_fuel
snapshot_loop (suc k) h none result = done result
snapshot_loop (suc k) h (some p) result =
    snapshot_loop k h (h.item_at p).right
      (snapshot_item (h.item_at p) 0 (h.item_at p).content result)

-- yType.Snapshot
unfoldable pub snapshot : Heap → TypePtr → Run (List SnapshotChar)
unfolding snapshot_loop
snapshot h y = snapshot_loop (suc h.next_item) h (h.type_at y).start []
