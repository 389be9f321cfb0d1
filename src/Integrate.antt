-- ===== src/Integrate.antt =====
-- yjs/store.go: conflict resolution, splicing an item into its type, tombstoning, and `repair`.
pub mod Connect
pub mod Place
pub mod Local
pub mod Scan
pub mod Anywhere
pub mod Delete
use cert_yjs.Base.{
  ℕ, zero, suc, Bool, true, false, Option, none, some, List, [], ◌∷◌, ◌++◌, ◌&&◌, ◌||◌, ltb, add64,
  sub64, bit_or, if◌then◌else◌, Run, done, out_of_fuel, ◌>>=◌, deref, not,
}
use cert_yjs.Ident.{Client, ItemId, equal, id_opt_equal}
use cert_yjs.Span.{IdSpan, contains_id}
use cert_yjs.Item.{Ptr, TypePtr, Item, item_deleted, len, countable, indexable}
use cert_yjs.Heap.{Heap, YType, write_item, write_type, set_left, set_left?, set_right}
use cert_yjs.Update.{GoString}
use cert_yjs.Store.{Store, add_node, get_or_create_y_type, is_found}
use cert_yjs.Split.{split_at_and_get_left, split_at_and_get_right}

unfoldable pub item_ptr_equal : Heap → Option Ptr → Option Ptr → Bool
unfolding equal
item_ptr_equal h none none = true
item_ptr_equal h none (some b) = false
item_ptr_equal h (some a) none = false
item_ptr_equal h (some a) (some b) = equal (h.item_at a).id (h.item_at b).id

-- What one round of scanConflicts does with the conflict `c`: leave the loop, go on, or take `c`
-- as the new left anchor and forget the conflicting items.
pub data Verdict : Type 0 where
  leave stay take_over : Verdict

-- Case 2 of the loop, and the case where the origin connections would cross.
unfoldable pub crossing_verdict : List IdSpan → List IdSpan → Option ItemId → Verdict
crossing_verdict before conflicting none = Verdict.leave
crossing_verdict before conflicting (some col) =
    if contains_id before col
    then (if contains_id conflicting col then Verdict.stay else Verdict.take_over)
    else Verdict.leave

-- `before` and `conflicting` hold the span of the conflict already.
unfoldable pub verdict : Item → Item → List IdSpan → List IdSpan → Verdict
unfolding crossing_verdict
verdict it conflict before conflicting =
    if id_opt_equal it.origin_left_id conflict.origin_left_id
    then (if ltb conflict.id.client_id it.id.client_id
        then Verdict.take_over
        else if id_opt_equal it.origin_right_id conflict.origin_right_id
        then Verdict.leave
        else Verdict.stay)
    else crossing_verdict before conflicting conflict.origin_left_id

-- The loop of scanConflicts.
unfoldable pub scan_loop :
    ℕ
    → Heap
    → Item
    → (left conflict right : Option Ptr) → (before conflicting : List IdSpan) → Run (Option Ptr)
unfolding item_ptr_equal verdict
scan_loop zero h it left conflict right before conflicting = out_of_fuel
scan_loop (suc k) h it left none right before conflicting = done left
scan_loop (suc k) h it left (some c) right before conflicting =
    let ci = h.item_at c in
    let span : IdSpan = record { id = ci.id; len = len ci } in
    let before' = before ++ span ∷ [] in
    let conflicting' = conflicting ++ span ∷ [] in
    let round : Run (Option Ptr) = elim (verdict it ci before' conflicting') [
      | leave ↦ done left
      | stay ↦ scan_loop k h it left ci.right right before' conflicting'
      | take_over ↦ scan_loop k h it (some c) ci.right right before' []
    ] in
    if item_ptr_equal h (some c) right then done left else round

unfoldable pub scan_conflicts : Heap → Ptr → (left conflict right : Option Ptr) → Run (Option Ptr)
unfolding scan_loop
scan_conflicts h item left conflict right =
    scan_loop (suc h.next_item) h (h.item_at item) left conflict right [] []

unfoldable pub right_is_null_or_has_left : Heap → Option Ptr → Bool
right_is_null_or_has_left h none = true
right_is_null_or_has_left h (some r) = is_found (h.item_at r).left

unfoldable pub left_has_other_right : Heap → Option Ptr → Option Ptr → Bool
unfolding item_ptr_equal
left_has_other_right h none right = false
left_has_other_right h (some l) right = not (item_ptr_equal h (h.item_at l).right right)

-- Where the scan starts.
unfoldable pub first_conflict : Heap → TypePtr → Option Ptr → Option Ptr
first_conflict h parent none = (h.type_at parent).start
first_conflict h parent (some l) = (h.item_at l).right

unfoldable pub find_integration_left :
    Heap → TypePtr → Ptr → Option Ptr → Option Ptr → Run (Option Ptr)
unfolding scan_conflicts right_is_null_or_has_left left_has_other_right first_conflict
find_integration_left h parent it left right =
    if (not (is_found left) && right_is_null_or_has_left h right)
      || left_has_other_right h left right
    then scan_conflicts h it left (first_conflict h parent left) right
    else done left

-- The splice: left <-> item <-> right, where `left` has been decided.
unfoldable pub connect : Heap → TypePtr → Ptr → Option Ptr → Heap
unfolding set_left set_left? set_right write_type
connect h parent item (some l) =
    let right = (h.item_at l).right in
    let h1 = set_left (set_right h l (some item)) item (some l) in
    set_right (set_left? h1 right (some item)) item right
connect h parent item none =
    let right = (h.type_at parent).start in
    let h1 = write_type h parent (record (h.type_at parent) { start = some item }) in
    let h2 = set_left h1 item none in set_right (set_left? h2 right (some item)) item right

unfoldable pub grow : Heap → TypePtr → Item → Heap
unfolding write_type
grow h parent it =
    if countable it
    then write_type h parent
        (record (h.type_at parent) { len = add64 (h.type_at parent).len (len it) })
    else h

unfoldable pub integrate_core : Heap → TypePtr → Ptr → Run Heap
unfolding find_integration_left connect grow
integrate_core h parent item = do
  let it = h.item_at item
  left ← find_integration_left h parent item it.left it.right
  let h1 = connect h parent item left
  done (grow h1 parent (h1.item_at item))

-- The type that an item goes into: the one that is given, or its own.
unfoldable pub target : Option TypePtr → Item → Option TypePtr
target (some parent) it = some parent
target none it = it.parent

-- store.Integrate.
unfoldable pub integrate : Store → Option TypePtr → Ptr → Run (Option TypePtr × Store)
unfolding integrate_core target add_node
integrate s parent item = elim (target parent (s.heap.item_at item)) [
  | none ↦ done (none, s)
  | some p ↦ do
    h ← integrate_core s.heap p item
    done (some p, add_node (record s { heap = h }) item)
]

-- store.deleteNode: whether the node was live, and memory afterwards.
unfoldable pub delete_node : Heap → Ptr → Run (Bool × Heap)
unfolding write_item write_type
delete_node h n =
    let it = h.item_at n in
    let h1 = write_item h n (record it { flags = bit_or it.flags item_deleted }) in
    if indexable it
    then (do
      parent ← deref it.parent
      let y = h1.type_at parent
      done (true, write_type h1 parent (record y { len = sub64 y.len (len it) })))
    else done (false, h)

-- The two halves of repair that follow an origin, and the half that finds the parent.
unfoldable pub repair_left : Store → Ptr → Option ItemId → Run Store
unfolding split_at_and_get_left set_left
repair_left s it none = done s
repair_left s it (some origin) = do
  (left, s') ← split_at_and_get_left s origin
  done (elim left [ none ↦ s' | some l ↦ record s' { heap = set_left s'.heap it (some l) } ])

unfoldable pub repair_right : Store → Ptr → Option ItemId → Run Store
unfolding split_at_and_get_right set_right
repair_right s it none = done s
repair_right s it (some origin) = do
  (right, s') ← split_at_and_get_right s origin
  done (elim right [ none ↦ s' | some r ↦ record s' { heap = set_right s'.heap it (some r) } ])

unfoldable pub set_parent : Store → Ptr → Option TypePtr → Store
unfolding write_item
set_parent s it parent = record s {
  heap = write_item s.heap it (record (s.heap.item_at it) { parent = parent });
}

unfoldable pub borrow_parent : Store → Ptr → Option Ptr → Option Ptr → Store
unfolding set_parent
borrow_parent s it (some l) right = set_parent s it (s.heap.item_at l).parent
borrow_parent s it none (some r) = set_parent s it (s.heap.item_at r).parent
borrow_parent s it none none = s

unfoldable pub repair_parent : Store → Ptr → Option GoString → Store
unfolding get_or_create_y_type set_parent borrow_parent
repair_parent s it (some name) =
    let (y, s') = get_or_create_y_type s name in set_parent s' it (some y)
repair_parent s it none = borrow_parent s it (s.heap.item_at it).left (s.heap.item_at it).right

unfoldable pub repair : Store → Ptr → Option GoString → Run Store
unfolding repair_left repair_right repair_parent
repair s it parent_name = do
  s1 ← repair_left s it (s.heap.item_at it).origin_left_id
  s2 ← repair_right s1 it (s1.heap.item_at it).origin_right_id
  done (repair_parent s2 it parent_name)
