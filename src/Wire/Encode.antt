-- ===== src/Wire/Encode.antt =====
-- yjs/codec.go: encoding a client's items in runs, and the ranges of a delete set. Go's UTF-16 and
-- UTF-8 conversions are an argument, `encode_wire_string`.
use cert_yjs.Base.{
  ℕ, ◌==◌, ◌&&◌, not, bit_and, bit_or, add64, sub64, Bool, true, false, Option, none, some, List,
  [], ◌∷◌, ◌++◌, length, if◌then◌else◌, Run, done, ◌>>=◌, deref,
}
use cert_yjs.Ident.{ItemId, equal, id_opt_equal}
use cert_yjs.Span.{ClockSpan, OrderRange}
use cert_yjs.Item.{Ptr, Item, len, last_id, deleted}
use cert_yjs.Heap.{Heap}
use cert_yjs.Update.{GoString}
use cert_yjs.Wire.{Encoder, write_u8, write_var_uint, write_var_string, write_item_id}
use cert_yjs.Wire.Decode.{
  info_has_left_id, info_has_right_id, info_has_sibling, content_type_string,
}

-- `p != nil && *p == id`, and a comparison of pointers.
abbrev pub points_at_id : Option ItemId → ItemId → Bool
points_at_id none id = false
points_at_id (some p) id = equal p id

abbrev pub is_ptr : Option Ptr → Ptr → Bool
is_ptr none q = false
is_ptr (some p) q = p == q

unfoldable pub joinable : Heap → (prev next : Ptr) → Bool
unfolding last_id id_opt_equal equal
joinable h prev next =
    let a = h.item_at prev in
    let b = h.item_at next in
    a.id.client_id == b.id.client_id
    && add64 a.id.clock (len a) == b.id.clock
    && points_at_id b.origin_left_id (last_id a)
    && id_opt_equal a.origin_right_id b.origin_right_id
    && is_ptr a.right next
    && (if deleted a then deleted b else not (deleted b))

-- Whether the last item of a run, which is never empty, goes on with `it`.
unfoldable pub run_joins : Heap → List Ptr → Ptr → Bool
unfolding joinable
run_joins h [] it = false
run_joins h (p ∷ []) it = joinable h p it
run_joins h (p ∷ q ∷ ps) it = run_joins h (q ∷ ps) it

-- One round of joinRuns.
unfoldable pub join_one : Heap → List (List Ptr) → Ptr → List (List Ptr)
unfolding run_joins
join_one h [] it = (it ∷ []) ∷ []
join_one h (run ∷ []) it =
    if run_joins h run it then (run ++ it ∷ []) ∷ [] else run ∷ (it ∷ []) ∷ []
join_one h (run ∷ next ∷ runs) it = run ∷ join_one h (next ∷ runs) it

unfoldable pub join_loop : Heap → List (List Ptr) → List Ptr → List (List Ptr)
unfolding join_one
join_loop h runs [] = runs
join_loop h runs (it ∷ items) = join_loop h (join_one h runs it) items

unfoldable pub join_runs : Heap → List Ptr → List (List Ptr)
unfolding join_loop
join_runs h items = join_loop h [] items

abbrev pub first : List Ptr → Option Ptr
first [] = none
first (p ∷ ps) = some p

unfoldable pub info_byte : Item → ℕ
info_byte head =
    let with_left : ℕ → ℕ =
      λ info. elim head.origin_left_id [ none ↦ info | some i ↦ bit_or info info_has_left_id ] in
    let with_right : ℕ → ℕ =
      λ info. elim head.origin_right_id [ none ↦ info | some i ↦ bit_or info info_has_right_id ] in
    with_right (with_left content_type_string)

unfoldable pub write_origin : Encoder → Option ItemId → Run Encoder
unfolding write_item_id
write_origin e none = done e
write_origin e (some id) = write_item_id e id

unfoldable pub write_parent : Encoder → Bool → GoString → Run Encoder
unfolding write_var_uint write_var_string
write_parent e false name = done e
write_parent e true name = do e' ← write_var_uint e 1; write_var_string e' name

unfoldable pub run_units : Heap → List Ptr → List ℕ
run_units h [] = []
run_units h (p ∷ run) = (h.item_at p).content ++ run_units h run

unfoldable pub encode_run :
    (encode_wire_string : List ℕ → GoString)
    → Heap
    → (name : ItemId → GoString) → Encoder
    → List Ptr
    → Run Encoder
unfolding info_byte write_u8 write_origin write_parent run_units write_var_string
encode_run encode_wire_string h name e run = do
  p ← deref (first run)
  let head = h.item_at p
  e1 ← write_origin (write_u8 e (info_byte head)) head.origin_left_id
  e2 ← write_origin e1 head.origin_right_id
  e3 ← write_parent e2 (bit_and (info_byte head) info_has_sibling == 0) (name head.id)
  write_var_string e3 (encode_wire_string (run_units h run))

unfoldable pub ranges_of : OrderRange → List ClockSpan
ranges_of (OrderRange.range r) = r ∷ []
ranges_of (OrderRange.fragments rs) = rs

unfoldable pub write_ranges : Encoder → List ClockSpan → Run Encoder
unfolding write_var_uint
write_ranges e [] = done e
write_ranges e (r ∷ rs) = do
  e1 ← write_var_uint e r.start
  e2 ← write_var_uint e1 (sub64 r.end r.start)
  write_ranges e2 rs

unfoldable pub encode_order_range : Encoder → OrderRange → Run Encoder
unfolding ranges_of write_ranges write_var_uint
encode_order_range e r = do
  e' ← write_var_uint e (length (ranges_of r))
  write_ranges e' (ranges_of r)
