-- ===== src/Wire/Runs.antt =====
-- joinRuns and splitStructs: what the cuts keep.
use cert_yjs.Base.{
  ℕ, suc, ◌≡◌, refl, ap, sym, ◌∙◌, true, false, List, [], ◌∷◌, ◌++◌, append-nil, append_assoc,
  if◌then◌else◌, All, Bool-cases, inl, inr,
}
use cert_yjs.Item.{Ptr}
use cert_yjs.Heap.{Heap}
use cert_yjs.Update.{UpdateItem}
use cert_yjs.Wire.Encode.{joinable, run_joins, join_one, join_loop, join_runs}
use cert_yjs.Wire.Decode.{DecodedStruct, unit_update, split_units, split_loop, split_structs}

-- The runs one behind the other.
abbrev pub joined : List (List Ptr) → List Ptr
joined [] = []
joined (run ∷ runs) = run ++ joined runs

-- A run of items each of which goes on where the one before it ends; it is not empty.
abbrev pub IsRun : Heap → List Ptr → Type 0
IsRun h [] = true ≡ false
IsRun h (p ∷ []) = Unit
IsRun h (p ∷ q ∷ ps) = (joinable h p q ≡ true) × IsRun h (q ∷ ps)

IsRun-snoc :
    (h : Heap) (run : List Ptr) (it : Ptr)
    → IsRun h run
    → run_joins h run it ≡ true
    → IsRun h (run ++ it ∷ [])
unfolding run_joins
IsRun-snoc h [] it r e = cc
IsRun-snoc h (p ∷ []) it r e = (e, tt)
IsRun-snoc h (p ∷ q ∷ ps) it (j, r) e = (j, IsRun-snoc h (q ∷ ps) it r e)

join_one-joined :
    (h : Heap) (runs : List (List Ptr)) (it : Ptr)
    → joined (join_one h runs it) ≡ joined runs ++ it ∷ []
unfolding join_one
join_one-joined h [] it = refl
join_one-joined h (run ∷ []) it = elim (Bool-cases (run_joins h run it)) [
  | inl e ↦ rw e (simp append-nil refl)
  | inr e ↦ rw e (simp append-nil refl)
]
join_one-joined h (run ∷ next ∷ runs) it =
    ap (λ l. run ++ l) (join_one-joined h (next ∷ runs) it) ∙ sym (append_assoc run _ _)

join_one-IsRun :
    (h : Heap) (runs : List (List Ptr)) (it : Ptr)
    → All (λ run. IsRun h run) runs
    → All (λ run. IsRun h run) (join_one h runs it)
unfolding join_one
join_one-IsRun h [] it a = (tt, tt)
join_one-IsRun h (run ∷ []) it (r, _) = elim (Bool-cases (run_joins h run it)) [
  | inl e ↦ rw e (IsRun-snoc h run it r e, tt)
  | inr e ↦ rw e (r, (tt, tt))
]
join_one-IsRun h (run ∷ next ∷ runs) it (r, a) = (r, join_one-IsRun h (next ∷ runs) it a)

join_loop-joined :
    (h : Heap) (runs : List (List Ptr)) (items : List Ptr)
    → All (λ run. IsRun h run) runs
    → (joined (join_loop h runs items) ≡ joined runs ++ items)
      × All (λ run. IsRun h run) (join_loop h runs items)
unfolding join_loop
join_loop-joined h runs [] a = (sym (append-nil (joined runs)), a)
join_loop-joined h runs (it ∷ items) a =
    let (e, b) = join_loop-joined h (join_one h runs it) items (join_one-IsRun h runs it a) in
    (
      e
          ∙ ap (λ l. l ++ items) (join_one-joined h runs it)
          ∙ append_assoc (joined runs) (it ∷ []) items,
      b,
    )

-- joinRuns cuts the items into runs: one behind the other they are the items, none is empty, and
-- each item of a run but the first is joinable to the one before it.
pub join_runs-joined :
    (h : Heap) (items : List Ptr)
    → (joined (join_runs h items) ≡ items) × All (λ run. IsRun h run) (join_runs h items)
unfolding join_runs
join_runs-joined h items = join_loop-joined h [] items tt

-- The items of one struct, from index `j` on.
abbrev pub unit_updates : DecodedStruct → ℕ → List ℕ → List UpdateItem
unit_updates ds j [] = []
unit_updates ds j (u ∷ units) = unit_update ds j u ∷ unit_updates ds (suc j) units

pub split_units-append :
    (ds : DecodedStruct) (j : ℕ) (units : List ℕ) (items : List UpdateItem)
    → split_units ds j units items ≡ items ++ unit_updates ds j units
unfolding split_units
split_units-append ds j [] items = sym (append-nil items)
split_units-append ds j (u ∷ units) items =
    split_units-append ds (suc j) units (items ++ unit_update ds j u ∷ [])
    ∙ append_assoc items (unit_update ds j u ∷ []) (unit_updates ds (suc j) units)

-- The units that the structs and the items of an update carry.
abbrev pub struct_units : List DecodedStruct → List ℕ
struct_units [] = []
struct_units (ds ∷ structs) = (if ds.is_item then ds.content else []) ++ struct_units structs

abbrev pub update_units : List UpdateItem → List ℕ
update_units [] = []
update_units (ui ∷ items) = ui.content ++ update_units items

update_units-append :
    (xs ys : List UpdateItem) → update_units (xs ++ ys) ≡ update_units xs ++ update_units ys
update_units-append [] ys = refl
update_units-append (x ∷ xs) ys =
    ap (λ l. x.content ++ l) (update_units-append xs ys) ∙ sym (append_assoc x.content _ _)

update_units-unit_updates :
    (ds : DecodedStruct) (j : ℕ) (units : List ℕ) → update_units (unit_updates ds j units) ≡ units
unfolding unit_update
update_units-unit_updates ds j [] = refl
update_units-unit_updates ds j (u ∷ units) =
    ap (λ l. u ∷ l) (update_units-unit_updates ds (suc j) units)

split_loop-units :
    (structs : List DecodedStruct) (items : List UpdateItem)
    → update_units (split_loop structs items) ≡ update_units items ++ struct_units structs
unfolding split_loop
split_loop-units [] items = sym (append-nil (update_units items))
split_loop-units (ds ∷ structs) items = elim (Bool-cases ds.is_item) [
  | inl e ↦ rw e (
      split_loop-units structs (split_units ds 0 ds.content items)
      ∙ ap (λ l. update_units l ++ struct_units structs) (split_units-append ds 0 ds.content items)
      ∙ ap (λ l. l ++ struct_units structs)
          (update_units-append items (unit_updates ds 0 ds.content)
            ∙ ap (λ l. update_units items ++ l) (update_units-unit_updates ds 0 ds.content))
      ∙ append_assoc (update_units items) ds.content (struct_units structs))
  | inr e ↦ rw e (split_loop-units structs items)
]

-- splitStructs keeps the units of the item structs, in order, and drops the other structs.
pub split_structs-units :
    (structs : List DecodedStruct) → update_units (split_structs structs) ≡ struct_units structs
unfolding split_structs
split_structs-units structs = split_loop-units structs []
