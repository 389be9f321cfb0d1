-- ===== src/Text.antt =====
-- yjs/text.go: the operations of a text, inside a transaction and as transactions of their own.
-- The locks are left out: each operation here is one critical section.
pub mod Place
pub mod Insert
pub mod Boundary
pub mod Erase
pub mod Delete
use cert_yjs.Base.{
  ℕ, zero, suc, Bool, true, false, Option, none, some, List, [], ◌∷◌, ◌++◌, ◌==◌, ltb, add64, sub64,
  length, if◌then◌else◌, Run, done, out_of_fuel, ◌>>=◌, deref, not,
}
use cert_yjs.Ident.{ItemId, new_id}
use cert_yjs.Item.{Ptr, TypePtr, Item, new_item, len, last_id, indexable}
use cert_yjs.Heap.{Heap, alloc_item}
use cert_yjs.YType
use cert_yjs.YType.{find_pos, SnapshotChar}
use cert_yjs.Store.{Callback, Store}
use cert_yjs.Split.{split_node}
use cert_yjs.Transaction
use cert_yjs.Transaction.{Transaction, Call, integrate, delete_node, transact}
use cert_yjs.Delta.{DeltaOp, insert_op}

-- The normalized position: `left` split at the offset, if there is one. The left half stays at
-- its address.
unfoldable pub normalize :
    Store → Option Ptr → Option Ptr → ℕ → Run (Option Ptr × Option Ptr × Store)
unfolding split_node
normalize s left right offset =
    if ltb 0 offset
    then (do l ← deref left; (r, s') ← split_node s l offset; done (some l, some r, s'))
    else done (left, right, s)

abbrev pub id_of : Heap → Option Ptr → Option ItemId
id_of h none = none
id_of h (some p) = some (h.item_at p).id

abbrev pub last_id_of : Heap → Option Ptr → Option ItemId
last_id_of h none = none
last_id_of h (some p) = some (last_id (h.item_at p))

-- The item that a round of InsertIn creates, linked to its neighbours.
unfoldable pub linked_item : Store → TypePtr → ℕ → (left right : Option Ptr) → Option ItemId → Item
unfolding new_item last_id
linked_item s t unit left right origin_right_id =
    record (new_item (new_id s.client s.clock) (unit ∷ []) (last_id_of s.heap left)
      origin_right_id) { left = left; right = right; parent = some t }

-- One round of InsertIn: the transaction and the new left neighbour.
unfoldable pub insert_unit :
    Transaction → TypePtr → ℕ → (left right : Option Ptr) → Option ItemId → Run (Ptr × Transaction)
unfolding linked_item alloc_item integrate
insert_unit tr t unit left right origin_right_id = do
  let s = tr.store
  let (it, h) = alloc_item s.heap (linked_item s t unit left right origin_right_id)
  let s' : Store = record s { heap = h; clock = add64 s.clock 1 }
  tr' ← integrate (record tr { store = s' }) (some t) it
  done (it, tr')

unfoldable pub insert_loop :
    Transaction → TypePtr → List ℕ → (left right : Option Ptr) → Option ItemId → Run Transaction
unfolding insert_unit
insert_loop tr t [] left right origin_right_id = done tr
insert_loop tr t (unit ∷ content) left right origin_right_id = do
  (it, tr') ← insert_unit tr t unit left right origin_right_id
  insert_loop tr' t content (some it) right origin_right_id

-- The two guards of InsertIn.
unfoldable pub refuses : Store → TypePtr → ℕ → List ℕ → Bool
refuses s t index content =
    if ltb (s.heap.type_at t).len index then true else ltb (add64 s.clock (length content)) s.clock

unfoldable pub insert_in : Transaction → TypePtr → ℕ → List ℕ → Run Transaction
unfolding refuses find_pos normalize insert_loop
insert_in tr t index content = if refuses tr.store t index content then done tr else (do
  (l, r, offset) ← find_pos tr.store.heap t index
  (left, right, s) ← normalize tr.store l r offset
  insert_loop (record tr { store = s }) t content left right (id_of s.heap right))

-- One round of DeleteIn at the item `n`: what remains, and the transaction.
unfoldable pub delete_step : Transaction → Ptr → ℕ → Run (ℕ × Transaction)
unfolding split_node delete_node
delete_step tr n remaining =
    let split : Run Store =
      if ltb remaining (len (tr.store.heap.item_at n))
      then (do (_, s') ← split_node tr.store n remaining; done s')
      else done tr.store in
    if indexable (tr.store.heap.item_at n)
    then (do
      s ← split
      tr' ← delete_node (record tr { store = s }) n
      done (sub64 remaining (len (tr'.store.heap.item_at n)), tr'))
    else done (remaining, tr)

-- Each round passes one item, and a round that splits is the last one.
unfoldable pub delete_loop : ℕ → Transaction → ℕ → Option Ptr → Run Transaction
unfolding delete_step
delete_loop zero tr remaining cur = out_of_fuel
delete_loop (suc k) tr remaining none = done tr
delete_loop (suc k) tr remaining (some n) =
    let round : Run Transaction = (do
      (remaining', tr') ← delete_step tr n remaining
      delete_loop k tr' remaining' (tr'.store.heap.item_at n).right) in
    if remaining == 0 then done tr else round

unfoldable pub delete_in : Transaction → TypePtr → ℕ → ℕ → Run Transaction
unfolding find_pos normalize delete_loop
delete_in tr t index length = do
  (l, r, offset) ← find_pos tr.store.heap t index
  (_, right, s) ← normalize tr.store l r offset
  delete_loop (suc (suc s.heap.next_item)) (record tr { store = s }) length right

-- The methods that are one transaction each, and the reads.
unfoldable pub insert : Store → TypePtr → ℕ → List ℕ → Run (Store × List Call)
unfolding insert_in transact
insert s t index content = transact s (λ tr. insert_in tr t index content)

unfoldable pub delete : Store → TypePtr → ℕ → ℕ → Run (Store × List Call)
unfolding delete_in transact
delete s t index length = transact s (λ tr. delete_in tr t index length)

unfoldable pub code_units : Store → TypePtr → Run (List ℕ)
unfolding YType.text
code_units s t = YType.text s.heap t

unfoldable pub code_units_in : Transaction → TypePtr → Run (List ℕ)
unfolding YType.text
code_units_in tr t = YType.text tr.store.heap t

unfoldable pub snapshot : Store → TypePtr → Run (List SnapshotChar)
unfolding YType.snapshot
snapshot s t = YType.snapshot s.heap t

unfoldable pub text_len : Store → TypePtr → ℕ
text_len s t = (s.heap.type_at t).len

-- Text.Observe: the store with the callback registered, and the call that tells it the text.
unfoldable pub initial_delta : List ℕ → List DeltaOp
initial_delta [] = []
initial_delta (u ∷ units) = insert_op (u ∷ units) ∷ []

unfoldable pub observe : Store → TypePtr → Callback → Run (Store × Call)
unfolding YType.text initial_delta
observe s t callback = do
  units ← YType.text s.heap t
  let observers = λ (u : TypePtr). if u == t then s.observers t ++ callback ∷ [] else s.observers u
  done (record s { observers = observers }, (callback, initial_delta units))
