-- ===== src/Transaction.antt =====
-- yjs/transaction.go: the record of one transaction, and the writes that go through it.
pub mod Pending
pub mod Pass
pub mod Drain
pub mod Deliver
pub mod Stops
use cert_yjs.Base.{
  ℕ, zero, suc, Bool, true, false, Option, none, some, List, [], ◌∷◌, ◌++◌, ◌==◌, ltb, add64, sub64,
  length, if◌then◌else◌, Run, done, out_of_fuel, ◌>>=◌, deref,
}
use cert_yjs.Ident.{Client, new_id}
use cert_yjs.Span.{IdSpan}
use cert_yjs.Item.{Ptr, TypePtr, Item, new_item, len}
use cert_yjs.Heap.{alloc_item}
use cert_yjs.Update.{UpdateItem, DeleteSpan}
use cert_yjs.Store.{Callback, Store, get_node, has_node, deps_arrived, contains_update_item_id}
use cert_yjs.Split.{split_at_and_get_left, split_at_and_get_right}
use cert_yjs.Integrate
use cert_yjs.Integrate.{repair}
use cert_yjs.Delta.{DeltaOp}
use cert_yjs.Diff.{text_delta}

-- `changed` lists the keys of the map, each once, in the order in which they came.
pub record Transaction : Type 0 where
  pub store : Store
  pub insert_set : List IdSpan
  pub delete_set : List IdSpan
  pub changed : List TypePtr

unfoldable pub new_transaction : Store → Transaction
new_transaction s = record { store = s; insert_set = []; delete_set = []; changed = [] }

unfoldable pub mark : List TypePtr → TypePtr → List TypePtr
mark [] t = t ∷ []
mark (u ∷ us) t = if u == t then u ∷ us else u ∷ mark us t

abbrev pub item_span : Item → IdSpan
item_span it = record { id = it.id; len = len it }

unfoldable pub record_insert : Transaction → TypePtr → Ptr → Transaction
unfolding mark
record_insert tr parent it = record tr {
  insert_set = tr.insert_set ++ item_span (tr.store.heap.item_at it) ∷ [];
  changed = mark tr.changed parent;
}

-- A nil parent as a key never arises: a node is tombstoned only through its parent.
unfoldable pub mark_parent : List TypePtr → Option TypePtr → List TypePtr
unfolding mark
mark_parent us none = us
mark_parent us (some t) = mark us t

unfoldable pub record_delete : Transaction → Ptr → Transaction
unfolding mark_parent
record_delete tr it = record tr {
  delete_set = tr.delete_set ++ item_span (tr.store.heap.item_at it) ∷ [];
  changed = mark_parent tr.changed (tr.store.heap.item_at it).parent;
}

unfoldable pub integrate : Transaction → Option TypePtr → Ptr → Run Transaction
unfolding Integrate.integrate record_insert
integrate tr parent item = do
  (p, s) ← Integrate.integrate tr.store parent item
  let tr' : Transaction = record tr { store = s }
  done (elim p [ none ↦ tr' | some t ↦ record_insert tr' t item ])

unfoldable pub delete_node : Transaction → Ptr → Run Transaction
unfolding Integrate.delete_node record_delete
delete_node tr it = do
  (live, h) ← Integrate.delete_node tr.store.heap it
  let tr' : Transaction = record tr { store = record (tr.store) { heap = h } }
  done (if live then record_delete tr' it else tr')

-- The clean end of a range inside the node at `n`: where the node goes on past `end` it is split
-- at the range's last clock. The answer is where the loop goes on.
unfoldable pub clean_end : Store → Client → Ptr → ℕ → Run (ℕ × Store)
unfolding split_at_and_get_left
clean_end s client n end =
    let next = add64 (s.heap.item_at n).id.clock (len (s.heap.item_at n)) in
    if ltb end next
    then (do (_, s') ← split_at_and_get_left s (new_id client (sub64 end 1)); done (end, s'))
    else done (next, s)

-- The round of deleteRange at an integrated clock; a lookup that has just succeeded finds the
-- node again.
unfoldable pub delete_at : Transaction → Client → ℕ → ℕ → Run (ℕ × Transaction)
unfolding split_at_and_get_right clean_end delete_node
delete_at tr client cur end = do
  (node, s1) ← split_at_and_get_right tr.store (new_id client cur)
  n ← deref node
  (next, s2) ← clean_end s1 client n end
  tr' ← delete_node (record tr { store = s2 }) n
  done (next, tr')

unfoldable pub delete_range_loop :
    ℕ → Transaction → Client → (cur end : ℕ) → Bool → Run (Bool × Transaction)
unfolding delete_at
delete_range_loop zero tr client cur end covered = out_of_fuel
delete_range_loop (suc k) tr client cur end covered =
    let round : Run (Bool × Transaction) = (do
      node ← get_node tr.store (new_id client cur)
      elim node [
        | none ↦ delete_range_loop k tr client (add64 cur 1) end false
        | some n ↦ do
          (next, tr') ← delete_at tr client cur end
          delete_range_loop k tr' client next end covered
      ]) in
    if ltb cur end then round else done (covered, tr)

-- Transaction.deleteRange. Each round passes one clock at least, so `length` rounds and one for
-- the test are enough.
unfoldable pub delete_range : Transaction → Client → ℕ → ℕ → Run (Bool × Transaction)
unfolding delete_range_loop
delete_range tr client clock length =
    delete_range_loop (suc length) tr client clock (add64 clock length) true

unfoldable pub delete_spans_loop :
    Transaction → List DeleteSpan → List DeleteSpan → Run (List DeleteSpan × Transaction)
unfolding delete_range
delete_spans_loop tr [] rest = done (rest, tr)
delete_spans_loop tr (sp ∷ all) rest = do
  (covered, tr') ← delete_range tr sp.client sp.clock sp.length
  delete_spans_loop tr' all (if covered then rest else rest ++ sp ∷ [])

unfoldable pub apply_delete_spans : Transaction → List DeleteSpan → Run Transaction
unfolding delete_spans_loop
apply_delete_spans tr spans = do
  let s = tr.store
  let start : Transaction = record tr { store = record s { pending_deletes = [] } }
  (rest, tr') ← delete_spans_loop start (s.pending_deletes ++ spans) []
  done (record tr' { store = record (tr'.store) { pending_deletes = rest } })

unfoldable pub integrate_decoded : Transaction → UpdateItem → Run Transaction
unfolding new_item alloc_item repair integrate
integrate_decoded tr ui = do
  let s = tr.store
  let (it, h) = alloc_item s.heap (new_item ui.id ui.content ui.origin_left_id ui.origin_right_id)
  s' ← repair (record s { heap = h }) it ui.parent_name
  integrate (record tr { store = s' }) none it

-- What a pass of applyUpdate does with one struct.
pub data Readiness : Type 0 where
  present ready waiting : Readiness

unfoldable pub readiness : Store → UpdateItem → Run Readiness
unfolding has_node deps_arrived
readiness s ui = do
  known ← has_node s ui.id
  elim known [
    | true ↦ done Readiness.present
    | false ↦ do
      arrived ← deps_arrived s ui
      done (if arrived then Readiness.ready else Readiness.waiting)
  ]

unfoldable pub requeue : List UpdateItem → UpdateItem → List UpdateItem
unfolding contains_update_item_id
requeue rest ui = if contains_update_item_id rest ui.id then rest else rest ++ ui ∷ []

-- One pass over the pending structs: whether it integrated any, those that are left, and the
-- transaction.
unfoldable pub pass :
    Transaction
    → List UpdateItem
    → Bool
    → List UpdateItem
    → Run (Bool × List UpdateItem × Transaction)
unfolding readiness requeue integrate_decoded
pass tr [] progress rest = done (progress, rest, tr)
pass tr (ui ∷ pending) progress rest = do
  r ← readiness tr.store ui
  elim r [
    | present ↦ pass tr pending progress rest
    | ready ↦ do tr' ← integrate_decoded tr ui; pass tr' pending true rest
    | waiting ↦ pass tr pending progress (requeue rest ui)
  ]

unfoldable pub drain : ℕ → Transaction → List UpdateItem → Run (List UpdateItem × Transaction)
unfolding pass
drain zero tr pending = out_of_fuel
drain (suc k) tr pending = do
  (progress, rest, tr') ← pass tr pending false []
  elim progress [ true ↦ drain k tr' rest | false ↦ done (rest, tr') ]

-- Transaction.applyUpdate. A pass that makes progress leaves fewer structs.
unfoldable pub apply_update : Transaction → List UpdateItem → Run Transaction
unfolding drain
apply_update tr structs = do
  let s = tr.store
  let pending = s.pending ++ structs
  let start : Transaction = record tr { store = record s { pending = [] } }
  (rest, tr') ← drain (suc (length pending)) start pending
  done (record tr' { store = record (tr'.store) { pending = rest } })

-- A call of a callback, with the delta that it gets.
abbrev pub Call : Type 0
Call = Callback × List DeltaOp

unfoldable pub call_all : List Callback → List DeltaOp → List Call
call_all [] delta = []
call_all (c ∷ callbacks) delta = (c, delta) ∷ call_all callbacks delta

unfoldable pub is_empty : List Callback → Bool
is_empty [] = true
is_empty (c ∷ cs) = false

-- The calls for one changed type.
unfoldable pub notify_type : Transaction → TypePtr → Run (List Call)
unfolding call_all is_empty text_delta
notify_type tr t =
    let callbacks = tr.store.observers t in
    if is_empty callbacks then done [] else (do
      delta ← text_delta tr.store.heap t tr.insert_set tr.delete_set
      done (call_all callbacks delta))

-- The loop over `changed`. Go visits the keys in no particular order; here it is the order in
-- which the types were written first.
unfoldable pub notify_loop : Transaction → List TypePtr → List Call → Run (List Call)
unfolding notify_type
notify_loop tr [] calls = done calls
notify_loop tr (t ∷ ts) calls = do more ← notify_type tr t; notify_loop tr ts (calls ++ more)

unfoldable pub notify : Transaction → Run (List Call)
unfolding notify_loop
notify tr = notify_loop tr tr.changed []

-- transact, without the lock: the store afterwards and the calls that were made.
unfoldable pub transact : Store → (Transaction → Run Transaction) → Run (Store × List Call)
unfolding notify new_transaction
transact s f = do tr ← f (new_transaction s); calls ← notify tr; done (tr.store, calls)
