-- ===== src/Split.antt =====
-- yjs/store.go: splitting a run, and resolving a decoded item's references.
pub mod Halves
pub mod Text
pub mod Order
pub mod Node
use cert_yjs.Base.{
  ℕ, suc, Option, none, some, List, ◌∷◌, ◌++◌, ◌==◌, ltb, add64, sub64, length, take, drop,
  if◌then◌else◌, Run, done, panic, ◌>>=◌,
}
use cert_yjs.Ident.{ItemId, new_id}
use cert_yjs.Item.{Ptr, Item, len}
use cert_yjs.Heap.{Heap, write_item, alloc_item, set_left?, set_right}
use cert_yjs.Store.{Store, get_node_index, nodes_of, set_nodes, get_node}

-- The right half of the item `n` (at the address `n`) split at `diff`.
unfoldable pub right_half : Heap → Ptr → ℕ → Item
right_half h n diff =
    let it = h.item_at n in
    record {
      id = new_id it.id.client_id (add64 it.id.clock diff);
      origin_left_id = some (new_id it.id.client_id (sub64 (add64 it.id.clock diff) 1));
      origin_right_id = it.origin_right_id;
      left = some n;
      right = it.right;
      parent = it.parent;
      content = drop diff it.content;
      flags = it.flags;
    }

-- splitItem: the address of the right half, and memory after the split. `units[diff:]` panics
-- where `diff` is past the end.
unfoldable pub split_item : Heap → Ptr → ℕ → Run (Ptr × Heap)
unfolding right_half alloc_item write_item set_left? set_right
split_item h n diff =
    let (right, h1) = alloc_item h (right_half h n diff) in
    let h2 =
      write_item h1 n (record (h1.item_at n) { content = take diff (h1.item_at n).content }) in
    let h3 = set_left? h2 (h2.item_at n).right (some right) in
    if ltb (len (h.item_at n)) diff then panic else done (right, set_right h3 n (some right))

-- The run list with the right half behind the index; `nodes[:index+1]` panics past the end.
unfoldable pub insert_after : List Ptr → ℕ → Ptr → Run (List Ptr)
insert_after nodes index right =
    if ltb (length nodes) (suc index)
    then panic
    else done (take (suc index) nodes ++ right ∷ drop (suc index) nodes)

-- store.splitNode: the address of the right half (the left half is `n` itself) and the store.
unfoldable pub split_node : Store → Ptr → ℕ → Run (Ptr × Store)
unfolding split_item insert_after set_nodes nodes_of get_node_index
split_node s n diff = do
  (right, h) ← split_item s.heap n diff
  let it = h.item_at n
  let nodes = nodes_of s it.id.client_id
  (index, _) ← get_node_index h nodes it.id.clock
  new_nodes ← insert_after nodes index right
  done (right, set_nodes (record s { heap = h }) it.id.client_id new_nodes)

-- store.splitAtAndGetLeft and splitAtAndGetRight: `none` is the answer (nil, false).
unfoldable pub split_at_and_get_left : Store → ItemId → Run (Option Ptr × Store)
unfolding get_node split_node
split_at_and_get_left s id = do
  node ← get_node s id
  elim node [
    | none ↦ done (none, s)
    | some n ↦
        let it = s.heap.item_at n in
        let offset = sub64 id.clock it.id.clock in
        if offset == sub64 (len it) 1
        then done (some n, s)
        else (do (_, s') ← split_node s n (add64 offset 1); done (some n, s'))
  ]

unfoldable pub split_at_and_get_right : Store → ItemId → Run (Option Ptr × Store)
unfolding get_node split_node
split_at_and_get_right s id = do
  node ← get_node s id
  elim node [
    | none ↦ done (none, s)
    | some n ↦
        let offset = sub64 id.clock (s.heap.item_at n).id.clock in
        if ltb 0 offset
        then (do (right, s') ← split_node s n offset; done (some right, s'))
        else done (some n, s)
  ]
