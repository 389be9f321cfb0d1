-- ===== src/Store.antt =====
-- yjs/store.go: the struct store, and finding items in its run lists.
pub mod Index
use cert_yjs.Base.{
  ℕ, zero, suc, ◌+◌, ◌-◌, ◌/◌, Bool, true, false, Option, none, some, List, [], ◌∷◌, ◌++◌, ◌&&◌,
  ◌==◌, ltb, leb, add64, sub64, length, get_elem?, if◌then◌else◌, Run, done, out_of_fuel, ◌>>=◌,
  deref, not,
}
use cert_yjs.Ident.{Client, Clock, ItemId, new_id, equal}
use cert_yjs.Span.{DeletedSet}
use cert_yjs.Item.{Ptr, TypePtr, Item, len}
use cert_yjs.Heap.{Heap, YType, alloc_type}
use cert_yjs.YType.{new_y_type}
use cert_yjs.Update.{GoString, UpdateItem, DeleteSpan}

-- A registered callback is known by a number.
abbrev pub Callback : Type 0
Callback = ℕ

-- The struct `store` with the memory that its pointers reach.
pub record Store : Type 0 where
  pub heap : Heap
  pub client : Client
  pub clock : Clock
  pub items : Client → Option (List Ptr)
  pub types : List (GoString × TypePtr)
  pub deleted_set : DeletedSet
  pub pending : List UpdateItem
  pub pending_deletes : List DeleteSpan
  pub observers : TypePtr → List Callback

unfoldable pub new_store : Heap → Client → Store
new_store h client = record {
  heap = h;
  client = client;
  clock = 0;
  items = λ c. none;
  types = [];
  deleted_set = λ c. none;
  pending = [];
  pending_deletes = [];
  observers = λ t. [];
}

unfoldable pub string_equal : GoString → GoString → Bool
string_equal [] [] = true
string_equal [] (b ∷ bs) = false
string_equal (a ∷ s) [] = false
string_equal (a ∷ s) (b ∷ bs) = a == b && string_equal s bs

unfoldable pub lookup_type : GoString → List (GoString × TypePtr) → Option TypePtr
unfolding string_equal
lookup_type name [] = none
lookup_type name ((n, t) ∷ types) = if string_equal n name then some t else lookup_type name types

-- What the registry answers, and the store after a type is registered under a new name.
unfoldable pub register : Store → GoString → Option TypePtr → TypePtr × Store
register s name (some y) = (y, s)
register s name none =
    let (y, h) = alloc_type s.heap new_y_type in
    (y, record s { heap = h; types = (name, y) ∷ s.types })

unfoldable pub get_or_create_y_type : Store → GoString → TypePtr × Store
unfolding register lookup_type alloc_type new_y_type
get_or_create_y_type s name = register s name (lookup_type name s.types)

-- Where the clock lies: before the node, behind it, or within.
pub data Side : Type 0 where
  before after within : Side

unfoldable pub side : Item → ℕ → Side
side it clock =
    if ltb clock it.id.clock
    then before
    else if leb (add64 it.id.clock (len it)) clock
    then after
    else within

-- The binary search. The fuel is one more than the length of the list, which bounds the rounds.
unfoldable pub search_nodes : ℕ → Heap → List Ptr → ℕ → ℕ → ℕ → Run (ℕ × Bool)
unfolding side
search_nodes zero h nodes clock left right = out_of_fuel
search_nodes (suc k) h nodes clock left right =
    let middle = add64 left (sub64 right left / 2) in
    let round : Run (ℕ × Bool) = (do
      p ← deref (get_elem? nodes middle)
      elim (side (h.item_at p) clock) [
        | before ↦ search_nodes k h nodes clock left middle
        | after ↦ search_nodes k h nodes clock (add64 middle 1) right
        | within ↦ done (middle, true)
      ]) in
    if ltb left right then round else done (0, false)

unfoldable pub get_node_index : Heap → List Ptr → ℕ → Run (ℕ × Bool)
unfolding search_nodes
get_node_index h nodes clock = search_nodes (suc (length nodes)) h nodes clock 0 (length nodes)

-- `s.items[client]`, nil where the key is missing.
unfoldable pub nodes_of : Store → Client → List Ptr
nodes_of s client = elim (s.items client) [ none ↦ [] | some nodes ↦ nodes ]

-- store.GetNode: `none` is the answer (nil, false).
unfoldable pub get_node : Store → ItemId → Run (Option Ptr)
unfolding get_node_index
get_node s id = elim (s.items id.client_id) [
  | none ↦ done none
  | some nodes ↦ do
    (index, found) ← get_node_index s.heap nodes id.clock
    if found then (do p ← deref (get_elem? nodes index); done (some p)) else done none
]

unfoldable pub set_nodes : Store → Client → List Ptr → Store
set_nodes s client nodes = record s { items = λ c. if c == client then some nodes else s.items c }

unfoldable pub add_node : Store → Ptr → Store
unfolding set_nodes nodes_of
add_node s it =
    let client = (s.heap.item_at it).id.client_id in
    set_nodes s client (nodes_of s client ++ it ∷ [])

abbrev pub is_found : Option Ptr → Bool
is_found none = false
is_found (some p) = true

unfoldable pub has_node : Store → ItemId → Run Bool
unfolding get_node
has_node s id = do node ← get_node s id; done (is_found node)

unfoldable pub contains_update_item_id : List UpdateItem → ItemId → Bool
unfolding equal
contains_update_item_id [] id = false
contains_update_item_id (ui ∷ items) id =
    if equal ui.id id then true else contains_update_item_id items id

unfoldable pub origin_arrived : Store → Option ItemId → Run Bool
unfolding has_node
origin_arrived s none = done true
origin_arrived s (some p) = has_node s p

-- The predecessor's test, made only for a clock above 0.
unfoldable pub predecessor_arrived : Store → ItemId → Run Bool
unfolding has_node
predecessor_arrived s id =
    if ltb 0 id.clock then has_node s (new_id id.client_id (sub64 id.clock 1)) else done true

unfoldable pub deps_arrived : Store → UpdateItem → Run Bool
unfolding origin_arrived predecessor_arrived
deps_arrived s ui = do
  l ← origin_arrived s ui.origin_left_id
  elim l [
    | true ↦ do
      r ← origin_arrived s ui.origin_right_id
      if r then predecessor_arrived s ui.id else done false
    | false ↦ done false
  ]
