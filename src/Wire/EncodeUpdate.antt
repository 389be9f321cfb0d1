-- ===== src/Wire/EncodeUpdate.antt =====
-- yjs/codec.go: EncodeUpdate, which writes the whole document, and generateDeleteSet.
-- Go visits the root types in no particular order; here it is the order of the registry. The
-- maps' keys come sorted, so their order does not show.
use cert_yjs.Base.{
  ℕ, zero, suc, ◌==◌, ltb, Bool, Option, none, some, List, [], ◌∷◌, ◌++◌, length, if◌then◌else◌,
  Run, done, out_of_fuel, ◌>>=◌, deref,
}
use cert_yjs.Ident.{Client, ItemId, equal}
use cert_yjs.Span.{DeletedSet, add_range}
use cert_yjs.Item.{Ptr, TypePtr, len, deleted}
use cert_yjs.Heap.{Heap}
use cert_yjs.Update.{GoString}
use cert_yjs.Store.{Store}
use cert_yjs.Wire.{Encoder, write_var_uint}
use cert_yjs.Wire.Encode.{first, join_runs, encode_run, encode_order_range}

-- The two maps that EncodeUpdate fills; `by_client` lists its entries in the order of their keys'
-- first write.
pub record Gathered : Type 0 where
  pub name : ItemId → GoString
  pub by_client : List (Client × List Ptr)

unfoldable pub append_to : Client → Ptr → List (Client × List Ptr) → List (Client × List Ptr)
append_to c p [] = (c, p ∷ []) ∷ []
append_to c p ((d, ps) ∷ rest) =
    let more = append_to c p rest in if d == c then (d, ps ++ p ∷ []) ∷ rest else (d, ps) ∷ more

unfoldable pub gather_item : Heap → GoString → Ptr → Gathered → Gathered
unfolding append_to equal
gather_item h nm p g = record {
  name = λ (i : ItemId). if equal i (h.item_at p).id then nm else g.name i;
  by_client = append_to (h.item_at p).id.client_id p g.by_client;
}

-- The walk along one root type: a list has no more items than memory.
unfoldable pub gather_list : ℕ → Heap → GoString → Option Ptr → Gathered → Run Gathered
unfolding gather_item
gather_list zero h nm cur g = out_of_fuel
gather_list (suc k) h nm none g = done g
gather_list (suc k) h nm (some p) g = gather_list k h nm (h.item_at p).right (gather_item h nm p g)

unfoldable pub gather : Heap → List (GoString × TypePtr) → Gathered → Run Gathered
unfolding gather_list
gather h [] g = done g
gather h ((nm, y) ∷ types) g = do
  g' ← gather_list (suc h.next_item) h nm (h.type_at y).start g
  gather h types g'

-- sort.Slice, which leaves the order of equal keys open; here they keep their order.
unfoldable pub insert_sorted {ℓ} : {A : Type ℓ} → (A → A → Bool) → A → List A → List A
insert_sorted less x [] = x ∷ []
insert_sorted less x (y ∷ ys) =
    let rest = insert_sorted less x ys in if less y x then y ∷ rest else x ∷ y ∷ ys

unfoldable pub sort_slice {ℓ} : {A : Type ℓ} → (A → A → Bool) → List A → List A
unfolding insert_sorted
sort_slice less [] = []
sort_slice less (x ∷ xs) = insert_sorted less x (sort_slice less xs)

unfoldable pub clock_less : Heap → Ptr → Ptr → Bool
clock_less h p q = ltb (h.item_at p).id.clock (h.item_at q).id.clock

unfoldable pub sort_runs : Heap → List (Client × List Ptr) → List (Client × List Ptr)
unfolding sort_slice clock_less
sort_runs h [] = []
sort_runs h ((c, items) ∷ rest) = (c, sort_slice (clock_less h) items) ∷ sort_runs h rest

-- sortedClientsDesc, on the keys of its map.
unfoldable pub sorted_clients_desc : List Client → List Client
unfolding sort_slice
sorted_clients_desc cs = sort_slice (λ a b. ltb b a) cs

unfoldable pub keys_of : List (Client × List Ptr) → List Client
keys_of [] = []
keys_of ((c, items) ∷ rest) = c ∷ keys_of rest

unfoldable pub items_of : Client → List (Client × List Ptr) → List Ptr
items_of c [] = []
items_of c ((d, items) ∷ rest) = if d == c then items else items_of c rest

-- generateDeleteSet: the keys of the set, in the order of their first write, and the set.
unfoldable pub add_key : Client → List Client → List Client
add_key c [] = c ∷ []
add_key c (d ∷ ds) = if d == c then d ∷ ds else d ∷ add_key c ds

unfoldable pub delete_set_list :
    ℕ → Heap → Option Ptr → List Client × DeletedSet → Run (List Client × DeletedSet)
unfolding add_range len deleted add_key
delete_set_list zero h cur acc = out_of_fuel
delete_set_list (suc k) h none acc = done acc
delete_set_list (suc k) h (some p) (keys, ds) =
    let it = h.item_at p in
    delete_set_list k h it.right (
      if deleted it
      then (add_key it.id.client_id keys, add_range ds it.id (len it))
      else (keys, ds))

unfoldable pub delete_set_types :
    Heap → List (GoString × TypePtr) → List Client × DeletedSet → Run (List Client × DeletedSet)
unfolding delete_set_list
delete_set_types h [] acc = done acc
delete_set_types h ((nm, y) ∷ types) acc = do
  acc' ← delete_set_list (suc h.next_item) h (h.type_at y).start acc
  delete_set_types h types acc'

unfoldable pub generate_delete_set : Store → Run (List Client × DeletedSet)
unfolding delete_set_types
generate_delete_set s = delete_set_types s.heap s.types ([], λ c. none)

-- A map lookup of a key that is there.
unfoldable pub write_deleted : Encoder → DeletedSet → List Client → Run Encoder
unfolding write_var_uint encode_order_range
write_deleted e ds [] = done e
write_deleted e ds (client ∷ clients) = do
  e1 ← write_var_uint e client
  r ← deref (ds client)
  e2 ← encode_order_range e1 r
  write_deleted e2 ds clients

module _ (encode_wire_string : List ℕ → GoString) where
  unfoldable pub write_runs :
      Heap → (name : ItemId → GoString) → Encoder → List (List Ptr) → Run Encoder
  unfolding encode_run
  write_runs h name e [] = done e
  write_runs h name e (run ∷ runs) = do
    e' ← encode_run encode_wire_string h name e run
    write_runs h name e' runs

  -- The structs of one client.
  unfoldable pub write_client : Heap → Gathered → Encoder → Client → Run Encoder
  unfolding join_runs items_of write_runs write_var_uint
  write_client h g e client = do
    let runs = join_runs h (items_of client g.by_client)
    e1 ← write_var_uint e (length runs)
    e2 ← write_var_uint e1 client
    run ← deref (elim runs [ [] ↦ none | run ∷ rest ↦ some run ])
    p ← deref (first run)
    e3 ← write_var_uint e2 (h.item_at p).id.clock
    write_runs h g.name e3 runs

  unfoldable pub write_clients : Heap → Gathered → Encoder → List Client → Run Encoder
  unfolding write_client
  write_clients h g e [] = done e
  write_clients h g e (client ∷ clients) = do
    e' ← write_client h g e client
    write_clients h g e' clients

  unfoldable pub encode_update : Store → Run (List ℕ)
  unfolding gather sort_runs sorted_clients_desc keys_of write_clients generate_delete_set
      write_deleted
  encode_update s = do
    found ← gather s.heap s.types (record { name = λ (i : ItemId). []; by_client = [] })
    let g : Gathered = record found { by_client = sort_runs s.heap found.by_client }
    let clients = sorted_clients_desc (keys_of g.by_client)
    e1 ← write_var_uint [] (length clients)
    e2 ← write_clients s.heap g e1 clients
    (deleted_keys, ds) ← generate_delete_set s
    e3 ← write_var_uint e2 (length deleted_keys)
    write_deleted e3 ds (sorted_clients_desc deleted_keys)
