-- ===== src/Wire/Gather.antt =====
-- What EncodeUpdate and generateDeleteSet gather from the lists of the root types.
use cert_yjs.Base.{
  ℕ, zero, suc, ◌<◌, ◌==◌, ◌≡◌, refl, ap, ◌∙◌, Bool, Option, none, some, List, [], ◌∷◌, ◌++◌, All,
  length, add64, if◌then◌else◌, arith, Bool-cases, inl, inr, done, ◌>>=◌, ==_refl,
}
use cert_yjs.Ident.{Client, ItemId}
use cert_yjs.Span.{OrderRange, DeletedSet, add_range, clock_span, with_fragment}
use cert_yjs.Item.{Ptr, TypePtr, len, deleted}
use cert_yjs.Heap.{Heap}
use cert_yjs.Update.{GoString}
use cert_yjs.Store.{Store}
use cert_yjs.YType.Distinct.{All-weaken}
use cert_yjs.YType.Chain.{Linked, IsList}
use cert_yjs.Wire.EncodeUpdate.{
  Gathered, append_to, gather_item, gather_list, gather, insert_sorted, sort_slice, clock_less,
  sort_runs, keys_of, items_of, add_key, delete_set_list, delete_set_types, generate_delete_set,
}

-- Where each root type's list is.
abbrev pub Lists : Heap → (TypePtr → List Ptr) → List (GoString × TypePtr) → Type 0
Lists h list_of types = All (λ e. IsList h e.1 (list_of e.1)) types

abbrev pub gather_items : Heap → GoString → List Ptr → Gathered → Gathered
gather_items h nm [] g = g
gather_items h nm (p ∷ ps) g = gather_items h nm ps (gather_item h nm p g)

abbrev pub gathered : Heap → (TypePtr → List Ptr) → List (GoString × TypePtr) → Gathered → Gathered
gathered h list_of [] g = g
gathered h list_of ((nm, y) ∷ types) g = gathered h list_of types (gather_items h nm (list_of y) g)

gather_list-items :
    (k : ℕ) (h : Heap) (nm : GoString) (prev cur : Option Ptr) (ps : List Ptr) (g : Gathered)
    → Linked h prev cur ps
    → length ps < k
    → gather_list k h nm cur g ≡ done (gather_items h nm ps g)
unfolding gather_list
gather_list-items zero h nm prev cur ps g l b = absurd (omega arith)
gather_list-items (suc k) h nm prev cur [] g l b = rw l
gather_list-items (suc k) h nm prev cur (p ∷ ps) g (e, _, l) b =
    rw e (gather_list-items k h nm (some p) _ ps (gather_item h nm p g) l (omega arith))

pub gather_lem :
    (h : Heap) (list_of : TypePtr → List Ptr) (types : List (GoString × TypePtr)) (g : Gathered)
    → Lists h list_of types
    → gather h types g ≡ done (gathered h list_of types g)
unfolding gather
gather_lem h list_of [] g a = refl
gather_lem h list_of ((nm, y) ∷ types) g (l, a) =
    ap (λ m. m >>= gather h types)
      (gather_list-items (suc h.next_item) h nm none _ (list_of y) g l.chain
        (omega (arith, l.fits)))
    ∙ gather_lem h list_of types (gather_items h nm (list_of y) g) a

-- Every client that is gathered has an item.
abbrev pub HasItem : List Ptr → Type 0
HasItem [] = ⊥
HasItem (p ∷ ps) = Unit

abbrev pub Filled : List (Client × List Ptr) → Type 0
Filled l = All (λ e. HasItem e.1) l

HasItem-snoc : (ps : List Ptr) (p : Ptr) → HasItem (ps ++ p ∷ [])
HasItem-snoc [] p = tt
HasItem-snoc (q ∷ ps) p = tt

append_to-Filled :
    (c : Client) (p : Ptr) (l : List (Client × List Ptr)) → Filled l → Filled (append_to c p l)
unfolding append_to
append_to-Filled c p [] a = (tt, tt)
append_to-Filled c p ((d, ps) ∷ l) (x, a) = elim (Bool-cases (d == c)) [
  | inl e ↦ rw e (HasItem-snoc ps p, a)
  | inr e ↦ rw e (x, append_to-Filled c p l a)
]

gather_items-Filled :
    (h : Heap) (nm : GoString) (ps : List Ptr) (g : Gathered)
    → Filled g.by_client
    → Filled (gather_items h nm ps g).by_client
unfolding gather_item
gather_items-Filled h nm [] g a = a
gather_items-Filled h nm (p ∷ ps) g a =
    gather_items-Filled h nm ps (gather_item h nm p g) (append_to-Filled _ p g.by_client a)

pub gathered-Filled :
    (h : Heap) (list_of : TypePtr → List Ptr) (types : List (GoString × TypePtr)) (g : Gathered)
    → Filled g.by_client
    → Filled (gathered h list_of types g).by_client
gathered-Filled h list_of [] g a = a
gathered-Filled h list_of ((nm, y) ∷ types) g a =
    gathered-Filled h list_of types _ (gather_items-Filled h nm (list_of y) g a)

HasItem-insert_sorted :
    (less : Ptr → Ptr → Bool) (p : Ptr) (ps : List Ptr) → HasItem (insert_sorted less p ps)
unfolding insert_sorted
HasItem-insert_sorted less p [] = tt
HasItem-insert_sorted less p (q ∷ ps) = elim (Bool-cases (less q p)) [
  | inl e ↦ rw e tt
  | inr e ↦ rw e tt
]

HasItem-sort_slice :
    (less : Ptr → Ptr → Bool) (ps : List Ptr) → HasItem ps → HasItem (sort_slice less ps)
unfolding sort_slice
HasItem-sort_slice less [] x = x
HasItem-sort_slice less (p ∷ ps) x = HasItem-insert_sorted less p (sort_slice less ps)

pub sort_runs-Filled : (h : Heap) (l : List (Client × List Ptr)) → Filled l → Filled (sort_runs h l)
unfolding sort_runs
sort_runs-Filled h [] a = tt
sort_runs-Filled h ((c, items) ∷ l) (x, a) =
    (HasItem-sort_slice (clock_less h) items x, sort_runs-Filled h l a)

items_of-first :
    (d : Client) (items : List Ptr) (l : List (Client × List Ptr))
    → HasItem items
    → HasItem (items_of d ((d, items) ∷ l))
unfolding items_of
items_of-first d items l x = rw (==_refl d) x

items_of-later :
    (c d : Client) (items : List Ptr) (l : List (Client × List Ptr))
    → HasItem items
    → HasItem (items_of c l)
    → HasItem (items_of c ((d, items) ∷ l))
unfolding items_of
items_of-later c d items l x y = elim (Bool-cases (d == c)) [ inl e ↦ rw e x | inr e ↦ rw e y ]

pub items_of-HasItem :
    (l : List (Client × List Ptr)) → Filled l → All (λ c. HasItem (items_of c l)) (keys_of l)
unfolding keys_of
items_of-HasItem [] a = tt
items_of-HasItem ((d, items) ∷ l) (x, a) = (
  items_of-first d items l x,
  All-weaken _ _ (keys_of l) (λ c y. items_of-later c d items l x y) (items_of-HasItem l a),
)

-- Sorting keeps what holds of all.
All-insert_sorted {ℓ} :
    {A : Type ℓ} (P : A → Type 0) (less : A → A → Bool) (x : A) (xs : List A)
    → P x
    → All P xs
    → All P (insert_sorted less x xs)
unfolding insert_sorted
All-insert_sorted P less x [] px a = (px, tt)
All-insert_sorted P less x (y ∷ ys) px (py, a) = elim (Bool-cases (less y x)) [
  | inl e ↦ rw e (py, All-insert_sorted P less x ys px a)
  | inr e ↦ rw e (px, (py, a))
]

pub All-sort_slice {ℓ} :
    {A : Type ℓ} (P : A → Type 0) (less : A → A → Bool) (xs : List A)
    → All P xs
    → All P (sort_slice less xs)
unfolding sort_slice
All-sort_slice P less [] a = tt
All-sort_slice P less (x ∷ xs) (px, a) =
    All-insert_sorted P less x (sort_slice less xs) px (All-sort_slice P less xs a)

-- The delete set of the tombstones in some lists.
abbrev pub delete_item : Heap → Ptr → List Client × DeletedSet → List Client × DeletedSet
delete_item h p (keys, ds) =
    let it = h.item_at p in
    if deleted it then (add_key it.id.client_id keys, add_range ds it.id (len it)) else (keys, ds)

abbrev pub delete_items : Heap → List Ptr → List Client × DeletedSet → List Client × DeletedSet
delete_items h [] acc = acc
delete_items h (p ∷ ps) acc = delete_items h ps (delete_item h p acc)

abbrev pub delete_roots :
    Heap
    → (TypePtr → List Ptr)
    → List (GoString × TypePtr)
    → List Client × DeletedSet
    → List Client × DeletedSet
delete_roots h list_of [] acc = acc
delete_roots h list_of ((nm, y) ∷ types) acc =
    delete_roots h list_of types (delete_items h (list_of y) acc)

delete_set_list-items :
    (k : ℕ) (h : Heap) (prev cur : Option Ptr) (ps : List Ptr) (acc : List Client × DeletedSet)
    → Linked h prev cur ps
    → length ps < k
    → delete_set_list k h cur acc ≡ done (delete_items h ps acc)
unfolding delete_set_list
delete_set_list-items zero h prev cur ps acc l b = absurd (omega arith)
delete_set_list-items (suc k) h prev cur [] acc l b = rw l
delete_set_list-items (suc k) h prev cur (p ∷ ps) acc (e, _, l) b =
    rw e (delete_set_list-items k h (some p) _ ps (delete_item h p acc) l (omega arith))

delete_set_types-roots :
    (h : Heap) (list_of : TypePtr → List Ptr) (types : List (GoString × TypePtr))
    (acc : List Client × DeletedSet)
    → Lists h list_of types
    → delete_set_types h types acc ≡ done (delete_roots h list_of types acc)
unfolding delete_set_types
delete_set_types-roots h list_of [] acc a = refl
delete_set_types-roots h list_of ((nm, y) ∷ types) acc (l, a) =
    ap (λ m. m >>= delete_set_types h types)
      (delete_set_list-items (suc h.next_item) h none _ (list_of y) acc l.chain
        (omega (arith, l.fits)))
    ∙ delete_set_types-roots h list_of types (delete_items h (list_of y) acc) a

abbrev pub no_deletes : List Client × DeletedSet
no_deletes = ([], λ c. none)

pub generate_delete_set_lem :
    (s : Store) (list_of : TypePtr → List Ptr)
    → Lists s.heap list_of s.types
    → generate_delete_set s ≡ done (delete_roots s.heap list_of s.types no_deletes)
unfolding generate_delete_set
generate_delete_set_lem s list_of a = delete_set_types-roots s.heap list_of s.types no_deletes a

-- The set holds something for each of its keys.
abbrev pub Keyed : List Client × DeletedSet → Type 0
Keyed (keys, ds) = All (λ c. (r : OrderRange) × (ds c ≡ some r)) keys

add_range-key :
    (ds : DeletedSet) (i : ItemId) (n : ℕ) (c : Client)
    → (r : OrderRange) × (ds c ≡ some r)
    → (r : OrderRange) × (add_range ds i n c ≡ some r)
unfolding add_range
add_range-key ds i n c (r, e) = elim (Bool-cases (c == i.client_id)) [
  | inl same ↦ (with_fragment (ds i.client_id) (clock_span i.clock (add64 i.clock n)), rw same refl)
  | inr other ↦ (r, rw other e)
]

add_range-own :
    (ds : DeletedSet) (i : ItemId) (n : ℕ)
    → (r : OrderRange) × (add_range ds i n i.client_id ≡ some r)
unfolding add_range
add_range-own ds i n = (
  with_fragment (ds i.client_id) (clock_span i.clock (add64 i.clock n)),
  rw (==_refl i.client_id) refl,
)

All-add_key :
    (P : Client → Type 0) (c : Client) (cs : List Client) → P c → All P cs → All P (add_key c cs)
unfolding add_key
All-add_key P c [] p a = (p, tt)
All-add_key P c (d ∷ cs) p (q, a) = elim (Bool-cases (d == c)) [
  | inl e ↦ rw e (q, a)
  | inr e ↦ rw e (q, All-add_key P c cs p a)
]

delete_item-Keyed :
    (h : Heap) (p : Ptr) (keys : List Client) (ds : DeletedSet)
    → Keyed (keys, ds)
    → Keyed (delete_item h p (keys, ds))
delete_item-Keyed h p keys ds k =
    let it = h.item_at p in
    elim (Bool-cases (deleted it)) [
      | inl e ↦ rw e (
          All-add_key _ it.id.client_id keys (add_range-own ds it.id (len it))
            (All-weaken _ _ keys (λ c x. add_range-key ds it.id (len it) c x) k))
      | inr e ↦ rw e k
    ]

delete_items-Keyed :
    (h : Heap) (ps : List Ptr) (acc : List Client × DeletedSet)
    → Keyed acc
    → Keyed (delete_items h ps acc)
delete_items-Keyed h [] acc k = k
delete_items-Keyed h (p ∷ ps) (keys, ds) k =
    delete_items-Keyed h ps (delete_item h p (keys, ds)) (delete_item-Keyed h p keys ds k)

pub delete_roots-Keyed :
    (h : Heap) (list_of : TypePtr → List Ptr) (types : List (GoString × TypePtr))
    (acc : List Client × DeletedSet)
    → Keyed acc
    → Keyed (delete_roots h list_of types acc)
delete_roots-Keyed h list_of [] acc k = k
delete_roots-Keyed h list_of ((nm, y) ∷ types) acc k =
    delete_roots-Keyed h list_of types (delete_items h (list_of y) acc)
      (delete_items-Keyed h (list_of y) acc k)
