-- ===== src/Text/Insert.antt =====
-- The loop of InsertIn: each round puts one unit behind the units that it has put before.
use cert_yjs.Base.{
  ℕ, suc, ◌+◌, ◌<◌, ◌≡◌, refl, ap, sym, ◌∙◌, Option, none, some, List, [], ◌∷◌, ◌++◌, append_assoc,
  length, length-append, u64_mod, add64, arith, done, ◌>>=◌,
}
use cert_yjs.Ident.{ItemId}
use cert_yjs.Item.{Ptr, TypePtr, Item, countable, deleted}
use cert_yjs.Heap.{Heap, alloc_item}
use cert_yjs.YType.Chain.{visible}
use cert_yjs.YType.Links.{head_or, last_or}
use cert_yjs.YType.Distinct.{All-left, All-right}
use cert_yjs.YType.Same.{visible-SameData, visible-append, All-every}
use cert_yjs.YType.Valid.{
  IsText, IsText-alloc_item, alloc_item_at, alloc_item-Fresh, visible-alloc_item,
}
use cert_yjs.Store.{Store, add_node}
use cert_yjs.Integrate
use cert_yjs.Integrate.{integrate_core}
use cert_yjs.Integrate.Place.{after, after-IsText, after-SameData}
use cert_yjs.Integrate.Local.{Between, integrate_core-after}
use cert_yjs.Integrate.Connect.{last_or-snoc}
use cert_yjs.Transaction
use cert_yjs.Transaction.{Transaction, record_insert}
use cert_yjs.Text.{linked_item, insert_unit, insert_loop}

-- A write that integrates the item at `n`, once its place has been found.
abbrev integrated : Transaction → TypePtr → Ptr → Heap → Transaction
integrated tr t n g =
    record_insert (record tr { store = add_node (record (tr.store) { heap = g }) n }) t n

store_integrate_lem :
    (s : Store) (t : TypePtr) (n : Ptr)
    → Integrate.integrate s (some t) n
      ≡ (integrate_core s.heap t n >>= λ h. done (some t, add_node (record s { heap = h }) n))
unfolding Integrate.integrate
store_integrate_lem s t n = refl

abbrev recorded : Transaction → Ptr → Option TypePtr × Store → Transaction
recorded tr n (p, s) = elim p [
  | none ↦ record tr { store = s }
  | some t ↦ record_insert (record tr { store = s }) t n
]

integrate_unfolded :
    (tr : Transaction) (t : TypePtr) (n : Ptr)
    → Transaction.integrate tr (some t) n
      ≡ (Integrate.integrate tr.store (some t) n >>= λ out. done (recorded tr n out))
unfolding Transaction.integrate
integrate_unfolded tr t n = refl

integrate_lem :
    (tr : Transaction) (t : TypePtr) (n : Ptr) (g : Heap)
    → integrate_core tr.store.heap t n ≡ done g
    → Transaction.integrate tr (some t) n ≡ done (integrated tr t n g)
integrate_lem tr t n g e = integrate_unfolded tr t n ∙ rw (store_integrate_lem tr.store t n, e)

-- The transaction in front of the call of integrate: the item allocated, the clock advanced.
abbrev allocated :
    Transaction → TypePtr → ℕ → (left right : Option Ptr) → Option ItemId → Transaction
allocated tr t u left right origin = record tr {
  store = record (tr.store) {
    heap = (alloc_item tr.store.heap (linked_item tr.store t u left right origin)).1;
    clock = add64 tr.store.clock 1;
  };
}

insert_unit_lem :
    (tr : Transaction) (t : TypePtr) (u : ℕ) (left right : Option Ptr) (origin : Option ItemId)
    → insert_unit tr t u left right origin ≡ (
        Transaction.integrate (allocated tr t u left right origin) (some t) tr.store.heap.next_item
        >>= λ tr'. done (tr.store.heap.next_item, tr'))
unfolding insert_unit
insert_unit_lem tr t u left right origin = refl

integrated-heap :
    (tr : Transaction) (t : TypePtr) (n : Ptr) (g : Heap) → (integrated tr t n g).store.heap ≡ g
unfolding record_insert add_node
integrated-heap tr t n g = refl

-- What one round does to the text, between the items `xs` and `ys`.
record Inserted (tr tr' : Transaction) (t : TypePtr) (xs ys : List Ptr) (n : Ptr) (u : ℕ)
    : Type 0 where
  text : IsText tr'.store.heap t (xs ++ n ∷ ys)
  front : visible tr'.store.heap (xs ++ n ∷ []) ≡ visible tr.store.heap xs ++ u ∷ []
  back : visible tr'.store.heap ys ≡ visible tr.store.heap ys

module _ (tr : Transaction) (t : TypePtr) (u : ℕ) (xs ys : List Ptr) (origin : Option ItemId)
    (v : IsText tr.store.heap t (xs ++ ys))
    (small : length (visible tr.store.heap (xs ++ ys)) + 1 < u64_mod) where
  item : Item
  item = linked_item tr.store t u (last_or none xs) (head_or ys none) origin

  between : Between ((alloc_item tr.store.heap item).1) t xs ys tr.store.heap.next_item
  between = record {
    ready = record {
      text = IsText-alloc_item item v;
      fresh = alloc_item-Fresh v;
      used = unfold alloc_item in omega arith;
      room = unfold alloc_item in omega (arith, v.fits);
      counted = rw (alloc_item_at tr.store.heap item) (unfold item linked_item countable in refl);
      live = rw (alloc_item_at tr.store.heap item) (unfold item linked_item deleted in refl);
      small =
          rw
            (
              visible-alloc_item tr.store.heap item (xs ++ ys) v.allocated,
              alloc_item_at tr.store.heap item,
            )
            (unfold item linked_item in small);
    };
    left = rw (alloc_item_at tr.store.heap item) (unfold item linked_item in refl);
    right = rw (alloc_item_at tr.store.heap item) (unfold item linked_item in refl);
  }

  next : Transaction
  next =
      integrated (allocated tr t u (last_or none xs) (head_or ys none) origin) t
        tr.store.heap.next_item (after between.ready)

  insert_unit-next :
      insert_unit tr t u (last_or none xs) (head_or ys none) origin
      ≡ done (tr.store.heap.next_item, next)
  unfolding next between item
  insert_unit-next =
      insert_unit_lem tr t u (last_or none xs) (head_or ys none) origin
      ∙ rw (
          integrate_lem (allocated tr t u (last_or none xs) (head_or ys none) origin) t
            tr.store.heap.next_item _ (integrate_core-after between))

  visible-next :
      (ps : List Ptr)
      → visible (after between.ready) ps ≡ visible ((alloc_item tr.store.heap item).1) ps
  visible-next ps =
      visible-SameData ((alloc_item tr.store.heap item).1) (after between.ready) ps
        (All-every _ ps (after-SameData between.ready))

  new_units : visible ((alloc_item tr.store.heap item).1) (tr.store.heap.next_item ∷ []) ≡ u ∷ []
  new_units = rw (alloc_item_at tr.store.heap item) (unfold item linked_item deleted in refl)

  next-Inserted : Inserted tr next t xs ys tr.store.heap.next_item u
  unfolding next
  next-Inserted = record {
    text = rw integrated-heap (after-IsText between.ready);
    front = rw integrated-heap (
        visible-next (xs ++ tr.store.heap.next_item ∷ [])
        ∙ visible-append ((alloc_item tr.store.heap item).1) xs (tr.store.heap.next_item ∷ [])
        ∙ rw (visible-alloc_item tr.store.heap item xs (All-left _ xs ys v.allocated), new_units));
    back = rw integrated-heap (
        visible-next ys ∙ visible-alloc_item tr.store.heap item ys (All-right _ xs ys v.allocated));
  }

-- The loop puts the units of `content` between `xs` and `ys`, as one new item each.
pub record Filled (tr tr' : Transaction) (t : TypePtr) (xs ns ys : List Ptr) (content : List ℕ)
    : Type 0 where
  pub text : IsText tr'.store.heap t (xs ++ (ns ++ ys))
  pub reads :
      visible tr'.store.heap (xs ++ (ns ++ ys))
      ≡ visible tr.store.heap xs ++ (content ++ visible tr.store.heap ys)
  pub size : length ns ≡ length content

insert_loop_lem :
    (tr : Transaction) (t : TypePtr) (u : ℕ) (content : List ℕ) (left right : Option Ptr)
    (origin : Option ItemId)
    → insert_loop tr t (u ∷ content) left right origin ≡ (
        insert_unit tr t u left right origin >>= λ out.
        insert_loop out.1 t content (some out.0) right origin)
unfolding insert_loop
insert_loop_lem tr t u content left right origin = refl

insert_loop_nil :
    (tr : Transaction) (t : TypePtr) (left right : Option Ptr) (origin : Option ItemId)
    → insert_loop tr t [] left right origin ≡ done tr
unfolding insert_loop
insert_loop_nil tr t left right origin = refl

insert_loop-step :
    (tr : Transaction) (t : TypePtr) (u : ℕ) (content : List ℕ) (left right : Option Ptr)
    (origin : Option ItemId) (n : Ptr) (tr' : Transaction)
    → insert_unit tr t u left right origin ≡ done (n, tr')
    → insert_loop tr t (u ∷ content) left right origin
      ≡ insert_loop tr' t content (some n) right origin
insert_loop-step tr t u content left right origin n tr' e =
    insert_loop_lem tr t u content left right origin ∙ rw e

-- The loop ends, with the units in place.
abbrev pub Fills : Transaction → TypePtr → List Ptr → List Ptr → List ℕ → Option ItemId → Type 0
Fills tr t xs ys content origin =
    (ns : List Ptr) × (tr' : Transaction) × (insert_loop tr t content (last_or none xs)
        (head_or ys none) origin
      ≡ done tr')
    × Filled tr tr' t xs ns ys content

module _ {tr tr1 : Transaction} {t : TypePtr} {xs ys : List Ptr} {n : Ptr} {u : ℕ}
    (i : Inserted tr tr1 t xs ys n u) where
  Filled-cons :
      {tr' : Transaction} {ns : List Ptr} {content : List ℕ}
      → Filled tr1 tr' t (xs ++ n ∷ []) ns ys content
      → Filled tr tr' t xs (n ∷ ns) ys (u ∷ content)
  Filled-cons {tr'} {ns} {content} f = record {
    text = rw append_assoc at f.text;
    reads =
        ap (visible tr'.store.heap) (sym (append_assoc xs (n ∷ []) (ns ++ ys)))
        ∙ f.reads
        ∙ rw (i.front, i.back, append_assoc);
    size = ap suc f.size;
  }

  Inserted-text : IsText tr1.store.heap t ((xs ++ n ∷ []) ++ ys)
  Inserted-text = rw append_assoc i.text

  Inserted-length :
      length (visible tr1.store.heap ((xs ++ n ∷ []) ++ ys))
      ≡ length (visible tr.store.heap (xs ++ ys)) + 1
  Inserted-length =
      ap length (visible-append tr1.store.heap (xs ++ n ∷ []) ys)
      ∙ rw
          (
            i.front,
            i.back,
            visible-append tr.store.heap xs ys,
            length-append,
            length-append,
            length-append,
          )
          (omega arith)

  Fills-cons :
      (content : List ℕ) (origin : Option ItemId)
      → insert_unit tr t u (last_or none xs) (head_or ys none) origin ≡ done (n, tr1)
      → Fills tr1 t (xs ++ n ∷ []) ys content origin
      → Fills tr t xs ys (u ∷ content) origin
  Fills-cons content origin e (ns, tr', run, f) = (
    n ∷ ns,
    tr',
    insert_loop-step tr t u content _ _ origin n tr1 e ∙ (rw last_or-snoc at run),
    Filled-cons f,
  )

-- InsertIn's loop ends, and puts the units of `content`, an item each, between `xs` and `ys`.
pub insert_loop-Fills :
    (tr : Transaction) (t : TypePtr) (content : List ℕ) (xs ys : List Ptr) (origin : Option ItemId)
    → IsText tr.store.heap t (xs ++ ys)
    → length (visible tr.store.heap (xs ++ ys)) + length content < u64_mod
    → Fills tr t xs ys content origin
insert_loop-Fills tr t [] xs ys origin v small = (
  [],
  tr,
  insert_loop_nil tr t _ _ origin,
  record { text = v; reads = visible-append tr.store.heap xs ys; size = refl },
)
insert_loop-Fills tr t (u ∷ content) xs ys origin v small =
    let one : length (visible tr.store.heap (xs ++ ys)) + 1 < u64_mod = omega arith in
    let i = next-Inserted tr t u xs ys origin v one in
    Fills-cons i content origin (insert_unit-next tr t u xs ys origin v one) (
      insert_loop-Fills (next tr t u xs ys origin v one) t content
        (xs ++ tr.store.heap.next_item ∷ []) ys origin (Inserted-text i)
        (omega (arith, Inserted-length i)))
