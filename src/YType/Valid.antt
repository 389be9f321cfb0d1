-- ===== src/YType/Valid.antt =====
-- The invariant of a root type: its item list, and what each item is.
use cert_yjs.Base.{
  ℕ, suc, ◌≤◌, ◌<◌, ◌≡◌, refl, ap, sym, ◌∙◌, true, Option, none, some, List, [], ◌∷◌, arith, All,
  length,
}
use cert_yjs.Item.{Ptr, TypePtr, Item, countable}
use cert_yjs.Heap.{Heap, YType, alloc_item}
use cert_yjs.YType.Chain.{IsList, visible}
use cert_yjs.YType.Links.{Links, Linked-Links, head_or, Fresh, Distinct}
use cert_yjs.YType.Distinct.{Fresh-new}
use cert_yjs.YType.Same.{data_of, visible-SameData}

-- The type `t` holds the items `ps`: linked in this order, distinct, allocated and countable; and
-- its length field counts the units that a reader sees.
pub record IsText (h : Heap) (t : TypePtr) (ps : List Ptr) : Type 0 where
  pub links : Links h none ps none
  pub start : (h.type_at t).start ≡ head_or ps none
  pub distinct : Distinct ps
  pub allocated : All (λ p. p < h.next_item) ps
  pub fits : length ps ≤ h.next_item
  pub counted : All (λ p. countable (h.item_at p) ≡ true) ps
  pub len : (h.type_at t).len ≡ length (visible h ps)

pub IsText-IsList : {h : Heap} {t : TypePtr} {ps : List Ptr} → IsText h t ps → IsList h t ps
IsText-IsList {h} {t} {ps} v = record {
  chain = Linked-Links h none (h.type_at t).start ps v.start v.links;
  fits = v.fits;
}

pub alloc_item_at : (h : Heap) (it : Item) → ((alloc_item h it).1).item_at h.next_item ≡ it
unfolding alloc_item
alloc_item_at h it = ground arith

alloc_item_old :
    (h : Heap) (it : Item) (p : Ptr)
    → p < h.next_item
    → ((alloc_item h it).1).item_at p ≡ h.item_at p
unfolding alloc_item
alloc_item_old h it p b = ground arith

alloc_item_olds :
    (h : Heap) (it : Item) (P : Item → Type 0) (ps : List Ptr)
    → All (λ p. p < h.next_item) ps
    → All (λ p. P (h.item_at p)) ps
    → All (λ p. P (((alloc_item h it).1).item_at p)) ps
alloc_item_olds h it P [] b a = tt
alloc_item_olds h it P (p ∷ ps) (lt, b) (x, a) =
    (rw (alloc_item_old h it p lt) x, alloc_item_olds h it P ps b a)

alloc_item-Links :
    (h : Heap) (it : Item) (prev : Option Ptr) (ps : List Ptr) (next : Option Ptr)
    → All (λ p. p < h.next_item) ps
    → Links h prev ps next
    → Links ((alloc_item h it).1) prev ps next
alloc_item-Links h it prev [] next b l = tt
alloc_item-Links h it prev (p ∷ ps) next (lt, b) (x, y, l) = (
  rw (alloc_item_old h it p lt) x,
  rw (alloc_item_old h it p lt) y,
  alloc_item-Links h it (some p) ps next b l,
)

alloc_item-data :
    (h : Heap) (it : Item) (ps : List Ptr)
    → All (λ p. p < h.next_item) ps
    → All (λ p. data_of (((alloc_item h it).1).item_at p) ≡ data_of (h.item_at p)) ps
alloc_item-data h it [] b = tt
alloc_item-data h it (p ∷ ps) (lt, b) =
    (ap data_of (alloc_item_old h it p lt), alloc_item-data h it ps b)

pub visible-alloc_item :
    (h : Heap) (it : Item) (ps : List Ptr)
    → All (λ p. p < h.next_item) ps
    → visible ((alloc_item h it).1) ps ≡ visible h ps
visible-alloc_item h it ps b =
    visible-SameData h ((alloc_item h it).1) ps (alloc_item-data h it ps b)

alloc_item_type :
    (h : Heap) (it : Item) (t : TypePtr) → ((alloc_item h it).1).type_at t ≡ h.type_at t
unfolding alloc_item
alloc_item_type h it t = refl

allocated_more : (n : ℕ) (ps : List Ptr) → All (λ p. p < n) ps → All (λ p. p < suc n) ps
allocated_more n [] a = tt
allocated_more n (p ∷ ps) (lt, a) = (omega arith, allocated_more n ps a)

-- A new item that no list holds yet changes no list.
pub IsText-alloc_item :
    {h : Heap} {t : TypePtr} {ps : List Ptr} (it : Item)
    → IsText h t ps
    → IsText ((alloc_item h it).1) t ps
IsText-alloc_item {h} {t} {ps} it v = record {
  links = alloc_item-Links h it none ps none v.allocated v.links;
  start = unfold alloc_item in v.start;
  distinct = v.distinct;
  allocated = unfold alloc_item in allocated_more h.next_item ps v.allocated;
  fits = unfold alloc_item in omega (arith, v.fits);
  counted = alloc_item_olds h it (λ i. countable i ≡ true) ps v.allocated v.counted;
  len =
      ap (λ (y : YType). y.len) (alloc_item_type h it t)
      ∙ v.len
      ∙ ap length (sym (visible-alloc_item h it ps v.allocated));
}

pub alloc_item-Fresh :
    {h : Heap} {t : TypePtr} {ps : List Ptr} → IsText h t ps → Fresh h.next_item ps
alloc_item-Fresh {h} {ps} v = Fresh-new h.next_item ps v.allocated
