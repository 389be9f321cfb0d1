-- ===== src/Integrate/Local.antt =====
-- Integrating an item that was created between its neighbours: nothing is scanned, and the item
-- goes where it was created.
use cert_yjs.Base.{
  ◌≡◌, refl, sym, subst, ◌∙◌, true, Option, none, some, List, [], ◌∷◌, ◌++◌, inl, inr, append_assoc,
  done,
}
use cert_yjs.Item.{Ptr, TypePtr}
use cert_yjs.Heap.{Heap}
use cert_yjs.Ident.Laws.{equal_iff}
use cert_yjs.YType.Chain.{visible}
use cert_yjs.YType.Valid.{IsText}
use cert_yjs.YType.Links.{head_or, last_or, Links, Links-append_right}
use cert_yjs.Integrate.{item_ptr_equal, scan_loop, find_integration_left, integrate_core}
use cert_yjs.Integrate.Place.{Insertable, after, after-IsText, visible-after, integrate_core_lem}
use cert_yjs.Integrate.Connect.{snoc-cases, last_or-snoc}

pub item_ptr_equal_refl : (h : Heap) (p : Option Ptr) → item_ptr_equal h p p ≡ true
unfolding item_ptr_equal
item_ptr_equal_refl h none = refl
item_ptr_equal_refl h (some p) = (equal_iff (h.item_at p).id (h.item_at p).id).1 refl

find_front :
    (h : Heap) (t : TypePtr) (n : Ptr) (ys : List Ptr)
    → Links h none ys none
    → (h.type_at t).start ≡ head_or ys none
    → find_integration_left h t n none (head_or ys none) ≡ done none
unfolding find_integration_left scan_loop
find_front h t n [] l s = rw s
find_front h t n (y ∷ ys) (a, b, l) s = rw a

find_behind :
    (h : Heap) (t : TypePtr) (n l : Ptr) (right : Option Ptr)
    → (h.item_at l).right ≡ right
    → find_integration_left h t n (some l) right ≡ done (some l)
unfolding find_integration_left
find_behind h t n l right e = rw (e, item_ptr_equal_refl h right)

append_assoc-Links :
    (h : Heap) (ws : List Ptr) (p : Ptr) (ys : List Ptr)
    → Links h none ((ws ++ p ∷ []) ++ ys) none
    → Links h none (ws ++ p ∷ ys) none
append_assoc-Links h ws p ys l = rw append_assoc at l

-- The anchor of an item between two neighbours is its left neighbour.
pub find_integration_left-local :
    (h : Heap) (t : TypePtr) (n : Ptr) (xs ys : List Ptr)
    → Links h none (xs ++ ys) none
    → (h.type_at t).start ≡ head_or (xs ++ ys) none
    → find_integration_left h t n (last_or none xs) (head_or ys none) ≡ done (last_or none xs)
find_integration_left-local h t n xs ys l s = elim (snoc-cases xs) [
  | inl e ↦
      subst
        (λ zs.
          find_integration_left h t n (last_or none zs) (head_or ys none) ≡ done (last_or none zs))
        (sym e) (find_front h t n ys (rw e at l) (rw e at s))
  | inr (ws, p, e) ↦
      let (_, right, _) =
        Links-append_right h none ws (p ∷ ys) none (append_assoc-Links h ws p ys (rw e at l)) in
      rw (e, last_or-snoc none ws p) (find_behind h t n p (head_or ys none) right)
]

-- The invariant before an item between its neighbours is integrated.
pub record Between (h : Heap) (t : TypePtr) (xs ys : List Ptr) (n : Ptr) : Type 0 where
  pub ready : Insertable h t xs ys n
  pub left : (h.item_at n).left ≡ last_or none xs
  pub right : (h.item_at n).right ≡ head_or ys none

pub integrate_core-after :
    {h : Heap} {t : TypePtr} {xs ys : List Ptr} {n : Ptr} (b : Between h t xs ys n)
    → integrate_core h t n ≡ done (after b.ready)
unfolding after
integrate_core-after {h} {t} {xs} {ys} {n} b =
    integrate_core_lem h t n
    ∙ rw (
      b.left,
      b.right,
      find_integration_left-local h t n xs ys b.ready.text.links b.ready.text.start,
    )

-- What integrating an item does where it is placed: the run ends, the item is in the list, and a
-- reader sees its units there.
pub record Placed (h : Heap) (t : TypePtr) (xs ys : List Ptr) (n : Ptr) : Type 0 where
  pub g : Heap
  pub runs : integrate_core h t n ≡ done g
  pub text : IsText g t (xs ++ n ∷ ys)
  pub reads : visible g (xs ++ n ∷ ys) ≡ visible h xs ++ ((h.item_at n).content ++ visible h ys)

-- Integrating a live item between its two neighbours in a well-formed list ends, keeps the list
-- well-formed, and puts the item's units between those of the neighbours.
pub integrate_core-Placed :
    {h : Heap} {t : TypePtr} {xs ys : List Ptr} {n : Ptr} → Between h t xs ys n → Placed h t xs ys n
integrate_core-Placed b = record {
  g = after b.ready;
  runs = integrate_core-after b;
  text = after-IsText b.ready;
  reads = visible-after b.ready;
}
