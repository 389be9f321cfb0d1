-- ===== src/Integrate/Connect.antt =====
-- Splicing an item in: the list afterwards is the list before with the item behind its anchor.
use cert_yjs.Base.{
  ◌≡◌, refl, ap, sym, subst, ◌∙◌, Option, none, some, List, [], ◌∷◌, ◌++◌, ◌⊎◌, inl, inr, arith,
}
use cert_yjs.Item.{Ptr, TypePtr}
use cert_yjs.Heap.{Heap, YType, write_item, write_type, set_left, set_left?, set_right}
use cert_yjs.YType.Links.{
  head_or, last_or, Links, Fresh, Distinct, Apart, Links-append, Links-append_left,
  Links-append_right, Links-set_left, Links-set_right, Links-set_left_head, Links-set_right_last,
  set_left_at, set_right_at, set_right_keeps,
}
use cert_yjs.YType.Distinct.{Distinct-append, Apart-Fresh, All-left, All-right}
use cert_yjs.YType.Same.{
  SameData, set_left-SameData, set_right-SameData, set_left?-SameData, write_type-SameData,
}
use cert_yjs.Integrate.{connect}

Links-write_type :
    (h : Heap) (t : TypePtr) (y : YType) (prev : Option Ptr) (ps : List Ptr) (next : Option Ptr)
    → Links h prev ps next
    → Links (write_type h t y) prev ps next
unfolding write_type
Links-write_type h t y prev [] next l = tt
Links-write_type h t y prev (p ∷ ps) next (a, b, l) =
    (a, b, Links-write_type h t y (some p) ps next l)

Links-set_left? :
    (h : Heap) (ys : List Ptr) (v prev : Option Ptr) (xs : List Ptr) (next : Option Ptr)
    → Apart xs ys
    → Links h prev xs next
    → Links (set_left? h (head_or ys none) v) prev xs next
unfolding set_left?
Links-set_left? h [] v prev xs next f l = l
Links-set_left? h (y ∷ ys) v prev xs next f l =
    Links-set_left h y v prev xs next (Apart-Fresh xs y ys f) l

set_left?-Fresh :
    (h : Heap) (n : Ptr) (ys : List Ptr) (v : Option Ptr)
    → Fresh n ys
    → ((set_left? h (head_or ys none) v).item_at n).left ≡ (h.item_at n).left
unfolding set_left? set_left write_item
set_left?-Fresh h n [] v f = refl
set_left?-Fresh h n (y ∷ ys) v (ne, f) = ground arith

-- The last three writes: the item's left link, the link back to it, and its right link.
hook : Heap → Ptr → Option Ptr → List Ptr → Heap
hook h n left ys =
    set_right (set_left? (set_left h n left) (head_or ys none) (some n)) n (head_or ys none)

hook-Links :
    (h : Heap) (n : Ptr) (xs ys : List Ptr) (prev : Option Ptr)
    → Fresh n xs
    → Fresh n ys
    → Distinct ys
    → Apart xs ys
    → Links h none xs (some n)
    → Links h prev ys none
    → Links (hook h n (last_or none xs) ys) none (xs ++ n ∷ ys) none
unfolding hook
hook-Links h n xs ys prev fx fy d ap l r =
    let left : Option Ptr = last_or none xs in
    let h1 : Heap = set_left h n left in
    let h2 : Heap = set_left? h1 (head_or ys none) (some n) in
    let h3 : Heap = set_right h2 n (head_or ys none) in
    Links-append h3 none xs (n ∷ ys) none
      (Links-set_right h2 n _ none xs (some n) fx (
        Links-set_left? h1 ys (some n) none xs (some n) ap
          (Links-set_left h n left none xs (some n) fx l)))
      (
        set_right_keeps h2 n (head_or ys none) n
            ∙ set_left?-Fresh h1 n ys (some n) fy
            ∙ set_left_at h n left,
        set_right_at h2 n (head_or ys none),
        Links-set_right h2 n _ (some n) ys none fy (
            Links-set_left_head h1 (some n) prev ys none d
              (Links-set_left h n left prev ys none fy r)),
      )

connect_front :
    (h : Heap) (t : TypePtr) (n : Ptr) (ys : List Ptr)
    → (h.type_at t).start ≡ head_or ys none
    → connect h t n none ≡ hook (write_type h t (record (h.type_at t) { start = some n })) n none ys
unfolding connect hook
connect_front h t n ys e = rw e

connect_behind :
    (h : Heap) (t : TypePtr) (n l : Ptr) (ys : List Ptr)
    → (h.item_at l).right ≡ head_or ys none
    → connect h t n (some l) ≡ hook (set_right h l (some n)) n (some l) ys
unfolding connect hook
connect_behind h t n l ys e = rw e

hook-start :
    (h : Heap) (n : Ptr) (left : Option Ptr) (ys : List Ptr) (u : TypePtr)
    → (hook h n left ys).type_at u ≡ h.type_at u
unfolding hook set_left set_left? set_right write_item
hook-start h n left [] u = refl
hook-start h n left (y ∷ ys) u = refl

set_right-type :
    (h : Heap) (q : Ptr) (v : Option Ptr) (u : TypePtr) → (set_right h q v).type_at u ≡ h.type_at u
unfolding set_right write_item
set_right-type h q v u = refl

-- A list is empty or has a last element.
pub snoc-cases : (xs : List Ptr) → (xs ≡ []) ⊎ ((ws : List Ptr) × (l : Ptr) × (xs ≡ ws ++ l ∷ []))
snoc-cases [] = inl refl
snoc-cases (x ∷ xs) = elim (snoc-cases xs) [
  | inl e ↦ inr ([], x, rw e)
  | inr (ws, l, e) ↦ inr (x ∷ ws, l, rw e)
]

pub last_or-snoc :
    (prev : Option Ptr) (ws : List Ptr) (l : Ptr) → last_or prev (ws ++ l ∷ []) ≡ some l
last_or-snoc prev [] l = refl
last_or-snoc prev (w ∷ ws) l = last_or-snoc (some w) ws l

-- The list before a splice: `xs` in front of the anchor and `ys` behind it, `n` being in neither.
pub record Spliceable (h : Heap) (t : TypePtr) (xs ys : List Ptr) (n : Ptr) : Type 0 where
  pub links : Links h none (xs ++ ys) none
  pub start : (h.type_at t).start ≡ head_or (xs ++ ys) none
  pub distinct : Distinct (xs ++ ys)
  pub fresh : Fresh n (xs ++ ys)

-- The list after a splice.
pub record Spliced (h g : Heap) (t : TypePtr) (ps : List Ptr) : Type 0 where
  pub links : Links g none ps none
  pub start : (g.type_at t).start ≡ head_or ps none
  pub len : (g.type_at t).len ≡ (h.type_at t).len

connect-front :
    (h : Heap) (t : TypePtr) (ys : List Ptr) (n : Ptr)
    → Spliceable h t [] ys n
    → Spliced h (connect h t n none) t (n ∷ ys)
connect-front h t ys n s =
    let h1 : Heap = write_type h t (record (h.type_at t) { start = some n }) in
    subst (λ g. Spliced h g t (n ∷ ys)) (sym (connect_front h t n ys s.start))
      (record {
        links =
            hook-Links h1 n [] ys none tt s.fresh s.distinct tt tt
              (Links-write_type h t _ none ys none s.links);
        start =
            ap (λ (y : YType). y.start) (hook-start h1 n none ys t)
            ∙ (unfold write_type in ground arith);
        len =
            ap (λ (y : YType). y.len) (hook-start h1 n none ys t)
            ∙ (unfold write_type in ground arith);
      })

head_or-append :
    (ws : List Ptr) (l : Ptr) (xs ys : List Ptr) (next : Option Ptr)
    → head_or ((ws ++ l ∷ []) ++ xs) next ≡ head_or ((ws ++ l ∷ []) ++ ys) next
head_or-append [] l xs ys next = refl
head_or-append (w ∷ ws) l xs ys next = refl

connect-behind :
    (h : Heap) (t : TypePtr) (ws : List Ptr) (l : Ptr) (ys : List Ptr) (n : Ptr)
    → Spliceable h t (ws ++ l ∷ []) ys n
    → Spliced h (connect h t n (some l)) t ((ws ++ l ∷ []) ++ n ∷ ys)
connect-behind h t ws l ys n s =
    let xs : List Ptr = ws ++ l ∷ [] in
    let g : Heap = set_right h l (some n) in
    let (dx, dy, apart) = Distinct-append xs ys s.distinct in
    let (_, _, apart_l) = Distinct-append ws (l ∷ []) dx in
    let front : Links h none xs (head_or ys none) = Links-append_left h none xs ys none s.links in
    let back : Links h (last_or none xs) ys none = Links-append_right h none xs ys none s.links in
    let (_, right_l, _) = Links-append_right h none ws (l ∷ []) (head_or ys none) front in
    let last : last_or none xs ≡ some l = last_or-snoc none ws l in
    subst (λ k. Spliced h k t (xs ++ n ∷ ys)) (sym (connect_behind h t n l ys right_l))
      (record {
        links =
            subst (λ v. Links (hook g n v ys) none (xs ++ n ∷ ys) none) last
              (hook-Links g n xs ys (last_or none xs) (All-left _ xs ys s.fresh)
                (All-right _ xs ys s.fresh) dy apart
                (Links-set_right_last h (some n) none ws l (head_or ys none)
                  (Apart-Fresh ws l [] apart_l) front)
                (Links-set_right h l (some n) (last_or none xs) ys none
                  (All-right (λ p. Fresh p ys) ws (l ∷ []) apart).0 back));
        start =
            ap (λ (y : YType). y.start) (hook-start g n (some l) ys t)
            ∙ ap (λ (y : YType). y.start) (set_right-type h l (some n) t)
            ∙ s.start
            ∙ head_or-append ws l ys (n ∷ ys) none;
        len =
            ap (λ (y : YType). y.len) (hook-start g n (some l) ys t)
            ∙ ap (λ (y : YType). y.len) (set_right-type h l (some n) t);
      })

-- The splice puts the item between its anchor and what stood behind it, and moves nothing else.
pub connect-Spliced :
    (h : Heap) (t : TypePtr) (xs ys : List Ptr) (n : Ptr)
    → Spliceable h t xs ys n
    → Spliced h (connect h t n (last_or none xs)) t (xs ++ n ∷ ys)
connect-Spliced h t xs ys n s = elim (snoc-cases xs) [
  | inl e ↦
      subst (λ zs. Spliced h (connect h t n (last_or none zs)) t (zs ++ n ∷ ys)) (sym e)
        (connect-front h t ys n (rw e at s))
  | inr (ws, l, e) ↦
      subst (λ zs. Spliced h (connect h t n (last_or none zs)) t (zs ++ n ∷ ys)) (sym e)
        (rw (last_or-snoc none ws l) (connect-behind h t ws l ys n (rw e at s)))
]

pub connect-SameData :
    (h : Heap) (t : TypePtr) (n : Ptr) (left : Option Ptr) → SameData h (connect h t n left)
unfolding connect
connect-SameData h t n none p =
    let h1 = write_type h t (record (h.type_at t) { start = some n }) in
    let h2 = set_left h1 n none in
    let h3 = set_left? h2 (h.type_at t).start (some n) in
    set_right-SameData h3 n (h.type_at t).start p
    ∙ set_left?-SameData h2 (h.type_at t).start (some n) p
    ∙ set_left-SameData h1 n none p
    ∙ write_type-SameData h t (record (h.type_at t) { start = some n }) p
connect-SameData h t n (some l) p =
    let right = (h.item_at l).right in
    let h1 = set_right h l (some n) in
    let h2 = set_left h1 n (some l) in
    let h3 = set_left? h2 right (some n) in
    set_right-SameData h3 n right p
    ∙ set_left?-SameData h2 right (some n) p
    ∙ set_left-SameData h1 n (some l) p
    ∙ set_right-SameData h l (some n) p

set_left?-next : (h : Heap) (q v : Option Ptr) → (set_left? h q v).next_item ≡ h.next_item
unfolding set_left? set_left write_item
set_left?-next h none v = refl
set_left?-next h (some q) v = refl

-- A splice allocates nothing.
pub connect-next :
    (h : Heap) (t : TypePtr) (n : Ptr) (left : Option Ptr)
    → (connect h t n left).next_item ≡ h.next_item
unfolding connect set_left? set_left set_right write_item write_type
connect-next h t n none = ground (
  arith,
  set_left?-next (set_left (write_type h t (record (h.type_at t) { start = some n })) n none)
      (h.type_at t).start (some n),
)
connect-next h t n (some l) = ground (
  arith,
  set_left?-next (set_left (set_right h l (some n)) n (some l)) (h.item_at l).right (some n),
)
