-- ===== src/YType/Links.antt =====
-- The links of a doubly linked list, cut where the code cuts them and joined again.
use cert_yjs.Base.{◌≡◌, ◌≢◌, ◌∙◌, Option, none, some, List, [], ◌∷◌, ◌++◌, arith, All}
use cert_yjs.Item.{Ptr}
use cert_yjs.Heap.{Heap, write_item, set_left, set_left?, set_right}
use cert_yjs.YType.Chain.{Linked}

-- The first address of a list, and the last one.
abbrev pub head_or : List Ptr → Option Ptr → Option Ptr
head_or [] next = next
head_or (p ∷ ps) next = some p

abbrev pub last_or : Option Ptr → List Ptr → Option Ptr
last_or prev [] = prev
last_or prev (p ∷ ps) = last_or (some p) ps

-- Every item of the list points at its neighbours, the first one's being `prev` and the last
-- one's `next`.
abbrev pub Links : Heap → Option Ptr → List Ptr → Option Ptr → Type 0
Links h prev [] next = Unit
Links h prev (p ∷ ps) next =
    ((h.item_at p).left ≡ prev) × ((h.item_at p).right ≡ head_or ps next) × Links h (some p) ps next

pub Linked-Links :
    (h : Heap) (prev cur : Option Ptr) (ps : List Ptr)
    → cur ≡ head_or ps none
    → Links h prev ps none
    → Linked h prev cur ps
Linked-Links h prev cur [] e l = e
Linked-Links h prev cur (p ∷ ps) e (a, b, c) = (e, a, Linked-Links h (some p) _ ps b c)

pub Links-append :
    (h : Heap) (prev : Option Ptr) (xs ys : List Ptr) (next : Option Ptr)
    → Links h prev xs (head_or ys next)
    → Links h (last_or prev xs) ys next
    → Links h prev (xs ++ ys) next
Links-append h prev [] ys next a b = b
Links-append h prev (x ∷ []) ys next (l, r, a) b = (l, r, b)
Links-append h prev (x ∷ y ∷ xs) ys next (l, r, a) b =
    (l, r, Links-append h (some x) (y ∷ xs) ys next a b)

pub Links-append_left :
    (h : Heap) (prev : Option Ptr) (xs ys : List Ptr) (next : Option Ptr)
    → Links h prev (xs ++ ys) next
    → Links h prev xs (head_or ys next)
Links-append_left h prev [] ys next a = tt
Links-append_left h prev (x ∷ []) ys next (l, r, a) = (l, r, tt)
Links-append_left h prev (x ∷ y ∷ xs) ys next (l, r, a) =
    (l, r, Links-append_left h (some x) (y ∷ xs) ys next a)

pub Links-append_right :
    (h : Heap) (prev : Option Ptr) (xs ys : List Ptr) (next : Option Ptr)
    → Links h prev (xs ++ ys) next
    → Links h (last_or prev xs) ys next
Links-append_right h prev [] ys next a = a
Links-append_right h prev (x ∷ xs) ys next (l, r, a) = Links-append_right h (some x) xs ys next a

-- `p` is not in the list; the addresses of a list are distinct; two lists have none in common.
abbrev pub Fresh : Ptr → List Ptr → Type 0
Fresh p = All (λ q. q ≢ p)

abbrev pub Distinct : List Ptr → Type 0
Distinct [] = Unit
Distinct (p ∷ ps) = Fresh p ps × Distinct ps

abbrev pub Apart : List Ptr → List Ptr → Type 0
Apart xs ys = All (λ p. Fresh p ys) xs

-- Two memories agree on the links of `p`.
abbrev pub SameLinks : Heap → Heap → Ptr → Type 0
SameLinks h g p =
    ((g.item_at p).left ≡ (h.item_at p).left) × ((g.item_at p).right ≡ (h.item_at p).right)

pub Links-frame :
    (h g : Heap) (prev : Option Ptr) (ps : List Ptr) (next : Option Ptr)
    → All (SameLinks h g) ps
    → Links h prev ps next
    → Links g prev ps next
Links-frame h g prev [] next s l = tt
Links-frame h g prev (p ∷ ps) next ((a, b), s) (l, r, t) =
    (a ∙ l, b ∙ r, Links-frame h g (some p) ps next s t)

set_left-SameLinks :
    (h : Heap) (q : Ptr) (v : Option Ptr) (ps : List Ptr)
    → Fresh q ps
    → All (SameLinks h (set_left h q v)) ps
unfolding set_left write_item
set_left-SameLinks h q v [] f = tt
set_left-SameLinks h q v (p ∷ ps) (n, f) =
    ((ground arith, ground arith), set_left-SameLinks h q v ps f)

set_right-SameLinks :
    (h : Heap) (q : Ptr) (v : Option Ptr) (ps : List Ptr)
    → Fresh q ps
    → All (SameLinks h (set_right h q v)) ps
unfolding set_right write_item
set_right-SameLinks h q v [] f = tt
set_right-SameLinks h q v (p ∷ ps) (n, f) =
    ((ground arith, ground arith), set_right-SameLinks h q v ps f)

-- Writing a link of an item that is not in the list leaves the list alone.
pub Links-set_left :
    (h : Heap) (q : Ptr) (v prev : Option Ptr) (ps : List Ptr) (next : Option Ptr)
    → Fresh q ps
    → Links h prev ps next
    → Links (set_left h q v) prev ps next
Links-set_left h q v prev ps next f =
    Links-frame h (set_left h q v) prev ps next (set_left-SameLinks h q v ps f)

pub Links-set_right :
    (h : Heap) (q : Ptr) (v prev : Option Ptr) (ps : List Ptr) (next : Option Ptr)
    → Fresh q ps
    → Links h prev ps next
    → Links (set_right h q v) prev ps next
Links-set_right h q v prev ps next f =
    Links-frame h (set_right h q v) prev ps next (set_right-SameLinks h q v ps f)

pub set_left_at : (h : Heap) (q : Ptr) (v : Option Ptr) → ((set_left h q v).item_at q).left ≡ v
unfolding set_left write_item
set_left_at h q v = ground arith

pub set_left_keeps :
    (h : Heap) (q : Ptr) (v : Option Ptr) (p : Ptr)
    → ((set_left h q v).item_at p).right ≡ (h.item_at p).right
unfolding set_left write_item
set_left_keeps h q v p = ground arith

pub set_right_at : (h : Heap) (q : Ptr) (v : Option Ptr) → ((set_right h q v).item_at q).right ≡ v
unfolding set_right write_item
set_right_at h q v = ground arith

pub set_right_keeps :
    (h : Heap) (q : Ptr) (v : Option Ptr) (p : Ptr)
    → ((set_right h q v).item_at p).left ≡ (h.item_at p).left
unfolding set_right write_item
set_right_keeps h q v p = ground arith

-- The list hangs behind another item after its first item's left link is written.
pub Links-set_left_head :
    (h : Heap) (v prev : Option Ptr) (ps : List Ptr) (next : Option Ptr)
    → Distinct ps
    → Links h prev ps next
    → Links (set_left? h (head_or ps none) v) v ps next
unfolding set_left?
Links-set_left_head h v prev [] next d l = tt
Links-set_left_head h v prev (p ∷ ps) next (f, d) (a, b, l) =
    (set_left_at h p v, set_left_keeps h p v p ∙ b, Links-set_left h p v (some p) ps next f l)

-- It ends in another item after its last item's right link is written.
pub Links-set_right_last :
    (h : Heap) (v prev : Option Ptr) (ps : List Ptr) (x : Ptr) (next : Option Ptr)
    → Fresh x ps
    → Links h prev (ps ++ x ∷ []) next
    → Links (set_right h x v) prev (ps ++ x ∷ []) v
Links-set_right_last h v prev [] x next f (a, b, l) =
    (set_right_keeps h x v x ∙ a, set_right_at h x v, tt)
Links-set_right_last h v prev (p ∷ []) x next (n, f) (a, b, l) =
    let (same, _) = set_right-SameLinks h x v (p ∷ []) (n, tt) in
    (same.0 ∙ a, same.1 ∙ b, Links-set_right_last h v (some p) [] x next tt l)
Links-set_right_last h v prev (p ∷ q ∷ ps) x next (n, f) (a, b, l) =
    let (same, _) = set_right-SameLinks h x v (p ∷ []) (n, tt) in
    (same.0 ∙ a, same.1 ∙ b, Links-set_right_last h v (some p) (q ∷ ps) x next f l)
