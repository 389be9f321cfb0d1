-- ===== src/YType/Chain.antt =====
-- The doubly linked list of a type as a list of addresses, and the text that it spells.
use cert_yjs.Base.{
  ℕ, zero, suc, ◌≤◌, ◌<◌, ◌≡◌, ◌∙◌, Option, none, some, List, [], ◌∷◌, ◌++◌, if◌then◌else◌, done,
  arith, append-nil, append_assoc, length,
}
use cert_yjs.Item.{Ptr, TypePtr, Item, deleted}
use cert_yjs.Heap.{Heap}
use cert_yjs.YType.{text_loop, text}

-- From `cur`, whose left neighbour is `prev`, the items are those at `ps`, to the end of the list.
abbrev pub Linked : Heap → Option Ptr → Option Ptr → List Ptr → Type 0
Linked h prev cur [] = cur ≡ none
Linked h prev cur (p ∷ ps) =
    (cur ≡ some p) × ((h.item_at p).left ≡ prev) × Linked h (some p) (h.item_at p).right ps

-- The list of the type `t` is `ps`, and memory holds no fewer items than the list.
pub record IsList (h : Heap) (t : TypePtr) (ps : List Ptr) : Type 0 where
  pub chain : Linked h none (h.type_at t).start ps
  pub fits : length ps ≤ h.next_item

-- The units of one item that a reader sees, and those of a list of items.
abbrev pub live_units : Item → List ℕ
live_units it = if deleted it then [] else it.content

abbrev pub visible : Heap → List Ptr → List ℕ
visible h [] = []
visible h (p ∷ ps) = live_units (h.item_at p) ++ visible h ps

text_loop-visible :
    (k : ℕ) (h : Heap) (prev cur : Option Ptr) (ps : List Ptr) (result : List ℕ)
    → Linked h prev cur ps
    → length ps < k
    → text_loop k h cur result ≡ done (result ++ visible h ps)
unfolding text_loop
text_loop-visible zero h prev cur ps result l b = absurd (omega arith)
text_loop-visible (suc k) h prev cur [] result l b = rw (l, append-nil)
text_loop-visible (suc k) h prev cur (p ∷ ps) result (e, _, l) b = rw e (
    text_loop-visible k h (some p) _ ps _ l (omega arith)
    ∙ ground (arith, append_assoc result (h.item_at p).content (visible h ps)))

-- `yType.Text` ends, and returns the units of the items that are not deleted, in order.
pub text-visible :
    (h : Heap) (t : TypePtr) (ps : List Ptr) → IsList h t ps → text h t ≡ done (visible h ps)
unfolding text
text-visible h t ps l =
    text_loop-visible (suc h.next_item) h none _ ps [] l.chain (omega (arith, l.fits))
