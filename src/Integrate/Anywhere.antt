-- ===== src/Integrate/Anywhere.antt =====
-- store.integrateCore on any item, the ones of remote replicas included.
use cert_yjs.Base.{
  ◌+◌, ◌≤◌, ◌<◌, ◌≡◌, ap, sym, subst, ◌∙◌, none, List, ◌∷◌, ◌++◌, append_assoc, length,
  length-append, arith, done, u64_mod,
}
use cert_yjs.Item.{Ptr, TypePtr, len}
use cert_yjs.Heap.{Heap}
use cert_yjs.YType.Chain.{visible}
use cert_yjs.YType.Valid.{IsText}
use cert_yjs.YType.Links.{head_or, last_or, Fresh}
use cert_yjs.Integrate.{find_integration_left, integrate_core}
use cert_yjs.Integrate.Place.{Insertable, after, after-IsText, visible-after, integrate_core_lem}
use cert_yjs.Integrate.Scan.{Within, find_integration_left-Within}

-- The item stands outside the list, with the last of `ls` as its left neighbour and the first of
-- `rs` as its right one.
pub record Arriving (h : Heap) (t : TypePtr) (ls ms rs : List Ptr) (n : Ptr) : Type 0 where
  pub ready : Insertable h t ls (ms ++ rs) n
  pub left : (h.item_at n).left ≡ last_or none ls
  pub right : (h.item_at n).right ≡ head_or rs none

-- The item is in the list, behind `ls` and in front of `rs`; the others keep their order; and a
-- reader sees its units there.
pub record Integrated (h : Heap) (t : TypePtr) (ls ms rs : List Ptr) (n : Ptr) : Type 0 where
  pub front : List Ptr
  pub back : List Ptr
  pub whole : ms ≡ front ++ back
  pub g : Heap
  pub runs : integrate_core h t n ≡ done g
  pub text : IsText g t ((ls ++ front) ++ n ∷ (back ++ rs))
  pub reads :
      visible g ((ls ++ front) ++ n ∷ (back ++ rs))
      ≡ visible h (ls ++ front) ++ ((h.item_at n).content ++ visible h (back ++ rs))

same_list :
    (ls ms rs front back : List Ptr)
    → ms ≡ front ++ back
    → ls ++ (ms ++ rs) ≡ (ls ++ front) ++ (back ++ rs)
same_list ls ms rs front back e =
    ap (λ zs. ls ++ (zs ++ rs)) e
    ∙ ap (λ zs. ls ++ zs) (append_assoc front back rs)
    ∙ sym (append_assoc ls front (back ++ rs))

module _ {h : Heap} {t : TypePtr} {ls ms rs : List Ptr} {n : Ptr}
    (a : Arriving h t ls ms rs n) where
  fits : length ms ≤ h.next_item
  fits =
      let sum : length (ls ++ (ms ++ rs)) ≡ length ls + (length ms + length rs) =
        length-append ls (ms ++ rs) ∙ ap (λ k. length ls + k) (length-append ms rs) in
      omega (arith, a.ready.text.fits)

  found : Within ls ms (find_integration_left h t n (last_or none ls) (head_or rs none))
  found = find_integration_left-Within h t n ls ms rs a.ready.text.links a.ready.text.start fits

  at_anchor :
      (w : Within ls ms (find_integration_left h t n (last_or none ls) (head_or rs none)))
      → Insertable h t (ls ++ w.front) (w.back ++ rs) n
  at_anchor w =
      let same = same_list ls ms rs w.front w.back w.whole in
      record {
        text = subst (IsText h t) same a.ready.text;
        fresh = subst (Fresh n) same a.ready.fresh;
        used = a.ready.used;
        room = subst (λ zs. length zs < h.next_item) same a.ready.room;
        counted = a.ready.counted;
        live = a.ready.live;
        small =
            subst (λ zs. length (visible h zs) + len (h.item_at n) < u64_mod) same a.ready.small;
      }

  anchored :
      (w : Within ls ms (find_integration_left h t n (last_or none ls) (head_or rs none)))
      → integrate_core h t n ≡ done (after (at_anchor w))
  unfolding after
  anchored w = integrate_core_lem h t n ∙ rw (a.left, a.right, w.runs)

-- Integrating a live item with its neighbours in a well-formed list ends, leaves a well-formed
-- list with the item between its neighbours and the others in their order, and a reader sees its
-- units there.
pub integrate_core-Integrated :
    {h : Heap} {t : TypePtr} {ls ms rs : List Ptr} {n : Ptr}
    → Arriving h t ls ms rs n
    → Integrated h t ls ms rs n
integrate_core-Integrated a =
    let w = found a in
    record {
      front = w.front;
      back = w.back;
      whole = w.whole;
      g = after (at_anchor a w);
      runs = anchored a w;
      text = after-IsText (at_anchor a w);
      reads = visible-after (at_anchor a w);
    }
