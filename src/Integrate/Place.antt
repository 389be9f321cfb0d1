-- ===== src/Integrate/Place.antt =====
-- Putting an item at a place of its list that has been decided: the splice and the length.
use cert_yjs.Base.{
  ◌+◌, ◌<◌, ◌≡◌, refl, ap, ◌∙◌, true, false, Option, none, List, ◌∷◌, ◌++◌, length, u64_mod,
  length-append, add64, add64_lem, if◌then◌else◌, arith, done, ◌>>=◌,
}
use cert_yjs.Item.{Ptr, TypePtr, Item, len, countable, deleted}
use cert_yjs.Heap.{Heap, write_type}
use cert_yjs.YType.Chain.{visible}
use cert_yjs.YType.Valid.{IsText}
use cert_yjs.YType.Links.{last_or, Fresh, Links-frame}
use cert_yjs.YType.Distinct.{All-append, All-left, All-right, Distinct-insert}
use cert_yjs.YType.Same.{
  SameData, data_of, All-every, visible-SameData, visible-append, countable-SameData,
  countable-data, content-data,
}
use cert_yjs.Integrate.{find_integration_left, connect, grow, integrate_core}
use cert_yjs.Integrate.Connect.{Spliced, connect-Spliced, connect-SameData, connect-next}

-- What follows the search for the anchor.
abbrev pub place : Heap → TypePtr → Ptr → Option Ptr → Heap
place h t n left = grow (connect h t n left) t ((connect h t n left).item_at n)

pub integrate_core_lem :
    (h : Heap) (t : TypePtr) (n : Ptr)
    → integrate_core h t n ≡ (
        find_integration_left h t n (h.item_at n).left (h.item_at n).right >>= λ left.
        done (place h t n left))
unfolding integrate_core
integrate_core_lem h t n = refl

grow_lem :
    (h : Heap) (t : TypePtr) (it : Item)
    → grow h t it ≡ (
        if countable it
        then write_type h t (record (h.type_at t) { len = add64 (h.type_at t).len (len it) })
        else h)
unfolding grow
grow_lem h t it = refl

grow-start :
    (h : Heap) (t : TypePtr) (it : Item) → ((grow h t it).type_at t).start ≡ (h.type_at t).start
unfolding grow
grow-start h t it = rw (grow_lem h t it) (unfold write_type in ground arith)

grow-len :
    (h : Heap) (t : TypePtr) (it : Item)
    → countable it ≡ true
    → ((grow h t it).type_at t).len ≡ add64 (h.type_at t).len (len it)
grow-len h t it e = rw (grow_lem h t it, e) (unfold write_type in ground arith)

grow-next : (h : Heap) (t : TypePtr) (it : Item) → (grow h t it).next_item ≡ h.next_item
grow-next h t it = rw (grow_lem h t it) (unfold write_type in ground arith)

grow-item_at :
    (h : Heap) (t : TypePtr) (it : Item) (p : Ptr) → (grow h t it).item_at p ≡ h.item_at p
grow-item_at h t it p = rw (grow_lem h t it) (unfold write_type in ground arith)

-- The invariant before an item goes between `xs` and `ys`, wherever it was created.
pub record Insertable (h : Heap) (t : TypePtr) (xs ys : List Ptr) (n : Ptr) : Type 0 where
  pub text : IsText h t (xs ++ ys)
  pub fresh : Fresh n (xs ++ ys)
  pub used : n < h.next_item
  pub room : length (xs ++ ys) < h.next_item
  pub counted : countable (h.item_at n) ≡ true
  pub live : deleted (h.item_at n) ≡ false
  pub small : length (visible h (xs ++ ys)) + len (h.item_at n) < u64_mod

module _ {h : Heap} {t : TypePtr} {xs ys : List Ptr} {n : Ptr} (b : Insertable h t xs ys n) where
  spliced : Spliced h (connect h t n (last_or none xs)) t (xs ++ n ∷ ys)
  spliced = connect-Spliced h t xs ys n (record {
    links = b.text.links;
    start = b.text.start;
    distinct = b.text.distinct;
    fresh = b.fresh;
  })

  unfoldable pub after : Heap
  after = place h t n (last_or none xs)

  pub after-SameData : SameData h after
  unfolding after
  after-SameData p =
      ap data_of (grow-item_at (connect h t n (last_or none xs)) t _ p)
      ∙ connect-SameData h t n (last_or none xs) p

  pub after-next : after.next_item ≡ h.next_item
  unfolding after
  after-next =
      grow-next (connect h t n (last_or none xs)) t _ ∙ connect-next h t n (last_or none xs)

  pub visible-after :
      visible after (xs ++ n ∷ ys) ≡ visible h xs ++ ((h.item_at n).content ++ visible h ys)
  visible-after =
      visible-SameData h after (xs ++ n ∷ ys) (All-every _ (xs ++ n ∷ ys) after-SameData)
      ∙ visible-append h xs (n ∷ ys)
      ∙ rw b.live

  after-len : (after.type_at t).len ≡ length (visible after (xs ++ n ∷ ys))
  unfolding after
  after-len =
      let c = connect h t n (last_or none xs) in
      let same = connect-SameData h t n (last_or none xs) n in
      let lens : len (c.item_at n) ≡ len (h.item_at n) =
        ap length (content-data (c.item_at n) (h.item_at n) same) in
      let sum : length (visible h (xs ++ ys)) + len (h.item_at n)
          ≡ length (visible h xs ++ ((h.item_at n).content ++ visible h ys)) =
        rw (visible-append, length-append, length-append, length-append) (omega arith) in
      grow-len c t (c.item_at n) (countable-data (c.item_at n) (h.item_at n) same ∙ b.counted)
      ∙ rw (spliced.len, b.text.len, lens, visible-after) (add64_lem _ _ b.small ∙ sum)

  -- Afterwards the list has the item between its neighbours.
  pub after-IsText : IsText after t (xs ++ n ∷ ys)
  unfolding after
  after-IsText = record {
    links =
        Links-frame (connect h t n (last_or none xs)) after none (xs ++ n ∷ ys) none
          (All-every _ (xs ++ n ∷ ys) (λ p. (
            ap (λ (it : Item). it.left) (grow-item_at (connect h t n (last_or none xs)) t _ p),
            ap (λ (it : Item). it.right) (grow-item_at (connect h t n (last_or none xs)) t _ p),
          )))
          spliced.links;
    start = grow-start (connect h t n (last_or none xs)) t _ ∙ spliced.start;
    distinct = Distinct-insert xs ys n b.text.distinct b.fresh;
    allocated = rw after-next (
        All-append _ xs (n ∷ ys) (All-left _ xs ys b.text.allocated)
          (b.used, All-right _ xs ys b.text.allocated));
    fits = rw (after-next, length-append) (omega (arith, b.room, length-append xs ys));
    counted = countable-SameData h after (xs ++ n ∷ ys) after-SameData (
        All-append _ xs (n ∷ ys) (All-left _ xs ys b.text.counted)
          (b.counted, All-right _ xs ys b.text.counted));
    len = after-len;
  }
