-- ===== src/Split/Text.antt =====
-- splitItem on an item of a text: the two halves read as the item did.
use cert_yjs.Base.{
  ℕ, zero, suc, ◌≤◌, ◌<◌, ◌≡◌, ◌≢◌, refl, ap, sym, subst, ◌∙◌, Bool, true, false, none, some, List,
  [], ◌∷◌, ◌++◌, ltb, All, length, length-append, take, drop, take-append-drop, append_assoc,
  append-nil, if◌then◌else◌, arith, done,
}
use cert_yjs.Item.{Ptr, TypePtr, Item, len, countable, deleted}
use cert_yjs.Heap.{Heap, YType}
use cert_yjs.YType.Chain.{visible, live_units}
use cert_yjs.YType.Links.{
  head_or, Links, Links-frame, Links-append_right, SameLinks, Fresh, Distinct,
}
use cert_yjs.YType.Distinct.{
  All-append, All-left, All-right, All-weaken, Distinct-append, Distinct-insert, Apart-Fresh,
}
use cert_yjs.YType.Same.{
  data_of, ItemData, All-every, visible-SameData, visible-append, countable-data,
}
use cert_yjs.YType.Valid.{IsText, alloc_item-Fresh}
use cert_yjs.Split.{right_half, split_item}
use cert_yjs.Split.Halves.{
  split_heap-type, split_heap-next, split-left, split-right, split-other, cut_heap, split_heap,
  split_item_lem, cut_heap-left, cut_heap-right, cut_heap-SameLinks, tell_neighbours,
}
use cert_yjs.Integrate.{connect}
use cert_yjs.Integrate.Connect.{Spliceable, Spliced, connect-Spliced, last_or-snoc}

head_or-far : (q : Ptr) (ys : List Ptr) → Fresh q ys → head_or ys none ≢ some q
head_or-far q [] f e = cc
head_or-far q (y ∷ ys) (ne, f) e = ne (cc)

head_or-grown :
    (xs : List Ptr) (n q : Ptr) (ys : List Ptr)
    → head_or (xs ++ n ∷ ys) none ≡ head_or (xs ++ n ∷ q ∷ ys) none
head_or-grown [] n q ys = refl
head_or-grown (x ∷ xs) n q ys = refl

countable-flags : (a b : Item) → a.flags ≡ b.flags → countable a ≡ countable b
unfolding countable
countable-flags a b e = rw e

live_units-cut :
    (a b : Item) (c : List ℕ)
    → a.flags ≡ b.flags
    → a.content ≡ c
    → live_units a ≡ (if deleted b then [] else c)
unfolding deleted
live_units-cut a b c f e = rw (f, e)

if-take :
    (b : Bool) (k : ℕ) (us : List ℕ) → (if b then [] else take k us) ≡ take k (if b then [] else us)
if-take false k us = refl
if-take true zero us = refl
if-take true (suc k) us = refl

if-drop :
    (b : Bool) (k : ℕ) (us : List ℕ) → (if b then [] else drop k us) ≡ drop k (if b then [] else us)
if-drop false k us = refl
if-drop true zero us = refl
if-drop true (suc k) us = refl

counted-others :
    (h g : Heap) (ps : List Ptr)
    → All (λ p. data_of (g.item_at p) ≡ data_of (h.item_at p)) ps
    → All (λ p. countable (h.item_at p) ≡ true) ps
    → All (λ p. countable (g.item_at p) ≡ true) ps
counted-others h g [] d a = tt
counted-others h g (p ∷ ps) (e, d) (x, a) =
    (countable-data (g.item_at p) (h.item_at p) e ∙ x, counted-others h g ps d a)

allocated_more : (n : ℕ) (ps : List Ptr) → All (λ p. p < n) ps → All (λ p. p < suc n) ps
allocated_more n ps = All-weaken _ _ ps (λ p lt. omega arith)

-- What a split of `n` leaves behind: a text with the right half behind the left one, which reads
-- as before, its front up to the cut.
pub record Halved (h : Heap) (t : TypePtr) (xs : List Ptr) (n : Ptr) (ys : List Ptr) (diff : ℕ)
    (g : Heap) : Type 0 where
  pub text : IsText g t (xs ++ n ∷ h.next_item ∷ ys)
  pub reads : visible g (xs ++ n ∷ h.next_item ∷ ys) ≡ visible h (xs ++ n ∷ ys)
  pub front : visible g (xs ++ n ∷ []) ≡ visible h xs ++ take diff (live_units (h.item_at n))
  pub back : visible g (h.next_item ∷ ys) ≡ drop diff (live_units (h.item_at n)) ++ visible h ys

module _ (h : Heap) (t : TypePtr) (xs : List Ptr) (n : Ptr) (ys : List Ptr) (diff : ℕ)
    (v : IsText h t (xs ++ n ∷ ys)) where
  abbrev g : Heap
  g = split_heap h n diff

  abbrev c : Heap
  c = cut_heap h n diff

  abbrev q : Ptr
  q = h.next_item

  used : n < q
  used = (All-right _ xs (n ∷ ys) v.allocated).0

  snoc : (xs ++ n ∷ []) ++ ys ≡ xs ++ n ∷ ys
  snoc = append_assoc xs (n ∷ []) ys

  snoc_two : (xs ++ n ∷ []) ++ q ∷ ys ≡ xs ++ n ∷ q ∷ ys
  snoc_two = append_assoc xs (n ∷ []) (q ∷ ys)

  type-cut : c.type_at t ≡ h.type_at t
  unfolding cut_heap
  type-cut = refl

  splice : Spliceable c t (xs ++ n ∷ []) ys q
  splice = record {
    links =
        subst (λ ps. Links c none ps none) (sym snoc)
          (Links-frame h c none (xs ++ n ∷ ys) none
            (All-weaken _ _ (xs ++ n ∷ ys) (cut_heap-SameLinks h n diff used) v.allocated) v.links);
    start =
        subst (λ ps. (c.type_at t).start ≡ head_or ps none) (sym snoc)
          (ap (λ (y : YType). y.start) type-cut ∙ v.start);
    distinct = subst Distinct (sym snoc) v.distinct;
    fresh = subst (Fresh q) (sym snoc) (alloc_item-Fresh v);
  }

  spliced : Spliced c (connect c t q (some n)) t ((xs ++ n ∷ []) ++ q ∷ ys)
  spliced =
      subst (λ o. Spliced c (connect c t q o) t ((xs ++ n ∷ []) ++ q ∷ ys)) (last_or-snoc none xs n)
        (connect-Spliced c t (xs ++ n ∷ []) ys q splice)

  right_before : (h.item_at n).right ≡ head_or ys none
  right_before = let (_, r, _) = Links-append_right h none xs (n ∷ ys) none v.links in r

  right_cut : (c.item_at n).right ≡ (h.item_at n).right
  right_cut = ap (λ (it : Item). it.right) (cut_heap-left h n diff used)

  split-SameLinks : (p : Ptr) → SameLinks (connect c t q (some n)) g p
  unfolding split_heap
  split-SameLinks p =
      tell_neighbours c t n q (c.item_at n).right (omega (arith, used))
        (ap (λ (it : Item). it.left) (cut_heap-right h n diff used) ∙ (unfold right_half in refl))
        (ap (λ (it : Item). it.right) (cut_heap-right h n diff used)
          ∙ (unfold right_half in sym right_cut))
        refl
        (λ e.
          head_or-far q ys (All-right _ xs (n ∷ ys) (alloc_item-Fresh v)).1
            (sym right_before ∙ sym right_cut ∙ e))
        p

  Links-split : Links g none (xs ++ n ∷ q ∷ ys) none
  Links-split =
      subst (λ ps. Links g none ps none) snoc_two
        (Links-frame (connect c t q (some n)) g none ((xs ++ n ∷ []) ++ q ∷ ys) none
          (All-every _ ((xs ++ n ∷ []) ++ q ∷ ys) split-SameLinks) spliced.links)

  flags-left : (g.item_at n).flags ≡ (h.item_at n).flags
  flags-left = ap (λ (d : ItemData). d.flags) (split-left h n diff used)

  flags-right : (g.item_at q).flags ≡ (h.item_at n).flags
  flags-right =
      ap (λ (d : ItemData). d.flags) (split-right h n diff used) ∙ (unfold right_half in refl)

  content-left : (g.item_at n).content ≡ take diff (h.item_at n).content
  content-left = ap (λ (d : ItemData). d.content) (split-left h n diff used)

  content-right : (g.item_at q).content ≡ drop diff (h.item_at n).content
  content-right =
      ap (λ (d : ItemData). d.content) (split-right h n diff used) ∙ (unfold right_half in refl)

  others-data :
      (ps : List Ptr)
      → Fresh n ps
      → All (λ p. p < q) ps
      → All (λ p. data_of (g.item_at p) ≡ data_of (h.item_at p)) ps
  others-data [] f b = tt
  others-data (p ∷ ps) (ne, f) (lt, b) = (split-other h n diff used p ne lt, others-data ps f b)

  Fresh-xs : Fresh n xs
  Fresh-xs = let (_, _, a) = Distinct-append xs (n ∷ ys) v.distinct in Apart-Fresh xs n ys a

  Fresh-ys : Fresh n ys
  Fresh-ys = let (_, (f, _), _) = Distinct-append xs (n ∷ ys) v.distinct in f

  data-xs : All (λ p. data_of (g.item_at p) ≡ data_of (h.item_at p)) xs
  data-xs = others-data xs Fresh-xs (All-left _ xs (n ∷ ys) v.allocated)

  data-ys : All (λ p. data_of (g.item_at p) ≡ data_of (h.item_at p)) ys
  data-ys = others-data ys Fresh-ys (All-right _ xs (n ∷ ys) v.allocated).1

  live-left : live_units (g.item_at n) ≡ take diff (live_units (h.item_at n))
  live-left =
      live_units-cut (g.item_at n) (h.item_at n) _ flags-left content-left
      ∙ if-take (deleted (h.item_at n)) diff (h.item_at n).content

  live-right : live_units (g.item_at q) ≡ drop diff (live_units (h.item_at n))
  live-right =
      live_units-cut (g.item_at q) (h.item_at n) _ flags-right content-right
      ∙ if-drop (deleted (h.item_at n)) diff (h.item_at n).content

  visible-front : visible g (xs ++ n ∷ []) ≡ visible h xs ++ take diff (live_units (h.item_at n))
  visible-front =
      visible-append g xs (n ∷ []) ∙ rw (visible-SameData h g xs data-xs, live-left, append-nil)

  visible-back : visible g (q ∷ ys) ≡ drop diff (live_units (h.item_at n)) ++ visible h ys
  visible-back = rw (live-right, visible-SameData h g ys data-ys)

  visible-whole : visible g (xs ++ n ∷ q ∷ ys) ≡ visible h (xs ++ n ∷ ys)
  visible-whole =
      let us = live_units (h.item_at n) in
      ap (visible g) (sym snoc_two)
      ∙ visible-append g (xs ++ n ∷ []) (q ∷ ys)
      ∙ ap (λ l. l ++ visible g (q ∷ ys)) visible-front
      ∙ ap (λ l. (visible h xs ++ take diff us) ++ l) visible-back
      ∙ append_assoc (visible h xs) (take diff us) (drop diff us ++ visible h ys)
      ∙ ap (λ l. visible h xs ++ l)
          (sym (append_assoc (take diff us) (drop diff us) (visible h ys))
            ∙ ap (λ l. l ++ visible h ys) (take-append-drop diff us))
      ∙ sym (visible-append h xs (n ∷ ys))

  split-Distinct : Distinct (xs ++ n ∷ q ∷ ys)
  split-Distinct =
      subst Distinct snoc_two (Distinct-insert (xs ++ n ∷ []) ys q splice.distinct splice.fresh)

  counted-split : All (λ p. countable (g.item_at p) ≡ true) (xs ++ n ∷ q ∷ ys)
  counted-split =
      let cn = (All-right _ xs (n ∷ ys) v.counted).0 in
      All-append _ xs (n ∷ q ∷ ys)
        (counted-others h g xs data-xs (All-left _ xs (n ∷ ys) v.counted))
        (
          countable-flags (g.item_at n) (h.item_at n) flags-left ∙ cn,
          (
            countable-flags (g.item_at q) (h.item_at n) flags-right ∙ cn,
            counted-others h g ys data-ys (All-right _ xs (n ∷ ys) v.counted).1,
          ),
        )

  pub split-Halved : Halved h t xs n ys diff g
  split-Halved = record {
    text = record {
      links = Links-split;
      start =
          ap (λ (y : YType). y.start) (split_heap-type h n diff t)
          ∙ v.start
          ∙ head_or-grown xs n q ys;
      distinct = split-Distinct;
      allocated = rw (split_heap-next h n diff) (
          All-append _ xs (n ∷ q ∷ ys) (allocated_more q xs (All-left _ xs (n ∷ ys) v.allocated)) (
            omega (arith, used),
            (omega arith, allocated_more q ys (All-right _ xs (n ∷ ys) v.allocated).1),
          ));
      fits =
          rw (split_heap-next h n diff, length-append)
            (omega (arith, v.fits, length-append xs (n ∷ ys)));
      counted = counted-split;
      len =
          ap (λ (y : YType). y.len) (split_heap-type h n diff t)
          ∙ v.len
          ∙ ap length (sym visible-whole);
    };
    reads = visible-whole;
    front = visible-front;
    back = visible-back;
  }

-- splitItem at an offset within an item of a well-formed text ends and leaves a well-formed text
-- with the right half, at a new address, behind the left one. The text reads as before, and the
-- cut lies at the offset.
pub split_item-Halved :
    (h : Heap) (t : TypePtr) (xs : List Ptr) (n : Ptr) (ys : List Ptr) (diff : ℕ)
    → IsText h t (xs ++ n ∷ ys)
    → diff ≤ len (h.item_at n)
    → (g : Heap) × (split_item h n diff ≡ done (h.next_item, g)) × Halved h t xs n ys diff g
split_item-Halved h t xs n ys diff v le =
    let inside : ltb (len (h.item_at n)) diff ≡ false = ground arith in
    (split_heap h n diff, split_item_lem h n diff ∙ rw inside, split-Halved h t xs n ys diff v)
