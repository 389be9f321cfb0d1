-- ===== src/YType/Position.antt =====
-- findPos as a whole: the neighbours that straddle a visible index.
use cert_yjs.Base.{
  ℕ, zero, suc, ◌+◌, ◌≤◌, ◌<◌, ◌≡◌, refl, ap, sym, subst, ◌∙◌, true, Option, none, some, List, [],
  ◌∷◌, ◌++◌, All, inl, inr, length, length-append, u64_mod, arith, if◌then◌else◌, Bool-cases, done,
  ◌>>=◌,
}
use cert_yjs.Item.{Ptr, TypePtr, countable, deleted}
use cert_yjs.Heap.{Heap}
use cert_yjs.YType.{skip_tombstones, seek, find_pos}
use cert_yjs.YType.Chain.{visible}
use cert_yjs.YType.Links.{head_or, last_or, Links, Links-append_right}
use cert_yjs.YType.Distinct.{All-right}
use cert_yjs.YType.Same.{visible-append}
use cert_yjs.YType.Valid.{IsText}
use cert_yjs.YType.Seek.{
  Position, last_or-snoc, whole_snoc, visible-snoc, dead-length, seek-Position,
}

skip_some :
    (k : ℕ) (h : Heap) (left : Option Ptr) (p : Ptr)
    → skip_tombstones (suc k) h left (some p) ≡ (
        if deleted (h.item_at p)
        then skip_tombstones k h (some p) (h.item_at p).right
        else done (left, some p))
unfolding skip_tombstones
skip_some k h left p = refl

-- The cursor after the leading tombstones: `front` reads as nothing.
record Skipped (k : ℕ) (h : Heap) (xs ys : List Ptr) : Type 0 where
  front : List Ptr
  back : List Ptr
  whole : front ++ back ≡ xs ++ ys
  runs :
      skip_tombstones k h (last_or none xs) (head_or ys none)
      ≡ done (last_or none front, head_or back none)
  same : length (visible h front) ≡ length (visible h xs)

Skipped-next :
    (k : ℕ) (h : Heap) (xs : List Ptr) (p : Ptr) (ys : List Ptr)
    → (h.item_at p).right ≡ head_or ys none
    → deleted (h.item_at p) ≡ true
    → Skipped k h (xs ++ p ∷ []) ys
    → Skipped (suc k) h xs (p ∷ ys)
Skipped-next k h xs p ys next d s = record {
  front = s.front;
  back = s.back;
  whole = s.whole ∙ whole_snoc h xs p ys;
  runs =
      skip_some k h (last_or none xs) p
      ∙ rw (d, next)
          (ap (λ o. skip_tombstones k h o (head_or ys none)) (sym (last_or-snoc none xs p)))
      ∙ s.runs;
  same = omega (arith, s.same, visible-snoc h xs p, dead-length (h.item_at p) d);
}

skip_tombstones-Skipped :
    (k : ℕ) (h : Heap) (xs ys : List Ptr)
    → Links h (last_or none xs) ys none
    → length ys < k
    → Skipped k h xs ys
skip_tombstones-Skipped zero h xs ys l b = absurd (omega arith)
skip_tombstones-Skipped (suc k) h xs [] l b = record {
  front = xs;
  back = [];
  whole = refl;
  runs = unfold skip_tombstones in refl;
  same = refl;
}
skip_tombstones-Skipped (suc k) h xs (p ∷ ys) (pl, pr, l) b =
    let l' = subst (λ o. Links h o ys none) (sym (last_or-snoc none xs p)) l in
    elim (Bool-cases (deleted (h.item_at p))) [
      | inl d ↦
          Skipped-next k h xs p ys pr d
            (skip_tombstones-Skipped k h (xs ++ p ∷ []) ys l' (omega arith))
      | inr d ↦ record {
        front = xs;
        back = p ∷ ys;
        whole = refl;
        runs = skip_some k h (last_or none xs) p ∙ rw d;
        same = refl;
      }
    ]

find_pos_lem :
    (h : Heap) (t : TypePtr) (index : ℕ)
    → find_pos h t index ≡ (
        skip_tombstones (suc h.next_item) h none (h.type_at t).start >>= λ c.
        seek (suc h.next_item) h index 0 c.0 c.1)
unfolding find_pos
find_pos_lem h t index = refl

module _ (h : Heap) (t : TypePtr) (ps : List Ptr) (index : ℕ) (v : IsText h t ps)
    (le : index ≤ length (visible h ps)) (small : index < u64_mod) where
  Skipped-Position : Skipped (suc h.next_item) h [] ps → Position h ps index (find_pos h t index)
  Skipped-Position s =
      let l : Links h none (s.front ++ s.back) none = rw s.whole v.links in
      let c : All (λ p. countable (h.item_at p) ≡ true) (s.front ++ s.back) =
        rw s.whole v.counted in
      let run : find_pos h t index
          ≡ seek (suc h.next_item) h index 0 (last_or none s.front) (head_or s.back none) =
        find_pos_lem h t index ∙ rw (v.start, s.runs) in
      let count : length (visible h ps) ≡ length (visible h s.front) + length (visible h s.back) =
        ap (λ zs. length (visible h zs)) (sym s.whole)
        ∙ ap length (visible-append h s.front s.back)
        ∙ length-append (visible h s.front) (visible h s.back) in
      subst (λ r. Position h ps index r) (sym run)
        (subst
          (λ zs.
            Position h zs index
              (seek (suc h.next_item) h index 0 (last_or none s.front) (head_or s.back none)))
          s.whole
          (seek-Position (suc h.next_item) h s.front s.back index index
            (Links-append_right h none s.front s.back none l) (All-right _ s.front s.back c)
            (omega (arith, v.fits, ap length (sym s.whole), length-append s.front s.back))
            (omega (arith, s.same)) small (omega (arith, s.same))))

  -- `findPos` ends on the boundary at the visible index, or inside the item that spans it, with
  -- the offset there, where the index is within the text.
  pub find_pos-Position : Position h ps index (find_pos h t index)
  find_pos-Position =
      Skipped-Position
        (skip_tombstones-Skipped (suc h.next_item) h [] ps v.links (omega (arith, v.fits)))
