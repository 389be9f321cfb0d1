-- ===== src/Text/Place.antt =====
-- The normalized position of InsertIn and DeleteIn: where the index falls, the item that spans it
-- split.
use cert_yjs.Base.{
  ℕ, ◌+◌, ◌≤◌, ◌<◌, ◌≡◌, ◌⊎◌, refl, ap, sym, subst, ◌∙◌, true, false, Option, none, some, List, [],
  ◌∷◌, ◌++◌, All, inl, inr, append_assoc, length, length-append, length-take, take, drop,
  take-append-drop, take-length_append, drop-length_append, u64_mod, ltb, lt→ltb, if◌then◌else◌,
  arith, done, ◌>>=◌,
}
use cert_yjs.Item.{Ptr, TypePtr, len, deleted}
use cert_yjs.YType.{find_pos}
use cert_yjs.YType.Chain.{visible, live_units}
use cert_yjs.YType.Links.{head_or, last_or}
use cert_yjs.YType.Distinct.{All-right}
use cert_yjs.YType.Same.{visible-append}
use cert_yjs.YType.Valid.{IsText}
use cert_yjs.YType.Seek.{Cut, last_or-snoc}
use cert_yjs.YType.Position.{find_pos-Position}
use cert_yjs.Store.{Store}
use cert_yjs.Split.{split_node}
use cert_yjs.Split.Halves.{split_heap}
use cert_yjs.Split.Text.{Halved, split-Halved}
use cert_yjs.Split.Node.{InRuns, split_store, split_node-Resplit}
use cert_yjs.Text.{normalize}

-- An item that no index splits, or that its client's run list holds.
abbrev pub Splittable : Store → Ptr → Type 0
Splittable s p =
    (len (s.heap.item_at p) ≤ 1)
    ⊎ ((older : List Ptr) × (newer : List Ptr) × InRuns s p older newer)

-- The place at an index of the text `ps`: the text is `front` and `back`, which read as the units
-- before the index and those from it on.
pub record Normalized (s : Store) (t : TypePtr) (ps : List Ptr) (index : ℕ) : Type 0 where
  pub left : Option Ptr
  pub right : Option Ptr
  pub offset : ℕ
  pub s' : Store
  pub front : List Ptr
  pub back : List Ptr
  pub found : find_pos s.heap t index ≡ done (left, right, offset)
  pub placed : normalize s left right offset ≡ done (last_or none front, head_or back none, s')
  pub text : IsText s'.heap t (front ++ back)
  pub before : visible s'.heap front ≡ take index (visible s.heap ps)
  pub after : visible s'.heap back ≡ drop index (visible s.heap ps)

pub parts :
    (f g us : List ℕ) (index : ℕ)
    → us ≡ f ++ g
    → length f ≡ index
    → (f ≡ take index us) × (g ≡ drop index us)
parts f g us index e c =
    (sym (rw (e, sym c) (take-length_append f g)), sym (rw (e, sym c) (drop-length_append f g)))

pub normalize_zero :
    (s : Store) (left right : Option Ptr) → normalize s left right 0 ≡ done (left, right, s)
unfolding normalize
normalize_zero s left right = refl

normalize-some :
    (s : Store) (p : Ptr) (right : Option Ptr) (offset : ℕ)
    → normalize s (some p) right offset ≡ (
        if ltb 0 offset
        then (split_node s p offset >>= λ out. done (some p, some out.0, out.1))
        else done (some p, right, s))
unfolding normalize
normalize-some s p right offset = refl

module _ (s : Store) (t : TypePtr) (ps : List Ptr) (index : ℕ) (v : IsText s.heap t ps) where
  -- The boundary is there already.
  Normalized-boundary :
      (front back : List Ptr)
      → front ++ back ≡ ps
      → find_pos s.heap t index ≡ done (last_or none front, head_or back none, 0)
      → length (visible s.heap front) ≡ index
      → Normalized s t ps index
  Normalized-boundary front back whole found count =
      let (b, a) =
        parts (visible s.heap front) (visible s.heap back) (visible s.heap ps) index
          (ap (visible s.heap) (sym whole) ∙ visible-append s.heap front back) count in
      record {
        left = last_or none front;
        right = head_or back none;
        offset = 0;
        s' = s;
        front = front;
        back = back;
        found = found;
        placed = normalize_zero s (last_or none front) (head_or back none);
        text = subst (IsText s.heap t) (sym whole) v;
        before = b;
        after = a;
      }

  -- The index falls inside the item `p`.
  module _ (ws : List Ptr) (p : Ptr) (back : List Ptr) (offset : ℕ) (older newer : List Ptr)
      (whole : ws ++ p ∷ back ≡ ps) (live : deleted (s.heap.item_at p) ≡ false) (pos : 0 < offset)
      (inside : offset < len (s.heap.item_at p)) (sum : length (visible s.heap ws) + offset ≡ index)
      (r : InRuns s p older newer) where
    halves : Halved s.heap t ws p back offset (split_heap s.heap p offset)
    halves = split-Halved s.heap t ws p back offset (subst (IsText s.heap t) (sym whole) v)

    units : List ℕ
    units = live_units (s.heap.item_at p)

    size : length units ≡ len (s.heap.item_at p)
    unfolding units
    size = rw live refl

    all_units :
        visible s.heap ps
        ≡ (visible s.heap ws ++ take offset units) ++ (drop offset units ++ visible s.heap back)
    unfolding units
    all_units =
        ap (visible s.heap) (sym whole)
        ∙ visible-append s.heap ws (p ∷ back)
        ∙ ap (λ l. visible s.heap ws ++ (l ++ visible s.heap back))
            (sym (take-append-drop offset units))
        ∙ ap (λ l. visible s.heap ws ++ l)
            (append_assoc (take offset units) (drop offset units) (visible s.heap back))
        ∙ sym (
            append_assoc (visible s.heap ws) (take offset units)
              (drop offset units ++ visible s.heap back))

    front_length : length (visible s.heap ws ++ take offset units) ≡ index
    front_length =
        length-append (visible s.heap ws) (take offset units)
        ∙ omega (arith, length-take offset units (omega (arith, size, inside)), sum)

    split_placed :
        (right : Option Ptr)
        → normalize s (some p) right offset
          ≡ done (some p, some s.heap.next_item, split_store s p offset older newer)
    split_placed right =
        let on : ltb 0 offset ≡ true = lt→ltb 0 offset pos in
        normalize-some s p right offset
        ∙ rw (on, (split_node-Resplit r offset pos (omega (arith, inside))).runs)

    Normalized-inside :
        find_pos s.heap t index ≡ done (some p, head_or back none, offset) → Normalized s t ps index
    unfolding split_store units
    Normalized-inside found =
        let (b, a) =
          parts (visible s.heap ws ++ take offset units) (drop offset units ++ visible s.heap back)
            (visible s.heap ps) index all_units front_length in
        record {
          left = some p;
          right = head_or back none;
          offset = offset;
          s' = split_store s p offset older newer;
          front = ws ++ p ∷ [];
          back = s.heap.next_item ∷ back;
          found = found;
          placed =
              split_placed (head_or back none)
              ∙ ap (λ o. done (o, some s.heap.next_item, split_store s p offset older newer))
                  (sym (last_or-snoc none ws p));
          text =
              subst (IsText (split_heap s.heap p offset) t)
                (sym (append_assoc ws (p ∷ []) (s.heap.next_item ∷ back))) halves.text;
          before = halves.front ∙ b;
          after = halves.back ∙ a;
        }

  Cut-Normalized :
      (front back : List Ptr) (offset : ℕ)
      → All (Splittable s) ps
      → front ++ back ≡ ps
      → find_pos s.heap t index ≡ done (last_or none front, head_or back none, offset)
      → Cut s.heap front offset index
      → Normalized s t ps index
  Cut-Normalized front back offset all whole found (inl (z, c)) =
      Normalized-boundary front back whole (rw z at found) c
  Cut-Normalized front back offset all whole found (inr (ws, p, e, live, pos, inside, sum)) =
      let whole' : ws ++ p ∷ back ≡ ps =
        sym (append_assoc ws (p ∷ []) back) ∙ ap (λ zs. zs ++ back) (sym e) ∙ whole in
      let here = (All-right _ ws (p ∷ back) (subst (All (Splittable s)) (sym whole') all)).0 in
      elim here [
        | inl one ↦ absurd (omega arith)
        | inr (older, newer, r) ↦
            Normalized-inside ws p back offset older newer whole' live pos inside sum r (
              found
              ∙ ap (λ o. done (o, head_or back none, offset))
                  (ap (last_or none) e ∙ last_or-snoc none ws p))
      ]

  -- At an index within a well-formed text whose items can be split, findPos and the split after it
  -- end, and leave a well-formed text cut at the index, which reads as before.
  pub normalize-Normalized :
      All (Splittable s) ps
      → index ≤ length (visible s.heap ps)
      → index < u64_mod
      → Normalized s t ps index
  normalize-Normalized all le small =
      let q = find_pos-Position s.heap t ps index v le small in
      Cut-Normalized q.front q.back q.offset all q.whole q.runs q.cut
