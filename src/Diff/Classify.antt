-- ===== src/Diff/Classify.antt =====
-- What a transaction does to the characters of a text, and the steps of `textDelta`.
use cert_yjs.Base.{
  ℕ, zero, suc, ◌+◌, ◌≤◌, ◌<◌, ◌≡◌, refl, ap, sym, ◌∙◌, true, false, Option, none, some, List, [],
  ◌∷◌, ◌++◌, length, if◌then◌else◌, done, append-nil, append_assoc, All, u64_mod, arith, Bool-cases,
  inl, inr,
}
use cert_yjs.Ident.{ItemId, new_id}
use cert_yjs.Span.{IdSpan}
use cert_yjs.Span.Among.{Among, Unwrapped, contains_id-Among, contains_id-outside}
use cert_yjs.Item.{Ptr, TypePtr, Item}
use cert_yjs.Heap.{Heap}
use cert_yjs.Delta.{DeltaOp, trim_retain, apply_delta}
use cert_yjs.Delta.Walk.{
  Turns, Turns-empty, Turns-insert, Turns-delete, Turns-retain, Turns-skip, Turns-cast, patch-Turns,
}
use cert_yjs.Delta.Patch.{outcome, apply_delta-patch}
use cert_yjs.Diff.{classify_change, text_delta_item, text_delta_loop, text_delta}
use cert_yjs.YType.{SnapshotChar, text}
use cert_yjs.YType.Chain.{Linked, IsList, visible, text-visible}
use cert_yjs.YType.Chars.{chars_of, chars, live, live-chars, length-live}

abbrev pub id_of_char : SnapshotChar → ItemId
id_of_char c = new_id c.client c.clock

-- The characters before a transaction and after it. A character stays as it is, becomes a
-- tombstone, which the record of deletions has, or is new, which the record of insertions has; a
-- new one may be a tombstone already.
pub data Changed (inserts deletes : List IdSpan)
    : List SnapshotChar → List SnapshotChar → Type 0 where
  none_left : Changed inserts deletes [] []
  kept :
      {xs ys : List SnapshotChar}
      → (c : SnapshotChar) → ¬ Among inserts (id_of_char c)
      → ¬ Among deletes (id_of_char c)
      → Changed inserts deletes xs ys
      → Changed inserts deletes (c ∷ xs) (c ∷ ys)
  killed :
      {xs ys : List SnapshotChar}
      → (c : SnapshotChar) → c.deleted ≡ false
      → ¬ Among inserts (id_of_char c)
      → Among deletes (id_of_char c)
      → Changed inserts deletes xs ys
      → Changed inserts deletes (c ∷ xs) (record c { deleted = true } ∷ ys)
  born :
      {xs ys : List SnapshotChar}
      → (c : SnapshotChar) → Among inserts (id_of_char c)
      → Changed inserts deletes xs ys
      → Changed inserts deletes xs (c ∷ ys)

pub length-Changed :
    {inserts deletes : List IdSpan} {xs ys : List SnapshotChar}
    → Changed inserts deletes xs ys
    → length xs ≤ length ys
length-Changed Changed.none_left = omega arith
length-Changed (Changed.kept c i d r) = let l = length-Changed r in omega arith
length-Changed (Changed.killed c e i d r) = let l = length-Changed r in omega arith
length-Changed (Changed.born c i r) = let l = length-Changed r in omega arith

module _ (inserts deletes : List IdSpan) where
  -- textDelta character by character.
  classify_all : List SnapshotChar → List DeltaOp → List DeltaOp
  classify_all [] delta = delta
  classify_all (c ∷ cs) delta =
      classify_all cs (classify_change inserts deletes c.deleted (id_of_char c) c.unit delta)

  classify_all-append :
      (xs ys : List SnapshotChar) (delta : List DeltaOp)
      → classify_all (xs ++ ys) delta ≡ classify_all ys (classify_all xs delta)
  unfolding classify_all
  classify_all-append [] ys delta = refl
  classify_all-append (c ∷ xs) ys delta = classify_all-append xs ys _

  text_delta_item-chars :
      (it : Item) (i : ℕ) (units : List ℕ) (delta : List DeltaOp)
      → text_delta_item inserts deletes it i units delta ≡ classify_all (chars_of it i units) delta
  unfolding text_delta_item classify_all
  text_delta_item-chars it i [] delta = refl
  text_delta_item-chars it i (u ∷ units) delta = text_delta_item-chars it (suc i) units _

  text_delta_loop-chars :
      (k : ℕ) (h : Heap) (prev cur : Option Ptr) (ps : List Ptr) (delta : List DeltaOp)
      → Linked h prev cur ps
      → length ps < k
      → text_delta_loop k h inserts deletes cur delta ≡ done (classify_all (chars h ps) delta)
  unfolding text_delta_loop classify_all
  text_delta_loop-chars zero h prev cur ps delta l b = absurd (omega arith)
  text_delta_loop-chars (suc k) h prev cur [] delta l b = rw l refl
  text_delta_loop-chars (suc k) h prev cur (p ∷ ps) delta (e, _, l) b =
      let here = chars_of (h.item_at p) 0 (h.item_at p).content in
      rw e (
        text_delta_loop-chars k h (some p) _ ps _ l (omega arith)
        ∙ ap (λ d. done (classify_all (chars h ps) d))
            (text_delta_item-chars (h.item_at p) 0 (h.item_at p).content delta)
        ∙ ap done (sym (classify_all-append here (chars h ps) delta)))

  module _ (ui : All Unwrapped inserts) (ud : All Unwrapped deletes) where
    change-born :
        {delta : List DeltaOp} {n : ℕ} {old new : List ℕ} (c : SnapshotChar)
        → Turns delta n old new
        → suc n < u64_mod
        → Among inserts (id_of_char c)
        → Turns
            (classify_change inserts deletes c.deleted (id_of_char c) c.unit delta)
            (suc n)
            old
            (new ++ (if c.deleted then [] else c.unit ∷ []))
    unfolding classify_change
    change-born c t b i =
        let e = contains_id-Among inserts (id_of_char c) ui i in
        elim (Bool-cases c.deleted) [
          | inl d ↦ rw (e, d, append-nil) (Turns-skip t b)
          | inr d ↦ rw (e, d) (Turns-insert t b c.unit)
        ]

    change-kept :
        {delta : List DeltaOp} {n : ℕ} {old new : List ℕ} (c : SnapshotChar)
        → Turns delta n old new
        → suc n < u64_mod
        → ¬ Among inserts (id_of_char c)
        → ¬ Among deletes (id_of_char c)
        → Turns
            (classify_change inserts deletes c.deleted (id_of_char c) c.unit delta)
            (suc n)
            (old ++ (if c.deleted then [] else c.unit ∷ []))
            (new ++ (if c.deleted then [] else c.unit ∷ []))
    unfolding classify_change
    change-kept c t b i k =
        let e = contains_id-outside inserts (id_of_char c) ui i in
        let f = contains_id-outside deletes (id_of_char c) ud k in
        elim (Bool-cases c.deleted) [
          | inl d ↦ simp (e, f, d, append-nil) (Turns-skip t b)
          | inr d ↦ simp (e, f, d) (Turns-retain t b c.unit)
        ]

    change-killed :
        {delta : List DeltaOp} {n : ℕ} {old new : List ℕ} (c : SnapshotChar)
        → Turns delta n old new
        → suc n < u64_mod
        → ¬ Among inserts (id_of_char c)
        → Among deletes (id_of_char c)
        → Turns
            (classify_change inserts deletes true (id_of_char c) c.unit delta)
            (suc n)
            (old ++ c.unit ∷ [])
            (new ++ [])
    unfolding classify_change
    change-killed c t b i k =
        let e = contains_id-outside inserts (id_of_char c) ui i in
        let f = contains_id-Among deletes (id_of_char c) ud k in
        simp (e, f, append-nil) (Turns-delete t b c.unit)

    Changed-Turns :
        {xs ys : List SnapshotChar} {delta : List DeltaOp} {n : ℕ} {old new : List ℕ}
        → Changed inserts deletes xs ys
        → Turns delta n old new
        → n + length ys < u64_mod
        → Turns (classify_all ys delta) (n + length ys) (old ++ live xs) (new ++ live ys)
    unfolding classify_all
    Changed-Turns {n} {old} {new} Changed.none_left t b =
        Turns-cast (n + 0) _ _ t (omega arith) (sym (append-nil old)) (sym (append-nil new))
    Changed-Turns {n} {old} {new} (Changed.kept {ys = ys} c i d r) t b =
        Turns-cast (n + suc (length ys)) _ _
          (Changed-Turns r (change-kept c t (omega arith) i d) (omega arith)) (omega arith)
          (append_assoc old _ _) (append_assoc new _ _)
    Changed-Turns {n} {old} {new} (Changed.killed {xs = xs} {ys = ys} c e i d r) t b =
        Turns-cast (n + suc (length ys)) _ _
          (Changed-Turns r (change-killed c t (omega arith) i d) (omega arith)) (omega arith)
          (append_assoc old _ _ ∙ rw e refl) (append_assoc new _ _)
    Changed-Turns {n} {old} {new} (Changed.born {ys = ys} c i r) t b =
        Turns-cast (n + suc (length ys)) _ _
          (Changed-Turns r (change-born c t (omega arith) i) (omega arith)) (omega arith) refl
          (append_assoc new _ _)

-- Memory before a transaction and after it, each with the linked list of the text, where the
-- record explains the difference: each character stays as it is, and neither set of the record
-- has it; or becomes a tombstone, and the set of deletions has it; or is new, and the set of
-- insertions has it; spans do not wrap, and there are fewer than 2^64 units. Then textDelta ends
-- on the memory after it, and ApplyDelta with its delta takes the text that Text read before to
-- the one that Text reads after.
pub text_delta-patches :
    (inserts deletes : List IdSpan) (h0 h : Heap) (t : TypePtr) (ps0 ps : List Ptr)
    → All Unwrapped inserts
    → All Unwrapped deletes
    → IsList h0 t ps0
    → IsList h t ps
    → Changed inserts deletes (chars h0 ps0) (chars h ps)
    → length (chars h ps) < u64_mod
    → (before : List ℕ) × (d : List DeltaOp) × (now : List ℕ) × (text h0 t ≡ done before)
      × (text_delta h t inserts deletes ≡ done d)
      × (text h t ≡ done now)
      × (apply_delta before d ≡ done (now, true))
unfolding text_delta
text_delta-patches inserts deletes h0 h t ps0 ps ui ud l0 l c s =
    let d = classify_all inserts deletes (chars h ps) [] in
    let turns = Changed-Turns inserts deletes ui ud c Turns-empty (omega arith) in
    let short = length-live (chars h0 ps0) in
    let fewer = length-Changed c in
    (
      visible h0 ps0,
      trim_retain d,
      visible h ps,
      text-visible h0 t ps0 l0,
      rw
          (text_delta_loop-chars inserts deletes (suc h.next_item) h none _ ps [] l.chain
            (omega (arith, l.fits)))
          refl,
      text-visible h t ps l,
      rw (sym (live-chars h0 ps0), sym (live-chars h ps))
          (apply_delta-patch (live (chars h0 ps0)) (trim_retain d) (omega arith)
            ∙ ap (λ o. done (outcome o)) (patch-Turns turns)),
    )
