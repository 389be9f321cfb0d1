-- ===== src/Diff/Known.antt =====
-- What an observer knows from its last poll, and the steps of `Poll`.

use cert_yjs.Base.{
  ℕ, zero, suc, ◌+◌, ◌≤◌, ◌<◌, ◌≡◌, refl, ap, sym, ◌∙◌, true, false, Option, some, List, [], ◌∷◌,
  ◌++◌, ltb, length, if◌then◌else◌, done, append-nil, append_assoc, All, u64_mod, arith, Bool-cases,
  inl, inr,
}
use cert_yjs.Ident.{Client, Clock}
use cert_yjs.Item.{Ptr, Item}
use cert_yjs.Heap.{Heap}
use cert_yjs.Delta.{DeltaOp}
use cert_yjs.Delta.Walk.{Turns, Turns-insert, Turns-delete, Turns-retain, Turns-skip, Turns-cast}
use cert_yjs.Diff.{Token, deleted_contains, note_item, classify_known, poll_item, poll_loop}
use cert_yjs.YType.{SnapshotChar}
use cert_yjs.YType.Chain.{Linked}
use cert_yjs.YType.Chars.{chars_of, chars, live}

-- The token that a walk leaves: every item of the list noted, in order.
abbrev pub noted : Heap → List Ptr → Token → Token
noted h [] token = token
noted h (p ∷ ps) token = noted h ps (note_item token (h.item_at p))

-- The characters of a text at two moments. A character stays as it is, becomes a tombstone, or is
-- new; the predicate says which ids were new after the first moment.
pub data Grown (New : Client → Clock → Type 0)
    : List SnapshotChar → List SnapshotChar → Type 0 where
  none_left : Grown New [] []
  kept :
      {xs ys : List SnapshotChar}
      → (c : SnapshotChar) → Grown New xs ys
      → Grown New (c ∷ xs) (c ∷ ys)
  killed :
      {xs ys : List SnapshotChar}
      → (c : SnapshotChar) → c.deleted ≡ false
      → Grown New xs ys
      → Grown New (c ∷ xs) (record c { deleted = true } ∷ ys)
  born :
      {xs ys : List SnapshotChar}
      → (c : SnapshotChar) → New c.client c.clock
      → Grown New xs ys
      → Grown New xs (c ∷ ys)

pub length-Grown :
    {New : Client → Clock → Type 0} {xs ys : List SnapshotChar}
    → Grown New xs ys
    → length xs ≤ length ys
length-Grown Grown.none_left = omega arith
length-Grown (Grown.kept c r) = let l = length-Grown r in omega arith
length-Grown (Grown.killed c e r) = let l = length-Grown r in omega arith
length-Grown (Grown.born c i r) = let l = length-Grown r in omega arith

-- The token knows a character, and whether it is a tombstone.
abbrev pub Known : Token → SnapshotChar → Type 0
Known o c =
    (ltb c.clock (o.state_vector c.client) ≡ true)
    × (deleted_contains o c.client c.clock ≡ c.deleted)

module _ (o : Token) where
  -- Poll character by character.
  pub classify_known_all : List SnapshotChar → List DeltaOp → List DeltaOp
  classify_known_all [] delta = delta
  classify_known_all (c ∷ cs) delta =
      classify_known_all cs (classify_known o c.client c.deleted c.clock c.unit delta)

  classify_known_all-append :
      (xs ys : List SnapshotChar) (delta : List DeltaOp)
      → classify_known_all (xs ++ ys) delta ≡ classify_known_all ys (classify_known_all xs delta)
  unfolding classify_known_all
  classify_known_all-append [] ys delta = refl
  classify_known_all-append (c ∷ xs) ys delta = classify_known_all-append xs ys _

  poll_item-chars :
      (it : Item) (i : ℕ) (units : List ℕ) (delta : List DeltaOp)
      → poll_item o it i units delta ≡ classify_known_all (chars_of it i units) delta
  unfolding poll_item classify_known_all
  poll_item-chars it i [] delta = refl
  poll_item-chars it i (u ∷ units) delta = poll_item-chars it (suc i) units _

  pub poll_loop-chars :
      (k : ℕ) (h : Heap) (prev cur : Option Ptr) (ps : List Ptr) (token : Token)
      (delta : List DeltaOp)
      → Linked h prev cur ps
      → length ps < k
      → poll_loop k h o cur token delta
        ≡ done (noted h ps token, classify_known_all (chars h ps) delta)
  unfolding poll_loop classify_known_all
  poll_loop-chars zero h prev cur ps token delta l b = absurd (omega arith)
  poll_loop-chars (suc k) h prev cur [] token delta l b = rw l refl
  poll_loop-chars (suc k) h prev cur (p ∷ ps) token delta (e, _, l) b =
      let here = chars_of (h.item_at p) 0 (h.item_at p).content in
      let token' = note_item token (h.item_at p) in
      rw e (
        poll_loop-chars k h (some p) _ ps token' _ l (omega arith)
        ∙ ap (λ d. done (noted h ps token', classify_known_all (chars h ps) d))
            (poll_item-chars (h.item_at p) 0 (h.item_at p).content delta)
        ∙ ap (λ d. done (noted h ps token', d))
            (sym (classify_known_all-append here (chars h ps) delta)))

  Known-kept :
      {delta : List DeltaOp} {n : ℕ} {old new : List ℕ} (c : SnapshotChar)
      → Turns delta n old new
      → suc n < u64_mod
      → Known o c
      → Turns
          (classify_known o c.client c.deleted c.clock c.unit delta)
          (suc n)
          (old ++ (if c.deleted then [] else c.unit ∷ []))
          (new ++ (if c.deleted then [] else c.unit ∷ []))
  unfolding classify_known
  Known-kept c t b (k, d) = elim (Bool-cases c.deleted) [
    | inl e ↦ simp (k, d, e, append-nil) (Turns-skip t b)
    | inr e ↦ simp (k, d, e) (Turns-retain t b c.unit)
  ]

  Known-killed :
      {delta : List DeltaOp} {n : ℕ} {old new : List ℕ} (c : SnapshotChar)
      → Turns delta n old new
      → suc n < u64_mod
      → c.deleted ≡ false
      → Known o c
      → Turns
          (classify_known o c.client true c.clock c.unit delta)
          (suc n)
          (old ++ c.unit ∷ [])
          (new ++ [])
  unfolding classify_known
  Known-killed c t b e (k, d) = simp (k, d, e, append-nil) (Turns-delete t b c.unit)

  Known-born :
      {delta : List DeltaOp} {n : ℕ} {old new : List ℕ} (c : SnapshotChar)
      → Turns delta n old new
      → suc n < u64_mod
      → ltb c.clock (o.state_vector c.client) ≡ false
      → Turns
          (classify_known o c.client c.deleted c.clock c.unit delta)
          (suc n)
          old
          (new ++ (if c.deleted then [] else c.unit ∷ []))
  unfolding classify_known
  Known-born c t b k = elim (Bool-cases c.deleted) [
    | inl e ↦ rw (k, e, append-nil) (Turns-skip t b)
    | inr e ↦ rw (k, e) (Turns-insert t b c.unit)
  ]

  module _ (New : Client → Clock → Type 0)
      (fresh : (client : Client) (clock : Clock)
        → New client clock
        → ltb clock (o.state_vector client) ≡ false) where
    pub Grown-Turns :
        {xs ys : List SnapshotChar} {delta : List DeltaOp} {n : ℕ} {old new : List ℕ}
        → Grown New xs ys
        → All (Known o) xs
        → Turns delta n old new
        → n + length ys < u64_mod
        → Turns (classify_known_all ys delta) (n + length ys) (old ++ live xs) (new ++ live ys)
    unfolding classify_known_all
    Grown-Turns {n} {old} {new} Grown.none_left a t b =
        Turns-cast (n + 0) _ _ t (omega arith) (sym (append-nil old)) (sym (append-nil new))
    Grown-Turns {n} {old} {new} (Grown.kept {ys = ys} c r) (k, a) t b =
        Turns-cast (n + suc (length ys)) _ _
          (Grown-Turns r a (Known-kept c t (omega arith) k) (omega arith)) (omega arith)
          (append_assoc old _ _) (append_assoc new _ _)
    Grown-Turns {n} {old} {new} (Grown.killed {ys = ys} c e r) (k, a) t b =
        Turns-cast (n + suc (length ys)) _ _
          (Grown-Turns r a (Known-killed c t (omega arith) e k) (omega arith)) (omega arith)
          (append_assoc old _ _ ∙ rw e refl) (append_assoc new _ _)
    Grown-Turns {n} {old} {new} (Grown.born {ys = ys} c i r) a t b =
        Turns-cast (n + suc (length ys)) _ _
          (Grown-Turns r a (Known-born c t (omega arith) (fresh c.client c.clock i)) (omega arith))
          (omega arith) refl (append_assoc new _ _)
