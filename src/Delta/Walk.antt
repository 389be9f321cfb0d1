-- ===== src/Delta/Walk.antt =====
-- Deltas under construction: a walk over a text appends one entry for each unit.
use cert_yjs.Base.{
  ℕ, suc, ◌≤◌, ◌<◌, ◌≡◌, refl, ap, sym, ◌∙◌, Option, none, some, List, [], ◌∷◌, ◌++◌, append-nil,
  append_assoc, u64_mod, arith,
}
use cert_yjs.Delta.{DeltaOp, retain_op, delete_op, insert_op, delta_snoc, trim_retain}
use cert_yjs.Delta.Patch.{patch, prepend, prepend-append}
use cert_yjs.Delta.Snoc.{total, patch-delta_snoc, total-delta_snoc, patch-trim_retain}

-- The delta has turned the units `old` into the units `new`, whatever comes behind them; and it
-- has counted at most `n` units.
pub record Turns (delta : List DeltaOp) (n : ℕ) (old new : List ℕ) : Type 0 where
  pub turns :
      (more : List DeltaOp) (rest : List ℕ)
      → patch (delta ++ more) (old ++ rest) ≡ prepend new (patch more rest)
  pub counted : total delta ≤ n

prepend-idle : (o : Option (List ℕ)) → o ≡ prepend [] o
prepend-idle none = refl
prepend-idle (some r) = refl

pub Turns-empty : Turns [] 0 [] []
Turns-empty = record { turns = λ more rest. prepend-idle _; counted = omega arith }

module _ {delta : List DeltaOp} {n : ℕ} {old new : List ℕ} (t : Turns delta n old new)
    (small : suc n < u64_mod) where
  -- A step that reads the units `was` and writes the units `now`.
  Turns-step :
      (op : DeltaOp) (was now : List ℕ)
      → op.length ≤ 1
      → ((more : List DeltaOp) (rest : List ℕ)
          → patch (op ∷ more) (was ++ rest) ≡ prepend now (patch more rest))
      → Turns (delta_snoc delta op) (suc n) (old ++ was) (new ++ now)
  Turns-step op was now one step = record {
    turns = λ more rest.
        patch-delta_snoc delta op more ((old ++ was) ++ rest) (omega (arith, t.counted))
        ∙ ap (patch (delta ++ op ∷ more)) (append_assoc old was rest)
        ∙ t.turns (op ∷ more) (was ++ rest)
        ∙ ap (prepend new) (step more rest)
        ∙ sym (prepend-append new now (patch more rest));
    counted = omega (arith, t.counted, total-delta_snoc delta op (omega (arith, t.counted)));
  }

  pub Turns-insert :
      (u : ℕ) → Turns (delta_snoc delta (insert_op (u ∷ []))) (suc n) old (new ++ u ∷ [])
  unfolding patch
  Turns-insert u =
      rw append-nil at
        (Turns-step (insert_op (u ∷ [])) [] (u ∷ []) (omega arith) (λ more rest. refl))

  pub Turns-delete : (u : ℕ) → Turns (delta_snoc delta (delete_op 1)) (suc n) (old ++ u ∷ []) new
  unfolding patch
  Turns-delete u = rw append-nil at (
      Turns-step (delete_op 1) (u ∷ []) [] (omega arith)
        (λ more rest. ground (arith, prepend-idle (patch more rest))))

  pub Turns-retain :
      (u : ℕ) → Turns (delta_snoc delta (retain_op 1)) (suc n) (old ++ u ∷ []) (new ++ u ∷ [])
  unfolding patch
  Turns-retain u =
      Turns-step (retain_op 1) (u ∷ []) (u ∷ []) (omega arith) (λ more rest. ground arith)

  pub Turns-skip : Turns delta (suc n) old new
  Turns-skip = record { turns = t.turns; counted = omega (arith, t.counted) }

patch-nil :
    (o : Option (List ℕ)) (new : List ℕ) → o ≡ prepend new (patch [] []) → o ≡ some (new ++ [])
unfolding patch
patch-nil o new e = e

-- The same fact about equal texts, with a larger count.
pub Turns-cast :
    {delta : List DeltaOp} {n : ℕ} {old new : List ℕ} (m : ℕ) (old' new' : List ℕ)
    → Turns delta n old new
    → n ≤ m
    → old ≡ old'
    → new ≡ new'
    → Turns delta m old' new'
Turns-cast {delta} {n} m old' new' t le p q =
    rw (← p, ← q) (record { turns = t.turns; counted = omega (arith, t.counted) })

-- At the end of a walk the delta, without a trailing retain, patches the old text to the new one.
pub patch-Turns :
    {delta : List DeltaOp} {n : ℕ} {old new : List ℕ}
    → Turns delta n old new
    → patch (trim_retain delta) old ≡ some new
patch-Turns {delta} {old} {new} t =
    patch-trim_retain delta old new (simp append-nil at (patch-nil _ new (t.turns [] [])))
