-- ===== src/Delta/Patch.antt =====
-- `ApplyDelta` against a patch function on lists.
use cert_yjs.Base.{
  ℕ, zero, suc, ◌+◌, ◌-◌, ◌≤◌, ◌<◌, ◌≡◌, refl, ap, ◌∙◌, Bool, true, false, Option, none, some, List,
  [], ◌∷◌, ◌++◌, ◌==◌, ltb, add64, sub64, add64_lem, sub64_lem, length, length-drop, take, drop,
  get_elem?, if◌then◌else◌, done, ◌>>=◌, append-nil, append_assoc, u64_mod, arith, Bool-cases, inl,
  inr,
}
use cert_yjs.Delta.{
  delta_retain, delta_insert, DeltaOp, copy_units, apply_ops, keep_rest, apply_delta,
}

-- `xs` in front of a result, if there is one.
abbrev pub prepend : List ℕ → Option (List ℕ) → Option (List ℕ)
prepend xs none = none
prepend xs (some r) = some (xs ++ r)

-- What a delta means: it consumes the old units from the left, and keeps those it does not reach.
-- An entry that is no insert and no retain deletes.
unfoldable pub patch : List DeltaOp → List ℕ → Option (List ℕ)
patch [] s = some s
patch (op ∷ delta) s =
    let skip = patch delta (drop op.length s) in
    let here = patch delta s in
    if op.kind == delta_insert
    then prepend op.content here
    else if ltb (length s) op.length
    then none
    else if op.kind == delta_retain
    then prepend (take op.length s) skip
    else skip

-- The pair that Go returns for the outcome of a patch.
abbrev pub outcome : Option (List ℕ) → List ℕ × Bool
outcome none = ([], false)
outcome (some r) = (r, true)

drop-step :
    (s : List ℕ) (i : ℕ)
    → i < length s
    → (u : ℕ) × (get_elem? s i ≡ some u) × (drop i s ≡ u ∷ drop (suc i) s)
drop-step [] i h = absurd (omega arith)
drop-step (x ∷ xs) zero h = (x, refl, refl)
drop-step (x ∷ xs) (suc i) h = drop-step xs i (omega arith)

-- Copying reads the units from `i` on, one by one.
copy_units-take :
    (s : List ℕ) (n i : ℕ) (result : List ℕ)
    → i + n ≤ length s
    → length s < u64_mod
    → copy_units s n i result ≡ done (result ++ take n (drop i s))
unfolding copy_units
copy_units-take s zero i result h b = rw append-nil
copy_units-take s (suc n) i result h b =
    let (u, e, d) = drop-step s i (omega arith) in
    let next : add64 i 1 ≡ suc i = add64_lem i 1 (omega arith) ∙ omega arith in
    rw (e, d, next)
      (copy_units-take s n (suc i) (result ++ u ∷ []) (omega arith) b
        ∙ ap done (append_assoc result (u ∷ []) (take n (drop (suc i) s))))

pub take-all : (s : List ℕ) (n : ℕ) → length s ≡ n → take n s ≡ s
take-all [] zero h = refl
take-all [] (suc n) h = refl
take-all (x ∷ xs) zero h = absurd (omega arith)
take-all (x ∷ xs) (suc n) h = ap (λ ys. x ∷ ys) (take-all xs n (omega arith))

drop-nil : (n : ℕ) → drop {A = ℕ} n [] ≡ []
drop-nil zero = refl
drop-nil (suc n) = refl

pub drop-drop : (m n : ℕ) (s : List ℕ) → drop n (drop m s) ≡ drop (m + n) s
drop-drop zero n s = ap (λ k. drop k s) (omega arith)
drop-drop (suc m) n [] = simp drop-nil
drop-drop (suc m) n (x ∷ xs) =
    let e : suc m + n ≡ suc (m + n) = omega arith in rw e (drop-drop m n xs)

pub prepend-append :
    (xs ys : List ℕ) (o : Option (List ℕ)) → prepend (xs ++ ys) o ≡ prepend xs (prepend ys o)
prepend-append xs ys none = refl
prepend-append xs ys (some r) = ap some (append_assoc xs ys r)

-- The loop over the entries computes the patch of the units it has not passed.
apply_ops-patch :
    (s : List ℕ) (delta : List DeltaOp) (position : ℕ) (result : List ℕ)
    → position ≤ length s
    → length s < u64_mod
    → (apply_ops s delta position (length s - position) result >>= keep_rest s)
      ≡ done (outcome (prepend result (patch delta (drop position s))))
unfolding apply_ops patch keep_rest
apply_ops-patch s [] position result h b = rw (
  copy_units-take s (length s - position) position result (omega arith) b,
  take-all (drop position s) (length s - position) (omega (arith, length-drop position s)),
)
apply_ops-patch s (op ∷ delta) position result h b = elim (Bool-cases (op.kind == delta_insert)) [
  | inl e ↦ rw e (
      apply_ops-patch s delta position (result ++ op.content) h b
      ∙ ap (λ o. done (outcome o)) (prepend-append result op.content _))
  | inr e ↦ elim (Bool-cases (ltb (length s - position) op.length)) [
    | inl long ↦ rw (e, length-drop, long)
    | inr fits ↦
        let room : position + op.length ≤ length s = ground arith in
        let pos : add64 position op.length ≡ position + op.length = add64_lem _ _ (omega arith) in
        let left : sub64 (length s - position) op.length ≡ length s - (position + op.length) =
          sub64_lem _ _ (omega arith) (omega arith) ∙ omega arith in
        let rest = λ (r : List ℕ). apply_ops-patch s delta (position + op.length) r room b in
        elim (Bool-cases (op.kind == delta_retain)) [
          | inl r ↦
              rw
                (
                  e,
                  length-drop,
                  fits,
                  r,
                  copy_units-take s op.length position result room b,
                  pos,
                  left,
                  drop-drop,
                )
                (rest (result ++ take op.length (drop position s))
                  ∙ ap (λ o. done (outcome o)) (prepend-append result _ _))
          | inr r ↦ rw (e, length-drop, fits, r, pos, left, drop-drop) (rest result)
        ]
  ]
]

pub prepend-nil : (o : Option (List ℕ)) → prepend [] o ≡ o
prepend-nil none = refl
prepend-nil (some r) = refl

-- `ApplyDelta` never panics, and returns the patch, or nil and false exactly where there is none.
pub apply_delta-patch :
    (s : List ℕ) (delta : List DeltaOp)
    → length s < u64_mod
    → apply_delta s delta ≡ done (outcome (patch delta s))
unfolding apply_delta
apply_delta-patch s delta b =
    let whole : length s - 0 ≡ length s = omega arith in
    (rw whole at (apply_ops-patch s delta 0 [] (omega arith) b))
    ∙ ap (λ o. done (outcome o)) (prepend-nil (patch delta s))
