-- ===== src/Delta/Snoc.antt =====
-- Merging entries of one kind, and dropping a trailing retain, leave the meaning of a delta alone.
use cert_yjs.Base.{
  ℕ, zero, suc, ◌+◌, ◌-◌, ◌≤◌, ◌<◌, ◌≡◌, ◌⊎◌, refl, ap, true, false, none, some, List, [], ◌∷◌,
  ◌++◌, ◌==◌, ltb, add64_lem, length, length-drop, take, drop, take-append-drop, u64_mod, arith,
  Bool-cases, inl, inr,
}
use cert_yjs.Delta.{delta_insert, DeltaOp, join, delta_snoc, trim_retain}
use cert_yjs.Delta.Patch.{patch, prepend-append, drop-drop}

-- The sum of the lengths of the entries, which bounds what merging adds up.
abbrev pub total : List DeltaOp → ℕ
total [] = 0
total (op ∷ delta) = op.length + total delta

take-nil : (n : ℕ) → [] ≡ take {A = ℕ} n []
take-nil zero = refl
take-nil (suc n) = refl

take-add : (s : List ℕ) (m n : ℕ) → take m s ++ take n (drop m s) ≡ take (m + n) s
take-add s zero n = ap (λ k. take k s) (omega arith)
take-add [] (suc m) zero = take-nil (suc m + 0)
take-add [] (suc m) (suc n) = take-nil (suc m + suc n)
take-add (x ∷ s) (suc m) n = let e : suc m + n ≡ suc (m + n) = omega arith in rw (e, take-add s m n)

-- One merge: the joined entry patches as the two did, whatever follows.
join-patch :
    (last op : DeltaOp) (more : List DeltaOp) (s : List ℕ)
    → last.kind ≡ op.kind
    → last.length + op.length < u64_mod
    → patch (join last op ∷ more) s ≡ patch (last ∷ op ∷ more) s
unfolding patch join
join-patch last op more s same b = elim (Bool-cases (op.kind == delta_insert)) [
  | inl e ↦ simp (same, e, prepend-append)
  | inr e ↦
      simp (same, e, add64_lem last.length op.length b)
        (elim (Bool-cases (ltb (length s) last.length)) [
          | inl long ↦
              let long' : ltb (length s) (last.length + op.length) ≡ true = ground arith in
              simp (long, long')
          | inr fits ↦ elim (Bool-cases (ltb (length s) (last.length + op.length))) [
            | inl long ↦
                let long' : ltb (length s - last.length) op.length ≡ true = ground arith in
                simp (length-drop, fits, long, long') (ground arith)
            | inr fits' ↦
                let fits'' : ltb (length s - last.length) op.length ≡ false = ground arith in
                simp (length-drop, fits, fits', fits'', drop-drop)
                  (ground (
                    arith,
                    take-add s last.length op.length,
                    prepend-append (take last.length s) (take op.length (drop last.length s))
                        (patch more (drop (last.length + op.length) s)),
                  ))
          ]
        ])
]

-- The second delta does what the first one does, where the first one fits.
abbrev Refines : List DeltaOp → List DeltaOp → List ℕ → Type 0
Refines d e s = (patch d s ≡ none) ⊎ (patch d s ≡ patch e s)

Refines-cons :
    (op : DeltaOp) (d e : List DeltaOp) (s : List ℕ)
    → Refines d e s
    → Refines d e (drop op.length s)
    → Refines (op ∷ d) (op ∷ e) s
unfolding patch
Refines-cons op d e s here skip = ground arith

patch-cons_congr :
    (op : DeltaOp) (d e : List DeltaOp) (s : List ℕ)
    → ((t : List ℕ) → patch d t ≡ patch e t)
    → patch (op ∷ d) s ≡ patch (op ∷ e) s
unfolding patch
patch-cons_congr op d e s h = rw (h s, h (drop op.length s))

-- Appending by `deltaSnoc` means appending, also in front of further entries.
pub patch-delta_snoc :
    (delta : List DeltaOp) (op : DeltaOp) (more : List DeltaOp) (s : List ℕ)
    → total delta + op.length < u64_mod
    → patch (delta_snoc delta op ++ more) s ≡ patch (delta ++ op ∷ more) s
unfolding delta_snoc
patch-delta_snoc [] op more s b = refl
patch-delta_snoc (last ∷ []) op more s b = elim (Bool-cases (last.kind == op.kind)) [
  | inl e ↦ rw e (join-patch last op more s (ground arith) (omega arith))
  | inr e ↦ rw e
]
patch-delta_snoc (first ∷ next ∷ rest) op more s b =
    patch-cons_congr first _ _ s (λ t. patch-delta_snoc (next ∷ rest) op more t (omega arith))

pub total-delta_snoc :
    (delta : List DeltaOp) (op : DeltaOp)
    → total delta + op.length < u64_mod
    → total (delta_snoc delta op) ≤ total delta + op.length
unfolding delta_snoc join
total-delta_snoc [] op b = omega arith
total-delta_snoc (last ∷ []) op b = ground (arith, add64_lem last.length op.length)
total-delta_snoc (first ∷ next ∷ rest) op b =
    omega (arith, total-delta_snoc (next ∷ rest) op (omega arith))

trim_retain-Refines : (delta : List DeltaOp) (s : List ℕ) → Refines delta (trim_retain delta) s
unfolding trim_retain
trim_retain-Refines [] s = inr refl
trim_retain-Refines (last ∷ []) s = unfold patch in ground (arith, take-append-drop last.length s)
trim_retain-Refines (first ∷ next ∷ rest) s =
    Refines-cons first _ _ s (trim_retain-Refines (next ∷ rest) s)
      (trim_retain-Refines (next ∷ rest) (drop first.length s))

-- Dropping a trailing retain changes no patch that succeeds.
pub patch-trim_retain :
    (delta : List DeltaOp) (s r : List ℕ)
    → patch delta s ≡ some r
    → patch (trim_retain delta) s ≡ some r
patch-trim_retain delta s r h = ground (arith, trim_retain-Refines delta s)
