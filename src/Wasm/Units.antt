-- ===== src/Wasm/Units.antt =====
-- Code units and deltas over the boundary to JavaScript, and back.
use cert_yjs.Base.{
  ℕ, ◌+◌, ◌*◌, ◌/◌, ◌%◌, ◌^◌, ◌<◌, ◌≡◌, refl, ap, List, [], ◌∷◌, All, arith, ◌⊎◌, inl, inr, ◌∙◌,
}
use cert_yjs.Delta.{DeltaOp, retain_op, insert_op, delete_op}
use cert_yjs.Wasm.{
  code_units_from_js, code_units_to_js, DeltaEntry, delta_value, float64, float_from, round_to,
}

two_bytes : (u : ℕ) → u < 65536 → u % 256 + 256 * (u / 256 % 256) ≡ u
two_bytes u b = omega arith

-- Code units that fit 16 bits read back from their bytes.
pub code_units_from_js-code_units_to_js :
    (units : List ℕ)
    → All (λ u. u < 65536) units
    → code_units_from_js (code_units_to_js units) ≡ units
unfolding code_units_from_js code_units_to_js
code_units_from_js-code_units_to_js [] a = refl
code_units_from_js-code_units_to_js (u ∷ units) (b, a) =
    ap (λ v. v ∷ code_units_from_js (code_units_to_js units)) (two_bytes u b)
    ∙ ap (λ us. u ∷ us) (code_units_from_js-code_units_to_js units a)

-- A number of 53 bits is a double.
float64_small : (n : ℕ) → n < 2 ^ 53 → float64 n ≡ n
unfolding float64 float_from round_to
float64_small n b = ground arith

-- What an entry says, read independently of how it was written.
unfoldable pub entry_op : DeltaEntry → DeltaOp
unfolding code_units_from_js retain_op insert_op delete_op
entry_op (DeltaEntry.retains n) = retain_op n
entry_op (DeltaEntry.inserts bytes) = insert_op (code_units_from_js bytes)
entry_op (DeltaEntry.deletes n) = delete_op n

unfoldable pub entry_ops : List DeltaEntry → List DeltaOp
unfolding entry_op
entry_ops [] = []
entry_ops (e ∷ entries) = entry_op e ∷ entry_ops entries

-- An entry as yjs makes them.
abbrev pub IsOp : DeltaOp → Type 0
IsOp op =
    ((n : ℕ) × (n < 2 ^ 53) × (op ≡ retain_op n))
    ⊎ (((n : ℕ) × (n < 2 ^ 53) × (op ≡ delete_op n))
        ⊎ ((units : List ℕ) × All (λ u. u < 65536) units × (op ≡ insert_op units)))

delta_value_nil : delta_value [] ≡ []
unfolding delta_value
delta_value_nil = refl

delta_value-retain :
    (n : ℕ) (delta : List DeltaOp)
    → delta_value (retain_op n ∷ delta) ≡ DeltaEntry.retains (float64 n) ∷ delta_value delta
unfolding delta_value retain_op
delta_value-retain n delta = refl

delta_value-delete :
    (n : ℕ) (delta : List DeltaOp)
    → delta_value (delete_op n ∷ delta) ≡ DeltaEntry.deletes (float64 n) ∷ delta_value delta
unfolding delta_value delete_op
delta_value-delete n delta = refl

delta_value-insert :
    (us : List ℕ) (delta : List DeltaOp)
    → delta_value (insert_op us ∷ delta)
      ≡ DeltaEntry.inserts (code_units_to_js us) ∷ delta_value delta
unfolding delta_value insert_op
delta_value-insert us delta = refl

-- A delta of entries as yjs makes them, whose units fit 16 bits and whose lengths fit the 53
-- bits of a double, reads back from the value that deltaValue renders, the inserted text from
-- its bytes, as the same delta.
pub entry_ops-delta_value :
    (delta : List DeltaOp) → All IsOp delta → entry_ops (delta_value delta) ≡ delta
unfolding entry_ops
entry_ops-delta_value [] a = ap entry_ops delta_value_nil
entry_ops-delta_value (op ∷ delta) (inl (n, small, e), a) =
    rw (e, delta_value-retain, float64_small n small)
      (ap (λ ops. retain_op n ∷ ops) (entry_ops-delta_value delta a))
entry_ops-delta_value (op ∷ delta) (inr (inl (n, small, e)), a) =
    rw (e, delta_value-delete, float64_small n small)
      (ap (λ ops. delete_op n ∷ ops) (entry_ops-delta_value delta a))
entry_ops-delta_value (op ∷ delta) (inr (inr (us, small, e)), a) =
    rw (e, delta_value-insert, code_units_from_js-code_units_to_js us small)
      (ap (λ ops. insert_op us ∷ ops) (entry_ops-delta_value delta a))
