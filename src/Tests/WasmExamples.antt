-- ===== src/Tests/WasmExamples.antt =====
-- The theorems on the JavaScript binding at concrete inputs.
use cert_yjs.Base.{done, ◌≡◌, refl, none, List, [], ◌∷◌, arith, inl, inr, ◌>>=◌}
use cert_yjs.Item.{TypePtr, deleted}
use cert_yjs.Delta.{DeltaOp, retain_op, insert_op, delete_op}
use cert_yjs.Transaction
use cert_yjs.Wasm.{DocumentBinding, TextCall, delta_value, transact, code_units_from_js}
use cert_yjs.Wasm.Units.{entry_ops, entry_ops-delta_value}
use cert_yjs.Wasm.Routes.{writes, transact-writes}
use cert_yjs.Wasm.Reads.{ReadBack, run_body-ReadBack}
use cert_yjs.Tests.Fixtures.{word_store, word_tr, word_ptrs, word-IsText}

abbrev bound : DocumentBinding
bound = record { document = word_store 4; transaction = none }

-- "d" is inserted at the end, and the text is read.
abbrev body : List (TypePtr × TextCall)
body = (0, TextCall.insert 2 (100 ∷ 0 ∷ [])) ∷ (0, TextCall.to_string) ∷ []

transact-writes_example : transact bound body ≡ (
    Transaction.transact (word_store 4) (λ tr. writes tr body) >>= λ r.
    done (record { document = r.0; transaction = none }, r.1))
transact-writes_example = transact-writes bound body

run_body-ReadBack_example : ReadBack bound (word_tr 4) 0 (97 ∷ 99 ∷ []) 1 (120 ∷ 0 ∷ 172 ∷ 32 ∷ [])
unfolding deleted code_units_from_js
run_body-ReadBack_example =
    run_body-ReadBack bound (word_tr 4) 0 1 (120 ∷ 0 ∷ 172 ∷ 32 ∷ []) word_ptrs word-IsText
      (omega arith) (omega arith) (omega arith)
      (inl (omega arith), (inl (omega arith), (inl (omega arith), tt)))
      (omega arith, (omega arith, (omega arith, (omega arith, tt))))
      (omega arith, (omega arith, tt))

abbrev entries : List DeltaOp
entries = retain_op 2 ∷ insert_op (97 ∷ 8364 ∷ []) ∷ delete_op 1 ∷ []

entry_ops-delta_value_example : entry_ops (delta_value entries) ≡ entries
entry_ops-delta_value_example = entry_ops-delta_value entries (
  inl (2, omega arith, refl),
  (
    inr (inr (97 ∷ 8364 ∷ [], (omega arith, (omega arith, tt)), refl)),
    (inr (inl (1, omega arith, refl)), tt),
  ),
)
