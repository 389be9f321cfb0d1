-- ===== src/Strings.antt =====
-- yjs/strings.go: the text operations on Go strings. The conversions of Go's standard library
-- between UTF-8 and UTF-16 are the arguments `encode_content` and `decode_content`.
use cert_yjs.Base.{ℕ, Bool, true, false, List, [], if◌then◌else◌, Run, done, ◌>>=◌}
use cert_yjs.Item.{TypePtr}
use cert_yjs.Update.{GoString}
use cert_yjs.Store.{Store}
use cert_yjs.Transaction.{Transaction, Call}
use cert_yjs.Delta.{DeltaOp, apply_delta}
use cert_yjs.Text.{code_units, code_units_in, insert, insert_in}

module _ (encode_content : GoString → List ℕ) (decode_content : List ℕ → GoString) where
  unfoldable pub string : Store → TypePtr → Run GoString
  unfolding code_units
  string s t = do units ← code_units s t; done (decode_content units)

  unfoldable pub string_in : Transaction → TypePtr → Run GoString
  unfolding code_units_in
  string_in tr t = do units ← code_units_in tr t; done (decode_content units)

  unfoldable pub insert_string : Store → TypePtr → ℕ → GoString → Run (Store × List Call)
  unfolding insert
  insert_string s t index str = insert s t index (encode_content str)

  unfoldable pub insert_string_in : Transaction → TypePtr → ℕ → GoString → Run Transaction
  unfolding insert_in
  insert_string_in tr t index str = insert_in tr t index (encode_content str)

  unfoldable pub apply_delta_string : GoString → List DeltaOp → Run (GoString × Bool)
  unfolding apply_delta
  apply_delta_string str delta = do
    (result, ok) ← apply_delta (encode_content str) delta
    done (if ok then (decode_content result, true) else ([], false))
