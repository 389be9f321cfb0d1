-- ===== src/Wasm.antt =====
-- yjswasm/main.go: the binding of a document that JavaScript calls. What it is called with is taken
-- as converted already: an index is a number, and an array its bytes. The callbacks that a call
-- makes are returned with it.
pub mod Units
pub mod Routes
pub mod Reads
use cert_yjs.Base.{
  zero, suc, ltb, ◌^◌, ℕ, ◌+◌, ◌*◌, ◌/◌, ◌%◌, Bool, Option, none, some, List, [], ◌∷◌, ◌++◌, ◌==◌,
  length, if◌then◌else◌, Run, done, ◌>>=◌,
}
use cert_yjs.Ident.{Client}
use cert_yjs.Item.{TypePtr}
use cert_yjs.Heap.{Heap}
use cert_yjs.Update.{GoString}
use cert_yjs.Store.{Callback, Store}
use cert_yjs.Delta.{DeltaOp, delta_retain, delta_insert, delta_delete}
use cert_yjs.Transaction
use cert_yjs.Transaction.{Transaction, Call}
use cert_yjs.Text
use cert_yjs.Text.{insert_in, delete_in, code_units_in, code_units, text_len}
use cert_yjs.Doc.{Codec, new_doc, get_or_create_text, apply_encoded_update}
use cert_yjs.Wire.EncodeUpdate

-- float64(n): the value of the nearest double. A double has 53 bits; a tie goes to the even one.
unfoldable pub round_to : (step n : ℕ) → ℕ
round_to step n =
    let q = n / step in
    let r = n % step in
    if ltb (2 * r) step
    then q * step
    else if ltb step (2 * r)
    then suc q * step
    else if q % 2 == 0
    then q * step
    else suc q * step

unfoldable pub float_from : ℕ → (step n : ℕ) → ℕ
unfolding round_to
float_from zero step n = round_to step n
float_from (suc k) step n =
    let rest = float_from k (2 * step) n in if ltb n (2 ^ 53 * step) then round_to step n else rest

-- A uint64 has at most eleven bits more.
unfoldable pub float64 : ℕ → ℕ
unfolding float_from
float64 n = float_from 11 1 n

-- Two bytes a unit, the low one first; an odd byte at the end is dropped.
unfoldable pub code_units_from_js : List ℕ → List ℕ
code_units_from_js [] = []
code_units_from_js (low ∷ []) = []
code_units_from_js (low ∷ high ∷ bytes) = (low + 256 * high) ∷ code_units_from_js bytes

unfoldable pub code_units_to_js : List ℕ → List ℕ
code_units_to_js [] = []
code_units_to_js (unit ∷ units) = unit % 256 ∷ unit / 256 % 256 ∷ code_units_to_js units

-- While a transaction is open the document is the store of the transaction.
pub record DocumentBinding : Type 0 where
  pub document : Store
  pub transaction : Option Transaction

unfoldable pub new_document : Heap → Client → DocumentBinding
unfolding new_doc
new_document h client = record { document = new_doc h client; transaction = none }

-- The functions of a text that may be called in a transaction, and what they answer.
pub data TextCall : Type 0 where
  insert : ℕ → List ℕ → TextCall
  delete : ℕ → ℕ → TextCall
  to_string : TextCall
  length_of : TextCall

pub data Answer : Type 0 where
  nothing : Answer
  array : List ℕ → Answer
  number : ℕ → Answer

abbrev pub Outcome : Type 0
Outcome = Answer × DocumentBinding × List Call

unfoldable pub call_inside : DocumentBinding → Transaction → TypePtr → TextCall → Run Outcome
unfolding code_units_from_js code_units_to_js insert_in delete_in code_units_in
call_inside b tr t (TextCall.insert index bytes) = do
  tr' ← insert_in tr t index (code_units_from_js bytes)
  done (Answer.nothing, record b { transaction = some tr' }, [])
call_inside b tr t (TextCall.delete index count) = do
  tr' ← delete_in tr t index count
  done (Answer.nothing, record b { transaction = some tr' }, [])
call_inside b tr t TextCall.to_string = do
  units ← code_units_in tr t
  done (Answer.array (code_units_to_js units), b, [])
call_inside b tr t TextCall.length_of = do
  units ← code_units_in tr t
  done (Answer.number (length units), b, [])

unfoldable pub call_outside : DocumentBinding → TypePtr → TextCall → Run Outcome
unfolding code_units_from_js code_units_to_js Text.insert Text.delete code_units text_len float64
call_outside b t (TextCall.insert index bytes) = do
  (s, calls) ← Text.insert b.document t index (code_units_from_js bytes)
  done (Answer.nothing, record b { document = s }, calls)
call_outside b t (TextCall.delete index count) = do
  (s, calls) ← Text.delete b.document t index count
  done (Answer.nothing, record b { document = s }, calls)
call_outside b t TextCall.to_string = do
  units ← code_units b.document t
  done (Answer.array (code_units_to_js units), b, [])
call_outside b t TextCall.length_of = done (Answer.number (float64 (text_len b.document t)), b, [])

-- The route by the open transaction.
unfoldable pub call_text : DocumentBinding → TypePtr → TextCall → Run Outcome
unfolding call_inside call_outside
call_text b t c = elim b.transaction [ none ↦ call_outside b t c | some tr ↦ call_inside b tr t c ]

-- The calls that a JavaScript function makes, with their answers.
unfoldable pub run_body :
    DocumentBinding → List (TypePtr × TextCall) → Run (List Answer × DocumentBinding × List Call)
unfolding call_text
run_body b [] = done ([], b, [])
run_body b ((t, c) ∷ body) = do
  (answer, b1, calls) ← call_text b t c
  (answers, b2, more) ← run_body b1 body
  done (answer ∷ answers, b2, calls ++ more)

-- The transaction that is open where the body ends.
unfoldable pub current : Transaction → Option Transaction → Transaction
current tr none = tr
current tr (some tr') = tr'

-- The function that transact hands to yjs.
unfoldable pub body_in : DocumentBinding → List (TypePtr × TextCall) → Transaction → Run Transaction
unfolding run_body current
body_in b body tr = do
  (answers, b', calls) ← run_body (record b { transaction = some tr }) body
  done (current tr b'.transaction)

unfoldable pub transact :
    DocumentBinding → List (TypePtr × TextCall) → Run (DocumentBinding × List Call)
unfolding body_in Transaction.transact
transact b body = do
  (s, calls) ← Transaction.transact b.document (λ tr. body_in b body tr)
  done (record { document = s; transaction = none }, calls)

unfoldable pub encode_state_as_update : (List ℕ → GoString) → DocumentBinding → Run (List ℕ)
unfolding EncodeUpdate.encode_update
encode_state_as_update utf8 b = EncodeUpdate.encode_update utf8 b.document

unfoldable pub apply_update :
    DocumentBinding → Codec → List ℕ → Run (Bool × DocumentBinding × List Call)
unfolding apply_encoded_update
apply_update b decode bytes = do
  (applied, s, calls) ← apply_encoded_update b.document decode bytes
  done (applied, record b { document = s }, calls)

unfoldable pub get_text : DocumentBinding → GoString → TypePtr × DocumentBinding
unfolding get_or_create_text
get_text b name = let (t, s) = get_or_create_text b.document name in (t, record b { document = s })

-- The call that yjs makes at registration is dropped.
unfoldable pub observe : DocumentBinding → TypePtr → Callback → Run DocumentBinding
unfolding Text.observe
observe b t callback = do
  (s, first) ← Text.observe b.document t callback
  done (record b { document = s })

pub data DeltaEntry : Type 0 where
  retains : ℕ → DeltaEntry
  inserts : List ℕ → DeltaEntry
  deletes : ℕ → DeltaEntry

unfoldable pub delta_value : List DeltaOp → List DeltaEntry
unfolding code_units_to_js float64
delta_value [] = []
delta_value (op ∷ delta) =
    let rest = delta_value delta in
    if op.kind == delta_retain
    then DeltaEntry.retains (float64 op.length) ∷ rest
    else if op.kind == delta_insert
    then DeltaEntry.inserts (code_units_to_js op.content) ∷ rest
    else if op.kind == delta_delete
    then DeltaEntry.deletes (float64 op.length) ∷ rest
    else rest
