-- ===== src/Wasm/Routes.antt =====
-- What a JavaScript function does inside transact is one transaction of the document.
use cert_yjs.Base.{
  panic, out_of_fuel, none, ◌≡◌, refl, ap, sym, ◌∙◌, some, List, [], ◌∷◌, ◌++◌, Run, done, ◌>>=◌,
  bind_assoc, bind_cong,
}
use cert_yjs.Item.{TypePtr}
use cert_yjs.Store.{Store}
use cert_yjs.Transaction
use cert_yjs.Transaction.{Transaction, Call, new_transaction, notify}
use cert_yjs.Text.{insert_in, delete_in, code_units_in}
use cert_yjs.Wasm.{
  DocumentBinding, TextCall, code_units_from_js, call_inside, call_text, run_body, current, body_in,
  transact,
}

-- The calls of a body as the operations of one transaction.
unfoldable pub write_call : Transaction → TypePtr → TextCall → Run Transaction
unfolding insert_in delete_in code_units_in code_units_from_js
write_call tr t (TextCall.insert index bytes) = insert_in tr t index (code_units_from_js bytes)
write_call tr t (TextCall.delete index count) = delete_in tr t index count
write_call tr t TextCall.to_string = code_units_in tr t >>= λ units. done tr
write_call tr t TextCall.length_of = code_units_in tr t >>= λ units. done tr

unfoldable pub writes : Transaction → List (TypePtr × TextCall) → Run Transaction
unfolding write_call
writes tr [] = done tr
writes tr ((t, c) ∷ body) = write_call tr t c >>= λ tr'. writes tr' body

-- What is left of an outcome without its answers.
abbrev silent : {A : Type 0} → A × DocumentBinding × List Call → Run (DocumentBinding × List Call)
silent r = done (r.1, r.2)

abbrev opened : DocumentBinding → Transaction → DocumentBinding
opened b tr = record b { transaction = some tr }

abbrev left_open : DocumentBinding → Transaction → Run (DocumentBinding × List Call)
left_open b tr = done (opened b tr, [])

call_inside-writes :
    (b : DocumentBinding) (tr : Transaction) (t : TypePtr) (c : TextCall)
    → (call_inside (opened b tr) tr t c >>= silent) ≡ (write_call tr t c >>= left_open b)
unfolding call_inside write_call
call_inside-writes b tr t (TextCall.insert index bytes) =
    bind_assoc (insert_in tr t index (code_units_from_js bytes)) _ silent
call_inside-writes b tr t (TextCall.delete index count) =
    bind_assoc (delete_in tr t index count) _ silent
call_inside-writes b tr t TextCall.to_string =
    bind_assoc (code_units_in tr t) _ silent ∙ sym (bind_assoc (code_units_in tr t) _ (left_open b))
call_inside-writes b tr t TextCall.length_of =
    bind_assoc (code_units_in tr t) _ silent ∙ sym (bind_assoc (code_units_in tr t) _ (left_open b))

-- The rest of a body after a call, without the answers.
abbrev keep : List Call → DocumentBinding × List Call → Run (DocumentBinding × List Call)
keep calls q = done (q.0, calls ++ q.1)

abbrev follow :
    List (TypePtr × TextCall) → DocumentBinding × List Call → Run (DocumentBinding × List Call)
follow body r = run_body r.0 body >>= silent >>= keep r.1

run_body-cons :
    (b : DocumentBinding) (t : TypePtr) (c : TextCall) (body : List (TypePtr × TextCall))
    → (run_body b ((t, c) ∷ body) >>= silent) ≡ (call_text b t c >>= silent >>= follow body)
unfolding run_body
run_body-cons b t c body =
    let m = call_text b t c in
    bind_assoc m _ silent
    ∙ bind_cong m _ _ (λ x e.
      bind_assoc (run_body x.1 body) _ silent
      ∙ sym (bind_assoc (run_body x.1 body) silent (keep x.2)))
    ∙ sym (bind_assoc m silent (follow body))

run_body-writes :
    (b : DocumentBinding) (tr : Transaction) (body : List (TypePtr × TextCall))
    → (run_body (opened b tr) body >>= silent) ≡ (writes tr body >>= left_open b)
unfolding run_body writes
run_body-writes b tr [] = refl
run_body-writes b tr ((t, c) ∷ body) =
    let w = write_call tr t c in
    run_body-cons (opened b tr) t c body
    ∙ ap (λ m. m >>= follow body) (call_inside-writes b tr t c)
    ∙ bind_assoc w (left_open b) (follow body)
    ∙ bind_cong w _ _ (λ tr' e.
      ap (λ m. m >>= keep []) (run_body-writes b tr' body)
      ∙ bind_assoc (writes tr' body) (left_open b) (keep []))
    ∙ sym (bind_assoc w (λ tr'. writes tr' body) (left_open b))

bind_done : {A : Type 0} (m : Run A) → (m >>= λ a. done a) ≡ m
bind_done (done a) = refl
bind_done panic = refl
bind_done out_of_fuel = refl

abbrev still_open : Transaction → DocumentBinding × List Call → Run Transaction
still_open tr r = done (current tr (r.0).transaction)

body_in-writes :
    (b : DocumentBinding) (tr : Transaction) (body : List (TypePtr × TextCall))
    → body_in b body tr ≡ writes tr body
unfolding body_in current
body_in-writes b tr body =
    sym (bind_assoc (run_body (opened b tr) body) silent (still_open tr))
    ∙ ap (λ m. m >>= still_open tr) (run_body-writes b tr body)
    ∙ bind_assoc (writes tr body) (left_open b) (still_open tr)
    ∙ bind_done (writes tr body)

-- The end of a transaction, and the binding behind it.
abbrev told : Transaction → Run (Store × List Call)
told tr = notify tr >>= λ calls. done (tr.store, calls)

abbrev shut : Store × List Call → Run (DocumentBinding × List Call)
shut r = done (record { document = r.0; transaction = none }, r.1)

-- transact on a list of JavaScript calls is yjs's Transact on the operations of one transaction
-- that they stand for, in the same order: InsertIn, DeleteIn, and CodeUnitsIn for the reads;
-- afterwards the binding has the document that it leaves and no open transaction.
pub transact-writes :
    (b : DocumentBinding) (body : List (TypePtr × TextCall))
    → transact b body ≡ (
        Transaction.transact b.document (λ tr. writes tr body) >>= λ r.
        done (record { document = r.0; transaction = none }, r.1))
unfolding transact Transaction.transact
transact-writes b body =
    ap (λ m. m >>= told >>= shut) (body_in-writes b (new_transaction b.document) body)
