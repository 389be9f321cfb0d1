-- ===== src/Wasm/Reads.antt =====
-- What a JavaScript function reads back inside transact.
use cert_yjs.Base.{
  ℕ, zero, suc, ◌+◌, ◌≤◌, ◌<◌, ◌≡◌, refl, some, List, [], ◌∷◌, ◌++◌, All, length, take, drop,
  u64_mod, done, arith,
}
use cert_yjs.Item.{Ptr, TypePtr}
use cert_yjs.YType.{text}
use cert_yjs.YType.Chain.{visible}
use cert_yjs.YType.Distinct.{All-append}
use cert_yjs.YType.Valid.{IsText}
use cert_yjs.Transaction.{Transaction}
use cert_yjs.Text.{code_units_in}
use cert_yjs.Text.Boundary.{insert_in-Inserts}
use cert_yjs.Text.Place.{Splittable}
use cert_yjs.Wasm.{
  DocumentBinding, TextCall, Answer, code_units_from_js, code_units_to_js, call_inside, call_text,
  run_body,
}
use cert_yjs.Wasm.Units.{code_units_from_js-code_units_to_js}

abbrev pub Unit16 : ℕ → Type 0
Unit16 u = u < 65536

All-take : (P : ℕ → Type 0) (n : ℕ) (xs : List ℕ) → All P xs → All P (take n xs)
All-take P zero [] a = tt
All-take P zero (x ∷ xs) a = tt
All-take P (suc n) [] a = tt
All-take P (suc n) (x ∷ xs) (p, a) = (p, All-take P n xs a)

All-drop : (P : ℕ → Type 0) (n : ℕ) (xs : List ℕ) → All P xs → All P (drop n xs)
All-drop P zero xs a = a
All-drop P (suc n) [] a = tt
All-drop P (suc n) (x ∷ xs) (p, a) = All-drop P n xs a

-- Bytes make units of 16 bits.
units_fit : (bytes : List ℕ) → All (λ x. x < 256) bytes → All Unit16 (code_units_from_js bytes)
unfolding code_units_from_js
units_fit [] a = tt
units_fit (low ∷ []) a = tt
units_fit (low ∷ high ∷ bytes) (l, (g, a)) = (omega arith, units_fit bytes a)

-- The answers of the two calls: nothing, and bytes that spell the text as it then is; the document
-- is written through the transaction only.
pub record ReadBack (b : DocumentBinding) (tr : Transaction) (t : TypePtr) (units : List ℕ)
    (index : ℕ) (bytes : List ℕ) : Type 0 where
  pub tr' : Transaction
  pub out : List ℕ
  pub runs :
      run_body
        (record b { transaction = some tr })
        ((t, TextCall.insert index bytes) ∷ (t, TextCall.to_string) ∷ [])
      ≡ done (Answer.nothing ∷ Answer.array out ∷ [], record b { transaction = some tr' }, [])
  pub spells :
      code_units_from_js out ≡ take index units ++ (code_units_from_js bytes ++ drop index units)
  pub reads :
      text tr'.store.heap t
      ≡ done (take index units ++ (code_units_from_js bytes ++ drop index units))

-- Inside transact, on a well-formed text of 16-bit units each of whose items is one unit long or
-- stands in its client's run list, kept in order, at an index within the text and with room in
-- the clock and the length: insert of an array of bytes and then toString both end and call no
-- one, and toString answers bytes that read back as the old text with the units of the array at
-- the index, as Text then reads in the open transaction; the document of the binding is left
-- alone.
pub run_body-ReadBack :
    (b : DocumentBinding) (tr : Transaction) (t : TypePtr) (index : ℕ) (bytes : List ℕ)
    (ps : List Ptr)
    → IsText tr.store.heap t ps
    → index ≤ length (visible tr.store.heap ps)
    → tr.store.clock + length (code_units_from_js bytes) < u64_mod
    → length (visible tr.store.heap ps) + length (code_units_from_js bytes) < u64_mod
    → All (Splittable tr.store) ps
    → All (λ x. x < 256) bytes
    → All Unit16 (visible tr.store.heap ps)
    → ReadBack b tr t (visible tr.store.heap ps) index bytes
unfolding run_body call_text call_inside code_units_in
run_body-ReadBack b tr t index bytes ps v le clock small all fit fits =
    let content = code_units_from_js bytes in
    let old = visible tr.store.heap ps in
    let i = insert_in-Inserts tr t index content ps v le clock small all in
    let now = take index old ++ (content ++ drop index old) in
    let sixteen : All Unit16 now =
      All-append Unit16 (take index old) (content ++ drop index old)
        (All-take Unit16 index old fits)
        (All-append Unit16 content (drop index old) (units_fit bytes fit)
          (All-drop Unit16 index old fits)) in
    record {
      tr' = i.tr';
      out = code_units_to_js now;
      runs = rw (i.runs, i.reads) refl;
      spells = code_units_from_js-code_units_to_js now sixteen;
      reads = i.reads;
    }
