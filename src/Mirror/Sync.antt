-- ===== src/Mirror/Sync.antt =====
-- A mirror that has been told every transaction shows the text.
use cert_yjs.Base.{
  ℕ, zero, suc, ◌+◌, ◌≤◌, ◌<◌, ◌≡◌, ◌≢◌, refl, ap, sym, ◌∙◌, Bool, true, false, some, List, [], ◌∷◌,
  ◌++◌, ◌==◌, All, length, get_elem?, append-nil, if◌then◌else◌, Run, done, ◌>>=◌, arith, u64_mod,
  ==_refl,
}
use cert_yjs.Item.{Ptr, TypePtr}
use cert_yjs.YType.{text}
use cert_yjs.YType.Chain.{IsList, visible, text-visible}
use cert_yjs.Delta.{DeltaOp, apply_ops, copy_units, keep_rest, apply_delta}
use cert_yjs.Diff.{text_delta}
use cert_yjs.Diff.Classify.{Changed, text_delta-patches}
use cert_yjs.YType.Chars.{chars}
use cert_yjs.Span.Among.{Unwrapped}
use cert_yjs.Store.{Callback, Store}
use cert_yjs.Transaction.{
  Transaction, Call, new_transaction, call_all, is_empty, notify_type, notify_loop, notify,
  transact,
}
use cert_yjs.Text.{code_units_in, initial_delta, observe}
use cert_yjs.Mirror.{Mirror, on_delta, on_calls, new_mirror, same_from, equal_code_units, check}

-- A transaction `f` on the document `s`, which ends as `tr`, and what the mirror of a text needs to
-- follow it: it shows the text from before, only it observes, and only its own text, which was
-- written; and the record has what became of the characters.
pub record Followed (s : Store) (f : Transaction → Run Transaction) (tr : Transaction) (m : Mirror)
    (ps0 ps : List Ptr) (us vs : List TypePtr) : Type 0 where
  pub ran : f (new_transaction s) ≡ done tr
  pub shown : text s.heap m.text ≡ done m.view
  pub list_before : IsList s.heap m.text ps0
  pub list : IsList tr.store.heap m.text ps
  pub changes : Changed tr.insert_set tr.delete_set (chars s.heap ps0) (chars tr.store.heap ps)
  pub inserts : All Unwrapped tr.insert_set
  pub deletes : All Unwrapped tr.delete_set
  pub small : length (chars tr.store.heap ps) < u64_mod
  pub observed : tr.store.observers m.text ≡ m.callback ∷ []
  pub others : (u : TypePtr) → u ≢ m.text → tr.store.observers u ≡ []
  pub changed : tr.changed ≡ us ++ m.text ∷ vs
  pub apart : All (λ u. u ≢ m.text) us × All (λ u. u ≢ m.text) vs

notify_unobserved :
    (tr : Transaction) (t : TypePtr) → tr.store.observers t ≡ [] → notify_type tr t ≡ done []
unfolding notify_type is_empty
notify_unobserved tr t e = rw e

notify_observed :
    (tr : Transaction) (t : TypePtr) (c : Callback) (d : List DeltaOp)
    → tr.store.observers t ≡ c ∷ []
    → text_delta tr.store.heap t tr.insert_set tr.delete_set ≡ done d
    → notify_type tr t ≡ done ((c, d) ∷ [])
unfolding notify_type is_empty call_all
notify_observed tr t c d o e = rw (o, e)

notify_loop_lem :
    (tr : Transaction) (t : TypePtr) (ts : List TypePtr) (calls : List Call)
    → notify_loop tr (t ∷ ts) calls
      ≡ (notify_type tr t >>= λ more. notify_loop tr ts (calls ++ more))
unfolding notify_loop
notify_loop_lem tr t ts calls = refl

notify_loop-unobserved :
    (tr : Transaction) (t : TypePtr) (ts more : List TypePtr) (calls : List Call)
    → ((u : TypePtr) → u ≢ t → tr.store.observers u ≡ [])
    → All (λ u. u ≢ t) ts
    → notify_loop tr (ts ++ more) calls ≡ notify_loop tr more calls
notify_loop-unobserved tr t [] more calls o a = refl
notify_loop-unobserved tr t (u ∷ ts) more calls o (ne, a) =
    notify_loop_lem tr u (ts ++ more) calls
    ∙ rw (notify_unobserved tr u (o u ne), append-nil)
        (notify_loop-unobserved tr t ts more calls o a)

notify_loop_nil : (tr : Transaction) (calls : List Call) → notify_loop tr [] calls ≡ done calls
unfolding notify_loop
notify_loop_nil tr calls = refl

notify-Followed :
    {s : Store} {f : Transaction → Run Transaction} {tr : Transaction} {m : Mirror}
    {ps0 ps : List Ptr} {us vs : List TypePtr} (w : Followed s f tr m ps0 ps us vs)
    (d : List DeltaOp)
    → text_delta tr.store.heap m.text tr.insert_set tr.delete_set ≡ done d
    → notify tr ≡ done ((m.callback, d) ∷ [])
unfolding notify
notify-Followed {tr = tr} {m = m} {us = us} {vs = vs} w d e =
    let (before, after) = w.apart in
    ap (λ ts. notify_loop tr ts []) w.changed
    ∙ notify_loop-unobserved tr m.text us (m.text ∷ vs) [] w.others before
    ∙ notify_loop_lem tr m.text vs []
    ∙ ap (λ r. r >>= λ more. notify_loop tr vs more)
        (notify_observed tr m.text m.callback d w.observed e)
    ∙ ap (λ ts. notify_loop tr ts ((m.callback, d) ∷ [])) (sym (append-nil vs))
    ∙ notify_loop-unobserved tr m.text vs [] ((m.callback, d) ∷ []) w.others after
    ∙ notify_loop_nil tr ((m.callback, d) ∷ [])

on_calls_own :
    (m : Mirror) (d : List DeltaOp) (now : List ℕ)
    → apply_delta m.view d ≡ done (now, true)
    → on_calls m ((m.callback, d) ∷ []) ≡ done (record m { view = now })
unfolding on_calls on_delta
on_calls_own m d now e = rw (e, ==_refl m.callback)

-- The loop of equalCodeUnits compares a sequence with itself.
get_elem?-below : (xs : List ℕ) (i : ℕ) → i < length xs → (x : ℕ) × (get_elem? xs i ≡ some x)
get_elem?-below [] i h = absurd (omega arith)
get_elem?-below (x ∷ xs) zero h = (x, refl)
get_elem?-below (x ∷ xs) (suc i) h = get_elem?-below xs i (omega arith)

go_on :
    (b : Bool) (r : Run Bool)
    → b ≡ true
    → r ≡ done true
    → (elim b [ true ↦ r | false ↦ done false ]) ≡ done true
go_on true r e h = h
go_on false r e h = absurd (cc)

same_from_step :
    (xs : List ℕ) (i n x : ℕ)
    → get_elem? xs i ≡ some x
    → same_from xs xs (suc i) n ≡ done true
    → same_from xs xs i (suc n) ≡ done true
unfolding same_from
same_from_step xs i n x e rest = rw e (go_on (x == x) _ (==_refl x) rest)

same_from_refl : (xs : List ℕ) (i n : ℕ) → i + n ≤ length xs → same_from xs xs i n ≡ done true
unfolding same_from
same_from_refl xs i zero h = refl
same_from_refl xs i (suc n) h =
    let (x, e) = get_elem?-below xs i (omega arith) in
    same_from_step xs i n x e (same_from_refl xs (suc i) n (omega arith))

equal_code_units_refl : (xs : List ℕ) → equal_code_units xs xs ≡ done true
unfolding equal_code_units
equal_code_units_refl xs = rw (==_refl (length xs)) (same_from_refl xs 0 (length xs) (omega arith))

-- Where the view is the text, Check answers true, changes nothing and calls no one.
check-agrees :
    (m : Mirror) (s : Store) → text s.heap m.text ≡ done m.view → check m s ≡ done (true, s, [])
unfolding check code_units_in transact notify notify_loop new_transaction
check-agrees m s e = rw (e, equal_code_units_refl m.view)

transact_lem :
    (s : Store) (f : Transaction → Run Transaction) (tr : Transaction) (calls : List Call)
    → f (new_transaction s) ≡ done tr
    → notify tr ≡ done calls
    → transact s f ≡ done (tr.store, calls)
unfolding transact
transact_lem s f tr calls e n = rw (e, n) refl

-- A transaction that runs a function which ends, on a document where only the mirror observes,
-- and only its own text, which is among the changed; the mirror shows what Text reads before it,
-- and the record explains what became of the characters, as textDelta asks. Then the transaction
-- ends and makes one call, to the mirror, whose new view is what Text reads afterwards; Check
-- then answers true and changes nothing.
pub check-Followed :
    (s : Store) (f : Transaction → Run Transaction) (tr : Transaction) (m : Mirror)
    (ps0 ps : List Ptr) (us vs : List TypePtr)
    → Followed s f tr m ps0 ps us vs
    → (d : List DeltaOp) × (m' : Mirror) × (transact s f ≡ done (tr.store, (m.callback, d) ∷ []))
      × (on_calls m ((m.callback, d) ∷ []) ≡ done m')
      × (text tr.store.heap m.text ≡ done m'.view)
      × (check m' tr.store ≡ done (true, tr.store, []))
check-Followed s f tr m ps0 ps us vs w =
    let (before, d, now, old, run, reads, patches) =
      text_delta-patches tr.insert_set tr.delete_set s.heap tr.store.heap m.text ps0 ps w.inserts
        w.deletes w.list_before w.list w.changes w.small in
    let m' : Mirror = record m { view = now } in
    let view : m.view ≡ before = let both = sym w.shown ∙ old in cc in
    (
      d,
      m',
      transact_lem s f tr ((m.callback, d) ∷ []) w.ran (notify-Followed w d run),
      on_calls_own m d now (ap (λ o. apply_delta o d) view ∙ patches),
      reads,
      check-agrees m' tr.store reads,
    )

apply_delta-initial : (units : List ℕ) → apply_delta [] (initial_delta units) ≡ done (units, true)
unfolding apply_delta apply_ops copy_units keep_rest initial_delta
apply_delta-initial [] = refl
apply_delta-initial (u ∷ units) = refl

-- NewMirror on a list that is linked and no longer than memory: it ends, the store has the same
-- memory and one more observer of the text, the view is what Text reads, and Check answers true
-- and changes nothing.
pub new_mirror-shows :
    (s : Store) (t : TypePtr) (c : Callback) (ps : List Ptr)
    → IsList s.heap t ps
    → (s' : Store) × (m : Mirror) × (new_mirror s t c ≡ done (s', m))
      × (s'.heap ≡ s.heap)
      × (s'.observers t ≡ s.observers t ++ c ∷ [])
      × (text s.heap t ≡ done m.view)
      × (check m s' ≡ done (true, s', []))
unfolding new_mirror observe
new_mirror-shows s t c ps l =
    let reads = text-visible s.heap t ps l in
    let s' : Store = record s {
      observers = λ (u : TypePtr). if u == t then s.observers t ++ c ∷ [] else s.observers u;
    } in
    let start : Mirror = record { text = t; callback = c; view = [] } in
    let m : Mirror = record start { view = visible s.heap ps } in
    (
      s',
      m,
      rw
          (
            reads,
            on_calls_own start (initial_delta (visible s.heap ps)) (visible s.heap ps)
                (apply_delta-initial (visible s.heap ps)),
          )
          refl,
      refl,
      rw (==_refl t) refl,
      reads,
      check-agrees m s' reads,
    )
