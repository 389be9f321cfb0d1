-- ===== src/Transaction/Deliver.antt =====
-- applyUpdate as a whole: it ends where its steps do, and what it makes of the structs.
use cert_yjs.Base.{
  ℕ, zero, suc, ◌<◌, ◌≡◌, inl, inr, refl, ap, sym, subst, ◌∙◌, Bool, true, false, Bool-cases, List,
  [], ◌∷◌, ◌++◌, All, length, arith, Run, done, ◌>>=◌, Option, none, some, if◌then◌else◌,
}
use cert_yjs.Ident.{ItemId}
use cert_yjs.Update.{UpdateItem}
use cert_yjs.Store.{Store, get_node, has_node, origin_arrived, predecessor_arrived, deps_arrived}
use cert_yjs.YType.Distinct.{All-append}
use cert_yjs.Transaction.{
  Transaction, Readiness, readiness, requeue, integrate_decoded, pass, drain, apply_update,
}
use cert_yjs.Transaction.Pass.{Fate}
use cert_yjs.Transaction.Pending.{
  All-requeue, Chain, Chain-append, Holds, IsReady, IsWaiting, Unique,
}
use cert_yjs.Transaction.Drain.{drain-Drained, emptied, pass_shrinks}

-- The steps on the structs of a kind end: after any of them have been integrated, the test of one
-- ends, and so does its integration where it is ready.
abbrev pub Smooth : (UpdateItem → Type 0) → Transaction → Type 0
Smooth P tr =
    (log : List UpdateItem) (mid : Transaction)
    → All P log
    → Chain tr log mid
    → (ui : UpdateItem) → P ui
    → ((r : Readiness) × (readiness mid.store ui ≡ done r))
      × (IsReady mid ui → (tr' : Transaction) × (integrate_decoded mid ui ≡ done tr'))

Smooth-after :
    {P : UpdateItem → Type 0} {a b : Transaction} {xs : List UpdateItem}
    → All P xs
    → Chain a xs b
    → Smooth P a
    → Smooth P b
Smooth-after {P = P} {xs = xs} p c s log mid q d =
    s (xs ++ log) mid (All-append P xs log p q) (Chain-append c d)

-- A pass that ends, and leaves structs of the kind only, in a state in which the steps end.
record Ending (P : UpdateItem → Type 0) (m : Run (Bool × List UpdateItem × Transaction))
    : Type 0 where
  progress : Bool
  rest : List UpdateItem
  after : Transaction
  runs : m ≡ done (progress, rest, after)
  kind : All P rest
  smooth : Smooth P after

-- One struct, given that the rest of the pass ends.
Ending-cons :
    (P : UpdateItem → Type 0) (tr : Transaction) (ui : UpdateItem) (pending : List UpdateItem)
    (progress : Bool) (rest : List UpdateItem)
    → P ui
    → All P rest
    → Smooth P tr
    → ((tr1 : Transaction) (more : Bool) (waiting : List UpdateItem)
        → All P waiting
        → Smooth P tr1
        → Ending P (pass tr1 pending more waiting))
    → (r : Readiness) → readiness tr.store ui ≡ done r
    → Ending P (elim r [
      | Readiness.present ↦ pass tr pending progress rest
      | Readiness.ready ↦ do tr1 ← integrate_decoded tr ui; pass tr1 pending true rest
      | Readiness.waiting ↦ pass tr pending progress (requeue rest ui)
    ])
Ending-cons P tr ui pending progress rest p q s go Readiness.present k = go tr progress rest q s
Ending-cons P tr ui pending progress rest p q s go Readiness.ready k =
    let (tr1, i) = (s [] tr tt Chain.stop ui p).1 k in
    subst (λ m. Ending P (m >>= λ tr1. pass tr1 pending true rest)) (sym i)
      (go tr1 true rest q
        (Smooth-after {P = P} {xs = ui ∷ []} (p, tt) (Chain.step k i Chain.stop) s))
Ending-cons P tr ui pending progress rest p q s go Readiness.waiting k =
    go tr progress (requeue rest ui) (All-requeue P rest ui q p) s

pass-Ending :
    (P : UpdateItem → Type 0) (tr : Transaction) (pending : List UpdateItem) (progress : Bool)
    (rest : List UpdateItem)
    → All P pending
    → All P rest
    → Smooth P tr
    → Ending P (pass tr pending progress rest)
unfolding pass
pass-Ending P tr [] progress rest p q s = record {
  progress = progress;
  rest = rest;
  after = tr;
  runs = refl;
  kind = q;
  smooth = s;
}
pass-Ending P tr (ui ∷ pending) progress rest (p, ps) q s =
    let (r, k) = (s [] tr tt Chain.stop ui p).0 in
    rw k (
      Ending-cons P tr ui pending progress rest p q s
        (λ tr1 more waiting w s1. pass-Ending P tr1 pending more waiting ps w s1) r k)

-- The passes end where their steps do, with a round for every struct and one more.
drain-ends :
    (P : UpdateItem → Type 0) (k : ℕ) (tr : Transaction) (pending : List UpdateItem)
    → length pending < k
    → All P pending
    → Smooth P tr
    → (rest : List UpdateItem) × (tr' : Transaction) × (drain k tr pending ≡ done (rest, tr'))
unfolding drain
drain-ends P zero tr pending b p s = absurd (omega arith)
drain-ends P (suc k) tr pending b p s =
    let e = pass-Ending P tr pending false [] p tt s in
    elim (Bool-cases e.progress) [
      | inl y ↦
          let passed : pass tr pending false [] ≡ done (true, e.rest, e.after) =
            e.runs ∙ ap (λ x. done (x, e.rest, e.after)) y in
          let fewer = pass_shrinks tr e.after pending e.rest passed in
          let (rest, tr', d) = drain-ends P k e.after e.rest (omega arith) e.kind e.smooth in
          (rest, tr', rw passed d)
      | inr n ↦
          let passed : pass tr pending false [] ≡ done (false, e.rest, e.after) =
            e.runs ∙ ap (λ x. done (x, e.rest, e.after)) n in
          (e.rest, e.after, rw passed refl)
    ]

-- The tests of a struct do not read what is pending.
arrived_anyway :
    (s : Store) (pending : List UpdateItem) (o : Option ItemId)
    → origin_arrived (record s { pending = pending }) o ≡ origin_arrived s o
unfolding origin_arrived has_node get_node
arrived_anyway s pending none = refl
arrived_anyway s pending (some i) = refl

-- What the tests come to, from the answers to each.
abbrev deps_of : (l r p : Run Bool) → Run Bool
deps_of l r p = do
  left ← l
  elim left [ true ↦ do right ← r; if right then p else done false | false ↦ done false ]

abbrev readiness_of : (node deps : Run Bool) → Run Readiness
readiness_of node deps = do
  known ← node
  elim known [
    | true ↦ done Readiness.present
    | false ↦ do arrived ← deps; done (if arrived then Readiness.ready else Readiness.waiting)
  ]

deps_anyway :
    (s : Store) (pending : List UpdateItem) (ui : UpdateItem)
    → deps_arrived (record s { pending = pending }) ui ≡ deps_arrived s ui
unfolding deps_arrived predecessor_arrived has_node get_node
deps_anyway s pending ui =
    let other = origin_arrived (record s { pending = pending }) ui.origin_right_id in
    ap (λ l. deps_of l other (predecessor_arrived s ui.id))
      (arrived_anyway s pending ui.origin_left_id)
    ∙ ap (λ r. deps_of (origin_arrived s ui.origin_left_id) r (predecessor_arrived s ui.id))
        (arrived_anyway s pending ui.origin_right_id)

readiness_anyway :
    (s : Store) (pending : List UpdateItem) (ui : UpdateItem)
    → readiness (record s { pending = pending }) ui ≡ readiness s ui
unfolding readiness has_node get_node
readiness_anyway s pending ui =
    ap (λ deps. readiness_of (has_node s ui.id) deps) (deps_anyway s pending ui)

IsWaiting-anyway :
    (tr : Transaction) (pending items : List UpdateItem)
    → All (IsWaiting tr) items
    → All (IsWaiting (record tr { store = record (tr.store) { pending = pending } })) items
IsWaiting-anyway tr pending [] a = tt
IsWaiting-anyway tr pending (ui ∷ items) (w, a) =
    (readiness_anyway tr.store pending ui ∙ w, IsWaiting-anyway tr pending items a)

-- What applyUpdate makes of the pending structs and the new ones.
pub record Delivered (tr : Transaction) (structs : List UpdateItem) : Type 0 where
  pub after : Transaction
  pub log : List UpdateItem
  pub last : Transaction
  pub runs : apply_update tr structs ≡ done after
  pub chain : Chain (emptied tr) log last
  pub same : after ≡ record last { store = record (last.store) { pending = after.store.pending } }
  pub waits : All (IsWaiting after) after.store.pending
  pub unique : Unique after.store.pending
  pub fates :
      (id : ItemId)
      → Holds (tr.store.pending ++ structs) id
      → Fate (emptied tr) log after.store.pending id

pub apply_update-Delivered :
    (P : UpdateItem → Type 0) (tr : Transaction) (structs : List UpdateItem)
    → All P (tr.store.pending ++ structs)
    → Smooth P (emptied tr)
    → Delivered tr structs
unfolding apply_update
apply_update-Delivered P tr structs p s =
    let pending = tr.store.pending ++ structs in
    let k = suc (length pending) in
    let (rest, last, e) = drain-ends P k (emptied tr) pending (omega arith) p s in
    let d = drain-Drained k (emptied tr) pending rest last e in
    record {
      after = record last { store = record (last.store) { pending = rest } };
      log = d.log;
      last = last;
      runs = rw e refl;
      chain = d.chain;
      same = refl;
      waits = IsWaiting-anyway last rest rest d.waits;
      unique = d.unique;
      fates = d.fates;
    }
