-- ===== src/Transaction/Stops.antt =====
-- The passes of applyUpdate end by themselves: where they run on, a step of them does.
use cert_yjs.Base.{
  ℕ, zero, suc, ◌<◌, ◌≡◌, ◌≢◌, ◌⊎◌, inl, inr, refl, Bool, true, false, List, [], ◌∷◌, ◌++◌, All,
  length, arith, Run, done, panic, out_of_fuel, ◌>>=◌,
}
use cert_yjs.Update.{UpdateItem}
use cert_yjs.YType.Distinct.{All-append}
use cert_yjs.Transaction.{
  Transaction, Readiness, readiness, requeue, integrate_decoded, pass, drain,
}
use cert_yjs.Transaction.Pending.{All-requeue, Chain, Chain-append, IsReady}
use cert_yjs.Transaction.Drain.{more_passes, pass_shrinks}

-- After some structs of a kind have been integrated, the test of one of the kind runs on, or its
-- integration does.
abbrev pub Stuck : (UpdateItem → Type 0) → Transaction → Type 0
Stuck P tr =
    (log : List UpdateItem) × (mid : Transaction) × (ui : UpdateItem) × All P log
    × Chain tr log mid
    × P ui
    × ((readiness mid.store ui ≡ out_of_fuel)
        ⊎ (IsReady mid ui × (integrate_decoded mid ui ≡ out_of_fuel)))

Stuck-after :
    {P : UpdateItem → Type 0} {a b : Transaction} {xs : List UpdateItem}
    → All P xs
    → Chain a xs b
    → Stuck P b
    → Stuck P a
Stuck-after {P = P} {xs = xs} p c (log, mid, ui, q, d, k, s) =
    (xs ++ log, mid, ui, All-append P xs log p q, Chain-append c d, k, s)

-- How a pass comes out.
data Outcome (P : UpdateItem → Type 0) (tr : Transaction)
    : Run (Bool × List UpdateItem × Transaction) → Type 0 where
  ended :
      (b : Bool) (rest : List UpdateItem) (after : Transaction)
      → All P rest
      → (Stuck P after → Stuck P tr)
      → Outcome P tr (done (b, rest, after))
  panicked : Outcome P tr panic
  ran_on : Stuck P tr → Outcome P tr out_of_fuel

Outcome-before :
    {P : UpdateItem → Type 0} {a b : Transaction} {m : Run (Bool × List UpdateItem × Transaction)}
    → (Stuck P b → Stuck P a)
    → Outcome P b m
    → Outcome P a m
Outcome-before f (Outcome.ended b rest after q g) = Outcome.ended b rest after q (λ s. f (g s))
Outcome-before f Outcome.panicked = Outcome.panicked
Outcome-before f (Outcome.ran_on s) = Outcome.ran_on (f s)

-- One struct, given how the rest of the pass comes out.
module _ (P : UpdateItem → Type 0) (tr : Transaction) (ui : UpdateItem) (pending : List UpdateItem)
    (progress : Bool) (rest : List UpdateItem) (p : P ui) (q : All P rest)
    (go : (tr1 : Transaction) (more : Bool) (waiting : List UpdateItem)
      → All P waiting
      → Outcome P tr1 (pass tr1 pending more waiting)) where
  after_integration :
      (n : Run Transaction)
      → IsReady tr ui
      → integrate_decoded tr ui ≡ n
      → Outcome P tr (n >>= λ tr1. pass tr1 pending true rest)
  after_integration (done tr1) r e =
      Outcome-before (Stuck-after {P = P} {xs = ui ∷ []} (p, tt) (Chain.step r e Chain.stop))
        (go tr1 true rest q)
  after_integration panic r e = Outcome.panicked
  after_integration out_of_fuel r e = Outcome.ran_on ([], tr, ui, tt, Chain.stop, p, inr (r, e))

  after_test :
      (m : Run Readiness)
      → readiness tr.store ui ≡ m
      → Outcome P tr (
          m >>= λ r. elim r [
            | Readiness.present ↦ pass tr pending progress rest
            | Readiness.ready ↦ do tr1 ← integrate_decoded tr ui; pass tr1 pending true rest
            | Readiness.waiting ↦ pass tr pending progress (requeue rest ui)
          ])
  after_test (done Readiness.present) e = go tr progress rest q
  after_test (done Readiness.ready) e = after_integration (integrate_decoded tr ui) e refl
  after_test (done Readiness.waiting) e =
      go tr progress (requeue rest ui) (All-requeue P rest ui q p)
  after_test panic e = Outcome.panicked
  after_test out_of_fuel e = Outcome.ran_on ([], tr, ui, tt, Chain.stop, p, inl e)

pass-Outcome :
    (P : UpdateItem → Type 0) (tr : Transaction) (pending : List UpdateItem) (progress : Bool)
    (rest : List UpdateItem)
    → All P pending
    → All P rest
    → Outcome P tr (pass tr pending progress rest)
unfolding pass
pass-Outcome P tr [] progress rest p q = Outcome.ended progress rest tr q (λ s. s)
pass-Outcome P tr (ui ∷ pending) progress rest (p, ps) q =
    after_test P tr ui pending progress rest p q
      (λ tr1 more waiting w. pass-Outcome P tr1 pending more waiting ps w) (readiness tr.store ui)
      refl

-- Whether a run ends, unless a step runs on.
abbrev Returns : {A : Type 0} → (UpdateItem → Type 0) → Transaction → Run A → Type 0
Returns P tr m = (m ≢ out_of_fuel) ⊎ Stuck P tr

after_pass :
    (P : UpdateItem → Type 0) (k : ℕ) (tr : Transaction) (pending : List UpdateItem)
    (m : Run (Bool × List UpdateItem × Transaction))
    → length pending < suc k
    → ((tr1 : Transaction) (left : List UpdateItem)
        → length left < k
        → All P left
        → Returns P tr1 (drain k tr1 left))
    → pass tr pending false [] ≡ m
    → Outcome P tr m
    → Returns P tr (m >>= λ (progress, rest, tr1). more_passes k progress rest tr1)
after_pass P k tr pending m b go e Outcome.panicked = inl (λ h. cc)
after_pass P k tr pending m b go e (Outcome.ran_on s) = inr s
after_pass P k tr pending m b go e (Outcome.ended false rest after q f) = inl (λ h. cc)
after_pass P k tr pending m b go e (Outcome.ended true rest after q f) =
    let fewer = pass_shrinks tr after pending rest e in
    elim (go after rest (omega arith) q) [ inl n ↦ inl n | inr s ↦ inr (f s) ]

-- With a round for every pending struct of a kind and one more, the passes of applyUpdate never
-- run out of rounds by themselves: they return, or panic, or, after structs of the kind have
-- been integrated, the test or the integration of one of them runs on.
pub drain-returns :
    (P : UpdateItem → Type 0) (k : ℕ) (tr : Transaction) (pending : List UpdateItem)
    → length pending < k
    → All P pending
    → (drain k tr pending ≢ out_of_fuel) ⊎ Stuck P tr
unfolding drain
drain-returns P zero tr pending b p = absurd (omega arith)
drain-returns P (suc k) tr pending b p =
    after_pass P k tr pending (pass tr pending false []) b
      (λ tr1 left c q. drain-returns P k tr1 left c q) refl
      (pass-Outcome P tr pending false [] p tt)
