-- ===== src/Transaction/Drain.antt =====
-- The passes of applyUpdate, until one integrates nothing.
use cert_yjs.Base.{
  ℕ, zero, suc, ◌+◌, ◌≤◌, ◌<◌, ◌≡◌, inl, inr, refl, ap, subst, ◌∙◌, Bool, true, false, List, [],
  ◌++◌, All, length, length-append, append_assoc, arith, Run, done, done-bind,
}
use cert_yjs.Ident.{ItemId}
use cert_yjs.Update.{UpdateItem}
use cert_yjs.Transaction.{Transaction, pass, drain}
use cert_yjs.Transaction.Pass.{Fate, Fate-after, Passed, pass-Passed}
use cert_yjs.Transaction.Pending.{
  Chain, Chain-append, Chain-nil, Holds, Holds-left, IsWaiting, Unique,
}

-- What the passes have done when they end.
pub record Drained (tr : Transaction) (pending : List UpdateItem) (rest : List UpdateItem)
    (tr' : Transaction) : Type 0 where
  pub log : List UpdateItem
  pub chain : Chain tr log tr'
  pub size : length rest + length log ≤ length pending
  pub unique : Unique rest
  pub waits : All (IsWaiting tr') rest
  pub fates : (id : ItemId) → Holds pending id → Fate tr log rest id

Drained-last :
    (tr : Transaction) (pending rest : List UpdateItem) (tr' : Transaction)
    → Passed tr pending false [] false rest tr'
    → Drained tr pending rest tr'
Drained-last tr pending rest tr' p = record {
  log = p.log;
  chain = p.chain;
  size = let smaller = p.size in omega arith;
  unique = p.unique tt;
  waits = subst (λ t. All (IsWaiting t) rest) (Chain-nil p.chain (p.quiet refl)) (p.waits refl tt);
  fates = p.fates;
}

-- What happens to a struct that a pass leaves is settled by the passes after it.
Fate-more :
    {a b : Transaction} {xs ys rest rest' : List UpdateItem} {id : ItemId}
    → Chain a xs b
    → ((Holds rest id) → Fate b ys rest' id)
    → Fate a xs rest id
    → Fate a (xs ++ ys) rest' id
Fate-more {xs = xs} {ys = ys} {id = id} c go (Fate.logged h) = Fate.logged (Holds-left xs ys id h)
Fate-more c go (Fate.left h) = Fate-after c (go h)
Fate-more {ys = ys} c go (Fate.found mid before later e d h) =
    Fate.found mid before (later ++ ys) (ap (λ r. r ++ ys) e ∙ append_assoc before later ys) d h

Drained-more :
    (tr tr1 : Transaction) (pending left rest : List UpdateItem) (tr' : Transaction)
    → Passed tr pending false [] true left tr1
    → Drained tr1 left rest tr'
    → Drained tr pending rest tr'
Drained-more tr tr1 pending left rest tr' p d = record {
  log = p.log ++ d.log;
  chain = Chain-append p.chain d.chain;
  size =
      let first = p.size in
      let others = d.size in let whole = length-append p.log d.log in omega arith;
  unique = d.unique;
  waits = d.waits;
  fates = λ id h. Fate-more p.chain (d.fates id) (p.fates id h);
}

-- What follows a pass.
abbrev pub more_passes :
    ℕ → Bool → List UpdateItem → Transaction → Run (List UpdateItem × Transaction)
more_passes k progress left tr1 = elim progress [
  | true ↦ drain k tr1 left
  | false ↦ done (left, tr1)
]

-- One pass, given what the passes after it do.
Drained-pass :
    (tr tr1 : Transaction) (pending left rest : List UpdateItem) (tr' : Transaction) (k : ℕ)
    (progress : Bool)
    → (drain k tr1 left ≡ done (rest, tr') → Drained tr1 left rest tr')
    → Passed tr pending false [] progress left tr1
    → more_passes k progress left tr1 ≡ done (rest, tr')
    → Drained tr pending rest tr'
Drained-pass tr tr1 pending left rest tr' k true go p e =
    Drained-more tr tr1 pending left rest tr' p (go e)
Drained-pass tr tr1 pending left rest tr' k false go p e =
    let l : left ≡ rest = cc in
    let t : tr1 ≡ tr' = cc in
    Drained-last tr pending rest tr' (
      subst (λ x. Passed tr pending false [] false x tr') l
        (subst (λ x. Passed tr pending false [] false left x) t p))

pub drain-Drained :
    (k : ℕ) (tr : Transaction) (pending rest : List UpdateItem) (tr' : Transaction)
    → drain k tr pending ≡ done (rest, tr')
    → Drained tr pending rest tr'
unfolding drain
drain-Drained zero tr pending rest tr' e = absurd (cc)
drain-Drained (suc k) tr pending rest tr' e =
    let ((progress, left, tr1), p, e1) = done-bind (pass tr pending false []) _ _ e in
    Drained-pass tr tr1 pending left rest tr' k progress (drain-Drained k tr1 left rest tr')
      (pass-Passed tr pending false [] progress left tr1 p) e1

-- A pass that integrates a struct leaves fewer.
pub pass_shrinks :
    (tr tr1 : Transaction) (pending left : List UpdateItem)
    → pass tr pending false [] ≡ done (true, left, tr1)
    → length left < length pending
pass_shrinks tr tr1 pending left e =
    let p = pass-Passed tr pending false [] true left tr1 e in
    let smaller = p.size in elim (p.lively refl) [ inl n ↦ absurd (cc) | inr some ↦ omega arith ]

-- The transaction that the passes start in, without the pending structs.
abbrev pub emptied : Transaction → Transaction
emptied tr = record tr { store = record (tr.store) { pending = [] } }
