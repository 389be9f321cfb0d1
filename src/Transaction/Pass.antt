-- ===== src/Transaction/Pass.antt =====
-- One pass of applyUpdate over the pending structs.
use cert_yjs.Base.{
  ◌+◌, ◌≤◌, ◌<◌, ◌≡◌, ◌⊎◌, inl, inr, refl, ap, sym, subst, ◌∙◌, Bool, true, false, Bool-cases, List,
  [], ◌∷◌, ◌++◌, All, length, append_assoc, if◌then◌else◌, arith, done, ◌>>=◌, done-bind,
}
use cert_yjs.Ident.{ItemId, equal}
use cert_yjs.Ident.Laws.{equal_iff}
use cert_yjs.Update.{UpdateItem}
use cert_yjs.Store.{Store, has_node, deps_arrived, contains_update_item_id}
use cert_yjs.Transaction.{Transaction, Readiness, readiness, requeue, integrate_decoded, pass}
use cert_yjs.Transaction.Pending.{
  IsPresent, IsReady, IsWaiting, Chain, Chain-append, Holds, Holds-right, Holds-head, Unique,
  Holds-requeue, requeue-keeps, length-requeue, All-requeue, Unique-requeue,
}

-- Where an id of the structs that a run started with ends up: integrated, waiting, or present in
-- the store at a moment of the run.
pub data Fate : Transaction → List UpdateItem → List UpdateItem → ItemId → Type 0 where
  logged :
      {tr : Transaction} {log rest : List UpdateItem} {id : ItemId}
      → Holds log id
      → Fate tr log rest id
  left :
      {tr : Transaction} {log rest : List UpdateItem} {id : ItemId}
      → Holds rest id
      → Fate tr log rest id
  found :
      {tr : Transaction} {log rest : List UpdateItem} {id : ItemId}
      → (mid : Transaction) (before after : List UpdateItem) → log ≡ before ++ after
      → Chain tr before mid
      → IsPresent mid id
      → Fate tr log rest id

pub Fate-after :
    {a b : Transaction} {xs log rest : List UpdateItem} {id : ItemId}
    → Chain a xs b
    → Fate b log rest id
    → Fate a (xs ++ log) rest id
Fate-after {xs = xs} {log = log} {id = id} c (Fate.logged h) = Fate.logged (Holds-right xs log id h)
Fate-after c (Fate.left h) = Fate.left h
Fate-after {xs = xs} c (Fate.found mid before after e d h) =
    Fate.found mid (xs ++ before) after (ap (λ r. xs ++ r) e ∙ sym (append_assoc xs before after))
      (Chain-append c d) h

-- What a pass that ends has done.
pub record Passed (tr : Transaction) (pending : List UpdateItem) (progress : Bool)
    (rest : List UpdateItem) (b : Bool) (rest' : List UpdateItem) (tr' : Transaction) : Type 0 where
  pub log : List UpdateItem
  pub chain : Chain tr log tr'
  pub sticky : progress ≡ true → b ≡ true
  pub quiet : b ≡ false → log ≡ []
  pub lively : b ≡ true → (progress ≡ true) ⊎ (0 < length log)
  pub size : length rest' + length log ≤ length rest + length pending
  pub unique : Unique rest → Unique rest'
  pub kept : (id : ItemId) → Holds rest id → Holds rest' id
  pub fates : (id : ItemId) → Holds pending id → Fate tr log rest' id
  pub waits : b ≡ false → All (IsWaiting tr) rest → All (IsWaiting tr) rest'

Passed-present :
    (tr : Transaction) (ui : UpdateItem) (pending : List UpdateItem) (progress : Bool)
    (rest : List UpdateItem) (b : Bool) (rest' : List UpdateItem) (tr' : Transaction)
    → IsPresent tr ui.id
    → Passed tr pending progress rest b rest' tr'
    → Passed tr (ui ∷ pending) progress rest b rest' tr'
unfolding contains_update_item_id
Passed-present tr ui pending progress rest b rest' tr' known p = record {
  log = p.log;
  chain = p.chain;
  sticky = p.sticky;
  quiet = p.quiet;
  lively = p.lively;
  size = let smaller = p.size in omega arith;
  unique = p.unique;
  kept = p.kept;
  fates = λ id h. elim (Bool-cases (equal ui.id id)) [
    | inl e ↦
        Fate.found tr [] p.log refl Chain.stop
          (subst (λ i. IsPresent tr i) ((equal_iff ui.id id).0 e) known)
    | inr e ↦ p.fates id (rw e at h)
  ];
  waits = p.waits;
}

Passed-waiting :
    (tr : Transaction) (ui : UpdateItem) (pending : List UpdateItem) (progress : Bool)
    (rest : List UpdateItem) (b : Bool) (rest' : List UpdateItem) (tr' : Transaction)
    → IsWaiting tr ui
    → Passed tr pending progress (requeue rest ui) b rest' tr'
    → Passed tr (ui ∷ pending) progress rest b rest' tr'
unfolding contains_update_item_id
Passed-waiting tr ui pending progress rest b rest' tr' w p = record {
  log = p.log;
  chain = p.chain;
  sticky = p.sticky;
  quiet = p.quiet;
  lively = p.lively;
  size = let smaller = p.size in let one = length-requeue rest ui in omega arith;
  unique = λ u. p.unique (Unique-requeue rest ui u);
  kept = λ id h. p.kept id (requeue-keeps rest ui id h);
  fates = λ id h. elim (Bool-cases (equal ui.id id)) [
    | inl e ↦ Fate.left (
        subst (λ i. Holds rest' i) ((equal_iff ui.id id).0 e)
          (p.kept ui.id (Holds-requeue rest ui)))
    | inr e ↦ p.fates id (rw e at h)
  ];
  waits = λ e a. p.waits e (All-requeue (IsWaiting tr) rest ui a w);
}

Passed-ready :
    (tr tr1 : Transaction) (ui : UpdateItem) (pending : List UpdateItem) (progress : Bool)
    (rest : List UpdateItem) (b : Bool) (rest' : List UpdateItem) (tr' : Transaction)
    → IsReady tr ui
    → integrate_decoded tr ui ≡ done tr1
    → Passed tr1 pending true rest b rest' tr'
    → Passed tr (ui ∷ pending) progress rest b rest' tr'
unfolding contains_update_item_id
Passed-ready tr tr1 ui pending progress rest b rest' tr' r i p = record {
  log = ui ∷ p.log;
  chain = Chain.step r i p.chain;
  sticky = λ e. p.sticky refl;
  quiet = λ e. absurd (let yes = p.sticky refl in cc);
  lively = λ e. inr (omega arith);
  size = let smaller = p.size in omega arith;
  unique = p.unique;
  kept = p.kept;
  fates = λ id h. elim (Bool-cases (equal ui.id id)) [
    | inl e ↦
        Fate.logged
          (subst (λ i. Holds (ui ∷ p.log) i) ((equal_iff ui.id id).0 e) (Holds-head ui p.log))
    | inr e ↦ Fate-after (Chain.step r i Chain.stop) (p.fates id (rw e at h))
  ];
  waits = λ e a. absurd (let yes = p.sticky refl in cc);
}

Passed-nil :
    (tr : Transaction) (progress : Bool) (rest : List UpdateItem)
    → Passed tr [] progress rest progress rest tr
unfolding contains_update_item_id
Passed-nil tr progress rest = record {
  log = [];
  chain = Chain.stop;
  sticky = λ e. e;
  quiet = λ e. refl;
  lively = λ e. inl e;
  size = omega arith;
  unique = λ u. u;
  kept = λ id h. h;
  fates = λ id h. absurd (cc);
  waits = λ e a. a;
}

after_lookup :
    (s : Store) (ui : UpdateItem) (known : Bool)
    → (elim known [
      | true ↦ done Readiness.present
      | false ↦ do
        arrived ← deps_arrived s ui
        done (if arrived then Readiness.ready else Readiness.waiting)
    ])
      ≡ done Readiness.present
    → known ≡ true
after_lookup s ui true e = refl
after_lookup s ui false e =
    let (arrived, a, e1) = done-bind (deps_arrived s ui) _ _ e in
    absurd (elim (Bool-cases arrived) [
      | inl y ↦ let bad : done Readiness.ready ≡ done Readiness.present = rw y at e1 in cc
      | inr n ↦ let bad : done Readiness.waiting ≡ done Readiness.present = rw n at e1 in cc
    ])

-- A struct that a pass takes for present is in the store.
present-known :
    (s : Store) (ui : UpdateItem)
    → readiness s ui ≡ done Readiness.present
    → has_node s ui.id ≡ done true
unfolding readiness
present-known s ui e =
    let (known, k, e1) = done-bind (has_node s ui.id) _ _ e in
    k ∙ ap (λ b. done b) (after_lookup s ui known e1)

-- One struct, given what the rest of the pass does.
Passed-cons :
    (tr : Transaction) (ui : UpdateItem) (pending : List UpdateItem) (progress : Bool)
    (rest : List UpdateItem) (b : Bool) (rest' : List UpdateItem) (tr' : Transaction)
    → ((tr1 : Transaction) (more : Bool) (waiting : List UpdateItem)
        → pass tr1 pending more waiting ≡ done (b, rest', tr')
        → Passed tr1 pending more waiting b rest' tr')
    → (r : Readiness) → readiness tr.store ui ≡ done r
    → (elim r [
      | Readiness.present ↦ pass tr pending progress rest
      | Readiness.ready ↦ do tr1 ← integrate_decoded tr ui; pass tr1 pending true rest
      | Readiness.waiting ↦ pass tr pending progress (requeue rest ui)
    ])
      ≡ done (b, rest', tr')
    → Passed tr (ui ∷ pending) progress rest b rest' tr'
Passed-cons tr ui pending progress rest b rest' tr' go Readiness.present k e =
    Passed-present tr ui pending progress rest b rest' tr' (present-known tr.store ui k)
      (go tr progress rest e)
Passed-cons tr ui pending progress rest b rest' tr' go Readiness.ready k e =
    let (tr1, i, e1) = done-bind (integrate_decoded tr ui) _ _ e in
    Passed-ready tr tr1 ui pending progress rest b rest' tr' k i (go tr1 true rest e1)
Passed-cons tr ui pending progress rest b rest' tr' go Readiness.waiting k e =
    Passed-waiting tr ui pending progress rest b rest' tr' k (go tr progress (requeue rest ui) e)

-- A pass that ends has done what it promises.
pub pass-Passed :
    (tr : Transaction) (pending : List UpdateItem) (progress : Bool) (rest : List UpdateItem)
    (b : Bool) (rest' : List UpdateItem) (tr' : Transaction)
    → pass tr pending progress rest ≡ done (b, rest', tr')
    → Passed tr pending progress rest b rest' tr'
unfolding pass
pass-Passed tr [] progress rest b rest' tr' e =
    let p : progress ≡ b = cc in
    let r : rest ≡ rest' = cc in
    let t : tr ≡ tr' = cc in
    subst (λ x. Passed tr [] progress rest x rest' tr') p
      (subst (λ x. Passed tr [] progress rest progress x tr') r
        (subst (λ x. Passed tr [] progress rest progress rest x) t (Passed-nil tr progress rest)))
pass-Passed tr (ui ∷ pending) progress rest b rest' tr' e =
    let (r, k, e1) = done-bind (readiness tr.store ui) _ _ e in
    Passed-cons tr ui pending progress rest b rest' tr'
      (λ tr1 more waiting h. pass-Passed tr1 pending more waiting b rest' tr' h) r k e1
