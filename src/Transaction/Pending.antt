-- ===== src/Transaction/Pending.antt =====
-- The structs that pend in applyUpdate: what their tests say, their ids, putting one back, and
-- integrating one after the other.
use cert_yjs.Base.{
  suc, ◌≤◌, ◌≡◌, inl, inr, refl, sym, true, false, Bool-cases, List, [], ◌∷◌, ◌++◌, All, length,
  length-append, arith, done,
}
use cert_yjs.Ident.{ItemId, equal}
use cert_yjs.Ident.Laws.{equal_iff}
use cert_yjs.Update.{UpdateItem}
use cert_yjs.Store.{has_node, contains_update_item_id}
use cert_yjs.YType.Distinct.{All-append}
use cert_yjs.Transaction.{Transaction, Readiness, readiness, requeue, integrate_decoded}

-- What is known of a struct at some moment: its id is in the store, it can be integrated, or it
-- has to wait.
abbrev pub IsPresent : Transaction → ItemId → Type 0
IsPresent tr id = has_node tr.store id ≡ done true

abbrev pub IsReady : Transaction → UpdateItem → Type 0
IsReady tr ui = readiness tr.store ui ≡ done Readiness.ready

abbrev pub IsWaiting : Transaction → UpdateItem → Type 0
IsWaiting tr ui = readiness tr.store ui ≡ done Readiness.waiting

-- The structs of the list are integrated one after the other, each once its dependencies are there.
pub data Chain : Transaction → List UpdateItem → Transaction → Type 0 where
  stop : {tr : Transaction} → Chain tr [] tr
  step :
      {tr tr' tr'' : Transaction} {ui : UpdateItem} {log : List UpdateItem}
      → IsReady tr ui
      → integrate_decoded tr ui ≡ done tr'
      → Chain tr' log tr''
      → Chain tr (ui ∷ log) tr''

pub Chain-append :
    {a b c : Transaction} {xs ys : List UpdateItem}
    → Chain a xs b
    → Chain b ys c
    → Chain a (xs ++ ys) c
Chain-append Chain.stop d = d
Chain-append (Chain.step r e c) d = Chain.step r e (Chain-append c d)

pub Chain-nil : {a b : Transaction} {xs : List UpdateItem} → Chain a xs b → xs ≡ [] → a ≡ b
Chain-nil Chain.stop e = refl
Chain-nil (Chain.step r i c) e = absurd (cc)

-- A struct whose id is asked for.
abbrev pub Holds : List UpdateItem → ItemId → Type 0
Holds items id = contains_update_item_id items id ≡ true

pub Holds-left : (xs ys : List UpdateItem) (id : ItemId) → Holds xs id → Holds (xs ++ ys) id
unfolding contains_update_item_id
Holds-left [] ys id h = absurd (cc)
Holds-left (x ∷ xs) ys id h = elim (Bool-cases (equal x.id id)) [
  | inl e ↦ rw e refl
  | inr e ↦ rw e (Holds-left xs ys id (rw e at h))
]

pub Holds-right : (xs ys : List UpdateItem) (id : ItemId) → Holds ys id → Holds (xs ++ ys) id
unfolding contains_update_item_id
Holds-right [] ys id h = h
Holds-right (x ∷ xs) ys id h = elim (Bool-cases (equal x.id id)) [
  | inl e ↦ rw e refl
  | inr e ↦ rw e (Holds-right xs ys id h)
]

equal_refl : (i : ItemId) → equal i i ≡ true
equal_refl i = (equal_iff i i).1 refl

pub Holds-head : (ui : UpdateItem) (xs : List UpdateItem) → Holds (ui ∷ xs) ui.id
unfolding contains_update_item_id
Holds-head ui xs = rw (equal_refl ui.id) refl

pub Holds-tail :
    (ui : UpdateItem) (xs : List UpdateItem) (id : ItemId) → Holds xs id → Holds (ui ∷ xs) id
Holds-tail ui xs id h = Holds-right (ui ∷ []) xs id h

-- No id twice.
abbrev pub Unique : List UpdateItem → Type 0
Unique [] = Unit
Unique (ui ∷ items) = (contains_update_item_id items ui.id ≡ false) × Unique items

-- Putting a struct back.
pub Holds-requeue : (rest : List UpdateItem) (ui : UpdateItem) → Holds (requeue rest ui) ui.id
unfolding requeue
Holds-requeue rest ui = elim (Bool-cases (contains_update_item_id rest ui.id)) [
  | inl e ↦ rw e e
  | inr e ↦ rw e (Holds-right rest (ui ∷ []) ui.id (Holds-head ui []))
]

pub requeue-keeps :
    (rest : List UpdateItem) (ui : UpdateItem) (id : ItemId)
    → Holds rest id
    → Holds (requeue rest ui) id
unfolding requeue
requeue-keeps rest ui id h = elim (Bool-cases (contains_update_item_id rest ui.id)) [
  | inl e ↦ rw e h
  | inr e ↦ rw e (Holds-left rest (ui ∷ []) id h)
]

pub length-requeue :
    (rest : List UpdateItem) (ui : UpdateItem) → length (requeue rest ui) ≤ suc (length rest)
unfolding requeue
length-requeue rest ui = elim (Bool-cases (contains_update_item_id rest ui.id)) [
  | inl e ↦ rw e (omega arith)
  | inr e ↦ rw (e, length-append) (omega arith)
]

pub All-requeue :
    (P : UpdateItem → Type 0) (rest : List UpdateItem) (ui : UpdateItem)
    → All P rest
    → P ui
    → All P (requeue rest ui)
unfolding requeue
All-requeue P rest ui a p = elim (Bool-cases (contains_update_item_id rest ui.id)) [
  | inl e ↦ rw e a
  | inr e ↦ rw e (All-append P rest (ui ∷ []) a (p, tt))
]

equal_sym : (i j : ItemId) → equal i j ≡ false → equal j i ≡ false
equal_sym i j e = elim (Bool-cases (equal j i)) [
  | inl h ↦
      absurd (let same : equal i j ≡ true = (equal_iff i j).1 (sym ((equal_iff j i).0 h)) in cc)
  | inr h ↦ h
]

contains-snoc :
    (rest : List UpdateItem) (ui : UpdateItem) (id : ItemId)
    → contains_update_item_id rest id ≡ false
    → equal ui.id id ≡ false
    → contains_update_item_id (rest ++ ui ∷ []) id ≡ false
unfolding contains_update_item_id
contains-snoc [] ui id out e = rw e refl
contains-snoc (x ∷ rest) ui id out e = elim (Bool-cases (equal x.id id)) [
  | inl h ↦ absurd (let bad : true ≡ false = rw h at out in cc)
  | inr h ↦ rw h (contains-snoc rest ui id (rw h at out) e)
]

Unique-snoc :
    (rest : List UpdateItem) (ui : UpdateItem)
    → Unique rest
    → contains_update_item_id rest ui.id ≡ false
    → Unique (rest ++ ui ∷ [])
unfolding contains_update_item_id
Unique-snoc [] ui u new = (refl, tt)
Unique-snoc (x ∷ rest) ui (first, u) new = elim (Bool-cases (equal x.id ui.id)) [
  | inl h ↦ absurd (let bad : true ≡ false = rw h at new in cc)
  | inr h ↦ (
    contains-snoc rest ui x.id first (equal_sym x.id ui.id h),
    Unique-snoc rest ui u (rw h at new),
  )
]

pub Unique-requeue :
    (rest : List UpdateItem) (ui : UpdateItem) → Unique rest → Unique (requeue rest ui)
unfolding requeue
Unique-requeue rest ui u = elim (Bool-cases (contains_update_item_id rest ui.id)) [
  | inl e ↦ rw e u
  | inr e ↦ rw e (Unique-snoc rest ui u e)
]
