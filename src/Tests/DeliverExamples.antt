-- ===== src/Tests/DeliverExamples.antt =====
-- The theorems on applyUpdate at a concrete delivery, the second unit before the first: two units
-- of client 9 come out of order into the text of `word`.
use cert_yjs.Base.{
  ◌≡◌, ◌≢◌, ◌⊎◌, inl, inr, refl, sym, subst, none, some, List, [], ◌∷◌, All, add64, sub64, arith,
  Run, done, panic, out_of_fuel,
}
use cert_yjs.Ident.{id_opt_equal, new_id}
use cert_yjs.Item.{countable}
use cert_yjs.Update.{UpdateItem}
use cert_yjs.Transaction.{Transaction, Readiness, readiness, integrate_decoded, drain}
use cert_yjs.Transaction.Pending.{Chain, IsReady}
use cert_yjs.Transaction.Stops.{Stuck, drain-returns}
use cert_yjs.Transaction.Deliver.{Smooth, Delivered, apply_update-Delivered}
use cert_yjs.Tests.Fixtures.{word_store}

abbrev named_tr : Transaction
named_tr = record {
  store = record (word_store 4) { types = (116 ∷ [], 0) ∷ [] };
  insert_set = [];
  delete_set = [];
  changed = [];
}

abbrev first_unit : UpdateItem
first_unit = record {
  id = record { client_id = 9; clock = 0 };
  origin_left_id = none;
  origin_right_id = none;
  parent_name = some (116 ∷ []);
  content = 120 ∷ [];
}

abbrev second_unit : UpdateItem
second_unit = record {
  id = record { client_id = 9; clock = 1 };
  origin_left_id = some (record { client_id = 9; clock = 0 });
  origin_right_id = none;
  parent_name = none;
  content = 121 ∷ [];
}

abbrev after : Run Transaction → Transaction
after (done tr) = tr
after panic = named_tr
after out_of_fuel = named_tr

abbrev one_in : Transaction
one_in = after (integrate_decoded named_tr first_unit)

abbrev both_in : Transaction
both_in = after (integrate_decoded one_in second_unit)

first_in : integrate_decoded named_tr first_unit ≡ done one_in
unfolding integrate_decoded id_opt_equal countable add64 sub64
first_in = refl

second_in : integrate_decoded one_in second_unit ≡ done both_in
unfolding integrate_decoded id_opt_equal countable add64 sub64
second_in = refl

named_tr_first : readiness named_tr.store first_unit ≡ done Readiness.ready
unfolding readiness new_id id_opt_equal countable add64 sub64 integrate_decoded
named_tr_first = refl

named_tr_second : readiness named_tr.store second_unit ≡ done Readiness.waiting
unfolding readiness new_id id_opt_equal countable add64 sub64 integrate_decoded
named_tr_second = refl

one_in_first : readiness one_in.store first_unit ≡ done Readiness.present
unfolding readiness new_id id_opt_equal countable add64 sub64 integrate_decoded
one_in_first = refl

one_in_second : readiness one_in.store second_unit ≡ done Readiness.ready
unfolding readiness new_id id_opt_equal countable add64 sub64 integrate_decoded
one_in_second = refl

both_in_first : readiness both_in.store first_unit ≡ done Readiness.present
unfolding readiness new_id id_opt_equal countable add64 sub64 integrate_decoded
both_in_first = refl

both_in_second : readiness both_in.store second_unit ≡ done Readiness.present
unfolding readiness new_id id_opt_equal countable add64 sub64 integrate_decoded
both_in_second = refl

abbrev IsTyped : UpdateItem → Type 0
IsTyped ui = (ui ≡ first_unit) ⊎ (ui ≡ second_unit)

-- What is known of a test at a state and a struct holds of what equals them.
tested :
    {tr a : Transaction} {ui u : UpdateItem} {r : Readiness}
    → tr ≡ a
    → ui ≡ u
    → readiness a.store u ≡ done r
    → readiness tr.store ui ≡ done r
tested {a = a} {ui = ui} {r = r} e h t =
    subst (λ x. readiness x.store ui ≡ done r) (sym e)
      (subst (λ x. readiness a.store x ≡ done r) (sym h) t)

integrated :
    {tr a b : Transaction} {ui u : UpdateItem}
    → tr ≡ a
    → ui ≡ u
    → integrate_decoded a u ≡ done b
    → integrate_decoded tr ui ≡ done b
integrated {a = a} {b = b} {ui = ui} e h t =
    subst (λ x. integrate_decoded x ui ≡ done b) (sym e)
      (subst (λ x. integrate_decoded a x ≡ done b) (sym h) t)

-- The states that a delivery of the two units comes by are three.
from_both :
    (tr mid : Transaction) (log : List UpdateItem)
    → tr ≡ both_in
    → Chain tr log mid
    → All IsTyped log
    → mid ≡ both_in
from_both tr mid log e Chain.stop p = e
from_both tr mid log e (Chain.step r i c) (inl h, p) =
    absurd (let t = tested e h both_in_first in cc)
from_both tr mid log e (Chain.step r i c) (inr h, p) =
    absurd (let t = tested e h both_in_second in cc)

from_one :
    (tr mid : Transaction) (log : List UpdateItem)
    → tr ≡ one_in
    → Chain tr log mid
    → All IsTyped log
    → (mid ≡ one_in) ⊎ (mid ≡ both_in)
from_one tr mid log e Chain.stop p = inl e
from_one tr mid log e (Chain.step r i c) (inl h, p) = absurd (let t = tested e h one_in_first in cc)
from_one tr mid log e (Chain.step {tr' = tr'} {log = log'} r i c) (inr h, p) =
    let t = integrated e h second_in in
    inr (from_both tr' mid log' (let same : tr' ≡ both_in = cc in same) c p)

from_start :
    (tr mid : Transaction) (log : List UpdateItem)
    → tr ≡ named_tr
    → Chain tr log mid
    → All IsTyped log
    → (mid ≡ named_tr) ⊎ ((mid ≡ one_in) ⊎ (mid ≡ both_in))
from_start tr mid log e Chain.stop p = inl e
from_start tr mid log e (Chain.step r i c) (inr h, p) =
    absurd (let t = tested e h named_tr_second in cc)
from_start tr mid log e (Chain.step {tr' = tr'} {log = log'} r i c) (inl h, p) =
    let t = integrated e h first_in in
    inr (from_one tr' mid log' (let same : tr' ≡ one_in = cc in same) c p)

-- A test that ends, and an integration that ends where it is made.
abbrev Ends : Transaction → UpdateItem → Type 0
Ends mid ui =
    ((r : Readiness) × (readiness mid.store ui ≡ done r))
    × (IsReady mid ui → (tr' : Transaction) × (integrate_decoded mid ui ≡ done tr'))

Ends-ready :
    {b : Transaction} (mid : Transaction) (ui : UpdateItem)
    → readiness mid.store ui ≡ done Readiness.ready
    → integrate_decoded mid ui ≡ done b
    → Ends mid ui
Ends-ready {b = b} mid ui t i = ((Readiness.ready, t), λ r. (b, i))

Ends-present :
    (mid : Transaction) (ui : UpdateItem)
    → readiness mid.store ui ≡ done Readiness.present
    → Ends mid ui
Ends-present mid ui t = ((Readiness.present, t), λ r. absurd (cc))

Ends-waiting :
    (mid : Transaction) (ui : UpdateItem)
    → readiness mid.store ui ≡ done Readiness.waiting
    → Ends mid ui
Ends-waiting mid ui t = ((Readiness.waiting, t), λ r. absurd (cc))

named_tr-Smooth : Smooth IsTyped named_tr
named_tr-Smooth log mid p c ui (inl h) = elim (from_start named_tr mid log refl c p) [
  | inl e ↦ Ends-ready mid ui (tested e h named_tr_first) (integrated e h first_in)
  | inr (inl e) ↦ Ends-present mid ui (tested e h one_in_first)
  | inr (inr e) ↦ Ends-present mid ui (tested e h both_in_first)
]
named_tr-Smooth log mid p c ui (inr h) = elim (from_start named_tr mid log refl c p) [
  | inl e ↦ Ends-waiting mid ui (tested e h named_tr_second)
  | inr (inl e) ↦ Ends-ready mid ui (tested e h one_in_second) (integrated e h second_in)
  | inr (inr e) ↦ Ends-present mid ui (tested e h both_in_second)
]

apply_update-Delivered_example : Delivered named_tr (second_unit ∷ first_unit ∷ [])
apply_update-Delivered_example =
    apply_update-Delivered IsTyped named_tr (second_unit ∷ first_unit ∷ [])
      (inr refl, (inl refl, tt)) named_tr-Smooth

drain-returns_example :
    (drain 3 named_tr (second_unit ∷ first_unit ∷ []) ≢ out_of_fuel) ⊎ Stuck IsTyped named_tr
drain-returns_example =
    drain-returns IsTyped 3 named_tr (second_unit ∷ first_unit ∷ []) (omega arith)
      (inr refl, (inl refl, tt))
