-- ===== src/Mirror.antt =====
-- observeapp/observeapp.go: an application's copy of a text, kept by a callback. The callback of a
-- mirror is named by a number, like every callback of a store, and what it does is `on_delta`.
pub mod Sync
use cert_yjs.Base.{
  ℕ, zero, suc, Bool, true, false, List, [], ◌∷◌, ◌==◌, length, get_elem?, if◌then◌else◌, not, Run,
  done, ◌>>=◌, deref,
}
use cert_yjs.Item.{TypePtr}
use cert_yjs.Delta.{DeltaOp, apply_delta}
use cert_yjs.Store.{Callback, Store}
use cert_yjs.Transaction.{Transaction, Call, new_transaction, transact}
use cert_yjs.Text.{code_units_in, observe}

pub record Mirror : Type 0 where
  pub text : TypePtr
  pub callback : Callback
  pub view : List ℕ

-- The callback: a delta that does not fit leaves the view.
unfoldable pub on_delta : Mirror → List DeltaOp → Run Mirror
unfolding apply_delta
on_delta m delta = do
  (view, ok) ← apply_delta m.view delta
  done (if ok then record m { view = view } else m)

-- The calls of a transaction as they reach the mirror: those of its own callback.
unfoldable pub on_calls : Mirror → List Call → Run Mirror
unfolding on_delta
on_calls m [] = done m
on_calls m ((c, delta) ∷ calls) = do
  m' ← (if c == m.callback then on_delta m delta else done m)
  on_calls m' calls

-- NewMirror: the store with the callback registered, and the mirror told the text.
unfoldable pub new_mirror : Store → TypePtr → Callback → Run (Store × Mirror)
unfolding observe on_calls
new_mirror s t callback = do
  (s', call) ← observe s t callback
  m ← on_calls (record { text = t; callback = callback; view = [] }) (call ∷ [])
  done (s', m)

unfoldable pub view_of : Mirror → List ℕ
view_of m = m.view

-- The loop of equalCodeUnits, from the index `i` on, with `n` rounds to go.
unfoldable pub same_from : List ℕ → List ℕ → (i n : ℕ) → Run Bool
same_from left right i zero = done true
same_from left right i (suc n) = do
  a ← deref (get_elem? left i)
  b ← deref (get_elem? right i)
  elim (a == b) [ true ↦ same_from left right (suc i) n | false ↦ done false ]

unfoldable pub equal_code_units : List ℕ → List ℕ → Run Bool
unfolding same_from
equal_code_units left right =
    if length left == length right then same_from left right 0 (length left) else done false

-- Check: what the function of its transaction computes, the store, and the calls.
unfoldable pub check : Mirror → Store → Run (Bool × Store × List Call)
unfolding code_units_in view_of equal_code_units transact new_transaction
check m s = do
  text ← code_units_in (new_transaction s) m.text
  ok ← equal_code_units text (view_of m)
  (s', calls) ← transact s (λ tr. done tr)
  done (ok, s', calls)
