-- ===== src/Diff.antt =====
-- yjs/observe.go: the two walks that compute a delta, `textDelta` from a transaction's record and
-- `TextObserver.Poll` from an observer's token.
pub mod Classify
pub mod Known
pub mod Noted
pub mod Polled
use cert_yjs.Base.{
  ℕ, zero, suc, Bool, true, false, Option, none, some, List, [], ◌∷◌, ◌++◌, ◌==◌, ltb, leb, add64,
  if◌then◌else◌, Run, done, out_of_fuel, ◌>>=◌, ◌&&◌, not,
}
use cert_yjs.Ident.{Client, Clock, ItemId, new_id}
use cert_yjs.Span.{ClockSpan, clock_span, any_span, IdSpan, contains_id}
use cert_yjs.Item.{Ptr, TypePtr, Item, len, deleted}
use cert_yjs.Heap.{Heap}
use cert_yjs.Delta.{DeltaOp, retain_op, delete_op, insert_op, delta_snoc, trim_retain}

-- The body of the inner loop of textDelta, for the unit `u` with the id `c`.
unfoldable pub classify_change :
    List IdSpan → List IdSpan → Bool → ItemId → ℕ → List DeltaOp → List DeltaOp
classify_change inserts deletes tombstoned c u delta =
    if contains_id inserts c
    then (if tombstoned then delta else delta_snoc delta (insert_op (u ∷ [])))
    else if contains_id deletes c
    then delta_snoc delta (delete_op 1)
    else if tombstoned
    then delta
    else delta_snoc delta (retain_op 1)

-- The inner loop, over the units of `it` from index `i` on.
unfoldable pub text_delta_item :
    List IdSpan → List IdSpan → Item → ℕ → List ℕ → List DeltaOp → List DeltaOp
unfolding classify_change
text_delta_item inserts deletes it i [] delta = delta
text_delta_item inserts deletes it i (u ∷ units) delta =
    text_delta_item inserts deletes it (suc i) units (
      classify_change inserts deletes (deleted it) (new_id it.id.client_id (add64 it.id.clock i)) u
        delta)

unfoldable pub text_delta_loop :
    ℕ → Heap → List IdSpan → List IdSpan → Option Ptr → List DeltaOp → Run (List DeltaOp)
unfolding text_delta_item
text_delta_loop zero h inserts deletes cur delta = out_of_fuel
text_delta_loop (suc k) h inserts deletes none delta = done delta
text_delta_loop (suc k) h inserts deletes (some p) delta =
    text_delta_loop k h inserts deletes (h.item_at p).right
      (text_delta_item inserts deletes (h.item_at p) 0 (h.item_at p).content delta)

unfoldable pub text_delta : Heap → TypePtr → List IdSpan → List IdSpan → Run (List DeltaOp)
unfolding text_delta_loop
text_delta h ty inserts deletes = do
  delta ← text_delta_loop (suc h.next_item) h inserts deletes (h.type_at ty).start []
  done (trim_retain delta)

-- The token of an observer: per client the end of the known clocks and the spans of the known
-- tombstones. A key that a map lacks reads as 0 and as no span.
pub record Token : Type 0 where
  pub state_vector : Client → Clock
  pub deleted : Client → List ClockSpan

pub record TextObserver : Type 0 where
  pub text : TypePtr
  pub token : Token

abbrev pub empty_token : Token
empty_token = record { state_vector = λ c. 0; deleted = λ c. [] }

unfoldable pub new_observer : TypePtr → TextObserver
new_observer t = record { text = t; token = empty_token }

unfoldable pub deleted_contains : Token → Client → Clock → Bool
deleted_contains o client clock = any_span (o.deleted client) clock

-- What one item adds to the token of this poll.
unfoldable pub note_item : Token → Item → Token
note_item t it =
    let client = it.id.client_id in
    let end = add64 it.id.clock (len it) in
    record {
      state_vector = λ c.
          if c == client
          then (if ltb (t.state_vector client) end then end else t.state_vector client)
          else t.state_vector c;
      deleted = λ c.
          if deleted it && c == client
          then t.deleted c ++ clock_span it.id.clock end ∷ []
          else t.deleted c;
    }

-- The body of the inner loop of Poll, for the unit `u` with the clock `clock`.
unfoldable pub classify_known : Token → Client → Bool → Clock → ℕ → List DeltaOp → List DeltaOp
classify_known o client tombstoned clock u delta =
    if ltb clock (o.state_vector client)
    then (if deleted_contains o client clock
        then delta
        else if tombstoned
        then delta_snoc delta (delete_op 1)
        else delta_snoc delta (retain_op 1))
    else if tombstoned
    then delta
    else delta_snoc delta (insert_op (u ∷ []))

unfoldable pub poll_item : Token → Item → ℕ → List ℕ → List DeltaOp → List DeltaOp
unfolding classify_known deleted_contains
poll_item o it i [] delta = delta
poll_item o it i (u ∷ units) delta =
    poll_item o it (suc i) units
      (classify_known o it.id.client_id (deleted it) (add64 it.id.clock i) u delta)

unfoldable pub poll_loop :
    ℕ → Heap → Token → Option Ptr → Token → List DeltaOp → Run (Token × List DeltaOp)
unfolding poll_item note_item
poll_loop zero h o cur token delta = out_of_fuel
poll_loop (suc k) h o none token delta = done (token, delta)
poll_loop (suc k) h o (some p) token delta =
    poll_loop k h o (h.item_at p).right (note_item token (h.item_at p))
      (poll_item o (h.item_at p) 0 (h.item_at p).content delta)

-- TextObserver.Poll: the observer with its new token, and the delta.
unfoldable pub poll : Heap → TextObserver → Run (TextObserver × List DeltaOp)
unfolding poll_loop
poll h o = do
  (token, delta) ← poll_loop (suc h.next_item) h o.token (h.type_at o.text).start empty_token []
  done (record o { token = token }, trim_retain delta)
