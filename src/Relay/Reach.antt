-- ===== src/Relay/Reach.antt =====
-- The room as its goroutines drive it: connections come, and messages of any of them are processed,
-- one critical section at a time and in any order.
use cert_yjs.Base.{
  done-bind, ℕ, ◌≡◌, ◌⊎◌, inl, inr, sym, ◌∙◌, false, List, [], ◌∷◌, ◌++◌, done, none, some,
  Option-cases,
}
use cert_yjs.Update.{UpdateItem, DeleteSpan, GoString}
use cert_yjs.Ident.{Client}
use cert_yjs.Heap.{Heap}
use cert_yjs.Store.{Store}
use cert_yjs.Transaction.{Call}
use cert_yjs.YType.{SnapshotChar}
use cert_yjs.Text.{snapshot}
use cert_yjs.Doc.{Codec, apply_sync_update}
use cert_yjs.Relay.{Connection, Room, Output, join, process, listen_and_serve}
use cert_yjs.Relay.Fan.{has, relayed, finish, process-unread, process-applied}

pub data Event : Type 0 where
  joined : Connection → Event
  received : Connection → List ℕ → Event

-- The room, what happened to it, and what it put out.
pub record World : Type 0 where
  pub room : Room
  pub history : List Event
  pub out : List Output

-- The loop of Run joins what Accept hands out, a connection that the room does not have; a Serve
-- processes what its connection received.
pub data Step (w : World) : World → Type 0 where
  accepts :
      (c : Connection)
      → has c w.room.conns ≡ false
      → Step w
          (record { room = join w.room c; history = w.history ++ Event.joined c ∷ []; out = w.out })
  serves :
      (c : Connection) (bytes : List ℕ) (r : Room) (more : List Output)
      → process w.room c bytes ≡ done (r, more)
      → Step w (record {
        room = r;
        history = w.history ++ Event.received c bytes ∷ [];
        out = w.out ++ more;
      })

pub data Reach (start : World) : World → Type 0 where
  begin : Reach start start
  then : {w w' : World} → Reach start w → Step w w' → Reach start w'

abbrev pub boot : Heap → Client → Codec → GoString → World
boot h client decode name = record {
  room = listen_and_serve h client decode name;
  history = [];
  out = [];
}

-- A message that was handled was not decoded and changed nothing, or was applied.
abbrev pub Handled : Room → Connection → List ℕ → Room → List Output → Type 0
Handled r self bytes r' more =
    ((r.decode bytes ≡ none) × (r' ≡ r) × (more ≡ []))
    ⊎ ((structs : List UpdateItem) × (deletes : List DeleteSpan) × (s : Store) × (calls : List Call)
        × (chars : List SnapshotChar) × (r.decode bytes ≡ some (structs, deletes))
        × (apply_sync_update r.doc structs deletes ≡ done (s, calls))
        × (snapshot s r.text ≡ done chars)
        × (r' ≡ record r { doc = s })
        × (more ≡ relayed r self bytes calls chars))

pub process-Handled :
    (r : Room) (self : Connection) (bytes : List ℕ) (r' : Room) (more : List Output)
    → process r self bytes ≡ done (r', more)
    → Handled r self bytes r' more
process-Handled r self bytes r' more e = elim (Option-cases (r.decode bytes)) [
  | inl d ↦
      let same : done (r, []) ≡ done (r', more) = sym (process-unread r self bytes d) ∙ e in
      inl (d, cc same, cc same)
  | inr ((structs, deletes), d) ↦
      let ((s, calls), a, rest) =
        done-bind (apply_sync_update r.doc structs deletes) (finish r self bytes) (r', more)
          (sym (process-applied r self bytes structs deletes d) ∙ e) in
      let (chars, t, last) =
        done-bind (snapshot s r.text)
          (λ chars. done (record r { doc = s }, relayed r self bytes calls chars)) (r', more)
          rest in
      inr (structs, deletes, s, calls, chars, d, a, t, cc last, cc last)
]
