-- ===== src/Relay/Fan.antt =====
-- Who gets what from one message.
use cert_yjs.Base.{
  ℕ, ◌≡◌, ◌≢◌, refl, ap, sym, ◌∙◌, Bool, true, false, List, [], ◌∷◌, ◌++◌, ◌==◌, ◌&&◌, not,
  append-nil, if◌then◌else◌, Run, done, panic, out_of_fuel, ==_refl, ◌>>=◌, arith, Bool-cases, inl,
  inr, none, some,
}
use cert_yjs.Update.{UpdateItem, DeleteSpan}
use cert_yjs.Store.{Store}
use cert_yjs.Transaction.{Call}
use cert_yjs.YType.{SnapshotChar}
use cert_yjs.Text.{snapshot}
use cert_yjs.Doc.{Codec, apply_sync_update, apply_encoded_update}
use cert_yjs.Report.{encode_report}
use cert_yjs.Relay.{Connection, Room, Output, fan_out, process}

unfoldable pub has : Connection → List Connection → Bool
has c [] = false
has c (d ∷ ds) = if d == c then true else has c ds

-- No connection twice.
abbrev pub Apart : List Connection → Type 0
Apart [] = Unit
Apart (c ∷ cs) = (has c cs ≡ false) × Apart cs

pub has-snoc :
    (c d : Connection) (ds : List Connection)
    → has c (ds ++ d ∷ []) ≡ (if d == c then true else has c ds)
unfolding has
has-snoc c d [] = refl
has-snoc c d (x ∷ ds) = elim (Bool-cases (x == c)) [
  | inl e ↦ elim (Bool-cases (d == c)) [ inl h ↦ rw (e, h) refl | inr h ↦ rw (e, h) refl ]
  | inr e ↦ rw e (has-snoc c d ds)
]

pub Apart-snoc :
    (d : Connection) (ds : List Connection) → Apart ds → has d ds ≡ false → Apart (ds ++ d ∷ [])
unfolding has
Apart-snoc d [] a new = (refl, tt)
Apart-snoc d (x ∷ ds) (first, a) new = elim (Bool-cases (x == d)) [
  | inl e ↦ absurd (ground arith)
  | inr e ↦
      let other : (d == x) ≡ false = ground arith in
      (has-snoc x d ds ∙ rw other first, Apart-snoc d ds a (ground arith))
]

-- What the outputs send to a connection, in order.
unfoldable pub sent_to : Connection → List Output → List (List ℕ)
sent_to c [] = []
sent_to c (Output.notifies calls ∷ out) = sent_to c out
sent_to c (Output.sends d bytes ∷ out) = (if d == c then bytes ∷ [] else []) ++ sent_to c out
sent_to c (Output.traces report ∷ out) = sent_to c out

unfoldable pub traced : List Output → List (List ℕ)
traced [] = []
traced (Output.notifies calls ∷ out) = traced out
traced (Output.sends d bytes ∷ out) = traced out
traced (Output.traces report ∷ out) = report ∷ traced out

pub sent_to-append :
    (c : Connection) (a b : List Output) → sent_to c (a ++ b) ≡ sent_to c a ++ sent_to c b
unfolding sent_to
sent_to-append c [] b = refl
sent_to-append c (Output.notifies calls ∷ a) b = sent_to-append c a b
sent_to-append c (Output.sends d bytes ∷ a) b = elim (Bool-cases (d == c)) [
  | inl e ↦ rw e (ap (λ r. bytes ∷ r) (sent_to-append c a b))
  | inr e ↦ rw e (sent_to-append c a b)
]
sent_to-append c (Output.traces report ∷ a) b = sent_to-append c a b

pub traced-append : (a b : List Output) → traced (a ++ b) ≡ traced a ++ traced b
unfolding traced
traced-append [] b = refl
traced-append (Output.notifies calls ∷ a) b = traced-append a b
traced-append (Output.sends d bytes ∷ a) b = traced-append a b
traced-append (Output.traces report ∷ a) b = ap (λ r. report ∷ r) (traced-append a b)

-- Whether the message of one connection is for another.
abbrev pub is_for : Connection → Connection → List Connection → Bool
is_for self c conns = has c conns && not (c == self)

sent_to-fan_out_step :
    (c self d : Connection) (bytes : List ℕ) (cs : List Connection)
    → sent_to c (fan_out (d ∷ cs) self bytes)
      ≡ (if (d == c) && not (d == self) then bytes ∷ [] else [])
        ++ sent_to c (fan_out cs self bytes)
unfolding fan_out sent_to
sent_to-fan_out_step c self d bytes cs = elim (Bool-cases (d == self)) [
  | inl e ↦ elim (Bool-cases (d == c)) [ inl h ↦ rw (e, h) refl | inr h ↦ rw (e, h) refl ]
  | inr e ↦ elim (Bool-cases (d == c)) [ inl h ↦ rw (e, h) refl | inr h ↦ rw (e, h) refl ]
]

sent_to-fan_out_absent :
    (c self : Connection) (bytes : List ℕ) (cs : List Connection)
    → has c cs ≡ false
    → sent_to c (fan_out cs self bytes) ≡ []
unfolding fan_out has sent_to
sent_to-fan_out_absent c self bytes [] h = refl
sent_to-fan_out_absent c self bytes (d ∷ cs) h = elim (Bool-cases (d == c)) [
  | inl e ↦ absurd (ground arith)
  | inr e ↦
      sent_to-fan_out_step c self d bytes cs
      ∙ rw e (sent_to-fan_out_absent c self bytes cs (ground arith))
]

pub sent_to-fan_out :
    (c self : Connection) (bytes : List ℕ) (cs : List Connection)
    → Apart cs
    → sent_to c (fan_out cs self bytes) ≡ (if is_for self c cs then bytes ∷ [] else [])
unfolding fan_out has sent_to
sent_to-fan_out c self bytes [] a = refl
sent_to-fan_out c self bytes (d ∷ cs) (new, a) =
    sent_to-fan_out_step c self d bytes cs ∙ elim (Bool-cases (d == c)) [
      | inl e ↦
          let same : d ≡ c = ground arith in
          let rest = sent_to-fan_out_absent c self bytes cs (ap (λ x. has x cs) (sym same) ∙ new) in
          rw (e, same, rest) (append-nil _)
      | inr e ↦ rw e (sent_to-fan_out c self bytes cs a)
    ]

traced-fan_out :
    (self : Connection) (bytes : List ℕ) (cs : List Connection)
    → traced (fan_out cs self bytes) ≡ []
unfolding traced fan_out
traced-fan_out self bytes [] = refl
traced-fan_out self bytes (d ∷ cs) = elim (Bool-cases (d == self)) [
  | inl e ↦ rw e (traced-fan_out self bytes cs)
  | inr e ↦ rw e (traced-fan_out self bytes cs)
]

own :
    (c : Connection) (b : Bool) (bytes : List ℕ)
    → (if b && not (c == c) then bytes ∷ [] else []) ≡ []
own c true bytes = rw (==_refl c) refl
own c false bytes = refl

-- What `process` puts out where the message is applied.
unfoldable pub relayed : Room → Connection → List ℕ → List Call → List SnapshotChar → List Output
relayed r self bytes calls chars =
    Output.notifies calls
    ∷ (fan_out r.conns self bytes ++ Output.traces (encode_report r.name chars) ∷ [])

pub sent_to-relayed :
    (c self : Connection) (bytes : List ℕ) (r : Room) (calls : List Call)
    (chars : List SnapshotChar)
    → Apart r.conns
    → sent_to c (relayed r self bytes calls chars)
      ≡ (if is_for self c r.conns then bytes ∷ [] else [])
unfolding sent_to relayed
sent_to-relayed c self bytes r calls chars a =
    sent_to-append c (fan_out r.conns self bytes) (Output.traces (encode_report r.name chars) ∷ [])
    ∙ append-nil _
    ∙ sent_to-fan_out c self bytes r.conns a

pub traced-relayed :
    (self : Connection) (bytes : List ℕ) (r : Room) (calls : List Call) (chars : List SnapshotChar)
    → traced (relayed r self bytes calls chars) ≡ encode_report r.name chars ∷ []
unfolding traced relayed
traced-relayed self bytes r calls chars =
    traced-append (fan_out r.conns self bytes) (Output.traces (encode_report r.name chars) ∷ [])
    ∙ ap (λ a. a ++ encode_report r.name chars ∷ []) (traced-fan_out self bytes r.conns)

-- The end of `process` where the message is applied.
abbrev pub finish : Room → Connection → List ℕ → Store × List Call → Run (Room × List Output)
finish r self bytes (s, calls) = do
  chars ← snapshot s r.text
  done (record r { doc = s }, relayed r self bytes calls chars)

-- The rest of `process`, after the apply.
abbrev answer : Room → Connection → List ℕ → Bool × Store × List Call → Run (Room × List Output)
answer r self bytes (applied, s, calls) =
    if applied then finish r self bytes (s, calls) else done (record r { doc = s }, [])

process_lem :
    (r : Room) (self : Connection) (bytes : List ℕ)
    → process r self bytes ≡ (apply_encoded_update r.doc r.decode bytes >>= answer r self bytes)
unfolding process relayed
process_lem r self bytes = refl

pub unread :
    (s : Store) (decode : Codec) (bytes : List ℕ)
    → decode bytes ≡ none
    → apply_encoded_update s decode bytes ≡ done (false, s, [])
unfolding apply_encoded_update
unread s decode bytes e = rw (e, apply_encoded_update) refl

pub applied_lem :
    (s : Store) (decode : Codec) (bytes : List ℕ) (structs : List UpdateItem)
    (deletes : List DeleteSpan)
    → decode bytes ≡ some (structs, deletes)
    → apply_encoded_update s decode bytes
      ≡ (apply_sync_update s structs deletes >>= λ p. done (true, p.0, p.1))
unfolding apply_encoded_update
applied_lem s decode bytes structs deletes e = rw (e, apply_encoded_update) refl

pub process-unread :
    (r : Room) (self : Connection) (bytes : List ℕ)
    → r.decode bytes ≡ none
    → process r self bytes ≡ done (r, [])
process-unread r self bytes e = process_lem r self bytes ∙ rw (unread r.doc r.decode bytes e) refl

then_answer :
    (r : Room) (self : Connection) (bytes : List ℕ) (m : Run (Store × List Call))
    → (m >>= (λ p. done (true, p.0, p.1)) >>= answer r self bytes) ≡ (m >>= finish r self bytes)
then_answer r self bytes (done (s, calls)) = refl
then_answer r self bytes panic = refl
then_answer r self bytes out_of_fuel = refl

pub process-applied :
    (r : Room) (self : Connection) (bytes : List ℕ) (structs : List UpdateItem)
    (deletes : List DeleteSpan)
    → r.decode bytes ≡ some (structs, deletes)
    → process r self bytes ≡ (apply_sync_update r.doc structs deletes >>= finish r self bytes)
process-applied r self bytes structs deletes e =
    process_lem r self bytes
    ∙ ap (λ m. m >>= answer r self bytes) (applied_lem r.doc r.decode bytes structs deletes e)
    ∙ then_answer r self bytes (apply_sync_update r.doc structs deletes)

-- A message that decodes and whose apply ends, in a room where no connection stands twice and
-- whose text can be read afterwards: process ends with the new document, each other connection
-- of the room is sent the message once and as it came, its sender is sent nothing, nor is a
-- connection outside the room, and the report of the text is traced, once.
pub process-relays :
    (r : Room) (self : Connection) (bytes : List ℕ) (structs : List UpdateItem)
    (deletes : List DeleteSpan) (s : Store) (calls : List Call) (chars : List SnapshotChar)
    → r.decode bytes ≡ some (structs, deletes)
    → apply_sync_update r.doc structs deletes ≡ done (s, calls)
    → snapshot s r.text ≡ done chars
    → Apart r.conns
    → (out : List Output) × (process r self bytes ≡ done (record r { doc = s }, out))
      × ((c : Connection) → c ≢ self → has c r.conns ≡ true → sent_to c out ≡ bytes ∷ [])
      × ((c : Connection) → has c r.conns ≡ false → sent_to c out ≡ [])
      × (sent_to self out ≡ [])
      × (traced out ≡ encode_report r.name chars ∷ [])
process-relays r self bytes structs deletes s calls chars d a t apart =
    let sent = λ (c : Connection). sent_to-relayed c self bytes r calls chars apart in
    (
      relayed r self bytes calls chars,
      process-applied r self bytes structs deletes d ∙ rw (a, t) refl,
      λ c ne here. let other : (c == self) ≡ false = ground arith in sent c ∙ rw (here, other) refl,
      λ c away. sent c ∙ rw away refl,
      sent self ∙ own self (has self r.conns) bytes,
      traced-relayed self bytes r calls chars,
    )
