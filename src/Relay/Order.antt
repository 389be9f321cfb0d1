-- ===== src/Relay/Order.antt =====
-- What every connection of a room has been sent, and what the room's document is, at any moment.
use cert_yjs.Base.{
  bind_steps, ℕ, ◌≡◌, ◌⊎◌, inl, inr, refl, ap, sym, subst, ◌∙◌, Bool, true, false, List, [], ◌∷◌,
  ◌++◌, ◌==◌, ◌&&◌, not, append_assoc, append-nil, if◌then◌else◌, Run, done, ◌>>=◌, Option, none,
  some, Bool-cases,
}
use cert_yjs.Update.{UpdateItem, DeleteSpan}
use cert_yjs.Store.{Store}
use cert_yjs.Transaction.{Call}
use cert_yjs.YType.{SnapshotChar}
use cert_yjs.Text.{snapshot}
use cert_yjs.Doc.{Codec, apply_sync_update, apply_encoded_update}
use cert_yjs.Report.{encode_report}
use cert_yjs.Relay.{Connection, Room, Output, join}
use cert_yjs.Relay.Fan.{
  unread, applied_lem, has, has-snoc, Apart-snoc, Apart, sent_to, traced, relayed, sent_to-append,
  sent_to-relayed, traced-append, traced-relayed,
}
use cert_yjs.Relay.Reach.{Event, World, Step, Reach, process-Handled}

pub decoded : Option (List UpdateItem × List DeleteSpan) → Bool
decoded none = false
decoded (some u) = true

-- Whether a connection is in the room after these events, if it was as `here` says before.
pub present : Connection → Bool → List Event → Bool
present c here [] = here
present c here (Event.joined d ∷ es) = present c (if d == c then true else here) es
present c here (Event.received d bytes ∷ es) = present c here es

-- What one event has for a connection.
abbrev pub share : Codec → Connection → Bool → Event → List (List ℕ)
share decode c here (Event.joined d) = []
share decode c here (Event.received d bytes) =
    if (here && not (c == d)) && decoded (decode bytes) then bytes ∷ [] else []

-- What a connection is to get: the messages of the others that decode, from when it joined on.
pub due : Codec → Connection → Bool → List Event → List (List ℕ)
due decode c here [] = []
due decode c here (e ∷ es) = share decode c here e ++ due decode c (present c here (e ∷ [])) es

-- The document that applies, one by one, the messages that decode.
pub replay : Codec → Store → List Event → Run Store
replay decode s [] = done s
replay decode s (Event.joined c ∷ es) = replay decode s es
replay decode s (Event.received c bytes ∷ es) = do
  (_, s', _) ← apply_encoded_update s decode bytes
  replay decode s' es

present-snoc :
    (c : Connection) (here : Bool) (es : List Event) (e : Event)
    → present c here (es ++ e ∷ []) ≡ present c (present c here es) (e ∷ [])
unfolding present
present-snoc c here [] e = refl
present-snoc c here (Event.joined d ∷ es) e = present-snoc c (if d == c then true else here) es e
present-snoc c here (Event.received d bytes ∷ es) e = present-snoc c here es e

due-snoc :
    (decode : Codec) (c : Connection) (here : Bool) (es : List Event) (e : Event)
    → due decode c here (es ++ e ∷ [])
      ≡ due decode c here es ++ share decode c (present c here es) e
unfolding due present
due-snoc decode c here [] e = append-nil _
due-snoc decode c here (Event.joined d ∷ es) e =
    due-snoc decode c (if d == c then true else here) es e
due-snoc decode c here (Event.received d bytes ∷ es) e =
    ap (λ r. share decode c here (Event.received d bytes) ++ r) (due-snoc decode c here es e)
    ∙ sym (append_assoc (share decode c here (Event.received d bytes)) _ _)

replay-joined :
    (decode : Codec) (s : Store) (c : Connection) → replay decode s (Event.joined c ∷ []) ≡ done s
unfolding replay
replay-joined decode s c = refl

replay-snoc :
    (decode : Codec) (s : Store) (es : List Event) (e : Event)
    → replay decode s (es ++ e ∷ []) ≡ (replay decode s es >>= λ s'. replay decode s' (e ∷ []))
unfolding replay
replay-snoc decode s [] e = refl
replay-snoc decode s (Event.joined c ∷ es) e = replay-snoc decode s es e
replay-snoc decode s (Event.received c bytes ∷ es) e =
    bind_steps _ _ _ (apply_encoded_update s decode bytes) (λ x. replay-snoc decode x.1 es e)

-- What holds of a world whose room began with this document, decoder, text and name.
pub record Kept (start : Room) (w : World) : Type 0 where
  pub decode : w.room.decode ≡ start.decode
  pub text : w.room.text ≡ start.text
  pub name : w.room.name ≡ start.name
  pub apart : Apart w.room.conns
  pub members : (c : Connection) → has c w.room.conns ≡ present c false w.history
  pub sent : (c : Connection) → sent_to c w.out ≡ due start.decode c false w.history
  pub doc : replay start.decode start.doc w.history ≡ done w.room.doc
  pub report :
      (traced w.out ≡ [])
      ⊎ ((earlier : List (List ℕ)) × (chars : List SnapshotChar) × (snapshot w.room.doc w.room.text
            ≡ done chars)
          × (traced w.out ≡ earlier ++ encode_report w.room.name chars ∷ []))

Kept-joined :
    {start : Room} {w : World} (c : Connection)
    → has c w.room.conns ≡ false
    → Kept start w
    → Kept start
        (record { room = join w.room c; history = w.history ++ Event.joined c ∷ []; out = w.out })
unfolding join present
Kept-joined {start} {w} c new k = record {
  decode = k.decode;
  text = k.text;
  name = k.name;
  apart = Apart-snoc c w.room.conns k.apart new;
  members = λ d.
      has-snoc d c w.room.conns
      ∙ ap (λ b. if c == d then true else b) (k.members d)
      ∙ sym (present-snoc d false w.history (Event.joined c));
  sent =
      λ d. k.sent d ∙ sym (due-snoc start.decode d false w.history (Event.joined c) ∙ append-nil _);
  doc =
      replay-snoc start.decode start.doc w.history (Event.joined c)
      ∙ rw k.doc (replay-joined start.decode w.room.doc c);
  report = k.report;
}

replay_unread :
    (decode : Codec) (s : Store) (c : Connection) (bytes : List ℕ)
    → decode bytes ≡ none
    → replay decode s (Event.received c bytes ∷ []) ≡ done s
unfolding replay
replay_unread decode s c bytes e = ap (λ m. m >>= λ x. done x.1) (unread s decode bytes e)

replay_applied :
    (decode : Codec) (s s' : Store) (c : Connection) (bytes : List ℕ) (structs : List UpdateItem)
    (deletes : List DeleteSpan) (calls : List Call)
    → decode bytes ≡ some (structs, deletes)
    → apply_sync_update s structs deletes ≡ done (s', calls)
    → replay decode s (Event.received c bytes ∷ []) ≡ done s'
unfolding replay
replay_applied decode s s' c bytes structs deletes calls e a =
    ap (λ m. m >>= λ x. done x.1)
      (applied_lem s decode bytes structs deletes e ∙ ap (λ m. m >>= λ p. done (true, p.0, p.1)) a)

unknown : (o : Option (List UpdateItem × List DeleteSpan)) → o ≡ none → decoded o ≡ false
unfolding decoded
unknown none e = refl
unknown (some u) e = absurd (cc)

known_lem :
    (o : Option (List UpdateItem × List DeleteSpan)) (u : List UpdateItem × List DeleteSpan)
    → o ≡ some u
    → decoded o ≡ true
unfolding decoded
known_lem none u e = absurd (cc)
known_lem (some v) u e = refl

share_unread :
    (decode : Codec) (c d : Connection) (here : Bool) (bytes : List ℕ)
    → decode bytes ≡ none
    → share decode c here (Event.received d bytes) ≡ []
share_unread decode c d here bytes e =
    let known = unknown (decode bytes) e in
    elim (Bool-cases (here && not (c == d))) [ inl h ↦ rw (h, known) refl | inr h ↦ rw h refl ]

share_applied :
    (decode : Codec) (c d : Connection) (here : Bool) (bytes : List ℕ) (structs : List UpdateItem)
    (deletes : List DeleteSpan)
    → decode bytes ≡ some (structs, deletes)
    → share decode c here (Event.received d bytes)
      ≡ (if here && not (c == d) then bytes ∷ [] else [])
share_applied decode c d here bytes structs deletes e =
    let known = known_lem (decode bytes) (structs, deletes) e in
    elim (Bool-cases (here && not (c == d))) [ inl h ↦ rw (h, known) refl | inr h ↦ rw h refl ]

-- The world after a message.
abbrev after : World → Connection → List ℕ → Room → List Output → World
after w c bytes r more = record {
  room = r;
  history = w.history ++ Event.received c bytes ∷ [];
  out = w.out ++ more;
}

Kept-unread :
    {start : Room} {w : World} (c : Connection) (bytes : List ℕ)
    → w.room.decode bytes ≡ none
    → Kept start w
    → Kept start (after w c bytes w.room [])
unfolding present
Kept-unread {start} {w} c bytes e k =
    let e' : start.decode bytes ≡ none = ap (λ f. f bytes) (sym k.decode) ∙ e in
    record {
      decode = k.decode;
      text = k.text;
      name = k.name;
      apart = k.apart;
      members = λ d. k.members d ∙ sym (present-snoc d false w.history (Event.received c bytes));
      sent = λ d.
          ap (sent_to d) (append-nil w.out)
          ∙ k.sent d
          ∙ sym (
              due-snoc start.decode d false w.history (Event.received c bytes)
              ∙ ap (λ b. due start.decode d false w.history ++ b)
                  (share_unread start.decode d c (present d false w.history) bytes e')
              ∙ append-nil _);
      doc =
          replay-snoc start.decode start.doc w.history (Event.received c bytes)
          ∙ rw k.doc (replay_unread start.decode w.room.doc c bytes e');
      report = rw (append-nil w.out) (k.report);
    }

Kept-applied :
    {start : Room} {w : World} (c : Connection) (bytes : List ℕ) (structs : List UpdateItem)
    (deletes : List DeleteSpan) (s : Store) (calls : List Call) (chars : List SnapshotChar)
    → w.room.decode bytes ≡ some (structs, deletes)
    → apply_sync_update w.room.doc structs deletes ≡ done (s, calls)
    → snapshot s w.room.text ≡ done chars
    → Kept start w
    → Kept start
        (after w c bytes (record (w.room) { doc = s }) (relayed w.room c bytes calls chars))
unfolding present
Kept-applied {start} {w} c bytes structs deletes s calls chars e a t k =
    let e' : start.decode bytes ≡ some (structs, deletes) = ap (λ f. f bytes) (sym k.decode) ∙ e in
    let more = relayed w.room c bytes calls chars in
    record {
      decode = k.decode;
      text = k.text;
      name = k.name;
      apart = k.apart;
      members = λ d. k.members d ∙ sym (present-snoc d false w.history (Event.received c bytes));
      sent = λ d.
          sent_to-append d w.out more
          ∙ ap (λ a. a ++ sent_to d more) (k.sent d)
          ∙ ap (λ b. due start.decode d false w.history ++ b)
              (sent_to-relayed d c bytes w.room calls chars k.apart
                ∙ ap (λ here. if here && not (d == c) then bytes ∷ [] else []) (k.members d)
                ∙ sym (
                    share_applied start.decode d c (present d false w.history) bytes structs deletes
                      e'))
          ∙ sym (due-snoc start.decode d false w.history (Event.received c bytes));
      doc =
          replay-snoc start.decode start.doc w.history (Event.received c bytes)
          ∙ rw k.doc (replay_applied start.decode w.room.doc s c bytes structs deletes calls e' a);
      report = inr (
        traced w.out,
        chars,
        t,
        traced-append w.out more
            ∙ ap (λ b. traced w.out ++ b) (traced-relayed c bytes w.room calls chars),
      );
    }

Kept-Step : {start : Room} {w w' : World} → Step w w' → Kept start w → Kept start w'
Kept-Step (Step.accepts c new) k = Kept-joined c new k
Kept-Step {start} {w} (Step.serves c bytes r more e) k =
    elim (process-Handled w.room c bytes r more e) [
      | inl (d, same, none_out) ↦
          subst (λ r. Kept start (after w c bytes r more)) (sym same)
            (subst (λ o. Kept start (after w c bytes w.room o)) (sym none_out)
              (Kept-unread c bytes d k))
      | inr (structs, deletes, s, calls, chars, d, a, t, same, all_out) ↦
          subst (λ r. Kept start (after w c bytes r more)) (sym same)
            (subst (λ o. Kept start (after w c bytes (record (w.room) { doc = s }) o)) (sym all_out)
              (Kept-applied c bytes structs deletes s calls chars d a t k))
    ]

-- A world in which nothing has happened yet.
abbrev pub idle : Room → World
idle r = record { room = r; history = []; out = [] }

Kept-idle : (start : Room) → start.conns ≡ [] → Kept start (idle start)
unfolding has present sent_to traced due replay
Kept-idle start e = record {
  decode = refl;
  text = refl;
  name = refl;
  apart = subst (λ cs. Apart cs) (sym e) tt;
  members = λ c. rw e refl;
  sent = λ c. refl;
  doc = refl;
  report = inl refl;
}

Kept-Reach : {start : Room} {w0 w : World} → Reach w0 w → Kept start w0 → Kept start w
Kept-Reach Reach.begin k = k
Kept-Reach (Reach.then reach step) k = Kept-Step step (Kept-Reach reach k)

-- From a room without connections on, whatever connections come and whatever they send, in any
-- order of the critical sections: at each moment, what a connection has been sent is, in order and
-- as they came, the messages that decoded and that others sent since it joined, and none of its own.
pub sent_to-due :
    (start : Room) (w : World)
    → start.conns ≡ []
    → Reach (idle start) w
    → (c : Connection) → sent_to c w.out ≡ due start.decode c false w.history
sent_to-due start w e reach c = (Kept-Reach reach (Kept-idle start e)).sent c

-- From a room without connections on, at each moment: the room's document is the one that applies
-- the messages that decode, one by one, in the order in which they were handled; and where a report
-- has been traced, the last one is the report of the text as that document has it.
pub replay-doc :
    (start : Room) (w : World)
    → start.conns ≡ []
    → Reach (idle start) w
    → (replay start.decode start.doc w.history ≡ done w.room.doc)
      × ((traced w.out ≡ [])
          ⊎ ((earlier : List (List ℕ)) × (chars : List SnapshotChar) × (snapshot w.room.doc
                  start.text
                ≡ done chars)
              × (traced w.out ≡ earlier ++ encode_report start.name chars ∷ [])))
replay-doc start w e reach =
    let k = Kept-Reach reach (Kept-idle start e) in
    (
      k.doc,
      elim (k.report) [
        | inl silent ↦ inl silent
        | inr (earlier, chars, shown, last) ↦ inr (
          earlier,
          chars,
          ap (λ t. snapshot w.room.doc t) (sym k.text) ∙ shown,
          last ∙ ap (λ n. earlier ++ encode_report n chars ∷ []) k.name,
        )
      ],
    )
