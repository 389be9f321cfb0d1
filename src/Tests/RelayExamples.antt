-- ===== src/Tests/RelayExamples.antt =====
-- The theorems on the relay at concrete inputs: two connections join a room around the document
-- of `word`, and the first sends a message.
use cert_yjs.Base.{
  ℕ, ◌≡◌, ◌≢◌, ◌⊎◌, refl, true, false, none, some, List, [], ◌∷◌, ◌++◌, add64, done,
}
use cert_yjs.Item.{deleted}
use cert_yjs.YType.{SnapshotChar}
use cert_yjs.Text.{snapshot}
use cert_yjs.Doc.{Codec, apply_sync_update}
use cert_yjs.Report.{encode_report}
use cert_yjs.Relay.{Room, Output, Connection, join, process}
use cert_yjs.Relay.Fan.{has, sent_to, traced, relayed, process-relays}
use cert_yjs.Relay.Reach.{Event, World, Step, Reach}
use cert_yjs.Relay.Order.{due, idle, replay, sent_to-due, replay-doc}
use cert_yjs.Tests.Fixtures.{word_store}

-- A decoder that refuses the empty message, and reads every other as an empty update.
abbrev decode_some : Codec
decode_some [] = none
decode_some (b ∷ bytes) = some ([], [])

abbrev quiet_room : Room
quiet_room = record {
  conns = [];
  doc = word_store 4;
  decode = decode_some;
  text = 0;
  name = 116 ∷ [];
}

abbrev word_chars : List SnapshotChar
word_chars =
    record { client = 7; clock = 0; deleted = false; unit = 97 }
    ∷ record { client = 7; clock = 1; deleted = true; unit = 98 }
    ∷ record { client = 7; clock = 2; deleted = false; unit = 99 }
    ∷ []

word_shown : snapshot (word_store 4) 0 ≡ done word_chars
unfolding snapshot deleted add64
word_shown = refl

nothing_applied : apply_sync_update (word_store 4) [] [] ≡ done (word_store 4, [])
unfolding apply_sync_update
nothing_applied = refl

abbrev busy_room : Room
busy_room = record quiet_room { conns = 1 ∷ 2 ∷ [] }

process-relays_example :
    (out : List Output) × (process busy_room 1 (5 ∷ []) ≡ done (busy_room, out))
    × ((c : Connection) → c ≢ 1 → has c (1 ∷ 2 ∷ []) ≡ true → sent_to c out ≡ (5 ∷ []) ∷ [])
    × ((c : Connection) → has c (1 ∷ 2 ∷ []) ≡ false → sent_to c out ≡ [])
    × (sent_to 1 out ≡ [])
    × (traced out ≡ encode_report (116 ∷ []) word_chars ∷ [])
unfolding has
process-relays_example =
    process-relays busy_room 1 (5 ∷ []) [] [] (word_store 4) [] word_chars refl nothing_applied
      word_shown (refl, (refl, tt))

busy_processed :
    process busy_room 1 (5 ∷ []) ≡ done (busy_room, relayed busy_room 1 (5 ∷ []) [] word_chars)
unfolding process relayed snapshot deleted add64
busy_processed = refl

abbrev after_message : World
after_message = record {
  room = busy_room;
  history = Event.joined 1 ∷ Event.joined 2 ∷ Event.received 1 (5 ∷ []) ∷ [];
  out = relayed busy_room 1 (5 ∷ []) [] word_chars;
}

message_reached : Reach (idle quiet_room) after_message
unfolding has join
message_reached =
    Reach.then (Reach.then (Reach.then Reach.begin (Step.accepts 1 refl)) (Step.accepts 2 refl))
      (Step.serves 1 (5 ∷ []) _ _ busy_processed)

sent_to-due_example : sent_to 2 after_message.out ≡ due decode_some 2 false after_message.history
sent_to-due_example = sent_to-due quiet_room after_message refl message_reached 2

replay-doc_example :
    (replay decode_some (word_store 4) after_message.history ≡ done (word_store 4))
    × ((traced after_message.out ≡ [])
        ⊎ ((earlier : List (List ℕ)) × (chars : List SnapshotChar) × (snapshot (word_store 4) 0
              ≡ done chars)
            × (traced after_message.out ≡ earlier ++ encode_report (116 ∷ []) chars ∷ [])))
replay-doc_example = replay-doc quiet_room after_message refl message_reached
