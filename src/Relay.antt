-- ===== src/Relay.antt =====
-- wsrelay/wsrelay.go: a room, the messages it gets, and what it sends. The network is outside: what
-- the room hands to it is an `Output`, and what comes from it is an argument. Connection handles
-- are compared, never looked into. The lock is left out: `process` and `join` are each one critical
-- section, so the goroutines of a room make a sequence of them. Send's answer is not used.
pub mod Fan
pub mod Reach
pub mod Order
use cert_yjs.Base.{
  ℕ, Bool, true, false, List, [], ◌∷◌, ◌++◌, ◌==◌, not, if◌then◌else◌, Run, done, ◌>>=◌,
}
use cert_yjs.Ident.{Client}
use cert_yjs.Item.{TypePtr}
use cert_yjs.Heap.{Heap}
use cert_yjs.Update.{GoString}
use cert_yjs.Store.{Store}
use cert_yjs.Transaction.{Call}
use cert_yjs.Text.{snapshot}
use cert_yjs.Doc.{Codec, new_doc, get_or_create_text, apply_encoded_update}
use cert_yjs.Report.{encode_report}

abbrev pub Connection : Type 0
Connection = ℕ

pub record Room : Type 0 where
  pub conns : List Connection
  pub doc : Store
  pub decode : Codec
  pub text : TypePtr
  pub name : GoString

-- What a room does to its surroundings, in order: callbacks, wsnet.Send and wsnet.Trace.
pub data Output : Type 0 where
  notifies : List Call → Output
  sends : Connection → List ℕ → Output
  traces : List ℕ → Output

unfoldable pub new_room : Store → Codec → GoString → Room
unfolding get_or_create_text
new_room doc decode name =
    let (t, s) = get_or_create_text doc name in
    record { conns = []; doc = s; decode = decode; text = t; name = name }

unfoldable pub join : Room → Connection → Room
join r c = record r { conns = r.conns ++ c ∷ [] }

-- The loop of process over the connections.
unfoldable pub fan_out : List Connection → Connection → List ℕ → List Output
fan_out [] self bytes = []
fan_out (c ∷ cs) self bytes =
    let rest = fan_out cs self bytes in
    if not (c == self) then Output.sends c bytes ∷ rest else rest

unfoldable pub process : Room → Connection → List ℕ → Run (Room × List Output)
unfolding apply_encoded_update fan_out snapshot encode_report
process r self bytes = do
  (applied, s, calls) ← apply_encoded_update r.doc r.decode bytes
  let r' : Room = record r { doc = s }
  let relay : Run (Room × List Output) = (do
    chars ← snapshot s r.text
    let report = encode_report r.name chars
    done (r', Output.notifies calls ∷ (fan_out r.conns self bytes ++ Output.traces report ∷ [])))
  if applied then relay else done (r', [])

-- Serve, on what Receive answers before its error.
unfoldable pub serve : Room → Connection → List (List ℕ) → Run (Room × List Output)
unfolding process
serve r c [] = done (r, [])
serve r c (bytes ∷ received) = do
  (r1, out) ← process r c bytes
  (r2, more) ← serve r1 c received
  done (r2, out ++ more)

-- The room that ListenAndServe runs.
unfoldable pub listen_and_serve : Heap → Client → Codec → GoString → Room
unfolding new_doc new_room
listen_and_serve h client decode name = new_room (new_doc h client) decode name
