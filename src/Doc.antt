-- ===== src/Doc.antt =====
-- yjs/doc.go and yjs/sync.go: the document handle and the application of updates.
use cert_yjs.Base.{ℕ, Bool, true, false, Option, none, some, List, [], Run, done, ◌>>=◌}
use cert_yjs.Ident.{Client}
use cert_yjs.Item.{TypePtr}
use cert_yjs.Heap.{Heap}
use cert_yjs.Update.{GoString, UpdateItem, DeleteSpan}
use cert_yjs.Store.{Store, new_store, get_or_create_y_type}
use cert_yjs.Transaction.{Call, apply_update, apply_delete_spans, transact}

unfoldable pub new_doc : Heap → Client → Store
unfolding new_store
new_doc h client = new_store h client

unfoldable pub get_or_create_text : Store → GoString → TypePtr × Store
unfolding get_or_create_y_type
get_or_create_text s name = get_or_create_y_type s name

unfoldable pub apply_sync_update :
    Store → List UpdateItem → List DeleteSpan → Run (Store × List Call)
unfolding apply_update apply_delete_spans transact
apply_sync_update s structs deletes =
    transact s (λ tr. apply_update tr structs >>= λ tr'. apply_delete_spans tr' deletes)

-- The type Codec: nothing where the data does not decode.
abbrev pub Codec : Type 0
Codec = List ℕ → Option (List UpdateItem × List DeleteSpan)

unfoldable pub apply_encoded_update : Store → Codec → List ℕ → Run (Bool × Store × List Call)
unfolding apply_sync_update
apply_encoded_update s decode bytes = elim (decode bytes) [
  | none ↦ done (false, s, [])
  | some (structs, deletes) ↦ do
    (s', calls) ← apply_sync_update s structs deletes
    done (true, s', calls)
]
