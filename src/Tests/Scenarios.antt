-- ===== src/Tests/Scenarios.antt =====
-- Documents edited and read: local edits, updates out of order, deletions.
use cert_yjs.Item.{countable, deleted, indexable}
use cert_yjs.Ident.{new_id}
use cert_yjs.Base.{add64, sub64, ℕ, ◌≡◌, refl, List, [], ◌∷◌, Run, done, ◌>>=◌}
use cert_yjs.Text.{insert, delete, code_units}
use cert_yjs.Doc.{new_doc, get_or_create_text}
use cert_yjs.Tests.Fixtures.{blank_heap}

edit_locally : Run (List ℕ)
unfolding new_doc get_or_create_text insert delete code_units
edit_locally = do
  let (t, s) = get_or_create_text (new_doc blank_heap 7) (116 ∷ [])
  (s, _) ← insert s t 0 (97 ∷ 98 ∷ 99 ∷ [])
  (s, _) ← insert s t 1 (120 ∷ [])
  (s, _) ← delete s t 2 1
  code_units s t

edit_locally_text : edit_locally ≡ done (97 ∷ 120 ∷ 99 ∷ [])
unfolding edit_locally add64 countable deleted indexable sub64 new_id
edit_locally_text = refl
