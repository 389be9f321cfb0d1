-- ===== src/Tests/ObserveExamples.antt =====
-- The theorems on observers at a concrete transaction: on the text "ac" with a tombstone between its
-- units, "d" is inserted at the end and "a" is deleted.
use cert_yjs.Base.{
  ℕ, ◌≡◌, ◌≢◌, refl, true, List, [], ◌∷◌, ◌==◌, if◌then◌else◌, add64, sub64, inl, inr, arith, Run,
  done, panic, out_of_fuel, ◌>>=◌,
}
use cert_yjs.Item.{Ptr, deleted, indexable}
use cert_yjs.Ident.{new_id}
use cert_yjs.Span.Among.{Among}
use cert_yjs.YType.{text}
use cert_yjs.YType.Chain.{IsList}
use cert_yjs.YType.Chars.{chars}
use cert_yjs.YType.Valid.{IsText-IsList}
use cert_yjs.Store.{Store}
use cert_yjs.Delta.{DeltaOp, apply_delta}
use cert_yjs.Diff.{text_delta, new_observer}
use cert_yjs.Diff.Classify.{Changed, text_delta-patches}
use cert_yjs.Diff.Known.{Grown}
use cert_yjs.Diff.Noted.{Separate, Behind}
use cert_yjs.Diff.Polled.{Polled, poll-Polled}
use cert_yjs.Transaction.{Transaction, new_transaction, transact}
use cert_yjs.Text.{insert_in, delete_in}
use cert_yjs.Mirror.{Mirror, on_calls, check}
use cert_yjs.Mirror.Sync.{Followed, check-Followed}
use cert_yjs.Tests.Fixtures.{word, word_ptrs, word-IsText, word_store, word_tr, span_at}

abbrev watched_store : Store
watched_store = record (word_store 4) { observers = λ t. if t == 0 then 5 ∷ [] else [] }

abbrev edit : Transaction → Run Transaction
edit tr = insert_in tr 0 2 (100 ∷ []) >>= λ tr'. delete_in tr' 0 0 1

abbrev ended : Run Transaction → Transaction
ended (done tr) = tr
ended panic = word_tr 4
ended out_of_fuel = word_tr 4

abbrev edited : Transaction
edited = ended (edit (new_transaction watched_store))

edit_ends : edit (new_transaction watched_store) ≡ done edited
unfolding insert_in delete_in new_transaction new_id add64 deleted indexable sub64
edit_ends = refl

abbrev edited_ptrs : List Ptr
edited_ptrs = 0 ∷ 1 ∷ 2 ∷ 4 ∷ []

edited-IsList : IsList edited.store.heap 0 edited_ptrs
unfolding insert_in delete_in new_transaction new_id add64 deleted indexable sub64
edited-IsList = record {
  chain = (refl, refl, (refl, refl, (refl, refl, (refl, refl, refl))));
  fits = omega arith;
}

elsewhere : (k x : ℕ) → k ≢ x → ¬ Among (span_at k ∷ []) (new_id 7 x)
unfolding new_id
elsewhere k x ne (inl (c, lo, hi)) = ne (omega arith)
elsewhere k x ne (inr e) = e

edited-Changed :
    Changed
      (span_at 4 ∷ [])
      (span_at 0 ∷ [])
      (chars word word_ptrs)
      (chars edited.store.heap edited_ptrs)
unfolding insert_in delete_in new_transaction new_id add64 deleted indexable sub64
edited-Changed =
    Changed.killed _ refl (elsewhere 4 0 (λ e. omega arith)) (inl (refl, omega arith, omega arith))
      (Changed.kept _ (elsewhere 4 1 (λ e. omega arith)) (elsewhere 0 1 (λ e. omega arith)) (
        Changed.kept _ (elsewhere 4 2 (λ e. omega arith)) (elsewhere 0 2 (λ e. omega arith))
          (Changed.born _ (inl (refl, omega arith, omega arith)) Changed.none_left)))

edited_sets : (edited.insert_set ≡ span_at 4 ∷ []) × (edited.delete_set ≡ span_at 0 ∷ [])
unfolding insert_in delete_in new_transaction new_id add64 deleted indexable sub64
edited_sets = (refl, refl)

text_delta-patches_example :
    (before : List ℕ) × (d : List DeltaOp) × (now : List ℕ) × (text word 0 ≡ done before)
    × (text_delta edited.store.heap 0 (span_at 4 ∷ []) (span_at 0 ∷ []) ≡ done d)
    × (text edited.store.heap 0 ≡ done now)
    × (apply_delta before d ≡ done (now, true))
unfolding insert_in delete_in new_transaction new_id add64 deleted indexable sub64
text_delta-patches_example =
    text_delta-patches (span_at 4 ∷ []) (span_at 0 ∷ []) word edited.store.heap 0 word_ptrs
      edited_ptrs (omega arith, tt) (omega arith, tt) (IsText-IsList word-IsText) edited-IsList
      edited-Changed (omega arith)

abbrev mirror : Mirror
mirror = record { text = 0; callback = 5; view = 97 ∷ 99 ∷ [] }

edited-Followed : Followed watched_store edit edited mirror word_ptrs edited_ptrs [] []
unfolding insert_in delete_in new_transaction new_id add64 deleted indexable sub64 text
edited-Followed = record {
  ran = edit_ends;
  shown = refl;
  list_before = IsText-IsList word-IsText;
  list = edited-IsList;
  changes = edited-Changed;
  inserts = (omega arith, tt);
  deletes = (omega arith, tt);
  small = omega arith;
  observed = refl;
  others = λ u ne. ground arith;
  changed = refl;
  apart = (tt, tt);
}

check-Followed_example :
    (d : List DeltaOp) × (m' : Mirror) × (transact watched_store edit
      ≡ done (edited.store, (5, d) ∷ []))
    × (on_calls mirror ((5, d) ∷ []) ≡ done m')
    × (text edited.store.heap 0 ≡ done m'.view)
    × (check m' edited.store ≡ done (true, edited.store, []))
check-Followed_example =
    check-Followed watched_store edit edited mirror word_ptrs edited_ptrs [] [] edited-Followed

word-Separate : Separate word word_ptrs
word-Separate = (
  (
    (λ c x a b. refl),
    (
      (λ c x (e, l, m) (f, k, n). absurd (omega arith)),
      ((λ c x (e, l, m) (f, k, n). absurd (omega arith)), tt),
    ),
  ),
  (
    (
      (λ c x (e, l, m) (f, k, n). absurd (omega arith)),
      ((λ c x a b. refl), ((λ c x (e, l, m) (f, k, n). absurd (omega arith)), tt)),
    ),
    (
      (
        (λ c x (e, l, m) (f, k, n). absurd (omega arith)),
        ((λ c x (e, l, m) (f, k, n). absurd (omega arith)), ((λ c x a b. refl), tt)),
      ),
      tt,
    ),
  ),
)

edited-Grown :
    Grown (Behind word word_ptrs) (chars word word_ptrs) (chars edited.store.heap edited_ptrs)
unfolding insert_in delete_in new_transaction new_id add64 deleted indexable sub64
edited-Grown = Grown.killed _ refl (
    Grown.kept _ (
      Grown.kept _ (
        Grown.born _ ((λ e. omega arith), ((λ e. omega arith), ((λ e. omega arith), tt)))
          Grown.none_left)))

poll-Polled_example : Polled word edited.store.heap (new_observer 0)
unfolding insert_in delete_in new_transaction new_id add64 deleted indexable sub64 new_observer
poll-Polled_example =
    poll-Polled word edited.store.heap (new_observer 0) word_ptrs edited_ptrs
      (IsText-IsList word-IsText) edited-IsList (omega arith, (omega arith, (omega arith, tt)))
      word-Separate edited-Grown (omega arith)
