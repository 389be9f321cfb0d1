-- ===== src/Tests/EditExamples.antt =====
-- The theorems on splitting runs, on integrating and on mirrors at concrete inputs.
use cert_yjs.Base.{◌≡◌, refl, true, some, [], ◌∷◌, ◌++◌, ◌==◌, if◌then◌else◌, arith, done}
use cert_yjs.Item.{deleted, countable}
use cert_yjs.Heap.{Heap}
use cert_yjs.YType.{text}
use cert_yjs.YType.Valid.{IsText, IsText-IsList}
use cert_yjs.Split.{split_item}
use cert_yjs.Split.Text.{Halved, split_item-Halved}
use cert_yjs.Split.Node.{Resplit, split_node-Resplit}
use cert_yjs.Integrate.Anywhere.{Integrated, integrate_core-Integrated}
use cert_yjs.Store.{Store}
use cert_yjs.Mirror.{Mirror, new_mirror, check}
use cert_yjs.Mirror.Sync.{new_mirror-shows}
use cert_yjs.Text.Delete.{Deletes, delete_in-Deletes}
use cert_yjs.Tests.Fixtures.{
  word_tr, word, word_item, unit_item, word_ptrs, word-IsText, word_store, run_heap, run_store,
  run-IsText, run-InRuns,
}

split_item-Halved_example :
    (g : Heap) × (split_item run_heap 0 2 ≡ done (1, g)) × Halved run_heap 0 [] 0 [] 2 g
split_item-Halved_example = split_item-Halved run_heap 0 [] 0 [] 2 run-IsText (omega arith)

split_node-Resplit_example : Resplit (run_store 3) 0 2 [] []
split_node-Resplit_example =
    split_node-Resplit {s = run_store 3} {n = 0} {older = []} {newer = []} run-InRuns 2
      (omega arith) (omega arith)

-- The item at 3 comes from between the first and the last item of `word`.
abbrev arriving : Heap
arriving = record word {
  item_at = λ p. if p == 3 then unit_item 3 2 100 (some 0) (some 2) else word_item p;
}

arriving-IsText : IsText arriving 0 word_ptrs
unfolding countable deleted
arriving-IsText = record {
  links = (refl, refl, (refl, refl, (refl, refl, tt)));
  start = refl;
  distinct = ((omega arith, (omega arith, tt)), ((omega arith, tt), (tt, tt)));
  allocated = (omega arith, (omega arith, (omega arith, tt)));
  fits = omega arith;
  counted = (refl, (refl, (refl, tt)));
  len = refl;
}

integrate_core-Integrated_example : Integrated arriving 0 (0 ∷ []) (1 ∷ []) (2 ∷ []) 3
unfolding countable deleted
integrate_core-Integrated_example =
    integrate_core-Integrated {h = arriving} {t = 0} {ls = 0 ∷ []} {ms = 1 ∷ []} {rs = 2 ∷ []}
      {n = 3}
      (record {
        ready = record {
          text = arriving-IsText;
          fresh = (omega arith, (omega arith, (omega arith, tt)));
          used = omega arith;
          room = omega arith;
          counted = refl;
          live = refl;
          small = omega arith;
        };
        left = refl;
        right = refl;
      })

new_mirror-shows_example :
    (s' : Store) × (m : Mirror) × (new_mirror (word_store 4) 0 5 ≡ done (s', m))
    × (s'.heap ≡ word)
    × (s'.observers 0 ≡ [] ++ 5 ∷ [])
    × (text word 0 ≡ done m.view)
    × (check m s' ≡ done (true, s', []))
new_mirror-shows_example = new_mirror-shows (word_store 4) 0 5 word_ptrs (IsText-IsList word-IsText)

-- Two units from the first on, over the tombstone between them.
delete_in-Deletes_example : Deletes (word_tr 3) 0 word_ptrs 0 2
unfolding deleted
delete_in-Deletes_example =
    delete_in-Deletes (word_tr 3) 0 word_ptrs 0 2 word-IsText
      ((refl, omega arith, refl), ((refl, omega arith, refl), ((refl, omega arith, refl), tt)))
      (omega arith) (omega arith) (omega arith)
