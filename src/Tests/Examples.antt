-- ===== src/Tests/Examples.antt =====
-- The theorems applied at concrete inputs.
use cert_yjs.Base.{inr, ◌≡◌, ◌↔◌, refl, true, none, some, [], ◌∷◌, ◌++◌, ◌||◌, arith, done}
use cert_yjs.Ident.{add, sub, id_opt_equal, new_id}
use cert_yjs.Ident.Laws.{id_opt_equal_iff, sub-add}
use cert_yjs.Span.{contains, add_range}
use cert_yjs.Span.Laws.{in_range, contains-add_range}
use cert_yjs.Item.{deleted}
use cert_yjs.YType.{text, find_pos}
use cert_yjs.YType.Chain.{visible, text-visible}
use cert_yjs.YType.Valid.{IsText-IsList}
use cert_yjs.YType.Seek.{Position}
use cert_yjs.YType.Position.{find_pos-Position}
use cert_yjs.Delta.{delta_snoc, trim_retain, apply_delta, retain_op, insert_op}
use cert_yjs.Delta.Patch.{patch, outcome, apply_delta-patch}
use cert_yjs.Delta.Snoc.{patch-delta_snoc, patch-trim_retain}
use cert_yjs.Store.{get_node_index}
use cert_yjs.Store.Index.{Found, get_node_index-Found}
use cert_yjs.Integrate.{connect, find_integration_left}
use cert_yjs.Integrate.Connect.{Spliced, connect-Spliced}
use cert_yjs.Integrate.Delete.{Removed, delete_node-Removed}
use cert_yjs.Integrate.Local.{find_integration_left-local}
use cert_yjs.Text.{insert_in}
use cert_yjs.Text.Insert.{Fills, insert_loop-Fills}
use cert_yjs.Text.Boundary.{Inserts, insert_in-Inserts, insert_in-past, insert_in-overflow}
use cert_yjs.Tests.Fixtures.{
  run_heap, run_tr, run-IsText, run-InRuns, word, word_ptrs, word-IsText, word_tr,
}

text-visible_example : text word 0 ≡ done (97 ∷ 99 ∷ [])
unfolding deleted
text-visible_example = text-visible word 0 word_ptrs (IsText-IsList word-IsText)

find_pos-Position_example : Position word word_ptrs 1 (find_pos word 0 1)
unfolding deleted
find_pos-Position_example =
    find_pos-Position word 0 word_ptrs 1 word-IsText (omega arith) (omega arith)

insert_in-Inserts_example : Inserts (run_tr 5) 0 (visible run_heap (0 ∷ [])) 1 (120 ∷ 121 ∷ [])
unfolding deleted
insert_in-Inserts_example =
    insert_in-Inserts (run_tr 5) 0 1 (120 ∷ 121 ∷ []) (0 ∷ []) run-IsText (omega arith)
      (omega arith) (omega arith) (inr ([], [], run-InRuns), tt)

insert_in-past_example : insert_in (word_tr 4) 0 3 (120 ∷ []) ≡ done (word_tr 4)
unfolding deleted
insert_in-past_example =
    insert_in-past (word_tr 4) 0 3 (120 ∷ []) word_ptrs word-IsText (omega arith)

insert_loop-Fills_example : Fills (word_tr 4) 0 (0 ∷ 1 ∷ []) (2 ∷ []) (120 ∷ []) none
unfolding deleted
insert_loop-Fills_example =
    insert_loop-Fills (word_tr 4) 0 (120 ∷ []) (0 ∷ 1 ∷ []) (2 ∷ []) none word-IsText (omega arith)

connect-Spliced_example : Spliced word (connect word 0 3 (some 0)) 0 (0 ∷ 3 ∷ 1 ∷ 2 ∷ [])
connect-Spliced_example = connect-Spliced word 0 (0 ∷ []) (1 ∷ 2 ∷ []) 3 (record {
  links = word-IsText.links;
  start = refl;
  distinct = word-IsText.distinct;
  fresh = (omega arith, (omega arith, (omega arith, tt)));
})

find_integration_left-local_example :
    find_integration_left word 0 3 (some 0) (some 1) ≡ done (some 0)
find_integration_left-local_example =
    find_integration_left-local word 0 3 (0 ∷ []) (1 ∷ 2 ∷ []) word-IsText.links refl

delete_node-Removed_example : Removed word 0 (0 ∷ 1 ∷ []) 2 []
unfolding deleted
delete_node-Removed_example = delete_node-Removed {xs = 0 ∷ 1 ∷ []} {ys = []} (record {
  text = word-IsText;
  parent = refl;
  live = refl;
  byte = omega arith;
  small = omega arith;
})

get_node_index-Found_example : Found word word_ptrs 1 (get_node_index word word_ptrs 1)
get_node_index-Found_example =
    get_node_index-Found word word_ptrs 1
      (
        omega arith,
        (omega arith, (omega arith, tt)),
        (omega arith, (omega arith, tt), (omega arith, tt, tt)),
      )
      (omega arith)

apply_delta-patch_example :
    apply_delta (97 ∷ 99 ∷ []) (retain_op 1 ∷ insert_op (98 ∷ []) ∷ [])
    ≡ done (outcome (patch (retain_op 1 ∷ insert_op (98 ∷ []) ∷ []) (97 ∷ 99 ∷ [])))
apply_delta-patch_example =
    apply_delta-patch (97 ∷ 99 ∷ []) (retain_op 1 ∷ insert_op (98 ∷ []) ∷ []) (omega arith)

patch-delta_snoc_example :
    patch (delta_snoc (retain_op 1 ∷ []) (retain_op 1) ++ insert_op (98 ∷ []) ∷ []) (97 ∷ 99 ∷ [])
    ≡ patch (retain_op 1 ∷ retain_op 1 ∷ insert_op (98 ∷ []) ∷ []) (97 ∷ 99 ∷ [])
patch-delta_snoc_example =
    patch-delta_snoc (retain_op 1 ∷ []) (retain_op 1) (insert_op (98 ∷ []) ∷ []) (97 ∷ 99 ∷ [])
      (omega arith)

patch-trim_retain_example :
    patch (trim_retain (insert_op (98 ∷ []) ∷ retain_op 1 ∷ [])) (97 ∷ []) ≡ some (98 ∷ 97 ∷ [])
unfolding patch
patch-trim_retain_example =
    patch-trim_retain (insert_op (98 ∷ []) ∷ retain_op 1 ∷ []) (97 ∷ []) (98 ∷ 97 ∷ []) refl

contains-add_range_example :
    contains (add_range (λ c. none) (new_id 7 3) 2) (new_id 7 4)
    ≡ (contains (λ c. none) (new_id 7 4) || in_range (new_id 7 3) 2 (new_id 7 4))
unfolding new_id
contains-add_range_example =
    contains-add_range (λ c. none) (new_id 7 3) 2 (new_id 7 4) (omega arith)

id_opt_equal_iff_example :
    (id_opt_equal (some (new_id 7 3)) none ≡ true) ↔ (some (new_id 7 3) ≡ none)
id_opt_equal_iff_example = id_opt_equal_iff (some (new_id 7 3)) none

sub-add_example : sub (add (new_id 7 0xffffffffffffffff) 2) 2 ≡ new_id 7 0xffffffffffffffff
unfolding new_id
sub-add_example = sub-add (new_id 7 0xffffffffffffffff) 2 (omega arith) (omega arith)

-- The clock has room for one more unit, and the content has two.
insert_in-overflow_example :
    insert_in (word_tr 0xffffffffffffffff) 0 1 (120 ∷ 121 ∷ []) ≡ done (word_tr 0xffffffffffffffff)
insert_in-overflow_example =
    insert_in-overflow (word_tr 0xffffffffffffffff) 0 1 (120 ∷ 121 ∷ []) (omega arith) (omega arith)
      (omega arith)
