-- ===== src/Tests/Fixtures.antt =====
-- Documents, items and updates that the tests share.
use cert_yjs.Base.{ℕ, refl, Option, none, some, List, [], ◌∷◌, ◌==◌, if◌then◌else◌, arith}
use cert_yjs.Item.{Ptr, Item, countable, deleted}
use cert_yjs.Heap.{Heap}
use cert_yjs.YType.Valid.{IsText}
use cert_yjs.Span.{IdSpan}
use cert_yjs.Store.{Store, nodes_of}
use cert_yjs.Split.Node.{InRuns}
use cert_yjs.Transaction.{Transaction}

abbrev pub blank_item : Item
blank_item = record {
  id = record { client_id = 0; clock = 0 };
  origin_left_id = none;
  origin_right_id = none;
  left = none;
  right = none;
  parent = none;
  content = [];
  flags = 0;
}

-- Fresh memory: no address is in use.
abbrev pub blank_heap : Heap
blank_heap = record {
  item_at = λ p. blank_item;
  next_item = 0;
  type_at = λ t. record { start = none; len = 0 };
  next_type = 0;
}

-- An item of client 7 whose flags say that it counts (2) or is a tombstone too (6).
abbrev pub unit_item : ℕ → ℕ → ℕ → Option Ptr → Option Ptr → Item
unit_item clock flags unit left right = record {
  id = record { client_id = 7; clock = clock };
  origin_left_id = none;
  origin_right_id = none;
  left = left;
  right = right;
  parent = some 0;
  content = unit ∷ [];
  flags = flags;
}

-- The text "ac" with a tombstone between its units, at the addresses 0 to 2; the item at 3
-- stands nowhere yet.
abbrev pub word_item : Ptr → Item
word_item p =
    if p == 0
    then unit_item 0 2 97 none (some 1)
    else if p == 1
    then unit_item 1 6 98 (some 0) (some 2)
    else if p == 2
    then unit_item 2 2 99 (some 1) none
    else unit_item 3 2 100 (some 0) (some 1)

abbrev pub word : Heap
word = record {
  item_at = word_item;
  next_item = 4;
  type_at = λ t. record { start = some 0; len = 2 };
  next_type = 1;
}

abbrev pub word_ptrs : List Ptr
word_ptrs = 0 ∷ 1 ∷ 2 ∷ []

pub word-IsText : IsText word 0 word_ptrs
unfolding countable deleted
word-IsText = record {
  links = (refl, refl, (refl, refl, (refl, refl, tt)));
  start = refl;
  distinct = ((omega arith, (omega arith, tt)), ((omega arith, tt), (tt, tt)));
  allocated = (omega arith, (omega arith, (omega arith, tt)));
  fits = omega arith;
  counted = (refl, (refl, (refl, tt)));
  len = refl;
}

-- The document that holds it, with the next clock of client 7 as given, and a transaction on it.
abbrev pub word_store : ℕ → Store
word_store clock = record {
  heap = word;
  client = 7;
  clock = clock;
  items = λ c. if c == 7 then some word_ptrs else none;
  types = [];
  deleted_set = λ c. none;
  pending = [];
  pending_deletes = [];
  observers = λ t. [];
}

abbrev pub word_tr : ℕ → Transaction
word_tr clock = record { store = word_store clock; insert_set = []; delete_set = []; changed = [] }

-- The records of a transaction that inserted clock 2 and deleted clock 1 of client 7.
abbrev pub span_at : ℕ → IdSpan
span_at clock = record { id = record { client_id = 7; clock = clock }; len = 1 }

-- The text "abc" as one run of client 7, at the address 0.
abbrev pub run_heap : Heap
run_heap = record {
  item_at = λ p. record (unit_item 0 2 97 none none) { content = 97 ∷ 98 ∷ 99 ∷ [] };
  next_item = 1;
  type_at = λ t. record { start = some 0; len = 3 };
  next_type = 1;
}

pub run-IsText : IsText run_heap 0 (0 ∷ [])
unfolding countable deleted
run-IsText = record {
  links = (refl, refl, tt);
  start = refl;
  distinct = (tt, tt);
  allocated = (omega arith, tt);
  fits = omega arith;
  counted = (refl, tt);
  len = refl;
}

abbrev pub run_store : ℕ → Store
run_store clock = record (word_store clock) {
  heap = run_heap;
  items = λ c. if c == 7 then some (0 ∷ []) else none;
}

abbrev pub run_tr : ℕ → Transaction
run_tr clock = record (word_tr clock) { store = run_store clock }

pub run-InRuns : {clock : ℕ} → InRuns (run_store clock) 0 [] []
unfolding nodes_of
run-InRuns = record {
  runs = refl;
  ordered = (omega arith, tt, tt);
  distinct = (tt, tt);
  allocated = (omega arith, tt);
  short = omega arith;
}
