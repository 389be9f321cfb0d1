-- ===== src/Tests/UpdateExamples.antt =====
-- The theorems on whole updates at a concrete document: "abc" typed by client 7, of which "c" is
-- deleted again, under the root "t". The first two items make one run.
use cert_yjs.Base.{
  ℕ, ◌≡◌, refl, subst, true, none, some, List, [], ◌∷◌, ◌==◌, if◌then◌else◌, add64, sub64, arith,
  done, All,
}
use cert_yjs.Ident.{Client, ItemId}
use cert_yjs.Span.{OrderRange, DeletedSet, contains, add_range}
use cert_yjs.Item.{Item, Ptr, deleted}
use cert_yjs.Heap.{Heap}
use cert_yjs.Store.{Store}
use cert_yjs.Wire.Decode.{decode_update_items}
use cert_yjs.Wire.Encode.{join_runs, run_units, ranges_of}
use cert_yjs.Wire.EncodeUpdate.{
  encode_update, sorted_clients_desc, sort_runs, keys_of, gather_item, items_of,
  generate_delete_set, add_key,
}
use cert_yjs.Wire.Reread.{all_spans, IsSmallRanges}
use cert_yjs.Wire.Gather.{Lists}
use cert_yjs.Wire.RoundTrip.{
  Encodable, gathered_of, clients_of, deleted_of, deleted_clients, held_of,
}
use cert_yjs.Wire.Replica.{client_updates, Kept, decode_update_items-client_updates}
use cert_yjs.Wire.Tombstones.{dead_among, generate_delete_set-tombstones}
use cert_yjs.Tests.Fixtures.{unit_item, word_store}

abbrev typed_item : Ptr → Item
typed_item p =
    if p == 0
    then unit_item 0 2 97 none (some 1)
    else if p == 1
    then record (unit_item 1 2 98 (some 0) (some 2)) {
      origin_left_id = some (record { client_id = 7; clock = 0 });
    }
    else record (unit_item 2 6 99 (some 1) none) {
      origin_left_id = some (record { client_id = 7; clock = 1 });
    }

abbrev typed : Heap
typed = record {
  item_at = typed_item;
  next_item = 3;
  type_at = λ t. record { start = some 0; len = 2 };
  next_type = 1;
}

abbrev typed_doc : Store
typed_doc = record (word_store 3) { heap = typed; types = (116 ∷ [], 0) ∷ [] }

abbrev typed_ptrs : List Ptr
typed_ptrs = 0 ∷ 1 ∷ 2 ∷ []

typed-Lists : Lists typed (λ t. typed_ptrs) typed_doc.types
typed-Lists =
    (record { chain = (refl, refl, (refl, refl, (refl, refl, refl))); fits = omega arith }, tt)

same_range : (r r' : OrderRange) → some r ≡ some r' → IsSmallRanges r → IsSmallRanges r'
same_range r r' e s = subst IsSmallRanges (cc e) s

typed-Encodable : Encodable (λ units. units) (λ s. s) typed_doc (λ t. typed_ptrs)
unfolding sorted_clients_desc sort_runs keys_of gather_item items_of join_runs run_units deleted
    add_key add_range ranges_of add64 sub64
typed-Encodable = record {
  lists = typed-Lists;
  clients = (
    record {
      few = omega arith;
      client = omega arith;
      clock = omega arith;
      carried = (
        record { left = tt; right = tt; name_fits = omega arith; fits = omega arith; same = refl },
        (
          record {
            left = (omega arith, omega arith);
            right = tt;
            name_fits = omega arith;
            fits = omega arith;
            same = refl;
          },
          tt,
        ),
      );
    },
    tt,
  );
  few_clients = omega arith;
  deletes = ((omega arith, λ r e. same_range _ r e ((omega arith, tt), omega arith)), tt);
  few_deletes = omega arith;
}

typed-Kept :
    All
      (Kept typed (gathered_of typed_doc (λ t. typed_ptrs)))
      (clients_of typed_doc (λ t. typed_ptrs))
unfolding sorted_clients_desc sort_runs keys_of gather_item items_of join_runs run_units deleted
    add64 sub64
typed-Kept = (
  record {
    holding = (omega arith, (omega arith, (omega arith, tt)));
    gapless = (refl, refl, (refl, refl, (refl, refl, tt)));
    clock = omega arith;
    short = (omega arith, (omega arith, tt));
  },
  tt,
)

decode_update_items-client_updates_example :
    (bytes : List ℕ) × (encode_update (λ units. units) typed_doc ≡ done bytes)
    × (decode_update_items (λ s. s) bytes
        ≡ done (
          true,
          client_updates typed
              (gathered_of typed_doc (λ t. typed_ptrs))
              (clients_of typed_doc (λ t. typed_ptrs)),
          all_spans (
              held_of
                (deleted_of typed_doc (λ t. typed_ptrs)).1
                (deleted_clients typed_doc (λ t. typed_ptrs))),
        ))
decode_update_items-client_updates_example =
    decode_update_items-client_updates (λ units. units) (λ s. s) typed_doc (λ t. typed_ptrs)
      typed-Encodable typed-Kept

generate_delete_set-tombstones_example :
    (keys : List Client) × (ds : DeletedSet) × (generate_delete_set typed_doc ≡ done (keys, ds))
    × ((i : ItemId) → contains ds i ≡ dead_among typed (λ t. typed_ptrs) typed_doc.types i)
generate_delete_set-tombstones_example =
    generate_delete_set-tombstones typed_doc (λ t. typed_ptrs) typed-Lists
      ((omega arith, (omega arith, (omega arith, tt))), tt)
