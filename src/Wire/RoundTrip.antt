-- ===== src/Wire/RoundTrip.antt =====
-- EncodeUpdate, and what a replica decodes of it.
use cert_yjs.Base.{
  bind_steps, ℕ, suc, ◌<◌, ◌≡◌, refl, ap, sym, subst, ◌∙◌, true, Option, none, some, List, [], ◌∷◌,
  append-nil, All, length, u64_mod, subst₂, bind_assoc, Bool, Bool-cases, inl, inr, Run, done,
  ◌>>=◌, ltb,
}
use cert_yjs.Ident.{Client, ItemId}
use cert_yjs.Span.{OrderRange, DeletedSet}
use cert_yjs.Item.{Ptr, TypePtr}
use cert_yjs.Heap.{Heap}
use cert_yjs.Update.{GoString, DeleteSpan}
use cert_yjs.Store.{Store}
use cert_yjs.YType.Distinct.{All-zip}
use cert_yjs.Wire.{Decoder, write_var_uint}
use cert_yjs.Wire.Format.{Reads, Reads-then, Reads-map, Reads-same}
use cert_yjs.Wire.Varint.{decoder_at}
use cert_yjs.Wire.EncodeUpdate.{
  Gathered, sort_slice, insert_sorted, sort_runs, keys_of, items_of, sorted_clients_desc,
  write_clients, write_deleted, encode_update,
}
use cert_yjs.Wire.Decode.{
  DecodedStruct, read_struct_section, read_delete_section, split_structs, recover,
  decode_update_items,
}
use cert_yjs.Wire.Runs.{joined, IsRun, join_runs-joined}
use cert_yjs.Wire.Reread.{IsSmallRanges, Holds, keys, all_spans, Reads-delete_section}
use cert_yjs.Wire.Sections.{
  runs_of, first_clock, all_structs, IsCarried, Ready, Reads-struct_section,
}
use cert_yjs.Wire.Gather.{
  Lists, gathered, gather_lem, HasItem, gathered-Filled, sort_runs-Filled, items_of-HasItem,
  All-sort_slice, delete_roots, no_deletes, generate_delete_set_lem, delete_roots-Keyed,
}

-- What the set holds for some keys.
abbrev pub hold :
    Client → Option OrderRange → List (Client × OrderRange) → List (Client × OrderRange)
hold c none rest = rest
hold c (some r) rest = (c, r) ∷ rest

abbrev pub held_of : DeletedSet → List Client → List (Client × OrderRange)
held_of ds [] = []
held_of ds (c ∷ cs) = hold c (ds c) (held_of ds cs)

held_of-some :
    (ds : DeletedSet) (c : Client) (r : OrderRange) (cs : List Client)
    → ds c ≡ some r
    → held_of ds (c ∷ cs) ≡ (c, r) ∷ held_of ds cs
held_of-some ds c r cs e = ap (λ o. hold c o (held_of ds cs)) e

keys-held_of :
    (ds : DeletedSet) (cs : List Client)
    → All (λ c. (r : OrderRange) × (ds c ≡ some r)) cs
    → keys (held_of ds cs) ≡ cs
keys-held_of ds [] a = refl
keys-held_of ds (c ∷ cs) ((r, e), a) =
    ap keys (held_of-some ds c r cs e) ∙ ap (λ l. c ∷ l) (keys-held_of ds cs a)

-- The numbers of a client's ranges fit 64 bits.
abbrev pub IsSmallKey : DeletedSet → Client → Type 0
IsSmallKey ds c = (c < u64_mod) × ((r : OrderRange) → ds c ≡ some r → IsSmallRanges r)

held_of-Holds :
    (ds : DeletedSet) (cs : List Client)
    → All (λ c. (r : OrderRange) × (ds c ≡ some r)) cs
    → All (IsSmallKey ds) cs
    → All (Holds ds) (held_of ds cs)
held_of-Holds ds [] a b = tt
held_of-Holds ds (c ∷ cs) ((r, e), a) ((small, ranges), b) =
    subst (All (Holds ds)) (sym (held_of-some ds c r cs e))
      ((e, small, ranges r e), held_of-Holds ds cs a b)

length-keys : (held : List (Client × OrderRange)) → length (keys held) ≡ length held
length-keys [] = refl
length-keys ((c, r) ∷ held) = ap suc (length-keys held)

-- The runs of a client that has items.
first_run :
    (h : Heap) (items : List Ptr) (runs : List (List Ptr))
    → joined runs ≡ items
    → All (λ run. IsRun h run) runs
    → HasItem items
    → (p : Ptr) × (ps : List Ptr) × (more : List (List Ptr)) × (runs ≡ (p ∷ ps) ∷ more)
first_run h items [] e a x = absurd (subst HasItem (sym e) x)
first_run h items ([] ∷ runs) e (r, a) x = absurd (cc)
first_run h items ((p ∷ ps) ∷ runs) e a x = (p, ps, runs, refl)

-- What EncodeUpdate has gathered when it writes, and the clients in the order that it writes.
abbrev pub start : Gathered
start = record { name = λ (i : ItemId). []; by_client = [] }

abbrev pub gathered_of : Store → (TypePtr → List Ptr) → Gathered
gathered_of s list_of =
    let found = gathered s.heap list_of s.types start in
    record found { by_client = sort_runs s.heap found.by_client }

abbrev pub clients_of : Store → (TypePtr → List Ptr) → List Client
clients_of s list_of = sorted_clients_desc (keys_of (gathered_of s list_of).by_client)

abbrev pub deleted_of : Store → (TypePtr → List Ptr) → List Client × DeletedSet
deleted_of s list_of = delete_roots s.heap list_of s.types no_deletes

abbrev pub deleted_clients : Store → (TypePtr → List Ptr) → List Client
deleted_clients s list_of = sorted_clients_desc (deleted_of s list_of).0

length-insert_sorted :
    (less : Client → Client → Bool) (x : Client) (xs : List Client)
    → length (insert_sorted less x xs) ≡ suc (length xs)
unfolding insert_sorted
length-insert_sorted less x [] = refl
length-insert_sorted less x (y ∷ ys) = elim (Bool-cases (less y x)) [
  | inl e ↦ rw e (ap suc (length-insert_sorted less x ys))
  | inr e ↦ rw e refl
]

length-sort_slice :
    (less : Client → Client → Bool) (xs : List Client) → length (sort_slice less xs) ≡ length xs
unfolding sort_slice
length-sort_slice less [] = refl
length-sort_slice less (x ∷ xs) =
    length-insert_sorted less x (sort_slice less xs) ∙ ap suc (length-sort_slice less xs)

module _ (encode_wire_string : List ℕ → GoString) (decode_wire_string : GoString → List ℕ) where
  -- The wire can carry a client: its numbers fit 64 bits, and the units of its runs survive Go's
  -- conversions.
  pub record Writable (h : Heap) (g : Gathered) (c : Client) : Type 0 where
    pub few : length (runs_of h g c) < u64_mod
    pub client : c < u64_mod
    pub clock : first_clock h (runs_of h g c) < u64_mod
    pub carried : All (IsCarried encode_wire_string decode_wire_string h g.name) (runs_of h g c)

  Writable-Ready :
      (h : Heap) (g : Gathered) (c : Client)
      → HasItem (items_of c g.by_client)
      → Writable h g c
      → Ready encode_wire_string decode_wire_string h g c
  Writable-Ready h g c x w =
      let (e, a) = join_runs-joined h (items_of c g.by_client) in
      let (p, ps, more, r) = first_run h (items_of c g.by_client) (runs_of h g c) e a x in
      record {
        head = p;
        others = ps;
        more = more;
        runs = r;
        few = w.few;
        client = w.client;
        clock = subst (λ runs. first_clock h runs < u64_mod) r w.clock;
        carried = w.carried;
      }

  -- A document that the wire can carry, whose root types have these lists.
  pub record Encodable (s : Store) (list_of : TypePtr → List Ptr) : Type 0 where
    pub lists : Lists s.heap list_of s.types
    pub clients : All (Writable s.heap (gathered_of s list_of)) (clients_of s list_of)
    pub few_clients : length (clients_of s list_of) < u64_mod
    pub deletes : All (IsSmallKey (deleted_of s list_of).1) (deleted_clients s list_of)
    pub few_deletes : length (deleted_clients s list_of) < u64_mod

  clients-Ready :
      (s : Store) (list_of : TypePtr → List Ptr)
      → Encodable s list_of
      → All
          (Ready encode_wire_string decode_wire_string s.heap (gathered_of s list_of))
          (clients_of s list_of)
  unfolding sorted_clients_desc
  clients-Ready s list_of d =
      let g = gathered_of s list_of in
      let filled = sort_runs-Filled s.heap _ (gathered-Filled s.heap list_of s.types start tt) in
      let filled_keys =
        All-sort_slice (λ c. HasItem (items_of c g.by_client)) (λ a b. ltb b a)
          (keys_of g.by_client) (items_of-HasItem g.by_client filled) in
      All-zip _ _ _ (clients_of s list_of) (λ c x w. Writable-Ready s.heap g c x w) filled_keys
        d.clients

  -- Writing the two sections one behind the other, and reading both.
  abbrev read_both : Decoder → Run ((List DecodedStruct × List DeleteSpan) × Decoder)
  read_both d = read_struct_section decode_wire_string d >>= λ p.
      read_delete_section p.1 >>= λ q. done ((p.0, q.0), q.1)

  decode_lem :
      (bytes : List ℕ)
      → decode_update_items decode_wire_string bytes
        ≡ recover (read_both (decoder_at [] bytes) >>= λ r. done (true, split_structs r.0.0, r.0.1))
  unfolding decode_update_items
  decode_lem bytes = ap recover (
      bind_steps _ _ _ (read_struct_section decode_wire_string (decoder_at [] bytes))
        (λ p. bind_steps _ _ _ (read_delete_section p.1) (λ q. refl)))

  module _ (s : Store) (list_of : TypePtr → List Ptr) (d : Encodable s list_of) where
    abbrev structs : List DecodedStruct
    structs = all_structs s.heap (gathered_of s list_of) (clients_of s list_of)

    abbrev held : List (Client × OrderRange)
    held = held_of (deleted_of s list_of).1 (deleted_clients s list_of)

    keyed :
        All
          (λ c. (r : OrderRange) × ((deleted_of s list_of).1 c ≡ some r))
          (deleted_clients s list_of)
    unfolding sorted_clients_desc
    keyed =
        All-sort_slice _ (λ a b. ltb b a) (deleted_of s list_of).0
          (delete_roots-Keyed s.heap list_of s.types no_deletes tt)

    held-keys : keys held ≡ deleted_clients s list_of
    held-keys = keys-held_of (deleted_of s list_of).1 (deleted_clients s list_of) keyed

    held-length : length held ≡ length (deleted_clients s list_of)
    held-length = sym (length-keys held) ∙ ap length held-keys

    deletes_part :
        Reads
          (λ e. write_var_uint e (length (deleted_of s list_of).0) >>= λ e'.
            write_deleted e' (deleted_of s list_of).1 (deleted_clients s list_of))
          read_delete_section
          (all_spans held)
    deletes_part =
        let ds = (deleted_of s list_of).1 in
        let holds = held_of-Holds ds (deleted_clients s list_of) keyed d.deletes in
        let few : length held < u64_mod =
          subst (λ n. n < u64_mod) (sym held-length) d.few_deletes in
        let count : length held ≡ length (deleted_of s list_of).0 =
          held-length
          ∙ (unfold sorted_clients_desc in length-sort_slice _ (deleted_of s list_of).0) in
        subst₂
          (λ n cs.
            Reads (λ e. write_var_uint e n >>= λ e'. write_deleted e' ds cs) read_delete_section
              (all_spans held))
          count held-keys (Reads-delete_section ds held holds few)

    both :
        Reads
          (λ e. write_var_uint e (length (clients_of s list_of)) >>= λ e'.
            write_clients encode_wire_string s.heap
              (gathered_of s list_of)
              e'
              (clients_of s list_of)
            >>= λ e2. write_var_uint e2 (length (deleted_of s list_of).0) >>= λ e3.
                write_deleted e3 (deleted_of s list_of).1 (deleted_clients s list_of))
          read_both
          (structs, all_spans held)
    both =
        Reads-same
          (λ e. sym (
            bind_assoc (write_var_uint e (length (clients_of s list_of)))
              (λ e'.
                write_clients encode_wire_string s.heap (gathered_of s list_of) e'
                  (clients_of s list_of))
              (λ e2. write_var_uint e2 (length (deleted_of s list_of).0) >>= λ e3.
                write_deleted e3 (deleted_of s list_of).1 (deleted_clients s list_of))))
          (λ x. refl)
          (Reads-then (λ found x. read_delete_section x >>= λ q. done ((found, q.0), q.1))
            (Reads-struct_section encode_wire_string decode_wire_string s.heap
              (gathered_of s list_of) (clients_of s list_of) (clients-Ready s list_of d)
              d.few_clients)
            (Reads-map (λ spans. (structs, spans)) deletes_part))

    encode_update-both : encode_update encode_wire_string s ≡ (
        write_var_uint [] (length (clients_of s list_of)) >>= λ e'.
        write_clients encode_wire_string s.heap (gathered_of s list_of) e' (clients_of s list_of)
        >>= λ e2. write_var_uint e2 (length (deleted_of s list_of).0) >>= λ e3.
            write_deleted e3 (deleted_of s list_of).1 (deleted_clients s list_of))
    unfolding encode_update
    encode_update-both =
        rw
          (
            gather_lem s.heap list_of s.types start d.lists,
            generate_delete_set_lem s list_of d.lists,
          )
          refl

  -- EncodeUpdate
  pub decode_update_items-encode_update :
      (s : Store) (list_of : TypePtr → List Ptr)
      → Encodable s list_of
      → (bytes : List ℕ) × (encode_update encode_wire_string s ≡ done bytes)
        × (decode_update_items decode_wire_string bytes
            ≡ done (
              true,
              split_structs (all_structs s.heap (gathered_of s list_of) (clients_of s list_of)),
              all_spans (held_of (deleted_of s list_of).1 (deleted_clients s list_of)),
            ))
  unfolding recover
  decode_update_items-encode_update s list_of d =
      let x = both s list_of d in
      (
        x.bytes,
        encode_update-both s list_of d ∙ x.written [],
        decode_lem x.bytes
            ∙ ap (λ m. recover (m >>= λ r. done (true, split_structs r.0.0, r.0.1)))
                (ap (λ l. read_both (decoder_at [] l)) (sym (append-nil x.bytes)) ∙ x.back [] []),
      )
