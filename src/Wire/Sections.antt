-- ===== src/Wire/Sections.antt =====
-- The structs section of an update: what EncodeUpdate writes for its clients is read back.
use cert_yjs.Base.{
  ℕ, bind_steps, suc, ◌<◌, add64, u64_mod, ◌≡◌, refl, sym, subst, none, some, List, [], ◌∷◌, ◌++◌,
  append-nil, append_assoc, All, length, Run, done, deref, ◌>>=◌,
}
use cert_yjs.Ident.{Client, ItemId}
use cert_yjs.Item.{Ptr}
use cert_yjs.Heap.{Heap}
use cert_yjs.Update.{GoString}
use cert_yjs.Wire.{Encoder, Decoder, write_var_uint, read_var_uint}
use cert_yjs.Wire.Format.{Reads, Reads-done, Reads-then, Reads-same}
use cert_yjs.Wire.Encode.{first, run_units, join_runs}
use cert_yjs.Wire.EncodeUpdate.{Gathered, items_of, write_runs, write_client, write_clients}
use cert_yjs.Wire.Decode.{DecodedStruct, read_structs, read_clients, read_struct_section}
use cert_yjs.Wire.Reread.{Reads-var_uint}
use cert_yjs.Wire.Structs.{run_struct, Carried, Reads-run}

-- The structs of a client's runs, the clocks counted on from the first one.
abbrev pub run_structs :
    Heap → (ItemId → GoString) → Client → ℕ → List (List Ptr) → List DecodedStruct
run_structs h name c clock [] = []
run_structs h name c clock ([] ∷ runs) = run_structs h name c clock runs
run_structs h name c clock ((p ∷ ps) ∷ runs) =
    let units = run_units h (p ∷ ps) in
    run_struct (h.item_at p) (name (h.item_at p).id) c clock units
    ∷ run_structs h name c (add64 clock (length units)) runs

abbrev pub first_clock : Heap → List (List Ptr) → ℕ
first_clock h [] = 0
first_clock h ([] ∷ runs) = 0
first_clock h ((p ∷ ps) ∷ runs) = (h.item_at p).id.clock

-- The runs that are written for a client, and their structs.
abbrev pub runs_of : Heap → Gathered → Client → List (List Ptr)
runs_of h g c = join_runs h (items_of c g.by_client)

abbrev pub client_structs : Heap → Gathered → Client → List DecodedStruct
client_structs h g c = run_structs h g.name c (first_clock h (runs_of h g c)) (runs_of h g c)

abbrev pub all_structs : Heap → Gathered → List Client → List DecodedStruct
all_structs h g [] = []
all_structs h g (c ∷ cs) = client_structs h g c ++ all_structs h g cs

module _ (encode_wire_string : List ℕ → GoString) (decode_wire_string : GoString → List ℕ) where
  abbrev pub IsCarried : Heap → (ItemId → GoString) → List Ptr → Type 0
  IsCarried h name [] = ⊥
  IsCarried h name (p ∷ ps) =
      Carried encode_wire_string decode_wire_string h name p (run_units h (p ∷ ps))

  Reads-runs :
      (h : Heap) (name : ItemId → GoString) (c : Client) (clock : ℕ) (runs : List (List Ptr))
      (structs : List DecodedStruct)
      → All (IsCarried h name) runs
      → Reads
          (λ e. write_runs encode_wire_string h name e runs)
          (λ d. read_structs decode_wire_string (length runs) d c clock structs)
          (structs ++ run_structs h name c clock runs)
  unfolding write_runs read_structs
  Reads-runs h name c clock [] structs a = rw append-nil (Reads-done structs)
  Reads-runs h name c clock ([] ∷ runs) structs (no_run, a) = absurd no_run
  Reads-runs h name c clock ((p ∷ ps) ∷ runs) structs (b, a) =
      let units = run_units h (p ∷ ps) in
      let ds = run_struct (h.item_at p) (name (h.item_at p).id) c clock units in
      let rest = Reads-runs h name c (add64 clock (length units)) runs (structs ++ ds ∷ []) a in
      let moved =
        append_assoc structs (ds ∷ []) (run_structs h name c (add64 clock (length units)) runs) in
      rw (sym moved) (
        Reads-then
          (λ (x : DecodedStruct) d.
            read_structs decode_wire_string (length runs) d c (add64 clock x.length)
              (structs ++ x ∷ []))
          (Reads-run encode_wire_string decode_wire_string h name p ps c clock b) rest)

  -- A client whose structs the wire can carry.
  pub record Ready (h : Heap) (g : Gathered) (c : Client) : Type 0 where
    pub head : Ptr
    pub others : List Ptr
    pub more : List (List Ptr)
    pub runs : runs_of h g c ≡ (head ∷ others) ∷ more
    pub few : length (runs_of h g c) < u64_mod
    pub client : c < u64_mod
    pub clock : (h.item_at head).id.clock < u64_mod
    pub carried : All (IsCarried h g.name) (runs_of h g c)

  -- The part of write_client behind the client's number.
  abbrev write_from : Heap → Gathered → List (List Ptr) → Encoder → Run Encoder
  write_from h g runs e = deref (elim runs [ [] ↦ none | run ∷ rest ↦ some run ]) >>= λ run.
      deref (first run) >>= λ p. write_var_uint e (h.item_at p).id.clock >>= λ e'.
      write_runs encode_wire_string h g.name e' runs

  Reads-from :
      (h : Heap) (g : Gathered) (c : Client) (runs : List (List Ptr)) (structs : List DecodedStruct)
      (p : Ptr) (ps : List Ptr) (more : List (List Ptr))
      → runs ≡ (p ∷ ps) ∷ more
      → (h.item_at p).id.clock < u64_mod
      → All (IsCarried h g.name) runs
      → Reads
          (write_from h g runs)
          (λ d. read_var_uint d >>= λ q.
            read_structs decode_wire_string (length runs) q.1 c q.0 structs)
          (structs ++ run_structs h g.name c (first_clock h runs) runs)
  Reads-from h g c [] structs p ps more e small a = absurd (cc)
  Reads-from h g c ([] ∷ runs) structs p ps more e small (no_run, a) = absurd no_run
  Reads-from h g c ((q ∷ qs) ∷ runs) structs p ps more e small a =
      Reads-then (λ clock d. read_structs decode_wire_string (suc (length runs)) d c clock structs)
        (Reads-var_uint (h.item_at q).id.clock
          (subst (λ x. (h.item_at x).id.clock < u64_mod) (cc e) small))
        (Reads-runs h g.name c (h.item_at q).id.clock ((q ∷ qs) ∷ runs) structs a)

  abbrev read_one : Decoder → List DecodedStruct → Run (List DecodedStruct × Decoder)
  read_one d structs = read_var_uint d >>= λ n. read_var_uint n.1 >>= λ c.
      read_var_uint c.1 >>= λ q. read_structs decode_wire_string n.0 q.1 c.0 q.0 structs

  Reads-client :
      (h : Heap) (g : Gathered) (c : Client) (structs : List DecodedStruct)
      → Ready h g c
      → Reads
          (λ e. write_client encode_wire_string h g e c)
          (λ d. read_one d structs)
          (structs ++ client_structs h g c)
  unfolding write_client
  Reads-client h g c structs r =
      Reads-then
        (λ n d. read_var_uint d >>= λ c'.
          read_var_uint c'.1 >>= λ q. read_structs decode_wire_string n q.1 c'.0 q.0 structs)
        (Reads-var_uint (length (runs_of h g c)) r.few)
        (Reads-then
          (λ c' d. read_var_uint d >>= λ q.
            read_structs decode_wire_string (length (runs_of h g c)) q.1 c' q.0 structs)
          (Reads-var_uint c r.client)
          (Reads-from h g c (runs_of h g c) structs r.head r.others r.more r.runs r.clock
            r.carried))

  read_clients_none :
      (d : Decoder) (structs : List DecodedStruct)
      → read_clients decode_wire_string 0 d structs ≡ done (structs, d)
  unfolding read_clients
  read_clients_none d structs = refl

  read_clients-one :
      (n : ℕ) (d : Decoder) (structs : List DecodedStruct)
      → read_clients decode_wire_string (suc n) d structs
        ≡ (read_one d structs >>= λ q. read_clients decode_wire_string n q.1 q.0)
  unfolding read_clients
  read_clients-one n d structs = bind_steps _ _ _ (read_var_uint d) (λ m.
      bind_steps _ _ _ (read_var_uint m.1) (λ c. bind_steps _ _ _ (read_var_uint c.1) (λ q. refl)))

  Reads-clients :
      (h : Heap) (g : Gathered) (cs : List Client) (structs : List DecodedStruct)
      → All (Ready h g) cs
      → Reads
          (λ e. write_clients encode_wire_string h g e cs)
          (λ d. read_clients decode_wire_string (length cs) d structs)
          (structs ++ all_structs h g cs)
  unfolding write_clients
  Reads-clients h g [] structs a =
      rw append-nil (Reads-same (λ e. refl) (λ d. read_clients_none d structs) (Reads-done structs))
  Reads-clients h g (c ∷ cs) structs (r, a) =
      rw (sym (append_assoc structs (client_structs h g c) (all_structs h g cs))) (
        Reads-same (λ e. refl) (λ d. read_clients-one (length cs) d structs)
          (Reads-then (λ structs' d. read_clients decode_wire_string (length cs) d structs')
            (Reads-client h g c structs r)
            (Reads-clients h g cs (structs ++ client_structs h g c) a)))

  -- The structs section: how many clients, and each client's structs.
  pub Reads-struct_section :
      (h : Heap) (g : Gathered) (cs : List Client)
      → All (Ready h g) cs
      → length cs < u64_mod
      → Reads
          (λ e. write_var_uint e (length cs) >>= λ e'. write_clients encode_wire_string h g e' cs)
          (read_struct_section decode_wire_string)
          (all_structs h g cs)
  unfolding read_struct_section
  Reads-struct_section h g cs a b =
      Reads-then (λ n d. read_clients decode_wire_string n d []) (Reads-var_uint (length cs) b)
        (Reads-clients h g cs [] a)
