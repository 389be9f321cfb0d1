-- ===== src/Wire/Replica.antt =====
-- What a replica decodes of an encoded document: the items of each client, one by one, and the
-- spans of the delete set.
use cert_yjs.Base.{
  ℕ, ◌≤◌, ◌<◌, ◌≡◌, refl, ap, sym, subst, ◌∙◌, add64, u64_mod, arith, true, List, [], ◌∷◌, ◌++◌,
  append-nil, append_assoc, All, length, length-append, if◌then◌else◌, Bool-cases, inl, inr, done,
}
use cert_yjs.Ident.{Client, ItemId}
use cert_yjs.Item.{Ptr, TypePtr, len}
use cert_yjs.Heap.{Heap}
use cert_yjs.Update.{GoString, UpdateItem}
use cert_yjs.Store.{Store}
use cert_yjs.YType.Distinct.{All-left, All-right}
use cert_yjs.Wire.Encode.{run_units}
use cert_yjs.Wire.EncodeUpdate.{Gathered, items_of, encode_update}
use cert_yjs.Wire.Decode.{
  DecodedStruct, split_units, split_loop, split_structs, decode_update_items,
}
use cert_yjs.Wire.Runs.{unit_updates, split_units-append, joined, IsRun, join_runs-joined}
use cert_yjs.Wire.Structs.{run_struct}
use cert_yjs.Wire.Reread.{all_spans}
use cert_yjs.Wire.Sections.{run_structs, first_clock, runs_of, client_structs, all_structs}
use cert_yjs.Wire.RoundTrip.{
  Encodable, gathered_of, clients_of, deleted_of, deleted_clients, held_of,
  decode_update_items-encode_update,
}
use cert_yjs.Wire.Items.{
  item_updates, item_updates-append, Holding, run_struct-updates, add64-add64,
}

-- The updates of some structs.
abbrev struct_updates : List DecodedStruct → List UpdateItem
struct_updates [] = []
struct_updates (ds ∷ structs) =
    (if ds.is_item then unit_updates ds 0 ds.content else []) ++ struct_updates structs

struct_updates-append :
    (a b : List DecodedStruct) → struct_updates (a ++ b) ≡ struct_updates a ++ struct_updates b
struct_updates-append [] b = refl
struct_updates-append (ds ∷ a) b =
    ap (λ l. (if ds.is_item then unit_updates ds 0 ds.content else []) ++ l)
      (struct_updates-append a b)
    ∙ sym (append_assoc (if ds.is_item then unit_updates ds 0 ds.content else []) _ _)

split_loop-updates :
    (structs : List DecodedStruct) (items : List UpdateItem)
    → split_loop structs items ≡ items ++ struct_updates structs
unfolding split_loop
split_loop-updates [] items = sym (append-nil items)
split_loop-updates (ds ∷ structs) items = elim (Bool-cases ds.is_item) [
  | inl e ↦ rw e (
      split_loop-updates structs (split_units ds 0 ds.content items)
      ∙ ap (λ l. l ++ struct_updates structs) (split_units-append ds 0 ds.content items)
      ∙ append_assoc items (unit_updates ds 0 ds.content) (struct_updates structs))
  | inr e ↦ rw e (split_loop-updates structs items)
]

split_structs-updates :
    (structs : List DecodedStruct) → split_structs structs ≡ struct_updates structs
unfolding split_structs
split_structs-updates structs = split_loop-updates structs []

-- The items are the client's, and their clocks follow one another without a gap.
abbrev pub Gapless : Heap → Client → ℕ → List Ptr → Type 0
Gapless h c clock [] = Unit
Gapless h c clock (p ∷ ps) =
    ((h.item_at p).id.client_id ≡ c)
    × ((h.item_at p).id.clock ≡ clock)
    × Gapless h c (add64 clock (len (h.item_at p))) ps

add64_lt : (a b : ℕ) → add64 a b < u64_mod
unfolding add64
add64_lt a b = omega arith

add64_zero : (a : ℕ) → a < u64_mod → add64 a 0 ≡ a
unfolding add64
add64_zero a b = omega arith

module _ (h : Heap) (name : ItemId → GoString) (c : Client) where
  Gapless-append :
      (clock : ℕ) (ps qs : List Ptr)
      → clock < u64_mod
      → Gapless h c clock (ps ++ qs)
      → Gapless h c (add64 clock (length (run_units h ps))) qs
  unfolding run_units
  Gapless-append clock [] qs b g = subst (λ n. Gapless h c n qs) (sym (add64_zero clock b)) g
  Gapless-append clock (p ∷ ps) qs b (_, _, g) =
      let rest = Gapless-append (add64 clock (len (h.item_at p))) ps qs (add64_lt clock _) g in
      subst (λ n. Gapless h c n qs)
        (add64-add64 clock (len (h.item_at p)) (length (run_units h ps))
          ∙ ap (add64 clock) (sym (length-append (h.item_at p).content (run_units h ps))))
        rest

  abbrev Short : List Ptr → Type 0
  Short run = length (run_units h run) ≤ u64_mod

  run_structs-updates :
      (clock : ℕ) (runs : List (List Ptr))
      → clock < u64_mod
      → All (IsRun h) runs
      → All (Holding h) (joined runs)
      → All Short runs
      → Gapless h c clock (joined runs)
      → struct_updates (run_structs h name c clock runs) ≡ item_updates h name (joined runs)
  run_structs-updates clock [] b r x s g = refl
  run_structs-updates clock ([] ∷ runs) b (r, _) x s g = absurd (cc)
  run_structs-updates clock ((p ∷ ps) ∷ runs) b (r, rs) x (s, ss) (client, start, g) =
      let units = run_units h (p ∷ ps) in
      let later =
        run_structs-updates (add64 clock (length units)) runs (add64_lt clock _) rs
          (All-right _ (p ∷ ps) (joined runs) x) ss
          (Gapless-append clock (p ∷ ps) (joined runs) b (client, start, g)) in
      ap
        (λ l.
          unit_updates (run_struct (h.item_at p) (name (h.item_at p).id) c clock units) 0 units
          ++ l)
        later
      ∙ ap (λ ds. unit_updates ds 0 units ++ item_updates h name (joined runs))
          (λ i. run_struct (h.item_at p) (name (h.item_at p).id) (sym client i) (sym start i) units)
      ∙ ap (λ l. l ++ item_updates h name (joined runs))
          (run_struct-updates h name p ps r (All-left _ (p ∷ ps) (joined runs) x) s)
      ∙ sym (item_updates-append h name (p ∷ ps) (joined runs))

-- The updates of the items of some clients.
abbrev pub client_updates : Heap → Gathered → List Client → List UpdateItem
client_updates h g [] = []
client_updates h g (c ∷ cs) =
    item_updates h g.name (items_of c g.by_client) ++ client_updates h g cs

-- A client as the store keeps it: no item is empty, the clocks have no gap, and no run is longer
-- than the clocks are many.
pub record Kept (h : Heap) (g : Gathered) (c : Client) : Type 0 where
  pub holding : All (Holding h) (items_of c g.by_client)
  pub gapless : Gapless h c (first_clock h (runs_of h g c)) (items_of c g.by_client)
  pub clock : first_clock h (runs_of h g c) < u64_mod
  pub short : All (λ run. length (run_units h run) ≤ u64_mod) (runs_of h g c)

client_structs-updates :
    (h : Heap) (g : Gathered) (c : Client)
    → Kept h g c
    → struct_updates (client_structs h g c) ≡ item_updates h g.name (items_of c g.by_client)
client_structs-updates h g c k =
    let (e, a) = join_runs-joined h (items_of c g.by_client) in
    run_structs-updates h g.name c (first_clock h (runs_of h g c)) (runs_of h g c) k.clock a
      (subst (All (Holding h)) (sym e) k.holding) k.short
      (subst (Gapless h c (first_clock h (runs_of h g c))) (sym e) k.gapless)
    ∙ ap (item_updates h g.name) e

all_structs-updates :
    (h : Heap) (g : Gathered) (cs : List Client)
    → All (Kept h g) cs
    → struct_updates (all_structs h g cs) ≡ client_updates h g cs
all_structs-updates h g [] a = refl
all_structs-updates h g (c ∷ cs) (k, a) =
    struct_updates-append (client_structs h g c) (all_structs h g cs)
    ∙ ap (λ l. l ++ struct_updates (all_structs h g cs)) (client_structs-updates h g c k)
    ∙ ap (λ l. item_updates h g.name (items_of c g.by_client) ++ l) (all_structs-updates h g cs a)

-- A document whose root types are linked lists, that the wire can carry and whose clients are kept
-- without gaps: EncodeUpdate ends, and decoding its bytes succeeds and gives, client by client in
-- descending order, every item cut into its units, each with its own id and origins, as if the
-- items had not been joined in runs, and the spans of the delete set.
pub decode_update_items-client_updates :
    (encode_wire_string : List ℕ → GoString) (decode_wire_string : GoString → List ℕ) (s : Store)
    (list_of : TypePtr → List Ptr)
    → Encodable encode_wire_string decode_wire_string s list_of
    → All (Kept s.heap (gathered_of s list_of)) (clients_of s list_of)
    → (bytes : List ℕ) × (encode_update encode_wire_string s ≡ done bytes)
      × (decode_update_items decode_wire_string bytes
          ≡ done (
            true,
            client_updates s.heap (gathered_of s list_of) (clients_of s list_of),
            all_spans (held_of (deleted_of s list_of).1 (deleted_clients s list_of)),
          ))
decode_update_items-client_updates enc dec s list_of d k =
    let (bytes, written, back) = decode_update_items-encode_update enc dec s list_of d in
    let spans = all_spans (held_of (deleted_of s list_of).1 (deleted_clients s list_of)) in
    (
      bytes,
      written,
      back
          ∙ ap (λ items. done (true, items, spans))
              (split_structs-updates
                  (all_structs s.heap (gathered_of s list_of) (clients_of s list_of))
                ∙ all_structs-updates s.heap (gathered_of s list_of) (clients_of s list_of) k),
    )
