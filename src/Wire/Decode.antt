-- ===== src/Wire/Decode.antt =====
-- yjs/codec.go: decoding an update. Go's UTF-16 and UTF-8 conversions are an argument,
-- `decode_wire_string`.
use cert_yjs.Base.{
  ℕ, zero, suc, ◌==◌, ◌||◌, ◌&&◌, not, bit_and, add64, sub64, Bool, true, false, Option, none, some,
  List, [], ◌∷◌, ◌++◌, length, if◌then◌else◌, Run, done, panic, out_of_fuel, ◌>>=◌,
}
use cert_yjs.Ident.{Client, ItemId, new_id}
use cert_yjs.Update.{GoString, UpdateItem, DeleteSpan}
use cert_yjs.Wire.{Decoder, read_u8, read_var_uint, read_var_string, read_item_id}

abbrev pub info_has_parent_sub : ℕ
info_has_parent_sub = 0x20

abbrev pub info_has_right_id : ℕ
info_has_right_id = 0x40

abbrev pub info_has_left_id : ℕ
info_has_left_id = 0x80

abbrev pub info_has_sibling : ℕ
info_has_sibling = 0xC0

abbrev pub content_type_string : ℕ
content_type_string = 4

abbrev pub node_tag_gc : ℕ
node_tag_gc = 0

abbrev pub node_tag_skip : ℕ
node_tag_skip = 10

pub record DecodedStruct : Type 0 where
  pub id : ItemId
  pub origin_left_id : Option ItemId
  pub origin_right_id : Option ItemId
  pub parent_name : GoString
  pub content : List ℕ
  pub is_item : Bool
  pub length : ℕ

-- `if has { v := d.readItemID(); origin = &v }`
unfoldable pub read_origin : Bool → Decoder → Run (Option ItemId × Decoder)
unfolding read_item_id
read_origin false d = done (none, d)
read_origin true d = do (id, d') ← read_item_id d; done (some id, d')

-- The parent of a struct without origins: a root's name, or an id that is skipped.
unfoldable pub read_parent : Bool → Decoder → Run (GoString × Decoder)
unfolding read_var_uint read_var_string read_item_id
read_parent false d = done ([], d)
read_parent true d = do
  (tag, d1) ← read_var_uint d
  elim (tag == 1) [
    | true ↦ read_var_string d1
    | false ↦ do (_, d2) ← read_item_id d1; done ([], d2)
  ]

unfoldable pub skip_parent_sub : Bool → Decoder → Run Decoder
unfolding read_var_string
skip_parent_sub false d = done d
skip_parent_sub true d = do (_, d') ← read_var_string d; done d'

abbrev pub has_flag : ℕ → ℕ → Bool
has_flag info flag = not (bit_and info flag == 0)

module _ (decode_wire_string : GoString → List ℕ) where
  -- The struct of an item, its info byte read.
  unfoldable pub read_item : Decoder → ℕ → Client → ℕ → Run (DecodedStruct × Decoder)
  unfolding read_origin read_parent skip_parent_sub read_var_string
  read_item d info client clock = do
    (left, d1) ← read_origin (has_flag info info_has_left_id) d
    (right, d2) ← read_origin (has_flag info info_has_right_id) d1
    let has_not_sibling = bit_and info info_has_sibling == 0
    (name, d3) ← read_parent has_not_sibling d2
    d4 ← skip_parent_sub (has_not_sibling && has_flag info info_has_parent_sub) d3
    (s, d5) ← read_var_string d4
    let content = decode_wire_string s
    done (
      record {
        id = new_id client clock;
        origin_left_id = left;
        origin_right_id = right;
        parent_name = name;
        content = content;
        is_item = true;
        length = length content;
      },
      d5,
    )

  unfoldable pub read_struct : Decoder → Client → ℕ → Run (DecodedStruct × Decoder)
  unfolding read_u8 read_item read_var_uint
  read_struct d client clock = do
    (info, d1) ← read_u8 d
    let first5 = bit_and info 0x1f
    elim (first5 == node_tag_gc || first5 == node_tag_skip) [
      | false ↦ read_item d1 info client clock
      | true ↦ do
        (n, d2) ← read_var_uint d1
        done (
          record {
            id = new_id client clock;
            origin_left_id = none;
            origin_right_id = none;
            parent_name = [];
            content = [];
            is_item = false;
            length = n;
          },
          d2,
        )
    ]

  -- The structs of one client, of which `n` are still to be read.
  unfoldable pub read_structs :
      (n : ℕ)
      → Decoder
      → Client
      → (clock : ℕ) → List DecodedStruct
      → Run (List DecodedStruct × Decoder)
  unfolding read_struct
  read_structs zero d client clock structs = done (structs, d)
  read_structs (suc n) d client clock structs = do
    (ds, d') ← read_struct d client clock
    read_structs n d' client (add64 clock ds.length) (structs ++ ds ∷ [])

  unfoldable pub read_clients :
      (n : ℕ) → Decoder → List DecodedStruct → Run (List DecodedStruct × Decoder)
  unfolding read_structs read_var_uint
  read_clients zero d structs = done (structs, d)
  read_clients (suc n) d structs = do
    (count, d1) ← read_var_uint d
    (client, d2) ← read_var_uint d1
    (clock, d3) ← read_var_uint d2
    (structs', d4) ← read_structs count d3 client clock structs
    read_clients n d4 structs'

  unfoldable pub read_struct_section : Decoder → Run (List DecodedStruct × Decoder)
  unfolding read_clients read_var_uint
  read_struct_section d = do (n, d') ← read_var_uint d; read_clients n d' []

unfoldable pub read_ranges :
    (n : ℕ) → Decoder → Client → List DeleteSpan → Run (List DeleteSpan × Decoder)
unfolding read_var_uint
read_ranges zero d client spans = done (spans, d)
read_ranges (suc n) d client spans = do
  (clock, d1) ← read_var_uint d
  (length, d2) ← read_var_uint d1
  read_ranges n d2 client (spans ++ record { client = client; clock = clock; length = length } ∷ [])

unfoldable pub read_delete_clients :
    (n : ℕ) → Decoder → List DeleteSpan → Run (List DeleteSpan × Decoder)
unfolding read_ranges read_var_uint
read_delete_clients zero d spans = done (spans, d)
read_delete_clients (suc n) d spans = do
  (client, d1) ← read_var_uint d
  (count, d2) ← read_var_uint d1
  (spans', d3) ← read_ranges count d2 client spans
  read_delete_clients n d3 spans'

unfoldable pub read_delete_section : Decoder → Run (List DeleteSpan × Decoder)
unfolding read_delete_clients read_var_uint
read_delete_section d = do (n, d') ← read_var_uint d; read_delete_clients n d' []

-- The parent name of the first unit of a struct: there where the struct has no origin.
unfoldable pub head_parent : DecodedStruct → Option GoString
head_parent ds = elim ds.origin_left_id [
  | some i ↦ none
  | none ↦ elim ds.origin_right_id [ some i ↦ none | none ↦ some ds.parent_name ]
]

-- The item of the unit at index `j`.
unfoldable pub unit_update : DecodedStruct → ℕ → ℕ → UpdateItem
unfolding head_parent
unit_update ds j unit = record {
  id = new_id ds.id.client_id (add64 ds.id.clock j);
  origin_left_id =
      if j == 0
      then ds.origin_left_id
      else some (new_id ds.id.client_id (add64 ds.id.clock (sub64 j 1)));
  origin_right_id = ds.origin_right_id;
  parent_name = if j == 0 then head_parent ds else none;
  content = unit ∷ [];
}

-- The inner loop of splitStructs, over the units from index `j` on.
unfoldable pub split_units : DecodedStruct → ℕ → List ℕ → List UpdateItem → List UpdateItem
unfolding unit_update
split_units ds j [] items = items
split_units ds j (u ∷ units) items = split_units ds (suc j) units (items ++ unit_update ds j u ∷ [])

unfoldable pub split_loop : List DecodedStruct → List UpdateItem → List UpdateItem
unfolding split_units
split_loop [] items = items
split_loop (ds ∷ structs) items =
    split_loop structs (if ds.is_item then split_units ds 0 ds.content items else items)

unfoldable pub split_structs : List DecodedStruct → List UpdateItem
unfolding split_loop
split_structs structs = split_loop structs []

abbrev pub Decoded : Type 0
Decoded = Bool × List UpdateItem × List DeleteSpan

-- The deferred recover: a panic comes back as ok = false.
unfoldable pub recover : Run Decoded → Run Decoded
recover (done r) = done r
recover panic = done (false, [], [])
recover out_of_fuel = out_of_fuel

unfoldable pub decode_update_items : (GoString → List ℕ) → List ℕ → Run Decoded
unfolding recover read_struct_section read_delete_section split_structs
decode_update_items decode_wire_string bytes = recover (do
  (structs, d) ← read_struct_section decode_wire_string (record { buf = bytes; pos = 0 })
  (spans, _) ← read_delete_section d
  done (true, split_structs structs, spans))
