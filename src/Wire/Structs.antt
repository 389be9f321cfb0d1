-- ===== src/Wire/Structs.antt =====
-- A struct that encodeRun writes is the struct that readStruct reads.
use cert_yjs.Base.{
  ℕ, ◌<◌, ◌==◌, ◌||◌, ◌&&◌, not, bit_and, bit_or, u64_mod, ◌≡◌, refl, sym, subst, ◌∙◌, Bool, true,
  false, Option, none, some, List, [], ◌∷◌, length, if◌then◌else◌, Run, done, ◌>>=◌,
}
use cert_yjs.Ident.{Client, ItemId, new_id}
use cert_yjs.Item.{Ptr, Item}
use cert_yjs.Heap.{Heap}
use cert_yjs.Update.{GoString}
use cert_yjs.Wire.{Encoder, Decoder, write_u8, read_u8, read_var_string, write_var_string}
use cert_yjs.Wire.Format.{Reads, Reads-then, Reads-map, Reads-same, Reads-byte}
use cert_yjs.Wire.Encode.{info_byte, write_origin, write_parent, run_units, encode_run}
use cert_yjs.Wire.Decode.{
  DecodedStruct, has_flag, info_has_parent_sub, info_has_right_id, info_has_left_id,
  info_has_sibling, content_type_string, node_tag_gc, node_tag_skip, read_origin, read_parent,
  skip_parent_sub, read_item, read_struct,
}
use cert_yjs.Wire.Reread.{Reads-origin, Reads-parent, Reads-var_string, is_there, IsSmallOrigin}

-- The info byte of a head with these origins.
abbrev info_of : Option ItemId → Option ItemId → ℕ
info_of left right =
    let with_left : ℕ → ℕ =
      λ info. elim left [ none ↦ info | some i ↦ bit_or info info_has_left_id ] in
    let with_right : ℕ → ℕ =
      λ info. elim right [ none ↦ info | some i ↦ bit_or info info_has_right_id ] in
    with_right (with_left content_type_string)

abbrev alone : Option ItemId → Option ItemId → Bool
alone left right = not (is_there left || is_there right)

-- What a reader finds in the byte.
abbrev Tells : ℕ → Option ItemId → Option ItemId → Type 0
Tells info left right =
    ((bit_and info 0x1f == node_tag_gc || bit_and info 0x1f == node_tag_skip) ≡ false)
    × (has_flag info info_has_left_id ≡ is_there left)
    × (has_flag info info_has_right_id ≡ is_there right)
    × ((bit_and info info_has_sibling == 0) ≡ alone left right)
    × (has_flag info info_has_parent_sub ≡ false)

info_of-Tells : (left right : Option ItemId) → Tells (info_of left right) left right
info_of-Tells none none = (refl, refl, refl, refl, refl)
info_of-Tells none (some i) = (refl, refl, refl, refl, refl)
info_of-Tells (some i) none = (refl, refl, refl, refl, refl)
info_of-Tells (some i) (some j) = (refl, refl, refl, refl, refl)

and_false : (b : Bool) → (b && false) ≡ false
and_false true = refl
and_false false = refl

no_tag {ℓ} : {A : Type ℓ} (b : Bool) (x y : A) → b ≡ false → (elim b [ false ↦ x | true ↦ y ]) ≡ x
no_tag false x y e = refl
no_tag true x y e = absurd (cc)

-- The struct that a reader makes of a run with the head `it`.
abbrev pub run_struct : Item → GoString → Client → ℕ → List ℕ → DecodedStruct
run_struct it name client clock units = record {
  id = new_id client clock;
  origin_left_id = it.origin_left_id;
  origin_right_id = it.origin_right_id;
  parent_name = if alone it.origin_left_id it.origin_right_id then name else [];
  content = units;
  is_item = true;
  length = length units;
}

module _ (encode_wire_string : List ℕ → GoString) (decode_wire_string : GoString → List ℕ) where
  abbrev finish : Client → ℕ → Option ItemId → Option ItemId → GoString → GoString → DecodedStruct
  finish client clock left right name s = record {
    id = new_id client clock;
    origin_left_id = left;
    origin_right_id = right;
    parent_name = name;
    content = decode_wire_string s;
    is_item = true;
    length = length (decode_wire_string s);
  }

  -- readStruct once the byte has been understood.
  abbrev body :
      (has_left has_right alone : Bool) → Client → ℕ → Decoder → Run (DecodedStruct × Decoder)
  body has_left has_right alone client clock d = read_origin has_left d >>= λ p.
      read_origin has_right p.1 >>= λ q. read_parent alone q.1 >>= λ r.
      read_var_string r.1 >>= λ s. done (finish client clock p.0 q.0 r.0 s.0, s.1)

  read_item-body :
      (info : ℕ) (left right : Option ItemId) (client : Client) (clock : ℕ) (d : Decoder)
      → Tells info left right
      → read_item decode_wire_string d info client clock
        ≡ body (is_there left) (is_there right) (alone left right) client clock d
  unfolding read_item skip_parent_sub
  read_item-body info left right client clock d (_, l, r, s, p) =
      rw (l, r, s, p, and_false (alone left right)) refl

  read_struct-body :
      (info : ℕ) (left right : Option ItemId) (client : Client) (clock : ℕ) (d d1 : Decoder)
      → Tells info left right
      → read_u8 d ≡ done (info, d1)
      → read_struct decode_wire_string d client clock
        ≡ body (is_there left) (is_there right) (alone left right) client clock d1
  unfolding read_struct
  read_struct-body info left right client clock d d1 t e =
      rw e (no_tag _ _ _ t.0 ∙ read_item-body info left right client clock d1 t)

  -- What the wire can carry of a run: its numbers fit 64 bits, and its units survive Go's
  -- conversions.
  pub record Carried (h : Heap) (name : ItemId → GoString) (p : Ptr) (units : List ℕ) : Type 0 where
    pub left : IsSmallOrigin (h.item_at p).origin_left_id
    pub right : IsSmallOrigin (h.item_at p).origin_right_id
    pub name_fits : length (name (h.item_at p).id) < u64_mod
    pub fits : length (encode_wire_string units) < u64_mod
    pub same : decode_wire_string (encode_wire_string units) ≡ units

  Reads-content :
      (left right : Option ItemId) (name : GoString) (client : Client) (clock : ℕ) (units : List ℕ)
      → length (encode_wire_string units) < u64_mod
      → Reads
          (λ e. write_var_string e (encode_wire_string units))
          (λ d. read_var_string d >>= λ s. done (finish client clock left right name s.0, s.1))
          (finish client clock left right name (encode_wire_string units))
  Reads-content left right name client clock units b =
      Reads-map (λ s. finish client clock left right name s)
        (Reads-var_string (encode_wire_string units) b)

  Reads-body :
      (left right : Option ItemId) (name : GoString) (client : Client) (clock : ℕ) (units : List ℕ)
      → IsSmallOrigin left
      → IsSmallOrigin right
      → length name < u64_mod
      → length (encode_wire_string units) < u64_mod
      → Reads
          (λ e. write_origin e left >>= λ e1. write_origin e1 right >>= λ e2.
            write_parent e2 (alone left right) name >>= λ e3.
            write_var_string e3 (encode_wire_string units))
          (body (is_there left) (is_there right) (alone left right) client clock)
          (finish client clock left right
            (if alone left right then name else [])
            (encode_wire_string units))
  Reads-body left right name client clock units bl br bn bu =
      Reads-then
        (λ l d. read_origin (is_there right) d >>= λ q. read_parent (alone left right) q.1 >>= λ r.
          read_var_string r.1 >>= λ s. done (finish client clock l q.0 r.0 s.0, s.1))
        (Reads-origin left bl)
        (Reads-then
          (λ x d. read_parent (alone left right) d >>= λ r.
            read_var_string r.1 >>= λ s. done (finish client clock left x r.0 s.0, s.1))
          (Reads-origin right br)
          (Reads-then
            (λ n d. read_var_string d >>= λ s. done (finish client clock left right n s.0, s.1))
            (Reads-parent (alone left right) name bn)
            (Reads-content left right _ client clock units bu)))

  encode_run-body :
      (h : Heap) (name : ItemId → GoString) (e : Encoder) (p : Ptr) (ps : List Ptr)
      → encode_run encode_wire_string h name e (p ∷ ps) ≡ (
          let it = h.item_at p in
          write_origin (write_u8 e (info_of it.origin_left_id it.origin_right_id)) it.origin_left_id
          >>= λ e1. write_origin e1 it.origin_right_id >>= λ e2.
              write_parent e2 (alone it.origin_left_id it.origin_right_id) (name it.id) >>= λ e3.
              write_var_string e3 (encode_wire_string (run_units h (p ∷ ps))))
  unfolding encode_run info_byte
  encode_run-body h name e p ps =
      let it = h.item_at p in rw (sym (info_of-Tells it.origin_left_id it.origin_right_id).3) refl

  -- A run that the wire can carry is read back as its struct, with the id that the reader counts.
  pub Reads-run :
      (h : Heap) (name : ItemId → GoString) (p : Ptr) (ps : List Ptr) (client : Client) (clock : ℕ)
      → Carried h name p (run_units h (p ∷ ps))
      → Reads
          (λ e. encode_run encode_wire_string h name e (p ∷ ps))
          (λ d. read_struct decode_wire_string d client clock)
          (run_struct (h.item_at p) (name (h.item_at p).id) client clock (run_units h (p ∷ ps)))
  Reads-run h name p ps client clock c =
      let it = h.item_at p in
      let units = run_units h (p ∷ ps) in
      let x =
        Reads-body it.origin_left_id it.origin_right_id (name it.id) client clock units c.left
          c.right c.name_fits c.fits in
      let tells = info_of-Tells it.origin_left_id it.origin_right_id in
      let whole =
        Reads-byte (info_of it.origin_left_id it.origin_right_id)
          (λ d d1 e.
            read_struct-body _ it.origin_left_id it.origin_right_id client clock d d1 tells e)
          x in
      subst
        (λ us.
          Reads (λ e. encode_run encode_wire_string h name e (p ∷ ps))
            (λ d. read_struct decode_wire_string d client clock)
            (run_struct it (name it.id) client clock us))
        c.same (Reads-same (λ e. encode_run-body h name e p ps) (λ d. refl) whole)
