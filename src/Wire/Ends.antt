-- ===== src/Wire/Ends.antt =====
-- Decoding ends on every input: no read runs out of rounds.
use cert_yjs.Base.{
  ℕ, zero, suc, ◌+◌, ◌<◌, ◌≡◌, ◌≢◌, refl, Bool, true, false, some, List, [], ◌∷◌, ◌==◌, ◌||◌, ◌&&◌,
  bit_and, length, get_elem?, if◌then◌else◌, Run, done, panic, out_of_fuel, ◌>>=◌, arith,
  Bool-cases, Option-cases, inl, inr,
}
use cert_yjs.Ident.{Client}
use cert_yjs.Update.{GoString, DeleteSpan}
use cert_yjs.Wire.{Decoder, read_u8, read_loop, read_var_uint, read_var_string, read_item_id}
use cert_yjs.Wire.Decode.{
  DecodedStruct, read_origin, read_parent, skip_parent_sub, read_item, read_struct, read_structs,
  read_clients, read_struct_section, read_ranges, read_delete_clients, read_delete_section, Decoded,
  recover, decode_update_items, split_structs, has_flag, info_has_left_id, info_has_right_id,
  info_has_sibling, info_has_parent_sub,
}

-- The run ends, in a result or a panic.
abbrev pub Ends : {A : Type 0} → Run A → Type 0
Ends m = m ≢ out_of_fuel

Ends-done : {A : Type 0} (a : A) → Ends (done a)
Ends-done a = λ e. cc

Ends-panic : {A : Type 0} → Ends {A = A} panic
Ends-panic = λ e. cc

Ends-bind :
    {A B : Type 0} (m : Run A) (f : A → Run B) → Ends m → ((a : A) → Ends (f a)) → Ends (m >>= f)
Ends-bind (done a) f e k = k a
Ends-bind panic f e k = λ p. cc
Ends-bind out_of_fuel f e k = absurd (e refl)

Ends-if : {A : Type 0} (b : Bool) (m n : Run A) → Ends m → Ends n → Ends (if b then m else n)
Ends-if true m n x y = x
Ends-if false m n x y = y

get_elem?-lt : (xs : List ℕ) (i u : ℕ) → get_elem? xs i ≡ some u → i < length xs
get_elem?-lt [] i u e = cc
get_elem?-lt (x ∷ xs) zero u e = omega arith
get_elem?-lt (x ∷ xs) (suc i) u e = omega (arith, get_elem?-lt xs i u e)

read_loop-Ends :
    (k : ℕ) (d : Decoder) (x s : ℕ) → 0 < k → length d.buf < d.pos + k → Ends (read_loop k d x s)
unfolding read_loop read_u8
read_loop-Ends zero d x s pos b = absurd (omega arith)
read_loop-Ends (suc k) d x s pos b = elim (Option-cases (get_elem? d.buf d.pos)) [
  | inl n ↦ rw n (λ e. cc)
  | inr (u, at) ↦
      let inside : d.pos < length d.buf = get_elem?-lt d.buf d.pos u at in
      rw at (
        Ends-if _ _ _ (Ends-done _)
          (read_loop-Ends k (record d { pos = suc d.pos }) _ (s + 7) (omega arith) (omega arith)))
]

read_u8-Ends : (d : Decoder) → Ends (read_u8 d)
unfolding read_u8
read_u8-Ends d = elim (Option-cases (get_elem? d.buf d.pos)) [
  | inl n ↦ rw n (λ e. cc)
  | inr (u, at) ↦ rw at (λ e. cc)
]

read_var_uint-Ends : (d : Decoder) → Ends (read_var_uint d)
unfolding read_var_uint
read_var_uint-Ends d = read_loop-Ends (suc (length d.buf)) d 0 0 (omega arith) (omega arith)

read_var_string-Ends : (d : Decoder) → Ends (read_var_string d)
unfolding read_var_string
read_var_string-Ends d =
    Ends-bind _ _ (read_var_uint-Ends d) (λ r. Ends-if _ _ _ Ends-panic (Ends-done _))

read_item_id-Ends : (d : Decoder) → Ends (read_item_id d)
unfolding read_item_id
read_item_id-Ends d =
    Ends-bind _ _ (read_var_uint-Ends d)
      (λ r. Ends-bind _ _ (read_var_uint-Ends r.1) (λ q. Ends-done _))

read_origin-Ends : (b : Bool) (d : Decoder) → Ends (read_origin b d)
unfolding read_origin
read_origin-Ends false d = Ends-done _
read_origin-Ends true d = Ends-bind _ _ (read_item_id-Ends d) (λ r. Ends-done _)

read_parent-Ends : (b : Bool) (d : Decoder) → Ends (read_parent b d)
unfolding read_parent
read_parent-Ends false d = Ends-done _
read_parent-Ends true d = Ends-bind _ _ (read_var_uint-Ends d) (λ r. elim (Bool-cases (r.0 == 1)) [
  | inl e ↦ rw e (read_var_string-Ends r.1)
  | inr e ↦ rw e (Ends-bind _ _ (read_item_id-Ends r.1) (λ q. Ends-done _))
])

skip_parent_sub-Ends : (b : Bool) (d : Decoder) → Ends (skip_parent_sub b d)
unfolding skip_parent_sub
skip_parent_sub-Ends false d = Ends-done _
skip_parent_sub-Ends true d = Ends-bind _ _ (read_var_string-Ends d) (λ r. Ends-done _)

module _ (decode_wire_string : GoString → List ℕ) where
  read_item-Ends :
      (d : Decoder) (info : ℕ) (client : Client) (clock : ℕ)
      → Ends (read_item decode_wire_string d info client clock)
  unfolding read_item
  read_item-Ends d info client clock =
      Ends-bind _ _ (read_origin-Ends (has_flag info info_has_left_id) d) (λ a.
        Ends-bind _ _ (read_origin-Ends (has_flag info info_has_right_id) a.1) (λ b.
          Ends-bind _ _ (read_parent-Ends (bit_and info info_has_sibling == 0) b.1) (λ c.
            Ends-bind _ _
              (skip_parent_sub-Ends
                (bit_and info info_has_sibling == 0 && has_flag info info_has_parent_sub) c.1)
              (λ e. Ends-bind _ _ (read_var_string-Ends e) (λ f. Ends-done _)))))

  read_struct-Ends :
      (d : Decoder) (client : Client) (clock : ℕ)
      → Ends (read_struct decode_wire_string d client clock)
  unfolding read_struct
  read_struct-Ends d client clock = Ends-bind _ _ (read_u8-Ends d) (λ r.
      elim (Bool-cases (bit_and r.0 0x1f == 0 || bit_and r.0 0x1f == 10)) [
        | inl e ↦ rw e (Ends-bind _ _ (read_var_uint-Ends r.1) (λ q. Ends-done _))
        | inr e ↦ rw e (read_item-Ends r.1 r.0 client clock)
      ])

  read_structs-Ends :
      (n : ℕ) (d : Decoder) (client : Client) (clock : ℕ) (structs : List DecodedStruct)
      → Ends (read_structs decode_wire_string n d client clock structs)
  unfolding read_structs
  read_structs-Ends zero d client clock structs = Ends-done _
  read_structs-Ends (suc n) d client clock structs =
      Ends-bind _ _ (read_struct-Ends d client clock) (λ r. read_structs-Ends n r.1 client _ _)

  read_clients-Ends :
      (n : ℕ) (d : Decoder) (structs : List DecodedStruct)
      → Ends (read_clients decode_wire_string n d structs)
  unfolding read_clients
  read_clients-Ends zero d structs = Ends-done _
  read_clients-Ends (suc n) d structs = Ends-bind _ _ (read_var_uint-Ends d) (λ a.
      Ends-bind _ _ (read_var_uint-Ends a.1) (λ b. Ends-bind _ _ (read_var_uint-Ends b.1) (λ c.
        Ends-bind _ _ (read_structs-Ends a.0 c.1 b.0 c.0 structs)
          (λ e. read_clients-Ends n e.1 e.0))))

  read_struct_section-Ends : (d : Decoder) → Ends (read_struct_section decode_wire_string d)
  unfolding read_struct_section
  read_struct_section-Ends d =
      Ends-bind _ _ (read_var_uint-Ends d) (λ r. read_clients-Ends r.0 r.1 [])

read_ranges-Ends :
    (n : ℕ) (d : Decoder) (client : Client) (spans : List DeleteSpan)
    → Ends (read_ranges n d client spans)
unfolding read_ranges
read_ranges-Ends zero d client spans = Ends-done _
read_ranges-Ends (suc n) d client spans =
    Ends-bind _ _ (read_var_uint-Ends d)
      (λ a. Ends-bind _ _ (read_var_uint-Ends a.1) (λ b. read_ranges-Ends n b.1 client _))

read_delete_clients-Ends :
    (n : ℕ) (d : Decoder) (spans : List DeleteSpan) → Ends (read_delete_clients n d spans)
unfolding read_delete_clients
read_delete_clients-Ends zero d spans = Ends-done _
read_delete_clients-Ends (suc n) d spans = Ends-bind _ _ (read_var_uint-Ends d) (λ a.
    Ends-bind _ _ (read_var_uint-Ends a.1) (λ b.
      Ends-bind _ _ (read_ranges-Ends b.0 b.1 a.0 spans) (λ c. read_delete_clients-Ends n c.1 c.0)))

read_delete_section-Ends : (d : Decoder) → Ends (read_delete_section d)
unfolding read_delete_section
read_delete_section-Ends d =
    Ends-bind _ _ (read_var_uint-Ends d) (λ r. read_delete_clients-Ends r.0 r.1 [])

-- What Ends leaves, once a panic is recovered, is a result.
recover-done : (m : Run Decoded) → Ends m → (r : Decoded) × (recover m ≡ done r)
unfolding recover
recover-done (done r) e = (r, refl)
recover-done panic e = ((false, [], []), refl)
recover-done out_of_fuel e = absurd (e refl)

-- decodeUpdateItems returns on every input: it ends, and no panic of its reads gets out.
pub decode_update_items-returns :
    (decode_wire_string : GoString → List ℕ) (bytes : List ℕ)
    → (r : Decoded) × (decode_update_items decode_wire_string bytes ≡ done r)
unfolding decode_update_items
decode_update_items-returns decode_wire_string bytes = recover-done _ (
    Ends-bind _ _ (read_struct_section-Ends decode_wire_string (record { buf = bytes; pos = 0 }))
      (λ r.
        Ends-bind _ _ (read_delete_section-Ends r.1)
          (λ q. Ends-done (true, split_structs r.0, q.0))))
