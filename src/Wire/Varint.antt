-- ===== src/Wire/Varint.antt =====
-- The numbers of the wire: what writeVarUint writes readVarUint reads back.
use cert_yjs.Base.{
  ℕ, zero, suc, ◌+◌, ◌*◌, ◌/◌, ◌%◌, ◌^◌, ◌≤◌, ◌<◌, bit_and, bit_or, ltb, u64_mod, ◌≡◌, refl, ap,
  ◌∙◌, true, false, some, List, [], ◌∷◌, ◌++◌, length, length-append, append_assoc, get_elem?,
  if◌then◌else◌, done, ◌>>=◌, arith, Bool-cases, inl, inr,
}
use cert_yjs.Wire.{
  Encoder, Decoder, write_loop, write_var_uint, read_u8, shl64, read_loop, read_var_uint,
}
use cert_yjs.Wire.Bits.{low_seven, mark_more, bit_or-add}
use native.Mathlib.Nat.{div-add-mod}
use native.Mathlib.Numerals.{towards_suc}

-- The bytes of a number of at most `k` groups of seven bits, the low group first, each marked but
-- the last.
power_group : (k : ℕ) → 128 ^ suc k ≡ 128 ^ k * 128
power_group k = omega arith

pub groups : ℕ → ℕ → List ℕ
groups zero n = []
groups (suc k) n =
    let rest = groups k (n / 128) in if ltb 0x7f n then (n % 128 + 128) ∷ rest else n ∷ []

more_rounds : (k n : ℕ) → n < 128 ^ suc k → 127 < n → (n / 128 < 128 ^ k) × (0 < k)
more_rounds zero n lt big = absurd (omega arith)
more_rounds (suc k) n lt big = (omega (arith, power_group (suc k)), omega arith)

write_loop-groups :
    (k : ℕ) (e : Encoder) (n : ℕ) → n < 128 ^ k → 0 < k → write_loop k e n ≡ done (e ++ groups k n)
unfolding write_loop groups
write_loop-groups zero e n lt pos = absurd (omega arith)
write_loop-groups (suc k) e n lt pos = elim (Bool-cases (ltb 0x7f n)) [
  | inr small ↦ rw (small, low_seven n) (ap (λ m. done (e ++ m ∷ [])) (ground arith))
  | inl big ↦
      let (lt', pos') = more_rounds k n lt (ground arith) in
      rw (big, low_seven n, mark_more (n % 128) (omega arith))
        (write_loop-groups k (e ++ (n % 128 + 128) ∷ []) (n / 128) lt' pos'
          ∙ ap done (append_assoc e ((n % 128 + 128) ∷ []) (groups k (n / 128))))
]

at-append :
    (front : List ℕ) (b : ℕ) (back : List ℕ) → get_elem? (front ++ b ∷ back) (length front) ≡ some b
at-append [] b back = refl
at-append (f ∷ front) b back = at-append front b back

mul_mono : (g m z : ℕ) → g ≤ m → g * z ≤ m * z
mul_mono zero m z le = omega arith
mul_mono (suc g) zero z le = absurd (omega arith)
mul_mono (suc g) (suc m) z le = omega (arith, mul_mono g m z (omega arith))

power_seven : (s : ℕ) → 2 ^ (s + 7) ≡ 128 * 2 ^ s
power_seven s = simp towards_suc (omega arith)

-- A decoder in front of given bytes.
abbrev pub decoder_at : List ℕ → List ℕ → Decoder
decoder_at front back = record { buf = front ++ back; pos = length front }

pub read_u8-at :
    (front : List ℕ) (b : ℕ) (back : List ℕ)
    → read_u8 (decoder_at front (b ∷ back)) ≡ done (b, decoder_at (front ++ b ∷ []) back)
unfolding read_u8
read_u8-at front b back =
    rw (at-append front b back, append_assoc, length-append)
      (ap (λ p. done (b, record { buf = front ++ b ∷ back; pos = p })) (omega arith))

read_loop_lem :
    (k : ℕ) (d : Decoder) (x s : ℕ)
    → read_loop (suc k) d x s ≡ (
        read_u8 d >>= λ r.
        if ltb r.0 0x80
        then done (bit_or x (shl64 (bit_and r.0 0x7f) s), r.1)
        else read_loop k r.1 (bit_or x (shl64 (bit_and r.0 0x7f) s)) (s + 7))
unfolding read_loop
read_loop_lem k d x s = refl

-- A group joins the ones before it.
join_group :
    (b g x s : ℕ)
    → b % 128 ≡ g
    → x < 2 ^ s
    → x + g * 2 ^ s < u64_mod
    → bit_or x (shl64 (bit_and b 0x7f) s) ≡ x + g * 2 ^ s
unfolding shl64
join_group b g x s e lt fits =
    let whole : g * 2 ^ s % u64_mod ≡ g * 2 ^ s = omega arith in
    rw (low_seven b, e, whole) (bit_or-add x g s lt)

read_last :
    (j : ℕ) (front rest : List ℕ) (n x s : ℕ)
    → n < 128
    → x < 2 ^ s
    → x + n * 2 ^ s < u64_mod
    → read_loop (suc j) (decoder_at front (n ∷ rest)) x s
      ≡ done (x + n * 2 ^ s, decoder_at (front ++ n ∷ []) rest)
read_last j front rest n x s small lt fits =
    let last : ltb n 0x80 ≡ true = ground arith in
    read_loop_lem j (decoder_at front (n ∷ rest)) x s
    ∙ rw (read_u8-at front n rest, last, join_group n n x s (omega arith) lt fits)

read_more :
    (j : ℕ) (front rest : List ℕ) (g x s : ℕ)
    → g < 128
    → x < 2 ^ s
    → x + g * 2 ^ s < u64_mod
    → read_loop (suc j) (decoder_at front ((g + 128) ∷ rest)) x s
      ≡ read_loop j (decoder_at (front ++ (g + 128) ∷ []) rest) (x + g * 2 ^ s) (s + 7)
read_more j front rest g x s small lt fits =
    let more : ltb (g + 128) 0x80 ≡ false = ground arith in
    read_loop_lem j (decoder_at front ((g + 128) ∷ rest)) x s
    ∙ rw (read_u8-at front (g + 128) rest, more, join_group (g + 128) g x s (omega arith) lt fits)

-- The low group of a number and the others, shifted.
split_low : (n s : ℕ) → n % 128 * 2 ^ s + n / 128 * 2 ^ (s + 7) ≡ n * 2 ^ s
split_low n s = rw (power_seven s) (omega (arith, ap (λ (m : ℕ). m * 2 ^ s) (div-add-mod n 128)))

below_next : (g x s : ℕ) → g < 128 → x < 2 ^ s → x + g * 2 ^ s < 2 ^ (s + 7)
below_next g x s b lt = rw (power_seven s) (omega (arith, mul_mono g 127 (2 ^ s) (omega arith)))

read_loop-groups :
    (k j : ℕ) (front rest : List ℕ) (n x s : ℕ)
    → n < 128 ^ k
    → 0 < k
    → length (groups k n) ≤ j
    → x < 2 ^ s
    → x + n * 2 ^ s < u64_mod
    → read_loop j (decoder_at front (groups k n ++ rest)) x s
      ≡ done (x + n * 2 ^ s, decoder_at (front ++ groups k n) rest)
unfolding groups
read_loop-groups zero j front rest n x s b pos le lt fits = absurd (omega arith)
read_loop-groups (suc k) zero front rest n x s b pos le lt fits = absurd (ground arith)
read_loop-groups (suc k) (suc j) front rest n x s b pos le lt fits =
    elim (Bool-cases (ltb 0x7f n)) [
      | inr small ↦ rw small (read_last j front rest n x s (ground arith) lt fits)
      | inl big ↦
          let (b', pos') = more_rounds k n b (ground arith) in
          let le' : length (groups k (n / 128)) ≤ j = ground arith in
          let parts = split_low n s in
          let value : x + n % 128 * 2 ^ s + n / 128 * 2 ^ (s + 7) ≡ x + n * 2 ^ s =
            omega (arith, parts) in
          rw big (
            read_more j front (groups k (n / 128) ++ rest) (n % 128) x s (omega arith) lt
              (omega arith)
            ∙ read_loop-groups k j (front ++ (n % 128 + 128) ∷ []) rest (n / 128)
                (x + n % 128 * 2 ^ s) (s + 7) b' pos' le'
                (below_next (n % 128) x s (omega arith) lt) (omega arith)
            ∙ rw (append_assoc front ((n % 128 + 128) ∷ []) (groups k (n / 128)), value))
    ]

pub write_var_uint-groups :
    (e : Encoder) (n : ℕ) → n < u64_mod → write_var_uint e n ≡ done (e ++ groups 10 n)
unfolding write_var_uint
write_var_uint-groups e n b = write_loop-groups 10 e n (omega arith) (omega arith)

pub read_var_uint-groups :
    (e rest : List ℕ) (n : ℕ)
    → n < u64_mod
    → read_var_uint (decoder_at e (groups 10 n ++ rest))
      ≡ done (n, decoder_at (e ++ groups 10 n) rest)
unfolding read_var_uint
read_var_uint-groups e rest n b =
    let fuel : length (groups 10 n) ≤ suc (length (e ++ (groups 10 n ++ rest))) =
      rw (length-append, length-append) (omega arith) in
    read_loop-groups 10 _ e rest n 0 0 (omega arith) (omega arith) fuel (omega arith) (omega arith)
    ∙ ap (λ m. done (m, decoder_at (e ++ groups 10 n) rest)) (omega arith)

-- writeVarUint ends on every uint64 and appends bytes that readVarUint, at their start, reads back
-- as the number, whatever follows them.
pub read_var_uint-write_var_uint :
    (e rest : List ℕ) (n : ℕ)
    → n < u64_mod
    → (bytes : List ℕ) × (write_var_uint e n ≡ done (e ++ bytes))
      × (read_var_uint (decoder_at e (bytes ++ rest)) ≡ done (n, decoder_at (e ++ bytes) rest))
read_var_uint-write_var_uint e rest n b =
    (groups 10 n, write_var_uint-groups e n b, read_var_uint-groups e rest n b)
