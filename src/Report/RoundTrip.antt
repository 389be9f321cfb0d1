-- ===== src/Report/RoundTrip.antt =====
-- A report can be read back: a reader of the layout, and that it inverts EncodeReport.
use cert_yjs.Base.{
  ℕ, zero, suc, ◌+◌, ◌*◌, ◌/◌, ◌%◌, ◌^◌, ◌<◌, ◌≡◌, refl, ap, sym, ◌∙◌, Bool, true, false, Option,
  none, some, List, [], ◌∷◌, ◌++◌, length, take, drop, append_assoc, append-nil, All,
  take-length_append, drop-length_append, if◌then◌else◌, ◌==◌, u64_mod, arith, not,
}
use cert_yjs.Update.{GoString}
use cert_yjs.YType.{SnapshotChar}
use cert_yjs.Report.{append_uint64, append_char, append_chars, encode_report}

-- The eight bytes of a number.
unfoldable pub bytes_of : ℕ → List ℕ
unfolding append_uint64
bytes_of x = append_uint64 [] x

-- A number of eight bytes, the low one first, and what follows it.
unfoldable pub read_uint64 : List ℕ → Option (ℕ × List ℕ)
read_uint64 (a ∷ b ∷ c ∷ d ∷ e ∷ f ∷ g ∷ h ∷ rest) = some (
  a + 2 ^ 8 * b + 2 ^ 16 * c + 2 ^ 24 * d + 2 ^ 32 * e + 2 ^ 40 * f + 2 ^ 48 * g + 2 ^ 56 * h,
  rest,
)
read_uint64 bytes = none

value_of :
    (x : ℕ)
    → x < u64_mod
    → x % 256
        + 2 ^ 8 * (x / 2 ^ 8 % 256)
        + 2 ^ 16 * (x / 2 ^ 16 % 256)
        + 2 ^ 24 * (x / 2 ^ 24 % 256)
        + 2 ^ 32 * (x / 2 ^ 32 % 256)
        + 2 ^ 40 * (x / 2 ^ 40 % 256)
        + 2 ^ 48 * (x / 2 ^ 48 % 256)
        + 2 ^ 56 * (x / 2 ^ 56 % 256)
      ≡ x
value_of x b = omega arith

pub read_uint64-bytes_of :
    (x : ℕ) (rest : List ℕ) → x < u64_mod → read_uint64 (bytes_of x ++ rest) ≡ some (x, rest)
unfolding read_uint64 bytes_of
read_uint64-bytes_of x rest b = ap (λ y. some (y, rest)) (value_of x b)

append_uint64-bytes_of : (buf : List ℕ) (x : ℕ) → append_uint64 buf x ≡ buf ++ bytes_of x
unfolding append_uint64 bytes_of
append_uint64-bytes_of buf x = refl

-- A number read, and what is done with it and with the bytes behind it.
abbrev pub next {ℓ} : {A : Type ℓ} → Option (ℕ × List ℕ) → (ℕ → List ℕ → Option A) → Option A
next none k = none
next (some (x, rest)) k = k x rest

unfoldable pub read_char : List ℕ → Option (SnapshotChar × List ℕ)
unfolding read_uint64
read_char bytes = next (read_uint64 bytes) (λ client r1. next (read_uint64 r1) (λ clock r2.
    next (read_uint64 r2) (λ flag r3. next (read_uint64 r3) (λ unit r4.
      some
        (record { client = client; clock = clock; deleted = not (flag == 0); unit = unit }, r4)))))

abbrev pub cons_char :
    SnapshotChar → Option (List SnapshotChar × List ℕ) → Option (List SnapshotChar × List ℕ)
cons_char c none = none
cons_char c (some (chars, rest)) = some (c ∷ chars, rest)

unfoldable pub read_chars : ℕ → List ℕ → Option (List SnapshotChar × List ℕ)
unfolding read_char
read_chars zero bytes = some ([], bytes)
read_chars (suc n) bytes = elim (read_char bytes) [
  | none ↦ none
  | some (c, rest) ↦ cons_char c (read_chars n rest)
]

abbrev pub with_name :
    GoString → Option (List SnapshotChar × List ℕ) → Option (GoString × List SnapshotChar × List ℕ)
with_name name none = none
with_name name (some (chars, rest)) = some (name, chars, rest)

-- The name, the characters, and what follows the report.
unfoldable pub read_report : List ℕ → Option (GoString × List SnapshotChar × List ℕ)
unfolding read_uint64 read_chars
read_report bytes = next (read_uint64 bytes) (λ n r1.
    next (read_uint64 (drop n r1)) (λ count r2. with_name (take n r1) (read_chars count r2)))

abbrev pub flag_of : Bool → ℕ
flag_of b = if b then 1 else 0

char_bytes : SnapshotChar → List ℕ
char_bytes c =
    bytes_of c.client ++ (bytes_of c.clock ++ (bytes_of (flag_of c.deleted) ++ bytes_of c.unit))

-- The fields of a character fit 64 bits.
abbrev pub Fits : SnapshotChar → Type 0
Fits c = (c.client < u64_mod) × (c.clock < u64_mod) × (c.unit < u64_mod)

flag_back : (b : Bool) → not (flag_of b == 0) ≡ b
flag_back true = refl
flag_back false = refl

flag_small : (b : Bool) → flag_of b < u64_mod
flag_small true = omega arith
flag_small false = omega arith

read_char_lem :
    (bytes : List ℕ)
    → read_char bytes
      ≡ next (read_uint64 bytes) (λ client r1. next (read_uint64 r1) (λ clock r2.
        next (read_uint64 r2) (λ flag r3. next (read_uint64 r3) (λ unit r4. some (
          record { client = client; clock = clock; deleted = not (flag == 0); unit = unit },
          r4,
        )))))
unfolding read_char
read_char_lem bytes = refl

read_char-char_bytes :
    (c : SnapshotChar) (rest : List ℕ) → Fits c → read_char (char_bytes c ++ rest) ≡ some (c, rest)
unfolding char_bytes
read_char-char_bytes c rest (a, b, u) =
    read_char_lem _
    ∙ rw (
      append_assoc,
      append_assoc,
      append_assoc,
      read_uint64-bytes_of c.client _ a,
      read_uint64-bytes_of c.clock _ b,
      read_uint64-bytes_of (flag_of c.deleted) _ (flag_small c.deleted),
      read_uint64-bytes_of c.unit rest u,
      flag_back c.deleted,
    )

if_append :
    (buf : List ℕ) (b : Bool)
    → (if b then append_uint64 buf 1 else append_uint64 buf 0) ≡ append_uint64 buf (flag_of b)
if_append buf true = refl
if_append buf false = refl

append_char_lem :
    (buf : List ℕ) (c : SnapshotChar)
    → append_char buf c
      ≡ append_uint64
          (append_uint64 (append_uint64 (append_uint64 buf c.client) c.clock) (flag_of c.deleted))
          c.unit
unfolding append_char
append_char_lem buf c =
    ap (λ l. append_uint64 l c.unit)
      (if_append (append_uint64 (append_uint64 buf c.client) c.clock) c.deleted)

char_bytes_lem :
    (c : SnapshotChar)
    → char_bytes c
      ≡ bytes_of c.client ++ (bytes_of c.clock ++ (bytes_of (flag_of c.deleted) ++ bytes_of c.unit))
unfolding char_bytes
char_bytes_lem c = refl

append_char-char_bytes : (buf : List ℕ) (c : SnapshotChar) → append_char buf c ≡ buf ++ char_bytes c
append_char-char_bytes buf c =
    append_char_lem buf c ∙ simp (append_uint64-bytes_of, append_assoc, char_bytes_lem) refl

-- The bytes of several characters.
abbrev chars_bytes : List SnapshotChar → List ℕ
chars_bytes [] = []
chars_bytes (c ∷ chars) = char_bytes c ++ chars_bytes chars

append_chars-chars_bytes :
    (buf : List ℕ) (chars : List SnapshotChar) → append_chars buf chars ≡ buf ++ chars_bytes chars
unfolding append_chars
append_chars-chars_bytes buf [] = sym (append-nil buf)
append_chars-chars_bytes buf (c ∷ chars) =
    append_chars-chars_bytes (append_char buf c) chars
    ∙ ap (λ l. l ++ chars_bytes chars) (append_char-char_bytes buf c)
    ∙ append_assoc buf (char_bytes c) (chars_bytes chars)

read_chars_lem :
    (n : ℕ) (bytes : List ℕ)
    → read_chars (suc n) bytes
      ≡ (elim (read_char bytes) [ none ↦ none | some (c, rest) ↦ cons_char c (read_chars n rest) ])
unfolding read_chars
read_chars_lem n bytes = refl

read_chars-suc :
    (n : ℕ) (bytes rest : List ℕ) (c : SnapshotChar)
    → read_char bytes ≡ some (c, rest)
    → read_chars (suc n) bytes ≡ cons_char c (read_chars n rest)
read_chars-suc n bytes rest c e = read_chars_lem n bytes ∙ rw e

read_chars-chars_bytes :
    (chars : List SnapshotChar) (rest : List ℕ)
    → All Fits chars
    → read_chars (length chars) (chars_bytes chars ++ rest) ≡ some (chars, rest)
read_chars-chars_bytes [] rest f = unfold read_chars in refl
read_chars-chars_bytes (c ∷ chars) rest (a, f) =
    ap (read_chars (suc (length chars))) (append_assoc (char_bytes c) (chars_bytes chars) rest)
    ∙ read_chars-suc (length chars) _ (chars_bytes chars ++ rest) c (read_char-char_bytes c _ a)
    ∙ ap (cons_char c) (read_chars-chars_bytes chars rest f)

encode_report_lem :
    (name : GoString) (chars : List SnapshotChar)
    → encode_report name chars
      ≡ append_chars (append_uint64 (append_uint64 [] (length name) ++ name) (length chars)) chars
unfolding encode_report
encode_report_lem name chars = refl

encode_report_bytes :
    (name : GoString) (chars : List SnapshotChar)
    → encode_report name chars
      ≡ bytes_of (length name) ++ (name ++ (bytes_of (length chars) ++ chars_bytes chars))
encode_report_bytes name chars =
    encode_report_lem name chars
    ∙ append_chars-chars_bytes _ chars
    ∙ simp (append_uint64-bytes_of, append_assoc) refl

read_report_lem :
    (bytes : List ℕ)
    → read_report bytes
      ≡ next (read_uint64 bytes) (λ n r1.
        next (read_uint64 (drop n r1)) (λ count r2. with_name (take n r1) (read_chars count r2)))
unfolding read_report
read_report_lem bytes = refl

-- A report whose lengths, clients, clocks and units fit 64 bits reads back as the name and the
-- characters, whatever follows it.
pub read_report-encode_report :
    (name : GoString) (chars : List SnapshotChar) (rest : List ℕ)
    → length name < u64_mod
    → length chars < u64_mod
    → All Fits chars
    → read_report (encode_report name chars ++ rest) ≡ some (name, chars, rest)
read_report-encode_report name chars rest n k f =
    let tail : List ℕ = bytes_of (length chars) ++ (chars_bytes chars ++ rest) in
    let whole : encode_report name chars ++ rest ≡ bytes_of (length name) ++ (name ++ tail) =
      ap (λ l. l ++ rest) (encode_report_bytes name chars) ∙ simp append_assoc refl in
    ap read_report whole
    ∙ read_report_lem _
    ∙ rw (
      read_uint64-bytes_of (length name) (name ++ tail) n,
      drop-length_append name tail,
      read_uint64-bytes_of (length chars) (chars_bytes chars ++ rest) k,
      read_chars-chars_bytes chars rest f,
      take-length_append name tail,
    )
