-- ===== src/Wire/Reread.antt =====
-- The parts of a struct and of the delete set: what is written is read back.
use cert_yjs.Base.{
  bind_assoc, ℕ, suc, ◌+◌, ◌<◌, ◌≡◌, refl, sym, subst, ltb, u64_mod, sub64, Bool, true, false,
  Option, none, some, List, [], ◌∷◌, ◌++◌, append-nil, append_assoc, length, length-append, take,
  drop, take-length_append, drop-length_append, All, if◌then◌else◌, Run, done, panic, deref, ◌>>=◌,
  arith,
}
use cert_yjs.Ident.{Client, ItemId, new_id}
use cert_yjs.Span.{ClockSpan, OrderRange, DeletedSet}
use cert_yjs.Update.{GoString, DeleteSpan}
use cert_yjs.Wire.{
  Encoder, Decoder, write_u8, write_var_uint, write_var_string, write_item_id, read_u8,
  read_var_uint, read_var_string, read_item_id,
}
use cert_yjs.Wire.Varint.{groups, read_u8-at, write_var_uint-groups, read_var_uint-groups}
use cert_yjs.Wire.Format.{Reads, Reads-done, Reads-then, Reads-map, Reads-same}
use cert_yjs.Wire.Encode.{write_origin, write_parent, ranges_of, write_ranges, encode_order_range}
use cert_yjs.Wire.Decode.{
  read_origin, read_parent, read_ranges, read_delete_clients, read_delete_section,
}
use cert_yjs.Wire.EncodeUpdate.{write_deleted}

pub Reads-u8 : (b : ℕ) → Reads (λ e. done (write_u8 e b)) read_u8 b
unfolding write_u8
Reads-u8 b = record { bytes = b ∷ []; written = λ e. refl; back = λ e rest. read_u8-at e b rest }

pub Reads-var_uint : (n : ℕ) → n < u64_mod → Reads (λ e. write_var_uint e n) read_var_uint n
Reads-var_uint n b = record {
  bytes = groups 10 n;
  written = λ e. write_var_uint-groups e n b;
  back = λ e rest. read_var_uint-groups e rest n b;
}

-- The bytes of a string, of a length that is known.
abbrev read_bytes : ℕ → Decoder → Run (GoString × Decoder)
read_bytes n d =
    if ltb (length d.buf) (d.pos + n)
    then panic
    else done (take n (drop d.pos d.buf), record d { pos = d.pos + n })

Reads-bytes : (s : GoString) → Reads (λ e. done (e ++ s)) (read_bytes (length s)) s
Reads-bytes s = record {
  bytes = s;
  written = λ e. refl;
  back = λ e rest.
      let fits : ltb (length (e ++ (s ++ rest))) (length e + length s) ≡ false =
        rw (length-append, length-append) (ground arith) in
      rw (fits, drop-length_append, take-length_append, length-append, append_assoc) refl;
}

pub Reads-var_string :
    (s : GoString) → length s < u64_mod → Reads (λ e. write_var_string e s) read_var_string s
unfolding write_var_string read_var_string
Reads-var_string s b = Reads-then read_bytes (Reads-var_uint (length s) b) (Reads-bytes s)

-- An id of two 64-bit numbers.
abbrev pub IsSmall : ItemId → Type 0
IsSmall i = (i.client_id < u64_mod) × (i.clock < u64_mod)

Reads-item_id : (i : ItemId) → IsSmall i → Reads (λ e. write_item_id e i) read_item_id i
unfolding write_item_id read_item_id new_id
Reads-item_id i (a, b) =
    Reads-then (λ c d. read_var_uint d >>= λ p. done (new_id c p.0, p.1))
      (Reads-var_uint i.client_id a)
      (Reads-map (λ n. new_id i.client_id n) (Reads-var_uint i.clock b))

abbrev pub is_there : Option ItemId → Bool
is_there none = false
is_there (some i) = true

abbrev pub IsSmallOrigin : Option ItemId → Type 0
IsSmallOrigin none = Unit
IsSmallOrigin (some i) = IsSmall i

pub Reads-origin :
    (o : Option ItemId)
    → IsSmallOrigin o
    → Reads (λ e. write_origin e o) (read_origin (is_there o)) o
unfolding write_origin read_origin
Reads-origin none b = Reads-done none
Reads-origin (some i) b = Reads-map some (Reads-item_id i b)

sub64_lt : (a b : ℕ) → sub64 a b < u64_mod
unfolding sub64
sub64_lt a b = omega arith

pub Reads-parent :
    (b : Bool) (name : GoString)
    → length name < u64_mod
    → Reads (λ e. write_parent e b name) (read_parent b) (if b then name else [])
unfolding write_parent read_parent
Reads-parent false name s = Reads-done []
Reads-parent true name s = Reads-then _ (Reads-var_uint 1 (omega arith)) (Reads-var_string name s)

-- The spans of a client that its ranges stand for.
abbrev pub spans_of : Client → List ClockSpan → List DeleteSpan
spans_of c [] = []
spans_of c (r ∷ rs) =
    record { client = c; clock = r.start; length = sub64 r.end r.start } ∷ spans_of c rs

abbrev pub IsSmallRange : ClockSpan → Type 0
IsSmallRange r = r.start < u64_mod

Reads-ranges :
    (c : Client) (rs : List ClockSpan) (spans : List DeleteSpan)
    → All IsSmallRange rs
    → Reads
        (λ e. write_ranges e rs)
        (λ d. read_ranges (length rs) d c spans)
        (spans ++ spans_of c rs)
unfolding write_ranges read_ranges
Reads-ranges c [] spans a = rw (append-nil) (Reads-done spans)
Reads-ranges c (r ∷ rs) spans (b, a) =
    let span : DeleteSpan = record { client = c; clock = r.start; length = sub64 r.end r.start } in
    let rest = Reads-ranges c rs (spans ++ span ∷ []) a in
    let moved = append_assoc spans (span ∷ []) (spans_of c rs) in
    Reads-then
      (λ clock d. read_var_uint d >>= λ p.
        read_ranges (length rs) p.1 c
          (spans ++ record { client = c; clock = clock; length = p.0 } ∷ []))
      (Reads-var_uint r.start b)
      (Reads-then
        (λ n d.
          read_ranges (length rs) d c
            (spans ++ record { client = c; clock = r.start; length = n } ∷ []))
        (Reads-var_uint (sub64 r.end r.start) (sub64_lt r.end r.start)) (rw (sym moved) rest))

-- The ranges of a client, of which there are fewer than 2^64.
abbrev pub IsSmallRanges : OrderRange → Type 0
IsSmallRanges r = All IsSmallRange (ranges_of r) × (length (ranges_of r) < u64_mod)

Reads-client :
    (c : Client) (r : OrderRange) (spans : List DeleteSpan)
    → IsSmallRanges r
    → Reads
        (λ e. encode_order_range e r)
        (λ d. read_var_uint d >>= λ p. read_ranges p.0 p.1 c spans)
        (spans ++ spans_of c (ranges_of r))
unfolding encode_order_range
Reads-client c r spans (a, b) =
    Reads-then (λ n d. read_ranges n d c spans) (Reads-var_uint (length (ranges_of r)) b)
      (Reads-ranges c (ranges_of r) spans a)

-- A key of the delete set, with what the set holds for it.
abbrev pub Holds : DeletedSet → Client × OrderRange → Type 0
Holds ds (c, r) = (ds c ≡ some r) × (c < u64_mod) × IsSmallRanges r

abbrev pub keys : List (Client × OrderRange) → List Client
keys [] = []
keys ((c, r) ∷ rest) = c ∷ keys rest

abbrev pub all_spans : List (Client × OrderRange) → List DeleteSpan
all_spans [] = []
all_spans ((c, r) ∷ rest) = spans_of c (ranges_of r) ++ all_spans rest

Reads-deleted :
    (ds : DeletedSet) (held : List (Client × OrderRange)) (spans : List DeleteSpan)
    → All (Holds ds) held
    → Reads
        (λ e. write_deleted e ds (keys held))
        (λ d. read_delete_clients (length held) d spans)
        (spans ++ all_spans held)
unfolding write_deleted read_delete_clients
Reads-deleted ds [] spans a = rw append-nil (Reads-done spans)
Reads-deleted ds ((c, r) ∷ held) spans ((e, small, ranges), a) =
    let here = spans_of c (ranges_of r) in
    let rest = Reads-deleted ds held (spans ++ here) a in
    let write = λ (o : Option OrderRange) (e : Encoder). write_var_uint e c >>= λ e1.
    deref o >>= λ r'. encode_order_range e1 r' >>= λ e2. write_deleted e2 ds (keys held) in
    let read = λ (d : Decoder). read_delete_clients (suc (length held)) d spans in
    let moved = append_assoc spans here (all_spans held) in
    subst (λ o. Reads (write o) read (spans ++ (here ++ all_spans held))) (sym e)
      (Reads-then
        (λ client d. read_var_uint d >>= λ p.
          read_ranges p.0 p.1 client spans >>= λ q. read_delete_clients (length held) q.1 q.0)
        (Reads-var_uint c small)
        (rw (sym moved) (
          Reads-same (λ e. refl)
            (λ d. sym (
              bind_assoc (read_var_uint d) (λ p. read_ranges p.0 p.1 c spans)
                (λ q. read_delete_clients (length held) q.1 q.0)))
            (Reads-then (λ spans' d. read_delete_clients (length held) d spans')
              (Reads-client c r spans ranges) rest))))

-- The delete section that writes a set, given what it holds for each of its keys.
pub Reads-delete_section :
    (ds : DeletedSet) (held : List (Client × OrderRange))
    → All (Holds ds) held
    → length held < u64_mod
    → Reads
        (λ e. write_var_uint e (length held) >>= λ e'. write_deleted e' ds (keys held))
        read_delete_section
        (all_spans held)
unfolding read_delete_section
Reads-delete_section ds held a b =
    Reads-then (λ n d. read_delete_clients n d []) (Reads-var_uint (length held) b)
      (Reads-deleted ds held [] a)
