-- ===== src/Wire.antt =====
-- yjs/codec.go: the bytes of an update, one number at a time.
-- The buffer's capacity is taken to be its length, so a read past the length panics.
pub mod Decode
pub mod Encode
pub mod EncodeUpdate
pub mod Nodes
pub mod Format
pub mod Reread
pub mod Structs
pub mod Sections
pub mod Gather
pub mod RoundTrip
pub mod Items
pub mod Replica
pub mod Tombstones
pub mod Bits
pub mod Varint
pub mod Ends
pub mod Runs
use cert_yjs.Base.{
  ℕ, zero, suc, ◌+◌, ◌*◌, ◌/◌, ◌%◌, ◌^◌, bit_and, bit_or, ltb, u64_mod, List, [], ◌∷◌, ◌++◌, length,
  get_elem?, take, drop, if◌then◌else◌, Run, done, panic, out_of_fuel, ◌>>=◌, deref,
}
use cert_yjs.Ident.{ItemId, new_id}
use cert_yjs.Update.{GoString}

-- An encoder is its buffer.
abbrev pub Encoder : Type 0
Encoder = List ℕ

unfoldable pub write_u8 : Encoder → ℕ → Encoder
write_u8 e b = e ++ b ∷ []

-- A uint64 has ten groups of seven bits at most, so the loop makes ten rounds at most.
unfoldable pub write_loop : ℕ → Encoder → ℕ → Run Encoder
write_loop zero e n = out_of_fuel
write_loop (suc k) e n =
    let rest = write_loop k (e ++ bit_or (bit_and n 0x7f) 0x80 ∷ []) (n / 128) in
    if ltb 0x7f n then rest else done (e ++ bit_and n 0x7f ∷ [])

unfoldable pub write_var_uint : Encoder → ℕ → Run Encoder
unfolding write_loop
write_var_uint e n = write_loop 10 e n

unfoldable pub write_var_string : Encoder → GoString → Run Encoder
unfolding write_var_uint
write_var_string e s = do e' ← write_var_uint e (length s); done (e' ++ s)

unfoldable pub write_item_id : Encoder → ItemId → Run Encoder
unfolding write_var_uint
write_item_id e id = do e' ← write_var_uint e id.client_id; write_var_uint e' id.clock

pub record Decoder : Type 0 where
  pub buf : List ℕ
  pub pos : ℕ

unfoldable pub read_u8 : Decoder → Run (ℕ × Decoder)
read_u8 d = do b ← deref (get_elem? d.buf d.pos); done (b, record d { pos = suc d.pos })

-- `uint64(a) << s`
unfoldable pub shl64 : ℕ → ℕ → ℕ
shl64 a s = a * 2 ^ s % u64_mod

-- Each round reads a byte, so the length of the buffer and one more are enough.
unfoldable pub read_loop : ℕ → Decoder → (x s : ℕ) → Run (ℕ × Decoder)
unfolding read_u8 shl64
read_loop zero d x s = out_of_fuel
read_loop (suc k) d x s = do
  (b, d') ← read_u8 d
  let x' = bit_or x (shl64 (bit_and b 0x7f) s)
  let rest = read_loop k d' x' (s + 7)
  if ltb b 0x80 then done (x', d') else rest

unfoldable pub read_var_uint : Decoder → Run (ℕ × Decoder)
unfolding read_loop
read_var_uint d = read_loop (suc (length d.buf)) d 0 0

-- A length that is negative as an int, or reaches past the buffer, panics.
unfoldable pub read_var_string : Decoder → Run (GoString × Decoder)
unfolding read_var_uint
read_var_string d = do
  (n, d') ← read_var_uint d
  if ltb (length d'.buf) (d'.pos + n)
      then panic
      else done (take n (drop d'.pos d'.buf), record d' { pos = d'.pos + n })

unfoldable pub read_item_id : Decoder → Run (ItemId × Decoder)
unfolding read_var_uint
read_item_id d = do
  (client, d1) ← read_var_uint d
  (clock, d2) ← read_var_uint d1
  done (new_id client clock, d2)
