-- ===== src/Frames.antt =====
-- grovenet/grovenet.go: messages over a connection of TCP, each behind its length. The connection
-- itself is Go's; what it answers is an argument.
pub mod Stream
use cert_yjs.Base.{
  ℕ, ◌≡◌, Bool, true, false, Option, none, some, List, [], ◌++◌, length, ltb, if◌then◌else◌, Run,
  done, panic, ◌>>=◌,
}
use cert_yjs.Report.{append_uint64}
use cert_yjs.Report.RoundTrip.{read_uint64}

-- What grovenet calls of a net.Conn: Write and whether it failed, io.ReadFull of a number of bytes,
-- and Close. `most` is the length that `make` accepts.
pub record Socket (Conn : Type 0) : Type 0 where
  pub write : Conn → List ℕ → Bool × Conn
  pub read_full : Conn → ℕ → Option (List ℕ) × Conn
  pub close : Conn → Conn
  pub most : ℕ

-- The buffer that Send writes.
unfoldable pub frame : List ℕ → List ℕ
unfolding append_uint64
frame message = append_uint64 [] (length message) ++ message

unfoldable pub send : {Conn : Type 0} → Socket Conn → Conn → List ℕ → Bool × Conn
unfolding frame
send net c message =
    let (failed, c') = net.write c (frame message) in (failed, if failed then net.close c' else c')

-- `binary.LittleEndian.Uint64`, which panics on fewer than eight bytes.
abbrev pub value_or_panic : Option (ℕ × List ℕ) → Run ℕ
value_or_panic none = panic
value_or_panic (some (n, rest)) = done n

unfoldable pub uint64_of : List ℕ → Run ℕ
unfolding read_uint64
uint64_of header = value_or_panic (read_uint64 header)

-- What a read of Receive comes to: the bytes and the connection, or the closed connection.
unfoldable pub closing :
    {Conn : Type 0} → Socket Conn → Option (List ℕ) × Conn → Option (List ℕ) × Conn
closing net (none, c) = (none, net.close c)
closing net (some bytes, c) = (some bytes, c)

-- Receive behind its first read: the body is as long as the header says.
unfoldable pub receive_body :
    {Conn : Type 0} → Socket Conn → Option (List ℕ) × Conn → Run (Option (List ℕ) × Conn)
unfolding uint64_of closing
receive_body net (none, c) = done (none, c)
receive_body net (some header, c) = do
  n ← uint64_of header
  if ltb net.most n then panic else done (closing net (net.read_full c n))

unfoldable pub receive : {Conn : Type 0} → Socket Conn → Conn → Run (Option (List ℕ) × Conn)
unfolding receive_body closing
receive net c = receive_body net (closing net (net.read_full c 8))
