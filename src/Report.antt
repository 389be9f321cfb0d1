-- ===== src/Report.antt =====
-- yjs/report.go: the report of a snapshot as bytes.
pub mod RoundTrip
use cert_yjs.Base.{ℕ, ◌+◌, ◌/◌, ◌%◌, ◌^◌, List, [], ◌∷◌, ◌++◌, length, Bool, if◌then◌else◌}
use cert_yjs.Update.{GoString}
use cert_yjs.YType.{SnapshotChar}

-- `byte(x)`, `byte(x>>8)` and so on, the low byte first.
unfoldable pub append_uint64 : List ℕ → ℕ → List ℕ
append_uint64 buf x =
    buf
    ++ x % 256
      ∷ x / 2 ^ 8 % 256
      ∷ x / 2 ^ 16 % 256
      ∷ x / 2 ^ 24 % 256
      ∷ x / 2 ^ 32 % 256
      ∷ x / 2 ^ 40 % 256
      ∷ x / 2 ^ 48 % 256
      ∷ x / 2 ^ 56 % 256
      ∷ []

-- One round of the loop of EncodeReport.
unfoldable pub append_char : List ℕ → SnapshotChar → List ℕ
unfolding append_uint64
append_char buf c =
    let buf1 = append_uint64 buf c.client in
    let buf2 = append_uint64 buf1 c.clock in
    let buf3 = if c.deleted then append_uint64 buf2 1 else append_uint64 buf2 0 in
    append_uint64 buf3 c.unit

unfoldable pub append_chars : List ℕ → List SnapshotChar → List ℕ
unfolding append_char
append_chars buf [] = buf
append_chars buf (c ∷ chars) = append_chars (append_char buf c) chars

unfoldable pub encode_report : GoString → List SnapshotChar → List ℕ
unfolding append_uint64 append_chars
encode_report name chars =
    let buf1 = append_uint64 [] (length name) in
    let buf2 = buf1 ++ name in
    let buf3 = append_uint64 buf2 (length chars) in append_chars buf3 chars
