-- ===== src/Tests/WireExamples.antt =====
-- The theorems on the wire format applied at concrete inputs.
use cert_yjs.Base.{ℕ, ◌≡◌, ◌++◌, none, some, true, false, List, [], ◌∷◌, All, arith, done}
use cert_yjs.Wire.{write_var_uint, read_var_uint}
use cert_yjs.Wire.Decode.{Decoded, DecodedStruct, decode_update_items, split_structs}
use cert_yjs.Wire.Encode.{join_runs}
use cert_yjs.Wire.Varint.{decoder_at, read_var_uint-write_var_uint}
use cert_yjs.Wire.Ends.{decode_update_items-returns}
use cert_yjs.Wire.Runs.{
  joined, IsRun, join_runs-joined, update_units, struct_units, split_structs-units,
}
use cert_yjs.YType.{SnapshotChar}
use cert_yjs.Report.{encode_report}
use cert_yjs.Report.RoundTrip.{read_report, read_report-encode_report}
use cert_yjs.Tests.Fixtures.{word, word_ptrs}

read_var_uint-write_var_uint_example :
    (bytes : List ℕ) × (write_var_uint (1 ∷ []) 300 ≡ done ((1 ∷ []) ++ bytes))
    × (read_var_uint (decoder_at (1 ∷ []) (bytes ++ 9 ∷ []))
        ≡ done (300, decoder_at ((1 ∷ []) ++ bytes) (9 ∷ [])))
read_var_uint-write_var_uint_example =
    read_var_uint-write_var_uint (1 ∷ []) (9 ∷ []) 300 (omega arith)

-- An update that breaks off inside its first number.
decode_update_items-returns_example :
    (r : Decoded) × (decode_update_items (λ s. s) (0x81 ∷ []) ≡ done r)
decode_update_items-returns_example = decode_update_items-returns (λ s. s) (0x81 ∷ [])

join_runs-joined_example :
    (joined (join_runs word word_ptrs) ≡ word_ptrs)
    × All (λ run. IsRun word run) (join_runs word word_ptrs)
join_runs-joined_example = join_runs-joined word word_ptrs

-- One run of three units, and a struct without content.
abbrev two_structs : List DecodedStruct
two_structs =
    record {
      id = record { client_id = 7; clock = 3 };
      origin_left_id = none;
      origin_right_id = none;
      parent_name = 116 ∷ [];
      content = 97 ∷ 98 ∷ 99 ∷ [];
      is_item = true;
      length = 3;
    }
    ∷ record {
      id = record { client_id = 7; clock = 6 };
      origin_left_id = none;
      origin_right_id = none;
      parent_name = [];
      content = [];
      is_item = false;
      length = 2;
    }
    ∷ []

split_structs-units_example : update_units (split_structs two_structs) ≡ struct_units two_structs
split_structs-units_example = split_structs-units two_structs

abbrev two_chars : List SnapshotChar
two_chars =
    record { client = 7; clock = 0; deleted = false; unit = 97 }
    ∷ record { client = 8; clock = 5; deleted = true; unit = 300 }
    ∷ []

read_report-encode_report_example :
    read_report (encode_report (116 ∷ []) two_chars ++ 9 ∷ []) ≡ some (116 ∷ [], two_chars, 9 ∷ [])
read_report-encode_report_example =
    read_report-encode_report (116 ∷ []) two_chars (9 ∷ []) (omega arith) (omega arith)
      ((omega arith, omega arith, omega arith), ((omega arith, omega arith, omega arith), tt))
