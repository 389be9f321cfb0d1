-- ===== src/Tests/FrameExamples.antt =====
-- The theorem on framed messages at a concrete connection: the bytes that are left to read.
use cert_yjs.Base.{
  ℕ, ◌≡◌, refl, false, true, none, some, List, [], ◌∷◌, ◌++◌, length, take, drop, ltb, lt→ltb,
  if◌then◌else◌, done, arith,
}
use cert_yjs.Frames.{Socket}
use cert_yjs.Frames.Stream.{IsStream, frames, answers, receive_all, receive_all-answers}

abbrev bytes_left : Socket (List ℕ)
bytes_left = record {
  write = λ c bytes. (false, c);
  read_full = λ c n. if ltb (length c) n then (none, []) else (some (take n c), drop n c);
  close = λ c. [];
  most = 1000;
}

bytes_left-IsStream : IsStream bytes_left (λ c bytes. c ≡ bytes)
bytes_left-IsStream = record {
  reads = λ c bytes n h le.
      let there : ltb (length bytes) n ≡ false = ground (arith, le) in
      (drop n bytes, rw (h, there) refl, refl);
  ends = λ c bytes n h short.
      let gone : ltb (length bytes) n ≡ true = lt→ltb (length bytes) n short in
      ([], rw (h, gone) refl);
}

receive_all-answers_example :
    (c : List ℕ) × (receive_all bytes_left 3 (frames ((5 ∷ 6 ∷ []) ∷ [] ∷ []) ++ 1 ∷ [])
      ≡ done (answers ((5 ∷ 6 ∷ []) ∷ [] ∷ []), c))
receive_all-answers_example =
    receive_all-answers bytes_left (λ c bytes. c ≡ bytes) bytes_left-IsStream
      ((5 ∷ 6 ∷ []) ∷ [] ∷ []) (frames ((5 ∷ 6 ∷ []) ∷ [] ∷ []) ++ 1 ∷ []) (1 ∷ [])
      ((omega arith, omega arith), ((omega arith, omega arith), tt)) refl (omega arith)
