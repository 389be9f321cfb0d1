-- ===== src/Frames/Stream.antt =====
-- Messages that were sent come out whole and in order.
use cert_yjs.Base.{
  ℕ, zero, suc, ◌≤◌, ◌<◌, ◌≡◌, refl, ap, sym, subst, ◌∙◌, false, Option, none, some, List, [], ◌∷◌,
  ◌++◌, length, length-append, ltb, Run, done, ◌>>=◌, All, take, drop, take-length_append,
  drop-length_append, append_assoc, append-nil, u64_mod, arith,
}
use cert_yjs.Report.{append_uint64}
use cert_yjs.Report.RoundTrip.{bytes_of, read_uint64, read_uint64-bytes_of}
use cert_yjs.Frames.{Socket, frame, value_or_panic, uint64_of, closing, receive_body, receive}

-- A connection as a stream: `Holds c bytes` says which bytes its peer has sent and Receive has not
-- read, before it hung up. io.ReadFull answers that many bytes, or fails where they are too few.
pub record IsStream {Conn : Type 0} (net : Socket Conn) (Holds : Conn → List ℕ → Type 0)
    : Type 0 where
  pub reads :
      (c : Conn) (bytes : List ℕ) (n : ℕ)
      → Holds c bytes
      → n ≤ length bytes
      → (c' : Conn) × (net.read_full c n ≡ (some (take n bytes), c')) × Holds c' (drop n bytes)
  pub ends :
      (c : Conn) (bytes : List ℕ) (n : ℕ)
      → Holds c bytes
      → length bytes < n
      → (c' : Conn) × (net.read_full c n ≡ (none, c'))

-- The bytes of messages that were sent one after the other.
unfoldable pub frames : List (List ℕ) → List ℕ
unfolding frame
frames [] = []
frames (m ∷ messages) = frame m ++ frames messages

-- Receive as often as there are messages, and once more.
unfoldable pub receive_all :
    {Conn : Type 0} → Socket Conn → ℕ → Conn → Run (List (Option (List ℕ)) × Conn)
unfolding receive
receive_all net zero c = done ([], c)
receive_all net (suc n) c = do
  (m, c1) ← receive net c
  (ms, c2) ← receive_all net n c1
  done (m ∷ ms, c2)

frame_lem : (m : List ℕ) → frame m ≡ bytes_of (length m) ++ m
unfolding frame bytes_of
frame_lem m = refl

length-bytes_of : (x : ℕ) → length (bytes_of x) ≡ 8
unfolding bytes_of append_uint64
length-bytes_of x = refl

take8 : (xs ys : List ℕ) → length xs ≡ 8 → take 8 (xs ++ ys) ≡ xs
take8 xs ys e = subst (λ n. take n (xs ++ ys) ≡ xs) e (take-length_append xs ys)

drop8 : (xs ys : List ℕ) → length xs ≡ 8 → drop 8 (xs ++ ys) ≡ ys
drop8 xs ys e = subst (λ n. drop n (xs ++ ys) ≡ ys) e (drop-length_append xs ys)

uint64_of-bytes_of : (x : ℕ) → x < u64_mod → uint64_of (bytes_of x) ≡ done x
unfolding uint64_of
uint64_of-bytes_of x b =
    ap (λ bytes. value_or_panic (read_uint64 bytes)) (sym (append-nil (bytes_of x)))
    ∙ ap value_or_panic (read_uint64-bytes_of x [] b)

-- What Receive answers, from what its reads answer.
receive-some :
    {Conn : Type 0} (net : Socket Conn) (c c1 c2 : Conn) (header m : List ℕ) (n : ℕ)
    → net.read_full c 8 ≡ (some header, c1)
    → uint64_of header ≡ done n
    → n ≤ net.most
    → net.read_full c1 n ≡ (some m, c2)
    → receive net c ≡ done (some m, c2)
unfolding receive receive_body closing
receive-some net c c1 c2 header m n e1 e fits e2 =
    let room : ltb net.most n ≡ false = ground (arith, fits) in
    ap (λ r. receive_body net (closing net r)) e1 ∙ rw (e, room) (ap (λ r. done (closing net r)) e2)

receive-none :
    {Conn : Type 0} (net : Socket Conn) (c c1 : Conn)
    → net.read_full c 8 ≡ (none, c1)
    → receive net c ≡ done (none, net.close c1)
unfolding receive receive_body closing
receive-none net c c1 e = ap (λ r. receive_body net (closing net r)) e

-- The answers to the reads: the messages, and then the error.
abbrev pub answers : List (List ℕ) → List (Option (List ℕ))
answers [] = none ∷ []
answers (m ∷ messages) = some m ∷ answers messages

-- A message that `make` has room for.
abbrev pub Fits : {Conn : Type 0} → Socket Conn → List ℕ → Type 0
Fits net m = (length m ≤ net.most) × (length m < u64_mod)

-- One message at the front of the stream.
module _ {Conn : Type 0} (net : Socket Conn) (Holds : Conn → List ℕ → Type 0)
    (s : IsStream net Holds) where
  receive-frame :
      (c : Conn) (m rest : List ℕ)
      → length m ≤ net.most
      → length m < u64_mod
      → Holds c (frame m ++ rest)
      → (c' : Conn) × (receive net c ≡ done (some m, c')) × Holds c' rest
  receive-frame c m rest fits small h =
      let head = bytes_of (length m) in
      let h1 : Holds c (head ++ (m ++ rest)) =
        subst (Holds c) (ap (λ l. l ++ rest) (frame_lem m) ∙ append_assoc head m rest) h in
      let eight = length-bytes_of (length m) in
      let (c1, e1, k1) =
        s.reads c (head ++ (m ++ rest)) 8 h1
          (omega (arith, eight, length-append head (m ++ rest))) in
      let (c2, e2, k2) =
        s.reads c1 (m ++ rest) (length m) (subst (Holds c1) (drop8 head (m ++ rest) eight) k1)
          (omega (arith, length-append m rest)) in
      (
        c2,
        receive-some net c c1 c2 head m (length m)
            (e1 ∙ ap (λ l. (some l, c1)) (take8 head (m ++ rest) eight))
            (uint64_of-bytes_of (length m) small) fits
            (e2 ∙ ap (λ l. (some l, c2)) (take-length_append m rest)),
        subst (Holds c2) (drop-length_append m rest) k2,
      )

  -- Where the connection answers reads as a stream that ends, and its peer has sent messages,
  -- each framed by its length and no longer than make accepts, and fewer than eight bytes
  -- behind them: Receive, called once for each message, returns them whole and in order, and
  -- the call after them fails.
  pub receive_all-answers :
      (messages : List (List ℕ)) (c : Conn) (rest : List ℕ)
      → All (Fits net) messages
      → Holds c (frames messages ++ rest)
      → length rest < 8
      → (c' : Conn) × (receive_all net (suc (length messages)) c ≡ done (answers messages, c'))
  unfolding receive_all frames
  receive_all-answers [] c rest a h short =
      let (c1, e) = s.ends c rest 8 h short in (net.close c1, rw (receive-none net c c1 e) refl)
  receive_all-answers (m ∷ messages) c rest ((fits, small), a) h short =
      let (c1, e1, k1) =
        receive-frame c m (frames messages ++ rest) fits small
          (subst (Holds c) (append_assoc (frame m) (frames messages) rest) h) in
      let (c2, e2) = receive_all-answers messages c1 rest a k1 short in
      (c2, rw e1 (ap (λ r. r >>= λ q. done (some m ∷ q.0, q.1)) e2))
