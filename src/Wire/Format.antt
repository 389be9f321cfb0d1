-- ===== src/Wire/Format.antt =====
-- A writer and the reader that reads back what it wrote, and how the two compose.
use cert_yjs.Base.{
  ℕ, ◌≡◌, ap, sym, ◌∙◌, List, [], ◌∷◌, ◌++◌, append-nil, append_assoc, Run, done, ◌>>=◌,
}
use cert_yjs.Wire.{Encoder, Decoder, write_u8, read_u8}
use cert_yjs.Wire.Varint.{decoder_at, read_u8-at}

-- The writer ends and appends these bytes; the reader, at their start, ends with the value, at
-- their end, whatever follows.
pub record Reads {A : Type 0} (w : Encoder → Run Encoder) (r : Decoder → Run (A × Decoder)) (a : A)
    : Type 0 where
  pub bytes : List ℕ
  pub written : (e : Encoder) → w e ≡ done (e ++ bytes)
  pub back :
      (e rest : List ℕ) → r (decoder_at e (bytes ++ rest)) ≡ done (a, decoder_at (e ++ bytes) rest)

pub Reads-done : {A : Type 0} (a : A) → Reads (λ e. done e) (λ d. done (a, d)) a
Reads-done a = record {
  bytes = [];
  written = λ e. ap done (sym (append-nil e));
  back = λ e rest. ap (λ x. done (a, decoder_at x rest)) (sym (append-nil e));
}

pub Reads-then :
    {A B : Type 0} {w1 w2 : Encoder → Run Encoder} {r1 : Decoder → Run (A × Decoder)} {a : A}
    {b : B} (r2 : A → Decoder → Run (B × Decoder))
    → Reads w1 r1 a
    → Reads w2 (r2 a) b
    → Reads (λ e. w1 e >>= w2) (λ d. r1 d >>= λ p. r2 p.0 p.1) b
Reads-then {A} {B} {w1} {w2} {r1} {a} {b} r2 x y = record {
  bytes = x.bytes ++ y.bytes;
  written = λ e.
      ap (λ m. m >>= w2) (x.written e)
      ∙ y.written (e ++ x.bytes)
      ∙ ap done (append_assoc e x.bytes y.bytes);
  back = λ e rest.
      ap (λ l. r1 (decoder_at e l) >>= λ p. r2 p.0 p.1) (append_assoc x.bytes y.bytes rest)
      ∙ ap (λ m. m >>= λ p. r2 p.0 p.1) (x.back e (y.bytes ++ rest))
      ∙ y.back (e ++ x.bytes) rest
      ∙ ap (λ l. done (b, decoder_at l rest)) (append_assoc e x.bytes y.bytes);
}

pub Reads-map :
    {A B : Type 0} {w : Encoder → Run Encoder} {r : Decoder → Run (A × Decoder)} {a : A} (f : A → B)
    → Reads w r a
    → Reads w (λ d. r d >>= λ p. done (f p.0, p.1)) (f a)
Reads-map f x = record {
  bytes = x.bytes;
  written = x.written;
  back = λ e rest. ap (λ m. m >>= λ p. done (f p.0, p.1)) (x.back e rest);
}

-- The same bytes by a writer and a reader that do the same.
pub Reads-same :
    {A : Type 0} {w w' : Encoder → Run Encoder} {r r' : Decoder → Run (A × Decoder)} {a : A}
    → ((e : Encoder) → w' e ≡ w e)
    → ((d : Decoder) → r' d ≡ r d)
    → Reads w r a
    → Reads w' r' a
Reads-same we re x = record {
  bytes = x.bytes;
  written = λ e. we e ∙ x.written e;
  back = λ e rest. re (decoder_at e (x.bytes ++ rest)) ∙ x.back e rest;
}

-- A byte in front, which the reader takes off first.
pub Reads-byte :
    {A : Type 0} {w : Encoder → Run Encoder} {r r' : Decoder → Run (A × Decoder)} {a : A} (b : ℕ)
    → ((d d' : Decoder) → read_u8 d ≡ done (b, d') → r d ≡ r' d')
    → Reads w r' a
    → Reads (λ e. w (write_u8 e b)) r a
unfolding write_u8
Reads-byte {a} b f x = record {
  bytes = b ∷ x.bytes;
  written = λ e. x.written (e ++ b ∷ []) ∙ ap done (append_assoc e (b ∷ []) x.bytes);
  back = λ e rest.
      f (decoder_at e (b ∷ (x.bytes ++ rest))) (decoder_at (e ++ b ∷ []) (x.bytes ++ rest))
        (read_u8-at e b (x.bytes ++ rest))
      ∙ x.back (e ++ b ∷ []) rest
      ∙ ap (λ l. done (a, decoder_at l rest)) (append_assoc e (b ∷ []) x.bytes);
}
