-- ===== src/Diff/Polled.antt =====
-- Two polls of an observer, and the text between them.
use cert_yjs.Base.{
  ℕ, suc, ◌<◌, ◌≡◌, refl, ap, sym, ◌∙◌, true, none, List, [], length, done, All, u64_mod, arith,
}
use cert_yjs.Item.{Ptr}
use cert_yjs.Heap.{Heap}
use cert_yjs.Delta.{DeltaOp, trim_retain, apply_delta}
use cert_yjs.Delta.Walk.{Turns-empty, patch-Turns}
use cert_yjs.Delta.Patch.{outcome, apply_delta-patch}
use cert_yjs.Diff.{TextObserver, empty_token, poll}
use cert_yjs.Diff.Known.{
  noted, Grown, length-Grown, Grown-Turns, classify_known_all, poll_loop-chars,
}
use cert_yjs.Diff.Noted.{Plain, Separate, Behind, noted-Known, noted-Behind}
use cert_yjs.YType.{text}
use cert_yjs.YType.Chain.{IsList, visible, text-visible}
use cert_yjs.YType.Chars.{chars, live, live-chars, length-live}

poll-noted :
    (h : Heap) (o : TextObserver) (ps : List Ptr)
    → IsList h o.text ps
    → poll h o
      ≡ done (
        record o { token = noted h ps empty_token },
        trim_retain (classify_known_all o.token (chars h ps) []),
      )
unfolding poll
poll-noted h o ps l =
    rw
      (poll_loop-chars o.token (suc h.next_item) h none _ ps empty_token [] l.chain
        (omega (arith, l.fits)))
      refl

-- What two polls leave: an observer and a delta each, where the second delta takes the text at the
-- first poll to the text at the second.
pub record Polled (h0 h : Heap) (o : TextObserver) : Type 0 where
  pub first : TextObserver
  pub second : TextObserver
  pub d0 : List DeltaOp
  pub d : List DeltaOp
  pub before : List ℕ
  pub now : List ℕ
  pub polls : poll h0 o ≡ done (first, d0)
  pub polls_again : poll h first ≡ done (second, d)
  pub read : text h0 o.text ≡ done before
  pub read_again : text h o.text ≡ done now
  pub patches : apply_delta before d ≡ done (now, true)

-- Two polls of an observer, in the memory then and in the memory now, each with the linked list
-- of the text. The items of the first do not wrap and share no clocks; since then each character
-- stays as it was, becomes a tombstone, or is new, with a clock behind all that its client had;
-- and there are fewer than 2^64 units. Then both polls end, and ApplyDelta with the delta of the
-- second takes the text that Text read at the first to the one that it reads now.
pub poll-Polled :
    (h0 h : Heap) (o : TextObserver) (ps0 ps : List Ptr)
    → IsList h0 o.text ps0
    → IsList h o.text ps
    → All (λ p. Plain (h0.item_at p)) ps0
    → Separate h0 ps0
    → Grown (Behind h0 ps0) (chars h0 ps0) (chars h ps)
    → length (chars h ps) < u64_mod
    → Polled h0 h o
poll-Polled h0 h o ps0 ps l0 l b s g small =
    let token = noted h0 ps0 empty_token in
    let turns =
      Grown-Turns token (Behind h0 ps0) (λ c x f. noted-Behind h0 ps0 c x b f) g
        (noted-Known h0 ps0 b s) Turns-empty (omega arith) in
    let short = length-live (chars h0 ps0) in
    let fewer = length-Grown g in
    record {
      first = record o { token = token };
      second = record o { token = noted h ps empty_token };
      d0 = trim_retain (classify_known_all o.token (chars h0 ps0) []);
      d = trim_retain (classify_known_all token (chars h ps) []);
      before = visible h0 ps0;
      now = visible h ps;
      polls = poll-noted h0 o ps0 l0;
      polls_again = poll-noted h (record o { token = token }) ps l;
      read = text-visible h0 o.text ps0 l0;
      read_again = text-visible h o.text ps l;
      patches =
          rw (sym (live-chars h0 ps0), sym (live-chars h ps))
            (apply_delta-patch (live (chars h0 ps0))
                (trim_retain (classify_known_all token (chars h ps) [])) (omega arith)
              ∙ ap (λ q. done (outcome q)) (patch-Turns turns));
    }
