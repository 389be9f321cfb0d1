-- ===== src/Split/Order.antt =====
-- Cutting a run keeps the run list of its client in order.
use cert_yjs.Base.{
  ℕ, ◌+◌, ◌≤◌, ◌<◌, ◌≡◌, refl, ap, ◌∙◌, List, [], ◌∷◌, ◌++◌, All, length, length-take, length-drop,
  drop, arith, u64_mod, add64, add64_lem,
}
use cert_yjs.Ident.{new_id}
use cert_yjs.Item.{Ptr, len}
use cert_yjs.Heap.{Heap}
use cert_yjs.YType.Links.{Fresh}
use cert_yjs.YType.Distinct.{All-append, All-left, All-right}
use cert_yjs.YType.Same.{data_of, ItemData}
use cert_yjs.Store.Index.{Ordered}
use cert_yjs.Split.Halves.{split_heap, split-left, split-right, split-other}
use cert_yjs.Split.{right_half}

-- The first clock of a run, and how many clocks it has.
abbrev pub start : Heap → Ptr → ℕ
start h p = (h.item_at p).id.clock

abbrev pub size : Heap → Ptr → ℕ
size h p = len (h.item_at p)

abbrev pub Unmoved : Heap → Heap → List Ptr → Type 0
Unmoved h g = All (λ p. data_of (g.item_at p) ≡ data_of (h.item_at p))

start-data :
    (h g : Heap) (p : Ptr) → data_of (g.item_at p) ≡ data_of (h.item_at p) → start g p ≡ start h p
start-data h g p e = ap (λ (d : ItemData). d.id.clock) e

size-data :
    (h g : Heap) (p : Ptr) → data_of (g.item_at p) ≡ data_of (h.item_at p) → size g p ≡ size h p
size-data h g p e = ap (λ (d : ItemData). length d.content) e

bound-data :
    (h g : Heap) (ps : List Ptr) (b a : ℕ)
    → Unmoved h g ps
    → a ≤ b
    → All (λ p. b ≤ start h p) ps
    → All (λ p. a ≤ start g p) ps
bound-data h g [] b a u le x = tt
bound-data h g (p ∷ ps) b a (e, u) le (y, x) =
    (omega (arith, start-data h g p e), bound-data h g ps b a u le x)

Ordered-data : (h g : Heap) (ps : List Ptr) → Unmoved h g ps → Ordered h ps → Ordered g ps
Ordered-data h g [] u o = tt
Ordered-data h g (p ∷ ps) (e, u) (fit, after, o) =
    let last : start g p + size g p ≡ start h p + size h p =
      omega (arith, start-data h g p e, size-data h g p e) in
    (
      omega (arith, last),
      bound-data h g ps _ _ u (omega (arith, last)) after,
      Ordered-data h g ps u o,
    )

-- The run `n` is cut into `n` and `q`.
pub record Cut (h g : Heap) (n q : Ptr) : Type 0 where
  pub left : start g n ≡ start h n
  pub right : start g q ≡ start g n + size g n
  pub whole : size g n + size g q ≡ size h n

-- Cutting a run keeps a list of runs in order.
pub Ordered-Cut :
    (h g : Heap) (older : List Ptr) (n q : Ptr) (newer : List Ptr)
    → Cut h g n q
    → Unmoved h g older
    → Unmoved h g newer
    → Ordered h (older ++ n ∷ newer)
    → Ordered g (older ++ n ∷ q ∷ newer)
Ordered-Cut h g [] n q newer c uo un (fit, after, o) = (
  omega (arith, c.left, c.whole),
  (omega (arith, c.right), bound-data h g newer _ _ un (omega (arith, c.left, c.whole)) after),
  (
    omega (arith, c.left, c.right, c.whole),
    bound-data h g newer _ _ un (omega (arith, c.left, c.right, c.whole)) after,
    Ordered-data h g newer un o,
  ),
)
Ordered-Cut h g (p ∷ older) n q newer c (e, uo) un (fit, after, o) =
    let last : start g p + size g p ≡ start h p + size h p =
      omega (arith, start-data h g p e, size-data h g p e) in
    let from = All-right _ older (n ∷ newer) after in
    (
      omega (arith, last),
      All-append _ older (n ∷ q ∷ newer)
          (bound-data h g older _ _ uo (omega (arith, last)) (All-left _ older (n ∷ newer) after))
          (
            omega (arith, last, c.left, from.0),
            (
              omega (arith, last, c.left, c.right, from.0),
              bound-data h g newer _ _ un (omega (arith, last)) from.1,
            ),
          ),
      Ordered-Cut h g older n q newer c uo un o,
    )

pub others-Unmoved :
    (h : Heap) (n : Ptr) (diff : ℕ) (ps : List Ptr)
    → n < h.next_item
    → Fresh n ps
    → All (λ p. p < h.next_item) ps
    → Unmoved h (split_heap h n diff) ps
others-Unmoved h n diff [] used f b = tt
others-Unmoved h n diff (p ∷ ps) used (ne, f) (lt, b) =
    (split-other h n diff used p ne lt, others-Unmoved h n diff ps used f b)

pub split-Cut :
    (h : Heap) (n : Ptr) (diff : ℕ)
    → n < h.next_item
    → diff ≤ len (h.item_at n)
    → start h n + size h n < u64_mod
    → Cut h (split_heap h n diff) n h.next_item
split-Cut h n diff used le fit =
    let l = split-left h n diff used in
    let r = split-right h n diff used in
    let size_n : size (split_heap h n diff) n ≡ diff =
      ap (λ (d : ItemData). length d.content) l ∙ length-take diff (h.item_at n).content le in
    let start_n : start (split_heap h n diff) n ≡ start h n = ap (λ (d : ItemData). d.id.clock) l in
    let start_q : start (split_heap h n diff) h.next_item ≡ add64 (start h n) diff =
      ap (λ (d : ItemData). d.id.clock) r ∙ (unfold right_half new_id in refl) in
    let size_q : size (split_heap h n diff) h.next_item ≡ length (drop diff (h.item_at n).content) =
      ap (λ (d : ItemData). length d.content) r ∙ (unfold right_half in refl) in
    record {
      left = start_n;
      right =
          start_q
          ∙ add64_lem (start h n) diff (omega (arith, le, fit))
          ∙ omega (arith, size_n, start_n);
      whole = omega (arith, size_n, size_q, length-drop diff (h.item_at n).content, le);
    }

-- Leaving a run out keeps a list in order.
pub Ordered-without :
    (h : Heap) (older : List Ptr) (n q : Ptr) (newer : List Ptr)
    → Ordered h (older ++ n ∷ q ∷ newer)
    → Ordered h (older ++ n ∷ newer)
Ordered-without h [] n q newer (fit, (_, after), (_, _, o)) = (fit, after, o)
Ordered-without h (p ∷ older) n q newer (fit, after, o) =
    let (a, (_, b)) = All-right _ older (n ∷ q ∷ newer) after in
    (
      fit,
      All-append _ older (n ∷ newer) (All-left _ older (n ∷ q ∷ newer) after) (a, b),
      Ordered-without h older n q newer o,
    )
