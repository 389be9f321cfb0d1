-- ===== src/Store/Index.antt =====
-- The binary search over a client's run list: it ends, and it finds the run that covers a clock.
use cert_yjs.Base.{
  ℕ, zero, suc, ◌+◌, ◌-◌, ◌/◌, ◌≤◌, ◌<◌, ◌≡◌, ◌⊎◌, refl, ap, Bool, true, false, some, List, [], ◌∷◌,
  ltb, add64, sub64, add64_lem, sub64_lem, u64_mod, length, get_elem?, All, Run, done, arith,
  Bool-cases, inl, inr, ◌∙◌, ltb→lt,
}
use native.Mathlib.Decide.{dec_lt}
use cert_yjs.Item.{Ptr, Item, len}
use cert_yjs.Heap.{Heap}
use cert_yjs.Store.{Side, before, after, within, side, search_nodes, get_node_index}

-- The clocks of an item's run.
abbrev pub Covers : Item → ℕ → Type 0
Covers it clock = (it.id.clock ≤ clock) × (clock < it.id.clock + len it)

-- The runs of a list stand in the order of their clocks, do not overlap, and fit 64 bits.
abbrev pub Ordered : Heap → List Ptr → Type 0
Ordered h [] = Unit
Ordered h (p ∷ ps) =
    ((h.item_at p).id.clock + len (h.item_at p) < u64_mod)
    × All (λ q. (h.item_at p).id.clock + len (h.item_at p) ≤ (h.item_at q).id.clock) ps
    × Ordered h ps

-- What lies at a position of a list.
abbrev pub At : List Ptr → ℕ → Ptr → Type 0
At nodes i p = get_elem? nodes i ≡ some p

All-at : (P : Ptr → Type 0) (ps : List Ptr) (i : ℕ) (p : Ptr) → All P ps → At ps i p → P p
All-at P [] i p a e = cc
All-at P (q ∷ ps) zero p a e = let same : q ≡ p = cc in rw (← same) a.0
All-at P (q ∷ ps) (suc i) p a e = All-at P ps i p a.1 e

pub Ordered-fits :
    (h : Heap) (ps : List Ptr) (i : ℕ) (p : Ptr)
    → Ordered h ps
    → At ps i p
    → (h.item_at p).id.clock + len (h.item_at p) < u64_mod
Ordered-fits h [] i p o e = cc
Ordered-fits h (q ∷ ps) zero p o e = let same : q ≡ p = cc in rw (← same) o.0
Ordered-fits h (q ∷ ps) (suc i) p o e = Ordered-fits h ps i p o.2 e

pub Ordered-before :
    (h : Heap) (ps : List Ptr) (i j : ℕ) (p q : Ptr)
    → Ordered h ps
    → At ps i p
    → At ps j q
    → i < j
    → (h.item_at p).id.clock + len (h.item_at p) ≤ (h.item_at q).id.clock
Ordered-before h [] i j p q o e f b = cc
Ordered-before h (r ∷ ps) i zero p q o e f b = absurd (omega arith)
Ordered-before h (r ∷ ps) zero (suc j) p q o e f b =
    let same : r ≡ p = cc in rw (← same) (All-at _ ps j q o.1 f)
Ordered-before h (r ∷ ps) (suc i) (suc j) p q o e f b =
    Ordered-before h ps i j p q o.2 e f (omega arith)

At-lt : (ps : List Ptr) (i : ℕ) (p : Ptr) → At ps i p → i < length ps
At-lt [] i p e = cc
At-lt (q ∷ ps) zero p e = omega arith
At-lt (q ∷ ps) (suc i) p e = omega (arith, At-lt ps i p e)

lt-At : (ps : List Ptr) (i : ℕ) → i < length ps → (p : Ptr) × At ps i p
lt-At [] i b = absurd (omega arith)
lt-At (q ∷ ps) zero b = (q, refl)
lt-At (q ∷ ps) (suc i) b = lt-At ps i (omega arith)

-- What the search answers: the position of a run that covers the clock, or that there is none.
abbrev pub Found : Heap → List Ptr → ℕ → Run (ℕ × Bool) → Type 0
Found h nodes clock r =
    ((i : ℕ) × (p : Ptr) × (r ≡ done (i, true)) × At nodes i p × Covers (h.item_at p) clock)
    ⊎ ((r ≡ done (0, false)) × ((j : ℕ) (p : Ptr) → At nodes j p → Covers (h.item_at p) clock → ⊥))

side-cases :
    (it : Item) (clock : ℕ)
    → it.id.clock + len it < u64_mod
    → ((side it clock ≡ before) × (clock < it.id.clock))
      ⊎ ((side it clock ≡ after) × (it.id.clock + len it ≤ clock))
      ⊎ ((side it clock ≡ within) × Covers it clock)
unfolding side
side-cases it clock b = ground (arith, add64_lem it.id.clock (len it))

At-order :
    (h : Heap) (ps : List Ptr) (i j : ℕ) (p q : Ptr)
    → Ordered h ps
    → At ps i p
    → At ps j q
    → i ≤ j
    → (p ≡ q) ⊎ ((h.item_at p).id.clock + len (h.item_at p) ≤ (h.item_at q).id.clock)
At-order h ps i j p q o e f le = elim (dec_lt i j) [
  | yes lt ↦ inr (Ordered-before h ps i j p q o e f lt)
  | no ge ↦ let same : i ≡ j = omega arith in let g : At ps j p = rw (← same) e in inl (cc)
]

by_contra_lt : (a b : ℕ) → (b ≤ a → ⊥) → a < b
by_contra_lt a b f = elim (dec_lt a b) [ yes p ↦ p | no n ↦ absurd (f (omega arith)) ]

module _ (h : Heap) (nodes : List Ptr) (clock : ℕ) (o : Ordered h nodes)
    (short : length nodes < u64_mod) where
  -- All runs that cover the clock lie between `left` and `right`.
  abbrev Inside : ℕ → ℕ → Type 0
  Inside left right =
      (j : ℕ) (p : Ptr) → At nodes j p → Covers (h.item_at p) clock → (left ≤ j) × (j < right)

  below-Inside :
      (left right m : ℕ) (p : Ptr)
      → Inside left right
      → At nodes m p
      → clock < (h.item_at p).id.clock
      → Inside left m
  below-Inside left right m p inside at c j q at' cov = (
    (inside j q at' cov).0,
    by_contra_lt j m (λ far. before_clash (At-order h nodes m j p q o at at' far)),
  )
    where
      before_clash :
          (p ≡ q) ⊎ ((h.item_at p).id.clock + len (h.item_at p) ≤ (h.item_at q).id.clock) → ⊥
      before_clash (inl same) = omega (arith, ap (λ (x : Ptr). (h.item_at x).id.clock) same)
      before_clash (inr apart) = omega arith

  above-Inside :
      (left right m : ℕ) (p : Ptr)
      → Inside left right
      → At nodes m p
      → (h.item_at p).id.clock + len (h.item_at p) ≤ clock
      → Inside (suc m) right
  above-Inside left right m p inside at c j q at' cov = (
    by_contra_lt m j (λ far. after_clash (At-order h nodes j m q p o at' at far)),
    (inside j q at' cov).1,
  )
    where
      after_clash :
          (q ≡ p) ⊎ ((h.item_at q).id.clock + len (h.item_at q) ≤ (h.item_at p).id.clock) → ⊥
      after_clash (inl same) =
          omega (arith, ap (λ (x : Ptr). (h.item_at x).id.clock + len (h.item_at x)) same)
      after_clash (inr apart) = omega arith

  -- A round of the search, once the side is known on which the clock lies.
  abbrev branch : ℕ → ℕ → ℕ → ℕ → Side → Run (ℕ × Bool)
  branch k left right m before = search_nodes k h nodes clock left m
  branch k left right m after = search_nodes k h nodes clock (add64 m 1) right
  branch k left right m within = done (m, true)

  search_nodes-branch :
      (k left right : ℕ) (p : Ptr) (v : Side)
      → ltb left right ≡ true
      → get_elem? nodes (add64 left (sub64 right left / 2)) ≡ some p
      → side (h.item_at p) clock ≡ v
      → search_nodes (suc k) h nodes clock left right
        ≡ branch k left right (add64 left (sub64 right left / 2)) v
  unfolding search_nodes
  search_nodes-branch k left right p before e at s = rw (e, at) (ap (branch k left right _) s)
  search_nodes-branch k left right p after e at s = rw (e, at) (ap (branch k left right _) s)
  search_nodes-branch k left right p within e at s = rw (e, at) (ap (branch k left right _) s)

  search_nodes-round :
      (k left right m : ℕ) (p : Ptr)
      → ((l r : ℕ)
          → l ≤ r
          → r ≤ length nodes
          → r < l + k
          → Inside l r
          → Found h nodes clock (search_nodes k h nodes clock l r))
      → ltb left right ≡ true
      → right ≤ length nodes
      → right < left + suc k
      → left + (right - left) / 2 ≡ m
      → At nodes m p
      → Inside left right
      → Found h nodes clock (search_nodes (suc k) h nodes clock left right)
  search_nodes-round k left right m p rec e b c mid at inside =
      let lt : left < right = ltb→lt left right e in
      let middle : add64 left (sub64 right left / 2) ≡ m =
        ap (λ w. add64 left (w / 2)) (sub64_lem right left (omega arith) (omega arith))
        ∙ add64_lem left _ (omega arith)
        ∙ mid in
      let next : add64 m 1 ≡ suc m = add64_lem m 1 (omega arith) ∙ omega arith in
      let here : get_elem? nodes (add64 left (sub64 right left / 2)) ≡ some p = rw middle at in
      elim (side-cases (h.item_at p) clock (Ordered-fits h nodes m p o at)) [
        | inl (s, below) ↦
            rw (search_nodes-branch k left right p before e here s, middle)
              (rec left m (omega arith) (omega arith) (omega arith)
                (below-Inside left right m p inside at below))
        | inr (inl (s, above)) ↦
            rw (search_nodes-branch k left right p after e here s, middle, next)
              (rec (suc m) right (omega arith) (omega arith) (omega arith)
                (above-Inside left right m p inside at above))
        | inr (inr (s, cov)) ↦
            rw (search_nodes-branch k left right p within e here s, middle)
              (inl (m, p, refl, at, cov))
      ]

  search_nodes-Found :
      (k left right : ℕ)
      → left ≤ right
      → right ≤ length nodes
      → right < left + k
      → Inside left right
      → Found h nodes clock (search_nodes k h nodes clock left right)
  search_nodes-Found zero left right a b c inside = absurd (omega arith)
  search_nodes-Found (suc k) left right a b c inside = elim (Bool-cases (ltb left right)) [
    | inr e ↦
        inr (unfold search_nodes in rw e, λ j p at cov. absurd (ground (arith, inside j p at cov)))
    | inl e ↦
        let lt : left < right = ltb→lt left right e in
        let (p, at) = lt-At nodes (left + (right - left) / 2) (omega arith) in
        search_nodes-round k left right _ p (search_nodes-Found k) e b c refl at inside
  ]

-- The search ends on every run list that is in order, and answers the position of the run that
-- covers the clock, or that no run does.
pub get_node_index-Found :
    (h : Heap) (nodes : List Ptr) (clock : ℕ)
    → Ordered h nodes
    → length nodes < u64_mod
    → Found h nodes clock (get_node_index h nodes clock)
unfolding get_node_index
get_node_index-Found h nodes clock o short =
    search_nodes-Found h nodes clock o short (suc (length nodes)) 0 (length nodes) (omega arith)
      (omega arith) (omega arith) (λ j p at cov. (omega arith, At-lt nodes j p at))
