-- ===== src/Split/Node.antt =====
-- store.splitNode: the run list of the client holds the right half behind the left one.
use cert_yjs.Base.{
  ℕ, zero, suc, ◌+◌, ◌≤◌, ◌<◌, ◌≡◌, ◌⊎◌, refl, ap, ◌∙◌, true, false, List, [], ◌∷◌, ◌++◌, ltb, All,
  length, length-append, length-take, take, drop, append_assoc, inl, inr, arith, done, ◌>>=◌,
  u64_mod,
}
use cert_yjs.Item.{Ptr, len}
use cert_yjs.Heap.{Heap}
use cert_yjs.YType.Links.{Distinct}
use cert_yjs.YType.Distinct.{All-left, All-right, Distinct-append, Apart-Fresh}
use cert_yjs.YType.Same.{ItemData}
use cert_yjs.Store.{Store, get_node_index, nodes_of, set_nodes}
use cert_yjs.Store.Index.{Covers, Ordered, At, Ordered-before, get_node_index-Found}
use cert_yjs.Split.Halves.{split_heap, split_item_lem, split-left}
use cert_yjs.Split.Order.{start, size, Cut, Ordered-Cut, others-Unmoved, split-Cut, Ordered-without}
use cert_yjs.Split.{split_item, insert_after, split_node}

-- Where the item `n` stands in the run list of its client: the list is in order.
pub record InRuns (s : Store) (n : Ptr) (older newer : List Ptr) : Type 0 where
  pub runs : nodes_of s (s.heap.item_at n).id.client_id ≡ older ++ n ∷ newer
  pub ordered : Ordered s.heap (older ++ n ∷ newer)
  pub distinct : Distinct (older ++ n ∷ newer)
  pub allocated : All (λ p. p < s.heap.next_item) (older ++ n ∷ newer)
  pub short : length (older ++ n ∷ newer) < u64_mod

At-middle :
    (older : List Ptr) (n : Ptr) (newer : List Ptr) → At (older ++ n ∷ newer) (length older) n
At-middle [] n newer = refl
At-middle (p ∷ older) n newer = At-middle older n newer

trichotomy : (i j : ℕ) → (i < j) ⊎ ((i ≡ j) ⊎ (j < i))
trichotomy zero zero = inr (inl refl)
trichotomy zero (suc j) = inl (omega arith)
trichotomy (suc i) zero = inr (inr (omega arith))
trichotomy (suc i) (suc j) = elim (trichotomy i j) [
  | inl a ↦ inl (omega arith)
  | inr (inl b) ↦ inr (inl (ap suc b))
  | inr (inr c) ↦ inr (inr (omega arith))
]

-- Only one position of a list in order covers a clock.
same_index :
    (h : Heap) (nodes : List Ptr) (i j : ℕ) (p q : Ptr) (clock : ℕ)
    → Ordered h nodes
    → At nodes i p
    → At nodes j q
    → Covers (h.item_at p) clock
    → Covers (h.item_at q) clock
    → i ≡ j
same_index h nodes i j p q clock o a b c d = elim (trichotomy i j) [
  | inl lt ↦ absurd (omega (arith, Ordered-before h nodes i j p q o a b lt, c.1, d.0))
  | inr (inl e) ↦ e
  | inr (inr gt) ↦ absurd (omega (arith, Ordered-before h nodes j i q p o b a gt, d.1, c.0))
]

-- The search for a clock that the item in the middle covers answers its position.
index-middle :
    (h : Heap) (older : List Ptr) (n : Ptr) (newer : List Ptr) (clock : ℕ)
    → Ordered h (older ++ n ∷ newer)
    → length (older ++ n ∷ newer) < u64_mod
    → Covers (h.item_at n) clock
    → get_node_index h (older ++ n ∷ newer) clock ≡ done (length older, true)
index-middle h older n newer clock o short cov =
    elim (get_node_index-Found h (older ++ n ∷ newer) clock o short) [
      | inl (i, p, run, at, c) ↦
          run
          ∙ ap (λ k. done (k, true))
              (same_index h (older ++ n ∷ newer) i (length older) p n clock o at
                (At-middle older n newer) c cov)
      | inr (run, missing) ↦ absurd (missing (length older) n (At-middle older n newer) cov)
    ]

take-middle :
    (older : List Ptr) (n : Ptr) (newer : List Ptr)
    → take (suc (length older)) (older ++ n ∷ newer) ≡ older ++ n ∷ []
take-middle [] n newer = refl
take-middle (p ∷ older) n newer = ap (λ l. p ∷ l) (take-middle older n newer)

drop-middle :
    (older : List Ptr) (n : Ptr) (newer : List Ptr)
    → drop (suc (length older)) (older ++ n ∷ newer) ≡ newer
drop-middle [] n newer = refl
drop-middle (p ∷ older) n newer = drop-middle older n newer

insert_after-middle :
    (older : List Ptr) (n : Ptr) (newer : List Ptr) (q : Ptr)
    → insert_after (older ++ n ∷ newer) (length older) q ≡ done (older ++ n ∷ q ∷ newer)
unfolding insert_after
insert_after-middle older n newer q =
    let room : ltb (length (older ++ n ∷ newer)) (suc (length older)) ≡ false =
      ground (arith, length-append older (n ∷ newer)) in
    rw (room, take-middle, drop-middle, append_assoc)

Ordered-at :
    (h : Heap) (older : List Ptr) (n : Ptr) (newer : List Ptr)
    → Ordered h (older ++ n ∷ newer)
    → start h n + size h n < u64_mod
Ordered-at h [] n newer (fit, _, _) = fit
Ordered-at h (p ∷ older) n newer (_, _, o) = Ordered-at h older n newer o

split_node_lem :
    (s : Store) (n : Ptr) (diff : ℕ)
    → split_node s n diff ≡ (
        split_item s.heap n diff >>= λ out.
        get_node_index out.1 (nodes_of s (out.1.item_at n).id.client_id) (out.1.item_at n).id.clock
        >>= λ found.
            insert_after (nodes_of s (out.1.item_at n).id.client_id) found.0 out.0 >>= λ nodes.
            done
              (out.0, set_nodes (record s { heap = out.1 }) (out.1.item_at n).id.client_id nodes))
unfolding split_node
split_node_lem s n diff = refl

-- The store after the split, given where the item stands.
unfoldable pub split_store : Store → Ptr → ℕ → List Ptr → List Ptr → Store
unfolding split_heap set_nodes
split_store s n diff older newer =
    set_nodes (record s { heap = split_heap s.heap n diff }) (s.heap.item_at n).id.client_id
      (older ++ n ∷ s.heap.next_item ∷ newer)

-- What splitNode leaves of the run list.
pub record Resplit (s : Store) (n : Ptr) (diff : ℕ) (older newer : List Ptr) : Type 0 where
  pub runs : split_node s n diff ≡ done (s.heap.next_item, split_store s n diff older newer)
  pub nodes :
      nodes_of (split_store s n diff older newer) (s.heap.item_at n).id.client_id
      ≡ older ++ n ∷ s.heap.next_item ∷ newer
  pub ordered : Ordered (split_heap s.heap n diff) (older ++ n ∷ s.heap.next_item ∷ newer)

module _ {s : Store} {n : Ptr} {older newer : List Ptr} (r : InRuns s n older newer) (diff : ℕ)
    (pos : 0 < diff) (le : diff ≤ len (s.heap.item_at n)) where
  abbrev g : Heap
  g = split_heap s.heap n diff

  used : n < s.heap.next_item
  used = (All-right _ older (n ∷ newer) r.allocated).0

  cut : Cut s.heap g n s.heap.next_item
  cut = split-Cut s.heap n diff used le (Ordered-at s.heap older n newer r.ordered)

  Ordered-split_heap : Ordered g (older ++ n ∷ s.heap.next_item ∷ newer)
  Ordered-split_heap =
      let (_, (f, _), apart) = Distinct-append older (n ∷ newer) r.distinct in
      Ordered-Cut s.heap g older n s.heap.next_item newer cut
        (others-Unmoved s.heap n diff older used (Apart-Fresh older n newer apart)
          (All-left _ older (n ∷ newer) r.allocated))
        (others-Unmoved s.heap n diff newer used f (All-right _ older (n ∷ newer) r.allocated).1)
        r.ordered

  same_id : (g.item_at n).id ≡ (s.heap.item_at n).id
  same_id = ap (λ (d : ItemData). d.id) (split-left s.heap n diff used)

  size_left : size g n ≡ diff
  size_left =
      ap (λ (d : ItemData). length d.content) (split-left s.heap n diff used)
      ∙ length-take diff (s.heap.item_at n).content le

  index :
      get_node_index g (older ++ n ∷ newer) (s.heap.item_at n).id.clock ≡ done (length older, true)
  index =
      index-middle g older n newer (s.heap.item_at n).id.clock
        (Ordered-without g older n s.heap.next_item newer Ordered-split_heap) r.short
        (omega (arith, cut.left), omega (arith, cut.left, size_left, pos))

  whole_item : split_item s.heap n diff ≡ done (s.heap.next_item, g)
  whole_item =
      let inside : ltb (len (s.heap.item_at n)) diff ≡ false = ground arith in
      split_item_lem s.heap n diff ∙ rw inside

  split_node-runs : split_node s n diff ≡ done (s.heap.next_item, split_store s n diff older newer)
  split_node-runs =
      split_node_lem s n diff
      ∙ rw (whole_item, same_id, r.runs, index, insert_after-middle older n newer s.heap.next_item)
          (unfold split_store in refl)

  nodes_after :
      nodes_of (split_store s n diff older newer) (s.heap.item_at n).id.client_id
      ≡ older ++ n ∷ s.heap.next_item ∷ newer
  nodes_after = unfold split_store nodes_of in ground arith

-- splitNode inside a run that its client's list holds ends, and leaves the list in order, with
-- the right half behind the left one.
pub split_node-Resplit :
    {s : Store} {n : Ptr} {older newer : List Ptr}
    → InRuns s n older newer
    → (diff : ℕ) → 0 < diff
    → diff ≤ len (s.heap.item_at n)
    → Resplit s n diff older newer
split_node-Resplit r diff pos le = record {
  runs = split_node-runs r diff pos le;
  nodes = nodes_after r diff pos le;
  ordered = Ordered-split_heap r diff pos le;
}
