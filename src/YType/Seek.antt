-- ===== src/YType/Seek.antt =====
-- The second loop of findPos: it spends an index on the items in front of the cursor.
use cert_yjs.Base.{
  ℕ, zero, suc, ◌+◌, ◌-◌, ◌≤◌, ◌<◌, ◌≡◌, ◌⊎◌, refl, ap, sym, subst, ◌∙◌, true, false, Option, none,
  some, List, [], ◌∷◌, ◌++◌, ◌==◌, ltb, All, inl, inr, append_assoc, append-nil, length,
  length-append, u64_mod, sub64, sub64_lem, lt→ltb, arith, if◌then◌else◌, Bool-cases, not, ◌&&◌,
  Run, done,
}
use cert_yjs.Item.{Ptr, Item, len, countable, deleted, indexable}
use cert_yjs.Heap.{Heap}
use cert_yjs.YType.{spend, seek}
use cert_yjs.YType.Chain.{visible, live_units}
use cert_yjs.YType.Links.{head_or, last_or, Links}
use cert_yjs.YType.Same.{visible-append}

pub last_or-snoc :
    (prev : Option Ptr) (ws : List Ptr) (l : Ptr) → last_or prev (ws ++ l ∷ []) ≡ some l
last_or-snoc prev [] l = refl
last_or-snoc prev (w ∷ ws) l = last_or-snoc (some w) ws l

-- The index falls on the boundary between `front` and `back`, or `offset` units into the last
-- item of `front`, which is live and longer than that.
abbrev pub Cut : Heap → List Ptr → ℕ → ℕ → Type 0
Cut h front offset index =
    ((offset ≡ 0) × (length (visible h front) ≡ index))
    ⊎ ((ws : List Ptr) × (p : Ptr) × (front ≡ ws ++ p ∷ [])
        × (deleted (h.item_at p) ≡ false)
        × (0 < offset)
        × (offset < len (h.item_at p))
        × (length (visible h ws) + offset ≡ index))

-- What findPos answers on the list `ps` for `index`.
pub record Position (h : Heap) (ps : List Ptr) (index : ℕ) (r : Run (Option Ptr × Option Ptr × ℕ))
    : Type 0 where
  pub front : List Ptr
  pub back : List Ptr
  pub offset : ℕ
  pub whole : front ++ back ≡ ps
  pub runs : r ≡ done (last_or none front, head_or back none, offset)
  pub cut : Cut h front offset index

seek-some :
    (k : ℕ) (h : Heap) (r offset : ℕ) (left : Option Ptr) (p : Ptr)
    → seek (suc k) h r offset left (some p) ≡ (
        if r == 0
        then done (left, some p, offset)
        else seek k h
            (spend (h.item_at p) r offset).0
            (spend (h.item_at p) r offset).1
            (some p)
            (h.item_at p).right)
unfolding seek
seek-some k h r offset left p = refl

-- With nothing left to spend the cursor stays.
seek_zero :
    (k : ℕ) (h : Heap) (offset : ℕ) (left right : Option Ptr)
    → seek (suc k) h 0 offset left right ≡ done (left, right, offset)
unfolding seek
seek_zero k h offset left none = refl
seek_zero k h offset left (some p) = refl

indexable_lem : (it : Item) → indexable it ≡ (countable it && not (deleted it))
unfolding indexable
indexable_lem it = refl

spend_lem :
    (it : Item) (r offset : ℕ)
    → spend it r offset ≡ (
        if indexable it
        then (if ltb r (len it) then (0, r) else (sub64 r (len it), offset))
        else (r, offset))
unfolding spend
spend_lem it r offset = refl

module _ (it : Item) (r : ℕ) (c : countable it ≡ true) where
  spend-deleted : deleted it ≡ true → spend it r 0 ≡ (r, 0)
  spend-deleted d = rw (spend_lem it r 0, indexable_lem it, c, d)

  spend-inside : deleted it ≡ false → r < len it → spend it r 0 ≡ (0, r)
  spend-inside d lt = rw (spend_lem it r 0, indexable_lem it, c, d, lt→ltb r (len it) lt)

  spend-past : deleted it ≡ false → len it ≤ r → r < u64_mod → spend it r 0 ≡ (r - len it, 0)
  spend-past d le b =
      let far : ltb r (len it) ≡ false = ground arith in
      rw (spend_lem it r 0, indexable_lem it, c, d, far, sub64_lem r (len it) b le)

-- One more item in front, with none of it spent or all of it.
pub whole_snoc :
    (h : Heap) (xs : List Ptr) (p : Ptr) (ys : List Ptr) → (xs ++ p ∷ []) ++ ys ≡ xs ++ p ∷ ys
whole_snoc h xs p ys = append_assoc xs (p ∷ []) ys

pub visible-snoc :
    (h : Heap) (xs : List Ptr) (p : Ptr)
    → length (visible h (xs ++ p ∷ [])) ≡ length (visible h xs) + length (live_units (h.item_at p))
visible-snoc h xs p =
    ap length (visible-append h xs (p ∷ []))
    ∙ length-append (visible h xs) (visible h (p ∷ []))
    ∙ ap (λ l. length (visible h xs) + length l) (append-nil (live_units (h.item_at p)))

live-length : (it : Item) → deleted it ≡ false → length (live_units it) ≡ len it
live-length it d = rw d refl

pub dead-length : (it : Item) → deleted it ≡ true → length (live_units it) ≡ 0
dead-length it d = rw d refl

-- The loop, with the items `xs` behind the cursor and `ys` in front of it, and `r` units left to
-- spend of `index`.
abbrev Sought : ℕ → Heap → List Ptr → List Ptr → ℕ → ℕ → Type 0
Sought k h xs ys r index =
    Position h (xs ++ ys) index (seek k h r 0 (last_or none xs) (head_or ys none))

module _ (k : ℕ) (h : Heap) (xs : List Ptr) (p : Ptr) (ys : List Ptr) (r index : ℕ)
    (next : (h.item_at p).right ≡ head_or ys none) (more : (r == 0) ≡ false) where
  seek-next :
      (r' offset : ℕ)
      → spend (h.item_at p) r 0 ≡ (r', offset)
      → seek (suc k) h r 0 (last_or none xs) (some p)
        ≡ seek k h r' offset (last_or none (xs ++ p ∷ [])) (head_or ys none)
  seek-next r' offset e =
      seek-some k h r 0 (last_or none xs) p ∙ rw (more, e, next, last_or-snoc none xs p)

  Sought-next :
      (r' : ℕ)
      → spend (h.item_at p) r 0 ≡ (r', 0)
      → Sought k h (xs ++ p ∷ []) ys r' index
      → Sought (suc k) h xs (p ∷ ys) r index
  Sought-next r' e s =
      subst (λ run. Position h (xs ++ p ∷ ys) index run) (sym (seek-next r' 0 e))
        (subst
          (λ zs.
            Position h zs index (seek k h r' 0 (last_or none (xs ++ p ∷ [])) (head_or ys none)))
          (whole_snoc h xs p ys) s)

seek-inside :
    (k : ℕ) (h : Heap) (xs : List Ptr) (p : Ptr) (ys : List Ptr) (r index : ℕ)
    → (h.item_at p).right ≡ head_or ys none
    → (r == 0) ≡ false
    → spend (h.item_at p) r 0 ≡ (0, r)
    → deleted (h.item_at p) ≡ false
    → r < len (h.item_at p)
    → length (visible h xs) + r ≡ index
    → Sought (suc (suc k)) h xs (p ∷ ys) r index
seek-inside k h xs p ys r index next more e d lt sum = record {
  front = xs ++ p ∷ [];
  back = ys;
  offset = r;
  whole = whole_snoc h xs p ys;
  runs =
      seek-next (suc k) h xs p ys r index next more 0 r e
      ∙ seek_zero k h r (last_or none (xs ++ p ∷ [])) (head_or ys none);
  cut = inr (xs, p, refl, d, ground arith, lt, sum);
}

pub seek-Position :
    (k : ℕ) (h : Heap) (xs ys : List Ptr) (r index : ℕ)
    → Links h (last_or none xs) ys none
    → All (λ p. countable (h.item_at p) ≡ true) ys
    → length ys < k
    → r ≤ length (visible h ys)
    → r < u64_mod
    → length (visible h xs) + r ≡ index
    → Sought k h xs ys r index
seek-Position zero h xs ys r index l c b le small e = absurd (omega arith)
seek-Position (suc k) h xs [] r index l c b le small e = record {
  front = xs;
  back = [];
  offset = 0;
  whole = refl;
  runs = unfold seek in refl;
  cut = inl (refl, omega arith);
}
seek-Position (suc zero) h xs (p ∷ ys) r index l c b le small e = absurd (omega arith)
seek-Position (suc (suc k)) h xs (p ∷ ys) r index (pl, pr, l) (pc, c) b le small e =
    let l' = subst (λ o. Links h o ys none) (sym (last_or-snoc none xs p)) l in
    let more : (r == 0) ≡ false → Sought (suc (suc k)) h xs (p ∷ ys) r index = λ nz.
      (elim (Bool-cases (deleted (h.item_at p))) [
        | inl d ↦
            Sought-next (suc k) h xs p ys r index pr nz r (spend-deleted (h.item_at p) r pc d) (
              seek-Position (suc k) h (xs ++ p ∷ []) ys r index l' c (omega arith)
                (omega (
                  arith,
                  length-append (live_units (h.item_at p)) (visible h ys),
                  dead-length (h.item_at p) d,
                ))
                small (omega (arith, visible-snoc h xs p, dead-length (h.item_at p) d)))
        | inr d ↦ elim (Bool-cases (ltb r (len (h.item_at p)))) [
          | inl lt ↦
              seek-inside k h xs p ys r index pr nz
                (spend-inside (h.item_at p) r pc d (ground arith)) d (ground arith) e
          | inr ge ↦
              let past : len (h.item_at p) ≤ r = ground arith in
              Sought-next (suc k) h xs p ys r index pr nz (r - len (h.item_at p))
                (spend-past (h.item_at p) r pc d past small)
                (seek-Position (suc k) h (xs ++ p ∷ []) ys (r - len (h.item_at p)) index l' c
                  (omega arith)
                  (omega (
                    arith,
                    length-append (live_units (h.item_at p)) (visible h ys),
                    live-length (h.item_at p) d,
                  ))
                  (omega arith) (omega (arith, visible-snoc h xs p, live-length (h.item_at p) d)))
        ]
      ]) in
    elim (Bool-cases (r == 0)) [
      | inl z ↦ record {
        front = xs;
        back = p ∷ ys;
        offset = 0;
        whole = refl;
        runs = seek-some (suc k) h r 0 (last_or none xs) p ∙ rw z;
        cut = inl (refl, ground arith);
      }
      | inr nz ↦ more nz
    ]
