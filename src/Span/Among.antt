-- ===== src/Span/Among.antt =====
-- Which ids a list of spans holds.
use cert_yjs.Base.{
  ◌+◌, ◌≤◌, ◌<◌, ◌≡◌, ◌⊎◌, refl, true, false, Bool-cases, inl, inr, List, [], ◌∷◌, add64_lem, All,
  u64_mod, arith,
}
use cert_yjs.Ident.{ItemId}
use cert_yjs.Span.{IdSpan, span_covers, contains_id}

-- A span whose clocks do not wrap, and what it covers.
abbrev pub Unwrapped : IdSpan → Type 0
Unwrapped x = x.id.clock + x.len < u64_mod

abbrev pub Covers : IdSpan → ItemId → Type 0
Covers x i =
    (x.id.client_id ≡ i.client_id) × (x.id.clock ≤ i.clock) × (i.clock < x.id.clock + x.len)

abbrev pub Among : List IdSpan → ItemId → Type 0
Among [] i = ⊥
Among (x ∷ spans) i = Covers x i ⊎ Among spans i

span_covers-Covers : (x : IdSpan) (i : ItemId) → Unwrapped x → Covers x i → span_covers x i ≡ true
unfolding span_covers
span_covers-Covers x i u (c, a, b) =
    let e = add64_lem x.id.clock x.len u in rw e (ground (arith, c, a, b))

Covers-span_covers : (x : IdSpan) (i : ItemId) → Unwrapped x → span_covers x i ≡ true → Covers x i
unfolding span_covers
Covers-span_covers x i u h =
    let e = add64_lem x.id.clock x.len u in
    (ground (arith, e, h), ground (arith, e, h), ground (arith, e, h))

-- containsId answers whether the id is among the spans.
pub contains_id-Among :
    (spans : List IdSpan) (i : ItemId)
    → All Unwrapped spans
    → Among spans i
    → contains_id spans i ≡ true
unfolding contains_id
contains_id-Among [] i u a = absurd a
contains_id-Among (x ∷ spans) i (u, us) (inl c) = rw (span_covers-Covers x i u c) refl
contains_id-Among (x ∷ spans) i (u, us) (inr a) = elim (Bool-cases (span_covers x i)) [
  | inl e ↦ rw e refl
  | inr e ↦ rw e (contains_id-Among spans i us a)
]

Among-contains_id :
    (spans : List IdSpan) (i : ItemId)
    → All Unwrapped spans
    → contains_id spans i ≡ true
    → Among spans i
unfolding contains_id
Among-contains_id [] i u h = absurd (cc)
Among-contains_id (x ∷ spans) i (u, us) h = elim (Bool-cases (span_covers x i)) [
  | inl e ↦ inl (Covers-span_covers x i u e)
  | inr e ↦ inr (Among-contains_id spans i us (rw e at h))
]

pub contains_id-outside :
    (spans : List IdSpan) (i : ItemId)
    → All Unwrapped spans
    → ¬ Among spans i
    → contains_id spans i ≡ false
contains_id-outside spans i u n = elim (Bool-cases (contains_id spans i)) [
  | inl e ↦ absurd (n (Among-contains_id spans i u e))
  | inr e ↦ e
]
