-- ===== src/Span/Laws.antt =====
-- What the recorded delete set and the lists of id spans contain after an addition.
use cert_yjs.Base.{
  ℕ, ◌+◌, ◌<◌, ◌≡◌, refl, ap, Bool, Option, none, some, List, [], ◌∷◌, ◌++◌, ◌&&◌, ◌||◌, ◌==◌, leb,
  ltb, add64_lem, u64_mod, arith, Bool-cases, inl, inr,
}
use cert_yjs.Ident.{ItemId}
use cert_yjs.Span.{
  ClockSpan, OrderRange, in_span, any_span, found_contains, with_fragment, DeletedSet, contains,
  add_range, IdSpan, contains_id,
}

pub any_span-append :
    (rs ss : List ClockSpan) (c : ℕ) → any_span (rs ++ ss) c ≡ (any_span rs c || any_span ss c)
unfolding any_span
any_span-append [] ss c = refl
any_span-append (r ∷ rs) ss c = ground (arith, any_span-append rs ss c)

pub contains_id-append :
    (xs ys : List IdSpan) (i : ItemId)
    → contains_id (xs ++ ys) i ≡ (contains_id xs i || contains_id ys i)
unfolding contains_id
contains_id-append [] ys i = refl
contains_id-append (x ∷ xs) ys i = ground (arith, contains_id-append xs ys i)

-- The clocks of one recorded range.
abbrev pub in_range : ItemId → ℕ → ItemId → Bool
in_range i n j = j.client_id == i.client_id && leb i.clock j.clock && ltb j.clock (i.clock + n)

found_contains-with_fragment :
    (o : Option OrderRange) (r : ClockSpan) (c : ℕ)
    → found_contains (some (with_fragment o r)) c ≡ (found_contains o c || in_span r c)
unfolding found_contains with_fragment
found_contains-with_fragment none r c = ground arith
found_contains-with_fragment (some (OrderRange.fragments f)) r c =
    ground (arith, any_span-append f (r ∷ []) c)
found_contains-with_fragment (some (OrderRange.range rr)) r c = ground arith

-- Where the range does not wrap, the delete set holds after `add_range` what it held before
-- and the ids of the range, and nothing else.
pub contains-add_range :
    (d : DeletedSet) (i : ItemId) (n : ℕ) (j : ItemId)
    → i.clock + n < u64_mod
    → contains (add_range d i n) j ≡ (contains d j || in_range i n j)
unfolding contains add_range in_span
contains-add_range d i n j h = elim (Bool-cases (j.client_id == i.client_id)) [
  | inl e ↦
      let same : j.client_id ≡ i.client_id = ground arith in
      rw (e, found_contains-with_fragment, add64_lem i.clock n h) (ground (arith, ap d same))
  | inr e ↦ rw e (ground arith)
]
