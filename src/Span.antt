-- ===== src/Span.antt =====
-- yjs/range.go: clock spans and the recorded delete set; and yjs/store.go's idSpan.
pub mod Laws
pub mod Among
use cert_yjs.Base.{
  ℕ, Bool, true, false, Option, none, some, List, [], ◌∷◌, ◌++◌, ◌&&◌, ◌==◌, leb, ltb, add64,
  if◌then◌else◌,
}
use cert_yjs.Ident.{Client, ItemId}

-- span[uint64]: the clocks from `start` up to and not including `end`.
pub record ClockSpan : Type 0 where
  pub start : ℕ
  pub end : ℕ

abbrev pub clock_span : ℕ → ℕ → ClockSpan
clock_span a b = record { start = a; end = b }

-- The interface orderRange with its two implementations.
pub data OrderRange : Type 0 where
  range : ClockSpan → OrderRange
  fragments : List ClockSpan → OrderRange

unfoldable pub in_span : ClockSpan → ℕ → Bool
in_span r clock = leb r.start clock && ltb clock r.end

-- The loop over the fragments, which the scan of TextObserver.deletedContains repeats.
unfoldable pub any_span : List ClockSpan → ℕ → Bool
unfolding in_span
any_span [] clock = false
any_span (r ∷ rs) clock = if in_span r clock then true else any_span rs clock

unfoldable pub range_contains : OrderRange → ℕ → Bool
unfolding in_span any_span
range_contains (OrderRange.range r) clock = in_span r clock
range_contains (OrderRange.fragments rs) clock = any_span rs clock

-- The range that the map holds for a client, if any.
unfoldable pub found_contains : Option OrderRange → ℕ → Bool
unfolding range_contains
found_contains none clock = false
found_contains (some rng) clock = range_contains rng clock

-- map[Client]orderRange
abbrev pub DeletedSet : Type 0
DeletedSet = Client → Option OrderRange

unfoldable pub contains : DeletedSet → ItemId → Bool
unfolding found_contains
contains d i = found_contains (d i.client_id) i.clock

-- What add_range leaves for the client: the new fragment goes behind those that it has.
unfoldable pub with_fragment : Option OrderRange → ClockSpan → OrderRange
with_fragment none r = OrderRange.fragments (r ∷ [])
with_fragment (some (OrderRange.fragments frag)) r = OrderRange.fragments (frag ++ r ∷ [])
with_fragment (some (OrderRange.range rr)) r = OrderRange.fragments (rr ∷ r ∷ [])

unfoldable pub add_range : DeletedSet → ItemId → ℕ → DeletedSet
unfolding with_fragment
add_range d i length client =
    if client == i.client_id
    then some (with_fragment (d i.client_id) (clock_span i.clock (add64 i.clock length)))
    else d client

-- idSpan: the ids of one run.
pub record IdSpan : Type 0 where
  pub id : ItemId
  pub len : ℕ

unfoldable pub span_covers : IdSpan → ItemId → Bool
span_covers x i =
    x.id.client_id == i.client_id && leb x.id.clock i.clock && ltb i.clock (add64 x.id.clock x.len)

unfoldable pub contains_id : List IdSpan → ItemId → Bool
unfolding span_covers
contains_id [] i = false
contains_id (x ∷ s) i = if span_covers x i then true else contains_id s i
