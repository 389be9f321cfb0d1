-- ===== src/Diff/Noted.antt =====
-- The token that a poll leaves knows the characters that it walked over, and no others.
use cert_yjs.Base.{
  ℕ, suc, ◌+◌, ◌≤◌, ◌<◌, ◌≡◌, refl, ap, sym, subst, ◌∙◌, Bool, true, false, List, [], ◌∷◌, ◌++◌,
  ◌==◌, ◌&&◌, ◌||◌, ltb, lt→ltb, add64, add64_lem, length, if◌then◌else◌, All, u64_mod, arith,
  Bool-cases, inl, inr,
}
use cert_yjs.Ident.{Client, Clock}
use cert_yjs.Span.Laws.{any_span-append}
use cert_yjs.Span.{ClockSpan, clock_span, in_span, any_span}
use cert_yjs.Item.{Ptr, Item, len, deleted}
use cert_yjs.Heap.{Heap}
use cert_yjs.Diff.{Token, empty_token, deleted_contains, note_item}
use cert_yjs.Diff.Known.{noted, Known}
use cert_yjs.YType.{SnapshotChar}
use cert_yjs.YType.Chars.{char_at, chars_of, chars}

-- An item whose clocks do not wrap, and the clocks that it has.
abbrev pub Plain : Item → Type 0
Plain it = it.id.clock + len it < u64_mod

abbrev pub Has : Item → Client → Clock → Type 0
Has it client x = (it.id.client_id ≡ client) × (it.id.clock ≤ x) × (x < it.id.clock + len it)

-- No two items of a list share a clock of a client.
abbrev pub Separate : Heap → List Ptr → Type 0
Separate h ps =
    All
      (λ p.
        All
          (λ q.
            (client : Client) (x : Clock)
            → Has (h.item_at p) client x
            → Has (h.item_at q) client x
            → p ≡ q)
          ps)
      ps

-- An id behind all the clocks that the items have of its client.
abbrev pub Behind : Heap → List Ptr → Client → Clock → Type 0
Behind h ps client x =
    All (λ p. (h.item_at p).id.client_id ≡ client → (h.item_at p).id.clock + len (h.item_at p) ≤ x)
      ps

All-here :
    {A : Type 0} (P Q : A → Type 0) (xs : List A) → ((x : A) → P x → Q x) → All P xs → All Q xs
All-here P Q [] f a = tt
All-here P Q (x ∷ xs) f (p, a) = (f x p, All-here P Q xs f a)

-- The state vector.
note_item-grows :
    (o : Token) (it : Item) (c : Client) → o.state_vector c ≤ (note_item o it).state_vector c
unfolding note_item
note_item-grows o it c = ground arith

note_item-reaches :
    (o : Token) (it : Item)
    → Plain it
    → it.id.clock + len it ≤ (note_item o it).state_vector it.id.client_id
unfolding note_item
note_item-reaches o it b = let e = add64_lem it.id.clock (len it) b in ground (arith, e)

note_item-stays :
    (o : Token) (it : Item) (c : Client) (x : Clock)
    → Plain it
    → (it.id.client_id ≡ c → it.id.clock + len it ≤ x)
    → o.state_vector c ≤ x
    → (note_item o it).state_vector c ≤ x
unfolding note_item
note_item-stays o it c x b f le = let e = add64_lem it.id.clock (len it) b in ground (arith, e, f)

noted-grows :
    (h : Heap) (ps : List Ptr) (o : Token) (c : Client)
    → o.state_vector c ≤ (noted h ps o).state_vector c
noted-grows h [] o c = omega arith
noted-grows h (p ∷ ps) o c =
    let a = note_item-grows o (h.item_at p) c in
    let b = noted-grows h ps (note_item o (h.item_at p)) c in omega arith

noted-reaches :
    (h : Heap) (ps : List Ptr) (o : Token)
    → All (λ p. Plain (h.item_at p)) ps
    → All
        (λ p.
          (h.item_at p).id.clock + len (h.item_at p)
          ≤ (noted h ps o).state_vector (h.item_at p).id.client_id)
        ps
noted-reaches h [] o b = tt
noted-reaches h (p ∷ ps) o (b, bs) =
    let it = h.item_at p in
    (
      (let a = note_item-reaches o it b in
          let c = noted-grows h ps (note_item o it) it.id.client_id in omega arith),
      noted-reaches h ps (note_item o it) bs,
    )

noted-stays :
    (h : Heap) (ps : List Ptr) (o : Token) (c : Client) (x : Clock)
    → All (λ p. Plain (h.item_at p)) ps
    → Behind h ps c x
    → o.state_vector c ≤ x
    → (noted h ps o).state_vector c ≤ x
noted-stays h [] o c x b f le = le
noted-stays h (p ∷ ps) o c x (b, bs) (f, fs) le =
    noted-stays h ps (note_item o (h.item_at p)) c x bs fs
      (note_item-stays o (h.item_at p) c x b f le)

-- The tombstones.
abbrev is_dead : Item → Client → Clock → Bool
is_dead it c x =
    deleted it
    && c == it.id.client_id
    && in_span (clock_span it.id.clock (add64 it.id.clock (len it))) x

abbrev dead_at : Heap → List Ptr → Client → Clock → Bool
dead_at h [] c x = false
dead_at h (p ∷ ps) c x = is_dead (h.item_at p) c x || dead_at h ps c x

or_assoc : (a b c : Bool) → ((a || b) || c) ≡ (a || (b || c))
or_assoc true b c = refl
or_assoc false b c = refl

or_false : (a : Bool) → (a || false) ≡ a
or_false true = refl
or_false false = refl

span_if :
    (spans : List ClockSpan) (r : ClockSpan) (x : Clock) (b : Bool)
    → any_span (if b then spans ++ r ∷ [] else spans) x ≡ (any_span spans x || (b && in_span r x))
unfolding any_span
span_if spans r x true = any_span-append spans (r ∷ []) x ∙ ground arith
span_if spans r x false = sym (or_false (any_span spans x))

note_item-dead :
    (o : Token) (it : Item) (c : Client) (x : Clock)
    → deleted_contains (note_item o it) c x ≡ (deleted_contains o c x || is_dead it c x)
unfolding deleted_contains note_item
note_item-dead o it c x =
    span_if (o.deleted c) (clock_span it.id.clock (add64 it.id.clock (len it))) x
      (deleted it && c == it.id.client_id)
    ∙ refl

noted-dead :
    (h : Heap) (ps : List Ptr) (o : Token) (c : Client) (x : Clock)
    → deleted_contains (noted h ps o) c x ≡ (deleted_contains o c x || dead_at h ps c x)
noted-dead h [] o c x = sym (or_false (deleted_contains o c x))
noted-dead h (p ∷ ps) o c x =
    noted-dead h ps (note_item o (h.item_at p)) c x
    ∙ ap (λ b. b || dead_at h ps c x) (note_item-dead o (h.item_at p) c x)
    ∙ or_assoc (deleted_contains o c x) (is_dead (h.item_at p) c x) (dead_at h ps c x)

is_dead-Has :
    (it : Item) (c : Client) (x : Clock)
    → Plain it
    → Has it c x
    → deleted it ≡ true
    → is_dead it c x ≡ true
unfolding in_span
is_dead-Has it c x b (e, lo, hi) d =
    let w = add64_lem it.id.clock (len it) b in rw (d, w) (ground (arith, e, lo, hi))

Has-is_dead :
    (it : Item) (c : Client) (x : Clock)
    → Plain it
    → is_dead it c x ≡ true
    → Has it c x × (deleted it ≡ true)
unfolding in_span
Has-is_dead it c x b h =
    let w = add64_lem it.id.clock (len it) b in
    ((ground (arith, w, h), ground (arith, w, h), ground (arith, w, h)), ground (arith, h))

dead_at-member :
    (h : Heap) (ps : List Ptr)
    → All (λ p. Plain (h.item_at p)) ps
    → All
        (λ p.
          (c : Client) (x : Clock)
          → Has (h.item_at p) c x
          → deleted (h.item_at p) ≡ true
          → dead_at h ps c x ≡ true)
        ps
dead_at-member h [] b = tt
dead_at-member h (p ∷ ps) (b, bs) = (
  (λ c x k d. rw (is_dead-Has (h.item_at p) c x b k d) refl),
  All-here _ _ ps
      (λ q f c x k d. elim (Bool-cases (is_dead (h.item_at p) c x)) [
        | inl e ↦ rw e refl
        | inr e ↦ rw e (f c x k d)
      ])
      (dead_at-member h ps bs),
)

dead_at-owner :
    (h : Heap) (p : Ptr) (qs : List Ptr) (c : Client) (x : Clock)
    → All (λ q. Plain (h.item_at q)) qs
    → All
        (λ q.
          (client : Client) (y : Clock)
          → Has (h.item_at p) client y
          → Has (h.item_at q) client y
          → p ≡ q)
        qs
    → Has (h.item_at p) c x
    → dead_at h qs c x ≡ true
    → deleted (h.item_at p) ≡ true
dead_at-owner h p [] c x b a k e = absurd (cc)
dead_at-owner h p (q ∷ qs) c x (b, bs) (a, more) k e =
    elim (Bool-cases (is_dead (h.item_at q) c x)) [
      | inl y ↦
          let (mine, d) = Has-is_dead (h.item_at q) c x b y in
          subst (λ r. deleted (h.item_at r) ≡ true) (sym (a c x k mine)) d
      | inr n ↦ dead_at-owner h p qs c x bs more k (rw n at e)
    ]

same_bool : (a b : Bool) → (b ≡ true → a ≡ true) → (a ≡ true → b ≡ true) → a ≡ b
same_bool true true f g = refl
same_bool true false f g = sym (g refl)
same_bool false true f g = f refl
same_bool false false f g = refl

-- A fact of all characters from the items.
chars_of-All :
    (P : SnapshotChar → Type 0) (it : Item) (i : ℕ) (units : List ℕ)
    → i + length units ≤ len it
    → ((j u : ℕ) → j < len it → P (char_at it j u))
    → All P (chars_of it i units)
chars_of-All P it i [] w f = tt
chars_of-All P it i (u ∷ units) w f =
    (f i u (omega arith), chars_of-All P it (suc i) units (omega arith) f)

All-join :
    (P : SnapshotChar → Type 0) (xs ys : List SnapshotChar) → All P xs → All P ys → All P (xs ++ ys)
All-join P [] ys a b = b
All-join P (x ∷ xs) ys (p, a) b = (p, All-join P xs ys a b)

chars-All :
    (P : SnapshotChar → Type 0) (h : Heap) (ps : List Ptr)
    → All (λ p. (j u : ℕ) → j < len (h.item_at p) → P (char_at (h.item_at p) j u)) ps
    → All P (chars h ps)
chars-All P h [] a = tt
chars-All P h (p ∷ ps) (f, a) =
    All-join P (chars_of (h.item_at p) 0 (h.item_at p).content) (chars h ps)
      (chars_of-All P (h.item_at p) 0 (h.item_at p).content (omega arith) f) (chars-All P h ps a)

nothing : (c : Client) (x : Clock) (b : Bool) → (deleted_contains empty_token c x || b) ≡ b
unfolding deleted_contains any_span
nothing c x b = refl

abbrev Reached : Heap → List Ptr → Ptr → Type 0
Reached h ps p =
    (h.item_at p).id.clock + len (h.item_at p)
    ≤ (noted h ps empty_token).state_vector (h.item_at p).id.client_id

abbrev Tombstoned : Heap → List Ptr → Ptr → Type 0
Tombstoned h ps p =
    (c : Client) (x : Clock)
    → Has (h.item_at p) c x
    → deleted (h.item_at p) ≡ true
    → dead_at h ps c x ≡ true

abbrev Alone : Heap → List Ptr → Ptr → Type 0
Alone h ps p =
    All
      (λ q.
        (client : Client) (y : Clock)
        → Has (h.item_at p) client y
        → Has (h.item_at q) client y
        → p ≡ q)
      ps

All-four :
    {A : Type 0} (P Q R S T : A → Type 0) (xs : List A)
    → ((x : A) → P x → Q x → R x → S x → T x)
    → All P xs
    → All Q xs
    → All R xs
    → All S xs
    → All T xs
All-four P Q R S T [] f p q r s = tt
All-four P Q R S T (x ∷ xs) f (p, ps) (q, qs) (r, rs) (s, ss) =
    (f x p q r s, All-four P Q R S T xs f ps qs rs ss)

Known-char :
    (h : Heap) (ps : List Ptr) (p : Ptr)
    → All (λ q. Plain (h.item_at q)) ps
    → Plain (h.item_at p)
    → Reached h ps p
    → Tombstoned h ps p
    → Alone h ps p
    → (j u : ℕ) → j < len (h.item_at p)
    → Known (noted h ps empty_token) (char_at (h.item_at p) j u)
Known-char h ps p bs b reach dead own j u w =
    let it = h.item_at p in
    let c = it.id.client_id in
    let e : add64 it.id.clock j ≡ it.id.clock + j = add64_lem it.id.clock j (omega arith) in
    let has : Has it c (add64 it.id.clock j) = (refl, omega (arith, e), omega (arith, e)) in
    let below : add64 it.id.clock j < (noted h ps empty_token).state_vector c =
      omega (arith, e, reach) in
    let here : deleted_contains (noted h ps empty_token) c (add64 it.id.clock j)
        ≡ dead_at h ps c (add64 it.id.clock j) =
      noted-dead h ps empty_token c (add64 it.id.clock j)
      ∙ nothing c (add64 it.id.clock j) (dead_at h ps c (add64 it.id.clock j)) in
    (
      lt→ltb _ _ below,
      here
          ∙ same_bool _ _ (dead c (add64 it.id.clock j) has)
              (dead_at-owner h p ps c (add64 it.id.clock j) bs own has),
    )

-- The token of a poll knows the characters of its list as they are.
pub noted-Known :
    (h : Heap) (ps : List Ptr)
    → All (λ p. Plain (h.item_at p)) ps
    → Separate h ps
    → All (Known (noted h ps empty_token)) (chars h ps)
noted-Known h ps b s = chars-All (Known (noted h ps empty_token)) h ps (
    All-four (λ p. Plain (h.item_at p)) (Reached h ps) (Tombstoned h ps) (Alone h ps) _ ps
      (λ p plain r d own. Known-char h ps p b plain r d own) b (noted-reaches h ps empty_token b)
      (dead_at-member h ps b) s)

pub noted-Behind :
    (h : Heap) (ps : List Ptr) (c : Client) (x : Clock)
    → All (λ p. Plain (h.item_at p)) ps
    → Behind h ps c x
    → ltb x ((noted h ps empty_token).state_vector c) ≡ false
noted-Behind h ps c x b f =
    let le = noted-stays h ps empty_token c x b f (omega arith) in ground (arith, le)
