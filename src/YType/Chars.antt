-- ===== src/YType/Chars.antt =====
-- The characters of a list of items, as Snapshot reads them.
use cert_yjs.Base.{
  ℕ, zero, suc, ◌≤◌, ◌<◌, ◌≡◌, refl, ap, sym, ◌∙◌, Bool-cases, inl, inr, Option, none, some, List,
  [], ◌∷◌, ◌++◌, add64, length, if◌then◌else◌, done, append-nil, append_assoc, arith,
}
use cert_yjs.Item.{Ptr, TypePtr, Item, deleted}
use cert_yjs.Heap.{Heap}
use cert_yjs.YType.{SnapshotChar, snapshot_item, snapshot_loop, snapshot}
use cert_yjs.YType.Chain.{Linked, IsList, visible}

-- The character of one unit of an item.
abbrev pub char_at : Item → ℕ → ℕ → SnapshotChar
char_at it i u = record {
  client = it.id.client_id;
  clock = add64 it.id.clock i;
  deleted = deleted it;
  unit = u;
}

abbrev pub chars_of : Item → ℕ → List ℕ → List SnapshotChar
chars_of it i [] = []
chars_of it i (u ∷ units) = char_at it i u ∷ chars_of it (suc i) units

abbrev pub chars : Heap → List Ptr → List SnapshotChar
chars h [] = []
chars h (p ∷ ps) = chars_of (h.item_at p) 0 (h.item_at p).content ++ chars h ps

-- The units that a reader sees of them.
abbrev pub live : List SnapshotChar → List ℕ
live [] = []
live (c ∷ cs) = (if c.deleted then [] else c.unit ∷ []) ++ live cs

pub live-append : (xs ys : List SnapshotChar) → live (xs ++ ys) ≡ live xs ++ live ys
live-append [] ys = refl
live-append (c ∷ xs) ys =
    ap (λ l. (if c.deleted then [] else c.unit ∷ []) ++ l) (live-append xs ys)
    ∙ sym (append_assoc (if c.deleted then [] else c.unit ∷ []) (live xs) (live ys))

live-chars_of :
    (it : Item) (i : ℕ) (units : List ℕ)
    → live (chars_of it i units) ≡ (if deleted it then [] else units)
live-chars_of it i [] = elim (Bool-cases (deleted it)) [ inl e ↦ rw e refl | inr e ↦ rw e refl ]
live-chars_of it i (u ∷ units) = elim (Bool-cases (deleted it)) [
  | inl e ↦ rw (live-chars_of it (suc i) units, e) refl
  | inr e ↦ rw (live-chars_of it (suc i) units, e) refl
]

pub live-chars : (h : Heap) (ps : List Ptr) → live (chars h ps) ≡ visible h ps
live-chars h [] = refl
live-chars h (p ∷ ps) =
    live-append (chars_of (h.item_at p) 0 (h.item_at p).content) (chars h ps)
    ∙ rw (live-chars_of (h.item_at p) 0 (h.item_at p).content, live-chars h ps) refl

pub length-live : (cs : List SnapshotChar) → length (live cs) ≤ length cs
length-live [] = omega arith
length-live (c ∷ cs) = elim (Bool-cases c.deleted) [
  | inl e ↦ rw e (let l = length-live cs in omega arith)
  | inr e ↦ rw e (let l = length-live cs in omega arith)
]

snapshot_item-chars_of :
    (it : Item) (i : ℕ) (units : List ℕ) (result : List SnapshotChar)
    → snapshot_item it i units result ≡ result ++ chars_of it i units
unfolding snapshot_item
snapshot_item-chars_of it i [] result = sym (append-nil result)
snapshot_item-chars_of it i (u ∷ units) result =
    snapshot_item-chars_of it (suc i) units (result ++ char_at it i u ∷ [])
    ∙ append_assoc result (char_at it i u ∷ []) (chars_of it (suc i) units)

snapshot_loop-chars :
    (k : ℕ) (h : Heap) (prev cur : Option Ptr) (ps : List Ptr) (result : List SnapshotChar)
    → Linked h prev cur ps
    → length ps < k
    → snapshot_loop k h cur result ≡ done (result ++ chars h ps)
unfolding snapshot_loop
snapshot_loop-chars zero h prev cur ps result l b = absurd (omega arith)
snapshot_loop-chars (suc k) h prev cur [] result l b = rw (l, append-nil) refl
snapshot_loop-chars (suc k) h prev cur (p ∷ ps) result (e, _, l) b = rw e (
    snapshot_loop-chars k h (some p) _ ps _ l (omega arith)
    ∙ ap (λ r. done (r ++ chars h ps))
        (snapshot_item-chars_of (h.item_at p) 0 (h.item_at p).content result)
    ∙ ap done (append_assoc result (chars_of (h.item_at p) 0 (h.item_at p).content) (chars h ps)))

-- Snapshot ends, and reads them.
pub snapshot-chars :
    (h : Heap) (t : TypePtr) (ps : List Ptr) → IsList h t ps → snapshot h t ≡ done (chars h ps)
unfolding snapshot
snapshot-chars h t ps l =
    snapshot_loop-chars (suc h.next_item) h none _ ps [] l.chain (omega (arith, l.fits))
