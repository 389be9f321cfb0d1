-- ===== src/Wire/Tombstones.antt =====
-- generateDeleteSet: the set holds exactly the ids of the tombstones.
use cert_yjs.Base.{
  ◌+◌, ◌<◌, ◌≡◌, refl, ap, sym, ◌∙◌, ◌||◌, Bool, true, false, List, [], ◌∷◌, All, u64_mod,
  if◌then◌else◌, Bool-cases, inl, inr, done,
}
use cert_yjs.Ident.{Client, ItemId}
use cert_yjs.Span.{DeletedSet, contains}
use cert_yjs.Span.Laws.{in_range, contains-add_range}
use cert_yjs.Item.{Ptr, TypePtr, Item, len, deleted}
use cert_yjs.Heap.{Heap}
use cert_yjs.Update.{GoString}
use cert_yjs.Store.{Store}
use cert_yjs.Wire.EncodeUpdate.{generate_delete_set}
use cert_yjs.Wire.Gather.{
  Lists, delete_item, delete_items, delete_roots, no_deletes, generate_delete_set_lem,
}

-- Whether an id is one of a tombstone's units, in a list and in the lists of some types.
abbrev pub is_dead : Item → ItemId → Bool
is_dead it i = if deleted it then in_range it.id (len it) i else false

abbrev pub dead_in : Heap → List Ptr → ItemId → Bool
dead_in h [] i = false
dead_in h (p ∷ ps) i = is_dead (h.item_at p) i || dead_in h ps i

abbrev pub dead_among : Heap → (TypePtr → List Ptr) → List (GoString × TypePtr) → ItemId → Bool
dead_among h list_of [] i = false
dead_among h list_of ((nm, y) ∷ types) i = dead_in h (list_of y) i || dead_among h list_of types i

-- The clocks of an item do not wrap.
abbrev pub Unwrapped : Heap → Ptr → Type 0
Unwrapped h p = (h.item_at p).id.clock + len (h.item_at p) < u64_mod

or_assoc : (a b c : Bool) → ((a || b) || c) ≡ (a || (b || c))
or_assoc true b c = refl
or_assoc false b c = refl

or_false : (a : Bool) → (a || false) ≡ a
or_false true = refl
or_false false = refl

contains-delete_item :
    (h : Heap) (p : Ptr) (acc : List Client × DeletedSet) (i : ItemId)
    → Unwrapped h p
    → contains (delete_item h p acc).1 i ≡ (contains acc.1 i || is_dead (h.item_at p) i)
contains-delete_item h p (keys, ds) i b =
    let it = h.item_at p in
    elim (Bool-cases (deleted it)) [
      | inl e ↦ rw e (contains-add_range ds it.id (len it) i b)
      | inr e ↦ rw e (sym (or_false (contains ds i)))
    ]

contains-delete_items :
    (h : Heap) (ps : List Ptr) (acc : List Client × DeletedSet) (i : ItemId)
    → All (Unwrapped h) ps
    → contains (delete_items h ps acc).1 i ≡ (contains acc.1 i || dead_in h ps i)
contains-delete_items h [] acc i a = sym (or_false (contains acc.1 i))
contains-delete_items h (p ∷ ps) acc i (b, a) =
    contains-delete_items h ps (delete_item h p acc) i a
    ∙ ap (λ x. x || dead_in h ps i) (contains-delete_item h p acc i b)
    ∙ or_assoc (contains acc.1 i) (is_dead (h.item_at p) i) (dead_in h ps i)

contains-delete_roots :
    (h : Heap) (list_of : TypePtr → List Ptr) (types : List (GoString × TypePtr))
    (acc : List Client × DeletedSet) (i : ItemId)
    → All (λ e. All (Unwrapped h) (list_of e.1)) types
    → contains (delete_roots h list_of types acc).1 i
      ≡ (contains acc.1 i || dead_among h list_of types i)
contains-delete_roots h list_of [] acc i a = sym (or_false (contains acc.1 i))
contains-delete_roots h list_of ((nm, y) ∷ types) acc i (b, a) =
    contains-delete_roots h list_of types (delete_items h (list_of y) acc) i a
    ∙ ap (λ x. x || dead_among h list_of types i) (contains-delete_items h (list_of y) acc i b)
    ∙ or_assoc (contains acc.1 i) (dead_in h (list_of y) i) (dead_among h list_of types i)

-- Where the root types are linked lists no longer than memory and no item's clocks wrap,
-- generateDeleteSet ends, and its set holds an id exactly where a tombstone of one of the lists has it.
pub generate_delete_set-tombstones :
    (s : Store) (list_of : TypePtr → List Ptr)
    → Lists s.heap list_of s.types
    → All (λ e. All (Unwrapped s.heap) (list_of e.1)) s.types
    → (keys : List Client) × (ds : DeletedSet) × (generate_delete_set s ≡ done (keys, ds))
      × ((i : ItemId) → contains ds i ≡ dead_among s.heap list_of s.types i)
generate_delete_set-tombstones s list_of l b =
    let found = delete_roots s.heap list_of s.types no_deletes in
    (
      found.0,
      found.1,
      generate_delete_set_lem s list_of l,
      λ i. contains-delete_roots s.heap list_of s.types no_deletes i b ∙ (unfold contains in refl),
    )
