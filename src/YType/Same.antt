-- ===== src/YType/Same.antt =====
-- Memories that agree on everything but the links.
use cert_yjs.Base.{
  ◌≡◌, refl, ap, ◌∙◌, true, Option, none, some, List, [], ◌∷◌, ◌++◌, arith, All, append_assoc,
}
use cert_yjs.Ident.{ItemId}
use cert_yjs.Item.{Ptr, TypePtr, Item, Content, Flags, deleted, countable}
use cert_yjs.Heap.{Heap, YType, write_item, write_type, set_left, set_left?, set_right}
use cert_yjs.YType.Chain.{visible, live_units}

-- What an item is apart from its links.
pub record ItemData : Type 0 where
  pub id : ItemId
  pub origin_left_id : Option ItemId
  pub origin_right_id : Option ItemId
  pub parent : Option TypePtr
  pub content : Content
  pub flags : Flags

abbrev pub data_of : Item → ItemData
data_of it = record {
  id = it.id;
  origin_left_id = it.origin_left_id;
  origin_right_id = it.origin_right_id;
  parent = it.parent;
  content = it.content;
  flags = it.flags;
}

abbrev pub SameData : Heap → Heap → Type 0
SameData h g = (p : Ptr) → data_of (g.item_at p) ≡ data_of (h.item_at p)

pub SameData-trans : (f g h : Heap) → SameData f g → SameData g h → SameData f h
SameData-trans f g h a b p = b p ∙ a p

pub set_left-SameData : (h : Heap) (q : Ptr) (v : Option Ptr) → SameData h (set_left h q v)
unfolding set_left write_item
set_left-SameData h q v p = ground arith

pub set_right-SameData : (h : Heap) (q : Ptr) (v : Option Ptr) → SameData h (set_right h q v)
unfolding set_right write_item
set_right-SameData h q v p = ground arith

pub set_left?-SameData : (h : Heap) (q v : Option Ptr) → SameData h (set_left? h q v)
unfolding set_left?
set_left?-SameData h none v p = refl
set_left?-SameData h (some q) v p = set_left-SameData h q v p

pub write_type-SameData : (h : Heap) (t : TypePtr) (y : YType) → SameData h (write_type h t y)
unfolding write_type
write_type-SameData h t y p = refl

live_units-data : (a b : Item) → data_of a ≡ data_of b → live_units a ≡ live_units b
unfolding deleted
live_units-data a b e =
    let f : a.flags ≡ b.flags = ap (λ (d : ItemData). d.flags) e in
    let c : a.content ≡ b.content = ap (λ (d : ItemData). d.content) e in rw (f, c)

-- The text of a list of items does not depend on the links.
pub visible-SameData :
    (h g : Heap) (ps : List Ptr)
    → All (λ p. data_of (g.item_at p) ≡ data_of (h.item_at p)) ps
    → visible g ps ≡ visible h ps
visible-SameData h g [] s = refl
visible-SameData h g (p ∷ ps) (e, s) =
    rw (live_units-data (g.item_at p) (h.item_at p) e, visible-SameData h g ps s)

pub All-every : (P : Ptr → Type 0) (ps : List Ptr) → ((p : Ptr) → P p) → All P ps
All-every P [] f = tt
All-every P (p ∷ ps) f = (f p, All-every P ps f)

pub visible-append :
    (h : Heap) (xs ys : List Ptr) → visible h (xs ++ ys) ≡ visible h xs ++ visible h ys
visible-append h [] ys = refl
visible-append h (x ∷ xs) ys = rw (visible-append h xs ys, append_assoc)

pub live_units-SameData :
    (h g : Heap) (p : Ptr)
    → data_of (g.item_at p) ≡ data_of (h.item_at p)
    → live_units (g.item_at p) ≡ live_units (h.item_at p)
live_units-SameData h g p e = live_units-data (g.item_at p) (h.item_at p) e

pub countable-data : (a b : Item) → data_of a ≡ data_of b → countable a ≡ countable b
unfolding countable
countable-data a b e = let f : a.flags ≡ b.flags = ap (λ (d : ItemData). d.flags) e in rw f

pub deleted-data : (a b : Item) → data_of a ≡ data_of b → deleted a ≡ deleted b
unfolding deleted
deleted-data a b e = let f : a.flags ≡ b.flags = ap (λ (d : ItemData). d.flags) e in rw f

pub content-data : (a b : Item) → data_of a ≡ data_of b → a.content ≡ b.content
content-data a b e = ap (λ (d : ItemData). d.content) e

pub countable-SameData :
    (h g : Heap) (ps : List Ptr)
    → SameData h g
    → All (λ p. countable (h.item_at p) ≡ true) ps
    → All (λ p. countable (g.item_at p) ≡ true) ps
countable-SameData h g [] s c = tt
countable-SameData h g (p ∷ ps) s (e, c) =
    (countable-data (g.item_at p) (h.item_at p) (s p) ∙ e, countable-SameData h g ps s c)
