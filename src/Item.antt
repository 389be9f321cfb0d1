-- ===== src/Item.antt =====
-- yjs/item.go and yjs/content.go: items, the runs of code units that a text is made of.
use cert_yjs.Base.{ℕ, Bool, Option, none, List, ◌&&◌, ◌==◌, not, bit_and, add64, sub64, length}
use cert_yjs.Ident.{ItemId}

-- Addresses of items and of types. A nil pointer is `none`.
abbrev pub Ptr : Type 0
Ptr = ℕ

abbrev pub TypePtr : Type 0
TypePtr = ℕ

abbrev pub Flags : Type 0
Flags = ℕ

abbrev pub item_keep : Flags
item_keep = 0x01

abbrev pub item_countable : Flags
item_countable = 0x02

abbrev pub item_deleted : Flags
item_deleted = 0x04

-- The struct `content` has one field, the code units, which stands here by itself.
abbrev pub Content : Type 0
Content = List ℕ

-- content.Len
abbrev pub content_len : Content → ℕ
content_len = length

pub record Item : Type 0 where
  pub id : ItemId
  pub origin_left_id : Option ItemId
  pub origin_right_id : Option ItemId
  pub left : Option Ptr
  pub right : Option Ptr
  pub parent : Option TypePtr
  pub content : Content
  pub flags : Flags

unfoldable pub new_item : ItemId → List ℕ → Option ItemId → Option ItemId → Item
new_item id units origin_left_id origin_right_id = record {
  id = id;
  origin_left_id = origin_left_id;
  origin_right_id = origin_right_id;
  left = none;
  right = none;
  parent = none;
  content = units;
  flags = item_countable;
}

abbrev pub len : Item → ℕ
len i = content_len i.content

unfoldable pub last_id : Item → ItemId
last_id i = record { client_id = i.id.client_id; clock = sub64 (add64 i.id.clock (len i)) 1 }

unfoldable pub deleted : Item → Bool
deleted i = not (bit_and i.flags item_deleted == 0)

unfoldable pub countable : Item → Bool
countable i = not (bit_and i.flags item_countable == 0)

unfoldable pub indexable : Item → Bool
unfolding countable deleted
indexable i = countable i && not (deleted i)
