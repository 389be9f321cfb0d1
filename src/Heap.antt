-- ===== src/Heap.antt =====
-- The memory that the document's pointers reach: items and root types at addresses.
-- A pointer that is not nil is always valid in Go, so a read of an address always answers; what
-- can fail is a read through nil.
use cert_yjs.Base.{ℕ, suc, Option, none, some, ◌==◌, if◌then◌else◌}
use cert_yjs.Item.{Ptr, TypePtr, Item}

-- yType, from yjs/ytype.go.
pub record YType : Type 0 where
  pub start : Option Ptr
  pub len : ℕ

-- Addresses from `next_item` and `next_type` on are unused.
pub record Heap : Type 0 where
  pub item_at : Ptr → Item
  pub next_item : ℕ
  pub type_at : TypePtr → YType
  pub next_type : ℕ

unfoldable pub write_item : Heap → Ptr → Item → Heap
write_item h p it = record h { item_at = λ q. if q == p then it else h.item_at q }

unfoldable pub write_type : Heap → TypePtr → YType → Heap
write_type h t y = record h { type_at = λ u. if u == t then y else h.type_at u }

-- `&item{...}`
unfoldable pub alloc_item : Heap → Item → Ptr × Heap
alloc_item h it = (
  h.next_item,
  record h {
    item_at = λ q. if q == h.next_item then it else h.item_at q;
    next_item = suc h.next_item;
  },
)

unfoldable pub alloc_type : Heap → YType → TypePtr × Heap
alloc_type h y = (
  h.next_type,
  record h {
    type_at = λ u. if u == h.next_type then y else h.type_at u;
    next_type = suc h.next_type;
  },
)

-- `p.left = v` and `p.right = v`, and the same under `if p != nil`.
unfoldable pub set_left : Heap → Ptr → Option Ptr → Heap
unfolding write_item
set_left h p v = write_item h p (record (h.item_at p) { left = v })

unfoldable pub set_right : Heap → Ptr → Option Ptr → Heap
unfolding write_item
set_right h p v = write_item h p (record (h.item_at p) { right = v })

unfoldable pub set_left? : Heap → Option Ptr → Option Ptr → Heap
unfolding set_left
set_left? h none v = h
set_left? h (some p) v = set_left h p v
