-- ===== src/Update.antt =====
-- yjs/update.go: decoded updates.
use cert_yjs.Base.{ℕ, Option, List}
use cert_yjs.Ident.{Client, ItemId}

-- A Go string is a sequence of bytes.
abbrev pub GoString : Type 0
GoString = List ℕ

pub record UpdateItem : Type 0 where
  pub id : ItemId
  pub origin_left_id : Option ItemId
  pub origin_right_id : Option ItemId
  pub parent_name : Option GoString
  pub content : List ℕ

pub record DeleteSpan : Type 0 where
  pub client : Client
  pub clock : ℕ
  pub length : ℕ

-- The struct Update.
pub record DocUpdate : Type 0 where
  pub structs : List UpdateItem
  pub deletes : List DeleteSpan
