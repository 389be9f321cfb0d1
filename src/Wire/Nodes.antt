-- ===== src/Wire/Nodes.antt =====
-- yjs/refs.go and encodeNode of yjs/codec.go: the entries of a struct store on the wire.
use cert_yjs.Base.{ℕ, Run, List, [], ◌∷◌}
use cert_yjs.Ident.{ItemId, Clock}
use cert_yjs.Item.{Item, len}
use cert_yjs.Heap.{Heap, alloc_item}
use cert_yjs.Update.{GoString}
use cert_yjs.Wire.{Encoder, write_u8, write_var_uint}
use cert_yjs.Wire.Decode.{node_tag_gc, node_tag_skip}
use cert_yjs.Wire.Encode.{encode_run}

pub record NodeLen : Type 0 where
  pub id : ItemId
  pub len : ℕ

pub data Node : Type 0 where
  gc_node : NodeLen → Node
  skip_node : NodeLen → Node
  item_node : Item → Node

unfoldable pub node_id : Node → ItemId
node_id (Node.gc_node n) = n.id
node_id (Node.skip_node n) = n.id
node_id (Node.item_node it) = it.id

unfoldable pub node_clock : Node → Clock
node_clock (Node.gc_node n) = n.id.clock
node_clock (Node.skip_node n) = n.id.clock
node_clock (Node.item_node it) = it.id.clock

unfoldable pub node_length : Node → ℕ
unfolding len
node_length (Node.gc_node n) = n.len
node_length (Node.skip_node n) = n.len
node_length (Node.item_node it) = len it

-- The item of a node is a copy, with an address of its own.
unfoldable pub encode_node :
    (encode_wire_string : List ℕ → GoString)
    → Heap
    → (name : ItemId → GoString) → Encoder
    → Node
    → Run Encoder
unfolding alloc_item encode_run write_u8 write_var_uint
encode_node encode_wire_string h name e (Node.item_node it) =
    let (p, h') = alloc_item h it in encode_run encode_wire_string h' name e (p ∷ [])
encode_node encode_wire_string h name e (Node.gc_node n) =
    write_var_uint (write_u8 e node_tag_gc) n.len
encode_node encode_wire_string h name e (Node.skip_node n) =
    write_var_uint (write_u8 e node_tag_skip) n.len
