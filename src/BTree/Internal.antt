-- ===== src/BTree/Internal.antt =====
-- internal/btree/node.go: internal nodes.
pub mod Route
pub mod Halves
use gothinkdb.Prelude.{
  ℕ, ◌+◌, ◌-◌, ◌/◌, Bool, not, Option, List, [], ◌∷◌, ◌++◌, ltb, leb, length, get_elem?, take, drop,
  if◌then◌else◌,
}
use gothinkdb.Prelude.Result.{Result, ok, err, panic, ◌>>=◌, ◌>>◌, or_panic, require}
use gothinkdb.BTree.Bytes.{Bytes}
use gothinkdb.BTree.Search.{find_child}
use gothinkdb.BTree.Leaf.{insert_at, to_u16}

abbrev pub max_internal_keys : ℕ
max_internal_keys = 250

-- An `InternalNode` with its `Node`; the node type is the constant 2 of every internal node.
pub record InternalNode : Type 0 where
  pub block_id : ℕ
  pub num_keys : ℕ
  pub keys : List Bytes
  pub children : List ℕ

unfoldable pub new_internal_node : ℕ → InternalNode
new_internal_node block_id = record { block_id = block_id; num_keys = 0; keys = []; children = [] }

unfoldable pub is_full : InternalNode → Bool
is_full n = leb (max_internal_keys + 1) (length n.children)

-- `MinInternalKeys` is 125.
unfoldable pub is_underflow : InternalNode → Bool
is_underflow n = ltb (length n.children) (max_internal_keys / 2 + 1)

-- `FindChild`, and the child that the tree goes on to: `node.children[node.FindChild(key)]`.
unfoldable pub child_for : Bytes → InternalNode → Result ℕ
child_for key n = do pos ← find_child n.keys key; or_panic (get_elem? n.children pos)

-- `Insert`
unfoldable pub insert : Bytes → ℕ → InternalNode → Result InternalNode
insert key right_child n = do
  require (not (is_full n))
  pos ← find_child n.keys key
  keys ← insert_at pos key n.keys
  children ← insert_at (pos + 1) right_child n.children
  ok (record n { keys = keys; children = children; num_keys = to_u16 (n.num_keys + 1) })

-- `Split`: the left node, the right node and the promoted key. With fewer than two children
-- keys[mid-1] is out of range.
unfoldable pub split : ℕ → InternalNode → Result (InternalNode × InternalNode × Bytes)
split new_block_id n = do
  let mid = length n.children / 2
  promoted ← (if ltb 0 mid then or_panic (get_elem? n.keys (mid - 1)) else panic)
  ok (
    record n {
      keys = take (mid - 1) n.keys;
      children = take mid n.children;
      num_keys = to_u16 (length (take (mid - 1) n.keys));
    },
    record {
      block_id = new_block_id;
      num_keys = to_u16 (length (drop mid n.keys));
      keys = drop mid n.keys;
      children = drop mid n.children;
    },
    promoted,
  )
