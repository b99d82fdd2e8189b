-- ===== src/BTree/Codec.antt =====
-- internal/btree/node.go: `Serialize`, `DeserializeLeaf` and `DeserializeInternal`, on byte lists;
-- internal/storage/block.go: `NewBlockFromData`.
pub mod Words
pub mod RoundTrip
pub mod InternalTrip
pub mod Block
use gothinkdb.Prelude.{
  ℕ, zero, suc, ◌+◌, ◌-◌, ◌*◌, ◌/◌, ◌%◌, ◌^◌, Bool, List, [], ◌∷◌, ◌++◌, ltb, ◌==◌, length, take,
  drop, if◌then◌else◌,
}
use gothinkdb.Prelude.Result.{Result, ok, err, panic, ◌>>=◌}
use gothinkdb.BTree.Bytes.{Bytes}
use gothinkdb.BTree.Leaf.{LeafNode, to_u16}
use gothinkdb.BTree.Internal.{InternalNode}

-- `binary.Write` of a `uint16` and of a `uint32`, little-endian.
unfoldable pub put_u16 : ℕ → Bytes → Bytes
put_u16 n rest = (n % 256) ∷ (n / 256 % 256) ∷ rest

unfoldable pub put_u32 : ℕ → Bytes → Bytes
put_u32 n rest =
    (n % 256) ∷ (n / 256 % 256) ∷ (n / 256 / 256 % 256) ∷ (n / 256 / 256 / 256 % 256) ∷ rest

-- `binary.Read`: where too few bytes are left they are used up, and the variable stays 0.
unfoldable pub get_u16 : Bytes → ℕ × Bytes
get_u16 [] = (0, [])
get_u16 (a ∷ []) = (0, [])
get_u16 (a ∷ (b ∷ rest)) = (a + 256 * b, rest)

unfoldable pub get_u32 : Bytes → ℕ × Bytes
get_u32 [] = (0, [])
get_u32 (a ∷ []) = (0, [])
get_u32 (a ∷ (b ∷ [])) = (0, [])
get_u32 (a ∷ (b ∷ (c ∷ []))) = (0, [])
get_u32 (a ∷ (b ∷ (c ∷ (d ∷ rest)))) = (a + 256 * (b + 256 * (c + 256 * d)), rest)

abbrev pub zeros : ℕ → Bytes
zeros zero = []
zeros (suc n) = 0 ∷ zeros n

-- `make([]byte, n); buf.Read(…)`: the part that is not read stays zero.
unfoldable pub get_bytes : ℕ → Bytes → Bytes × Bytes
get_bytes n bytes = (take n bytes ++ zeros (n - length bytes), drop n bytes)

-- A length in two bytes, then the bytes; the length is cut to a `uint16`, the bytes are not.
unfoldable pub put_chunk : Bytes → Bytes → Bytes
put_chunk chunk rest = put_u16 (to_u16 (length chunk)) (chunk ++ rest)

unfoldable pub get_chunk : Bytes → Bytes × Bytes
get_chunk bytes = let (n, rest) = get_u16 bytes in get_bytes n rest

-- The loop of `LeafNode.Serialize` over the first numKeys keys and values.
unfoldable pub put_pairs : ℕ → List Bytes → List Bytes → Result Bytes
put_pairs zero ks vs = ok []
put_pairs (suc n) [] vs = panic
put_pairs (suc n) (k ∷ ks) [] = panic
put_pairs (suc n) (k ∷ ks) (v ∷ vs) = do
  rest ← put_pairs n ks vs
  ok (put_chunk k (put_chunk v rest))

-- `LeafNode.Serialize`
unfoldable pub serialize_leaf : LeafNode → Result Bytes
serialize_leaf n = do
  pairs ← put_pairs n.num_keys n.keys n.values
  ok (1 ∷ put_u16 n.num_keys (put_u32 n.right pairs))

-- The loop of `DeserializeLeaf`.
unfoldable pub get_pairs : ℕ → Bytes → List Bytes × List Bytes
get_pairs zero bytes = ([], [])
get_pairs (suc n) bytes =
    let (k, after_key) = get_chunk bytes in
    let (v, rest) = get_chunk after_key in let (ks, vs) = get_pairs n rest in (k ∷ ks, v ∷ vs)

unfoldable pub leaf_body : ℕ → Bytes → LeafNode
leaf_body block_id bytes =
    let (num_keys, after_count) = get_u16 bytes in
    let (right, rest) = get_u32 after_count in
    let (keys, values) = get_pairs num_keys rest in
    record { block_id = block_id; num_keys = num_keys; keys = keys; values = values; right = right }

-- `DeserializeLeaf`
unfoldable pub deserialize_leaf : ℕ → Bytes → Result LeafNode
deserialize_leaf block_id [] = err
deserialize_leaf block_id (kind ∷ bytes) =
    if ltb (length bytes + 1) 7
    then err
    else if kind == 1
    then ok (leaf_body block_id bytes)
    else err

unfoldable pub put_children : List ℕ → Bytes → Bytes
put_children [] rest = rest
put_children (c ∷ cs) rest = put_u32 c (put_children cs rest)

unfoldable pub put_keys : List Bytes → Bytes
put_keys [] = []
put_keys (k ∷ ks) = put_chunk k (put_keys ks)

-- `InternalNode.Serialize`: all keys and children are written, whatever the count says.
unfoldable pub serialize_internal : InternalNode → Bytes
serialize_internal n =
    2
    ∷ put_u16 n.num_keys
        (put_u16 (to_u16 (length n.children)) (put_children n.children (put_keys n.keys)))

unfoldable pub get_children : ℕ → Bytes → List ℕ × Bytes
get_children zero bytes = ([], bytes)
get_children (suc n) bytes =
    let (c, after) = get_u32 bytes in let (cs, rest) = get_children n after in (c ∷ cs, rest)

unfoldable pub get_keys : ℕ → Bytes → List Bytes
get_keys zero bytes = []
get_keys (suc n) bytes = let (k, rest) = get_chunk bytes in k ∷ get_keys n rest

unfoldable pub internal_body : ℕ → Bytes → InternalNode
internal_body block_id bytes =
    let (num_keys, after_count) = get_u16 bytes in
    let (num_children, after_children) = get_u16 after_count in
    let (children, rest) = get_children num_children after_children in
    record {
      block_id = block_id;
      num_keys = num_keys;
      keys = get_keys num_keys rest;
      children = children;
    }

-- `DeserializeInternal`
unfoldable pub deserialize_internal : ℕ → Bytes → Result InternalNode
deserialize_internal block_id [] = err
deserialize_internal block_id (kind ∷ bytes) =
    if ltb (length bytes + 1) 7
    then err
    else if kind == 2
    then ok (internal_body block_id bytes)
    else err

abbrev pub block_size : ℕ
block_size = 4096

-- `NewBlockFromData`: the block holds the first bytes of the data, and zeros after them.
unfoldable pub block_of : ℕ → Bytes → Bytes
block_of size bytes = take size bytes ++ zeros (size - length bytes)
