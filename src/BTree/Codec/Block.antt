-- ===== src/BTree/Codec/Block.antt =====
-- A node in a block of fixed size.
use gothinkdb.Prelude.{
  ℕ, ◌+◌, ◌-◌, ◌%◌, ◌^◌, ◌≤◌, ◌≡◌, ◌/◌, [], ◌∷◌, ◌++◌, length, arith, length-append, take, take_all,
  take_within,
}
use mathlib.Core.List.{append_assoc, append-nil}
use gothinkdb.Prelude.Result.{ok}
use gothinkdb.BTree.Bytes.{Bytes}
use gothinkdb.BTree.Leaf.{LeafNode}
use gothinkdb.BTree.Codec.{
  zeros, block_of, block_size, deserialize_leaf, serialize_leaf, put_u16, put_u32, put_chunk,
  put_pairs,
}
use gothinkdb.BTree.Codec.RoundTrip.{Fits, leaf_bytes, deserialize_leaf-bytes, serialize_leaf-bytes}

-- A leaf whose bytes fit the block is read back from the block as it was.
pub deserialize_leaf-block_of :
    (n : LeafNode)
    → Fits n
    → length (leaf_bytes n []) ≤ block_size
    → (bytes : Bytes) × (serialize_leaf n ≡ ok bytes)
      × (deserialize_leaf n.block_id (block_of block_size bytes) ≡ ok n)
unfolding block_of
deserialize_leaf-block_of n f h = (
  leaf_bytes n [],
  serialize_leaf-bytes n f,
  rw (take_all block_size (leaf_bytes n []) h)
      (deserialize_leaf-bytes n (zeros (block_size - length (leaf_bytes n []))) f),
)

-- Data that agree up to the size of the block give one block.
block_of-past :
    (size : ℕ) (front xs ys : Bytes)
    → size ≤ length front
    → block_of size (front ++ xs) ≡ block_of size (front ++ ys)
unfolding block_of
block_of-past size front xs ys h =
    let over : size - length (front ++ xs) ≡ 0 = omega (arith, length-append front xs) in
    let over' : size - length (front ++ ys) ≡ 0 = omega (arith, length-append front ys) in
    rw (take_within size front xs h, take_within size front ys h, over, over')

block_of-front :
    (size : ℕ) (front xs : Bytes)
    → size ≤ length front
    → block_of size (front ++ xs) ≡ take size (front ++ xs)
unfolding block_of
block_of-front size front xs h =
    let over : size - length (front ++ xs) ≡ 0 = omega (arith, length-append front xs) in
    rw (over, append-nil)

-- A leaf of one pair.
abbrev pub leaf_of : ℕ → Bytes → Bytes → LeafNode
leaf_of id key value = record {
  block_id = id;
  num_keys = 1;
  keys = key ∷ [];
  values = value ∷ [];
  right = 0;
}

-- The bytes of a leaf of one pair, up to the last byte of the value.
front_of : Bytes → Bytes → Bytes
front_of key value =
    1 ∷ put_u16 1 (put_u32 0 (put_chunk key (put_u16 ((length value + 1) % 2 ^ 16) value)))

serialize_leaf-front :
    (id : ℕ) (key value : Bytes) (last : ℕ)
    → serialize_leaf (leaf_of id key (value ++ last ∷ [])) ≡ ok (front_of key value ++ last ∷ [])
unfolding serialize_leaf front_of put_pairs put_chunk put_u16 put_u32
serialize_leaf-front id key value last =
    let e : length (value ++ last ∷ []) ≡ length value + 1 =
      omega (arith, length-append value (last ∷ [])) in
    rw (e, append-nil, append_assoc)

length-front_of : (key value : Bytes) → length (front_of key value) ≡ 11 + length key + length value
unfolding front_of put_chunk put_u16 put_u32
length-front_of key value = omega (
  arith,
  length-append key
      (((length value + 1) % 2 ^ 16 % 256) ∷ ((length value + 1) % 2 ^ 16 / 256 % 256) ∷ value),
)

-- Of a leaf of one pair whose key and value together take more than the block has room for,
-- `Serialize` makes bytes without an error, whatever the last byte of the value is. The block that
-- is stored is the first bytes of those, and two leaves that differ in that last byte are stored as
-- one block.
pub oversized_value_lost :
    (id : ℕ) (key value : Bytes) (a b : ℕ)
    → block_size ≤ 11 + length key + length value
    → (xs : Bytes) × (ys : Bytes) × (serialize_leaf (leaf_of id key (value ++ a ∷ [])) ≡ ok xs)
      × (serialize_leaf (leaf_of id key (value ++ b ∷ [])) ≡ ok ys)
      × (block_of block_size xs ≡ take block_size xs)
      × (block_of block_size xs ≡ block_of block_size ys)
oversized_value_lost id key value a b h =
    let long : block_size ≤ length (front_of key value) =
      omega (arith, length-front_of key value) in
    (
      front_of key value ++ a ∷ [],
      front_of key value ++ b ∷ [],
      serialize_leaf-front id key value a,
      serialize_leaf-front id key value b,
      block_of-front block_size (front_of key value) (a ∷ []) long,
      block_of-past block_size (front_of key value) (a ∷ []) (b ∷ []) long,
    )
