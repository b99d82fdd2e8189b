-- ===== src/BTree/Tree/Inner.antt =====
-- internal/btree/btree.go: internal nodes that fit a block, and their blocks.
use gothinkdb.Prelude.{
  ℕ, ◌+◌, ◌*◌, ◌-◌, ◌^◌, ◌≤◌, ◌<◌, ◌≡◌, refl, false, List, [], ◌∷◌, length, arith, length-append,
  take_all,
}
use gothinkdb.Prelude.Result.{ok}
use gothinkdb.BTree.Bytes.{Bytes}
use gothinkdb.BTree.Internal.{InternalNode}
use gothinkdb.BTree.Internal.Route.{IsInternal}
use gothinkdb.BTree.Codec.{
  zeros, block_of, block_size, serialize_internal, deserialize_internal, put_children, put_keys,
  put_chunk, put_u16, put_u32,
}
use gothinkdb.BTree.Codec.RoundTrip.{AllShort}
use gothinkdb.BTree.Codec.InternalTrip.{AllIds, Fits, deserialize_internal-serialize_internal}
use gothinkdb.BTree.Tree.{is_leaf_block}

-- The bytes that keys take.
unfoldable pub key_weight : List Bytes → ℕ
key_weight [] = 0
key_weight (k ∷ ks) = 2 + length k + key_weight ks

-- A well-formed internal node that fits a block.
pub record IsInternalPage (n : InternalNode) : Type 0 where
  pub formed : IsInternal n
  pub ids : AllIds n.children
  pub fits : 5 + 4 * length n.children + key_weight n.keys ≤ block_size

-- A block that holds the internal node n under an id.
pub record IsInternalBlock (id : ℕ) (n : InternalNode) (b : Bytes) : Type 0 where
  pub kind : is_leaf_block b ≡ false
  pub read : deserialize_internal id b ≡ ok n
  pub formed : IsInternal n

length-put_children :
    (cs : List ℕ) (rest : Bytes) → length (put_children cs rest) ≡ 4 * length cs + length rest
unfolding put_children put_u32
length-put_children [] rest = omega arith
length-put_children (c ∷ cs) rest = omega (arith, length-put_children cs rest)

length-put_keys : (ks : List Bytes) → length (put_keys ks) ≡ key_weight ks
unfolding put_keys put_chunk put_u16 key_weight
length-put_keys [] = refl
length-put_keys (k ∷ ks) = omega (arith, length-append k (put_keys ks), length-put_keys ks)

length-serialize_internal :
    (n : InternalNode)
    → length (serialize_internal n) ≡ 5 + 4 * length n.children + key_weight n.keys
unfolding serialize_internal put_u16
length-serialize_internal n =
    omega (arith, length-put_children n.children (put_keys n.keys), length-put_keys n.keys)

key_weight-AllShort : (ks : List Bytes) → key_weight ks < 2 ^ 16 → AllShort ks
unfolding key_weight
key_weight-AllShort [] h = tt
key_weight-AllShort (k ∷ ks) h = (omega arith, key_weight-AllShort ks (omega arith))

IsInternalPage-Fits : (n : InternalNode) → IsInternalPage n → Fits n
IsInternalPage-Fits n p = record {
  count = p.formed.counted;
  keys_short = key_weight-AllShort n.keys (omega (arith, p.fits));
  ids = p.ids;
  count_short = omega (arith, p.formed.small, p.formed.fanout);
  children_short = omega (arith, p.formed.small);
  children_some = omega (arith, p.formed.fanout);
}

internal_kind :
    (n : InternalNode) → is_leaf_block (block_of block_size (serialize_internal n)) ≡ false
unfolding is_leaf_block block_of serialize_internal
internal_kind n = refl

internal_read :
    (n : InternalNode)
    → IsInternalPage n
    → deserialize_internal n.block_id (block_of block_size (serialize_internal n)) ≡ ok n
unfolding block_of
internal_read n p =
    rw
      (take_all block_size (serialize_internal n)
        (omega (arith, length-serialize_internal n, p.fits)))
      (deserialize_internal-serialize_internal n
        (zeros (block_size - length (serialize_internal n))) (IsInternalPage-Fits n p))

-- What is written for an internal node is a block that holds it.
pub written-IsInternalBlock :
    (n : InternalNode)
    → IsInternalPage n
    → IsInternalBlock n.block_id n (block_of block_size (serialize_internal n))
written-IsInternalBlock n p = record {
  kind = internal_kind n;
  read = internal_read n p;
  formed = p.formed;
}
