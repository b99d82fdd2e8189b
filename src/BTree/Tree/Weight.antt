-- ===== src/BTree/Tree/Weight.antt =====
-- internal/btree/btree.go: leaves that fit a block, and the blocks of leaves.
use gothinkdb.Prelude.{
  ℕ, zero, suc, ◌+◌, ◌-◌, ◌^◌, ◌≤◌, ◌<◌, ◌≡◌, ◌∙◌, refl, sym, ap, true, List, [], ◌∷◌, length, take,
  arith, length-append, length-take, subst,
}
use gothinkdb.Prelude.Result.{ok, ok_eq}
use gothinkdb.BTree.Bytes.{Bytes}
use gothinkdb.BTree.Leaf.{LeafNode}
use gothinkdb.BTree.Leaf.Laws.{IsLeaf}
use gothinkdb.BTree.Leaf.Weight.{weight}
use gothinkdb.BTree.Codec.{
  zeros, block_of, block_size, serialize_leaf, deserialize_leaf, put_u16, put_u32, put_chunk,
}
use gothinkdb.BTree.Codec.RoundTrip.{AllShort, Fits, leaf_bytes, pairs_bytes, serialize_leaf-bytes}
use gothinkdb.BTree.Codec.Block.{deserialize_leaf-block_of}
use gothinkdb.BTree.Tree.{is_leaf_block}

-- A well-formed leaf that fits a block.
pub record IsLeafPage (n : LeafNode) : Type 0 where
  pub formed : IsLeaf n
  pub right_short : n.right < 2 ^ 32
  pub fits : 7 + weight n.keys n.values ≤ block_size

length-put_chunk :
    (chunk rest : Bytes) → length (put_chunk chunk rest) ≡ 2 + length chunk + length rest
unfolding put_chunk put_u16
length-put_chunk chunk rest = omega (arith, length-append chunk rest)

length-pairs_bytes : (ks vs : List Bytes) → length (pairs_bytes ks vs []) ≡ weight ks vs
unfolding pairs_bytes weight
length-pairs_bytes [] vs = refl
length-pairs_bytes (k ∷ ks) [] = refl
length-pairs_bytes (k ∷ ks) (v ∷ vs) = omega (
  arith,
  length-put_chunk k (put_chunk v (pairs_bytes ks vs [])),
  length-put_chunk v (pairs_bytes ks vs []),
  length-pairs_bytes ks vs,
)

length-leaf_bytes : (n : LeafNode) → length (leaf_bytes n []) ≡ 7 + weight n.keys n.values
unfolding leaf_bytes put_u16 put_u32
length-leaf_bytes n = omega (arith, length-pairs_bytes n.keys n.values)

weight-AllShort :
    (ks vs : List Bytes) → length vs ≡ length ks → weight ks vs < 2 ^ 16 → AllShort ks × AllShort vs
unfolding weight
weight-AllShort [] [] e h = (tt, tt)
weight-AllShort [] (v ∷ vs) e h = absurd (omega arith)
weight-AllShort (k ∷ ks) [] e h = absurd (omega arith)
weight-AllShort (k ∷ ks) (v ∷ vs) e h =
    let (short_keys, short_values) = weight-AllShort ks vs (omega arith) (omega arith) in
    ((omega arith, short_keys), (omega arith, short_values))

IsLeafPage-Fits : (n : LeafNode) → IsLeafPage n → Fits n
IsLeafPage-Fits n p =
    let (short_keys, short_values) =
      weight-AllShort n.keys n.values p.formed.paired (omega (arith, p.fits)) in
    record {
      count = p.formed.counted;
      paired = p.formed.paired;
      keys_short = short_keys;
      values_short = short_values;
      count_short = omega (arith, p.formed.small);
      right_short = p.right_short;
    }

length-zeros : (n : ℕ) → length (zeros n) ≡ n
length-zeros zero = refl
length-zeros (suc n) = ap suc (length-zeros n)

pub length-block_of : (size : ℕ) (bytes : Bytes) → length (block_of size bytes) ≡ size
unfolding block_of
length-block_of size bytes = omega (
  arith,
  length-append (take size bytes) (zeros (size - length bytes)),
  length-take size bytes,
  length-zeros (size - length bytes),
)

-- A block that holds the leaf n under an id.
pub record IsLeafBlock (id : ℕ) (n : LeafNode) (b : Bytes) : Type 0 where
  pub kind : is_leaf_block b ≡ true
  pub read : deserialize_leaf id b ≡ ok n
  pub page : IsLeafPage n

leaf_bytes-is_leaf_block :
    (n : LeafNode) → is_leaf_block (block_of block_size (leaf_bytes n [])) ≡ true
unfolding is_leaf_block block_of leaf_bytes
leaf_bytes-is_leaf_block n = refl

-- What is written for a leaf is a block that holds it.
pub written_block :
    (n : LeafNode)
    → IsLeafPage n
    → (bytes : Bytes) × (serialize_leaf n ≡ ok bytes)
      × IsLeafBlock n.block_id n (block_of block_size bytes)
written_block n p =
    let f = IsLeafPage-Fits n p in
    let (bytes, written, read) =
      deserialize_leaf-block_of n f (omega (arith, length-leaf_bytes n, p.fits)) in
    let e : bytes ≡ leaf_bytes n [] = ok_eq (sym written ∙ serialize_leaf-bytes n f) in
    (
      bytes,
      written,
      record {
        kind =
            subst (λ d. is_leaf_block (block_of block_size d) ≡ true) (sym e)
              (leaf_bytes-is_leaf_block n);
        read = read;
        page = p;
      },
    )
