-- ===== src/BTree/Codec/RoundTrip.antt =====
-- internal/btree/node.go: leaves, written and read back.
use mathlib.Core.List.{append_assoc}
use gothinkdb.Prelude.{
  ℕ, suc, ◌+◌, ◌^◌, ◌<◌, ◌≡◌, ◌∙◌, refl, ap, sym, List, [], ◌∷◌, ◌++◌, length, arith, ge→ltb,
}
use gothinkdb.Prelude.Result.{ok}
use gothinkdb.BTree.Bytes.{Bytes}
use gothinkdb.BTree.Leaf.{LeafNode}
use gothinkdb.BTree.Codec.{
  put_u16, put_u32, put_chunk, put_pairs, get_pairs, serialize_leaf, leaf_body, deserialize_leaf,
}
use gothinkdb.BTree.Codec.Words.{get_u16-put_u16, get_u32-put_u32, get_chunk-put_chunk}

-- Each length fits in two bytes.
abbrev pub AllShort : List Bytes → Type 0
AllShort [] = Unit {0}
AllShort (k ∷ ks) = (length k < 2 ^ 16) × AllShort ks

-- What the format can hold.
pub record Fits (n : LeafNode) : Type 0 where
  pub count : n.num_keys ≡ length n.keys
  pub paired : length n.values ≡ length n.keys
  pub keys_short : AllShort n.keys
  pub values_short : AllShort n.values
  pub count_short : length n.keys < 2 ^ 16
  pub right_short : n.right < 2 ^ 32

-- The bytes of the pairs, without the panic.
unfoldable pub pairs_bytes : List Bytes → List Bytes → Bytes → Bytes
pairs_bytes [] vs rest = rest
pairs_bytes (k ∷ ks) [] rest = rest
pairs_bytes (k ∷ ks) (v ∷ vs) rest = put_chunk k (put_chunk v (pairs_bytes ks vs rest))

put_pairs-bytes :
    (ks vs : List Bytes)
    → length vs ≡ length ks
    → put_pairs (length ks) ks vs ≡ ok (pairs_bytes ks vs [])
unfolding put_pairs pairs_bytes
put_pairs-bytes [] vs e = refl
put_pairs-bytes (k ∷ ks) [] e = absurd (omega arith)
put_pairs-bytes (k ∷ ks) (v ∷ vs) e = rw (put_pairs-bytes ks vs (omega arith))

pub put_chunk-append :
    (chunk a rest : Bytes) → put_chunk chunk a ++ rest ≡ put_chunk chunk (a ++ rest)
unfolding put_chunk put_u16
put_chunk-append chunk a rest = rw append_assoc

pairs_bytes-append :
    (ks vs : List Bytes) (rest : Bytes) → pairs_bytes ks vs [] ++ rest ≡ pairs_bytes ks vs rest
unfolding pairs_bytes
pairs_bytes-append [] vs rest = refl
pairs_bytes-append (k ∷ ks) [] rest = refl
pairs_bytes-append (k ∷ ks) (v ∷ vs) rest =
    put_chunk-append k _ rest
    ∙ ap (put_chunk k)
        (put_chunk-append v _ rest ∙ ap (put_chunk v) (pairs_bytes-append ks vs rest))

get_pairs-bytes :
    (ks vs : List Bytes) (rest : Bytes)
    → length vs ≡ length ks
    → AllShort ks
    → AllShort vs
    → get_pairs (length ks) (pairs_bytes ks vs rest) ≡ (ks, vs)
unfolding get_pairs pairs_bytes
get_pairs-bytes [] [] rest e h k = refl
get_pairs-bytes [] (v ∷ vs) rest e h k = absurd (omega arith)
get_pairs-bytes (x ∷ ks) [] rest e h k = absurd (omega arith)
get_pairs-bytes (x ∷ ks) (v ∷ vs) rest e h k = rw (
  get_chunk-put_chunk x (put_chunk v (pairs_bytes ks vs rest)) h.0,
  get_chunk-put_chunk v (pairs_bytes ks vs rest) k.0,
  get_pairs-bytes ks vs rest (omega arith) h.1 k.1,
)

-- All bytes of a leaf.
unfoldable pub leaf_bytes : LeafNode → Bytes → Bytes
leaf_bytes n rest = 1 ∷ put_u16 (length n.keys) (put_u32 n.right (pairs_bytes n.keys n.values rest))

leaf_bytes-append : (n : LeafNode) (rest : Bytes) → leaf_bytes n [] ++ rest ≡ leaf_bytes n rest
unfolding leaf_bytes put_u16 put_u32
leaf_bytes-append n rest = rw (pairs_bytes-append n.keys n.values rest)

pub serialize_leaf-bytes : (n : LeafNode) → Fits n → serialize_leaf n ≡ ok (leaf_bytes n [])
unfolding serialize_leaf leaf_bytes
serialize_leaf-bytes n f = rw (f.count, put_pairs-bytes n.keys n.values f.paired)

leaf_body-bytes :
    (n : LeafNode) (rest : Bytes)
    → Fits n
    → leaf_body n.block_id
        (put_u16 (length n.keys) (put_u32 n.right (pairs_bytes n.keys n.values rest)))
      ≡ record n { num_keys = length n.keys }
unfolding leaf_body
leaf_body-bytes n rest f = rw (
  get_u16-put_u16 (length n.keys) (put_u32 n.right (pairs_bytes n.keys n.values rest))
      f.count_short,
  get_u32-put_u32 n.right (pairs_bytes n.keys n.values rest) f.right_short,
  get_pairs-bytes n.keys n.values rest f.paired f.keys_short f.values_short,
)

deserialize_leaf-body :
    (id n right : ℕ) (rest : Bytes)
    → deserialize_leaf id (1 ∷ put_u16 n (put_u32 right rest))
      ≡ ok (leaf_body id (put_u16 n (put_u32 right rest)))
unfolding deserialize_leaf put_u16 put_u32
deserialize_leaf-body id n right rest =
    rw (ge→ltb (suc (suc (suc (suc (suc (suc (length rest)))))) + 1) 7 (omega arith))

-- Reading back what stands in front of any bytes.
pub deserialize_leaf-bytes :
    (n : LeafNode) (rest : Bytes)
    → Fits n
    → deserialize_leaf n.block_id (leaf_bytes n [] ++ rest) ≡ ok n
unfolding leaf_bytes
deserialize_leaf-bytes n rest f =
    ap (deserialize_leaf n.block_id) (leaf_bytes-append n rest)
    ∙ deserialize_leaf-body n.block_id (length n.keys) n.right (pairs_bytes n.keys n.values rest)
    ∙ ap ok (leaf_body-bytes n rest f)
    ∙ ap (λ c. ok (record n { num_keys = c })) (sym f.count)

-- A leaf that fits the format is written without a panic, and whatever bytes follow, such as the
-- zeros of a block, reading gives back its count, keys, values and right sibling, under the id that
-- the reader names.
pub deserialize_leaf-serialize_leaf :
    (n : LeafNode) (rest : Bytes)
    → Fits n
    → (bytes : Bytes) × (serialize_leaf n ≡ ok bytes)
      × (deserialize_leaf n.block_id (bytes ++ rest) ≡ ok n)
deserialize_leaf-serialize_leaf n rest f =
    (leaf_bytes n [], serialize_leaf-bytes n f, deserialize_leaf-bytes n rest f)
