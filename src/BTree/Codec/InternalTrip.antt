-- ===== src/BTree/Codec/InternalTrip.antt =====
-- internal/btree/node.go: internal nodes, written and read back.
use gothinkdb.Prelude.{
  ℕ, suc, ◌+◌, ◌^◌, ◌<◌, ◌≡◌, ◌∙◌, refl, ap, sym, List, [], ◌∷◌, ◌++◌, length, arith, ge→ltb,
}
use gothinkdb.Prelude.Result.{ok}
use gothinkdb.BTree.Bytes.{Bytes}
use gothinkdb.BTree.Leaf.{to_u16}
use gothinkdb.BTree.Internal.{InternalNode}
use gothinkdb.BTree.Codec.{
  put_u16, put_u32, put_chunk, put_children, put_keys, get_children, get_keys, serialize_internal,
  internal_body, deserialize_internal,
}
use gothinkdb.BTree.Codec.Words.{get_u16-put_u16, get_u32-put_u32, get_chunk-put_chunk}
use gothinkdb.BTree.Codec.RoundTrip.{AllShort, put_chunk-append}

-- Each id fits in four bytes.
abbrev pub AllIds : List ℕ → Type 0
AllIds [] = Unit {0}
AllIds (c ∷ cs) = (c < 2 ^ 32) × AllIds cs

-- What the format can hold.
pub record Fits (n : InternalNode) : Type 0 where
  pub count : n.num_keys ≡ length n.keys
  pub keys_short : AllShort n.keys
  pub ids : AllIds n.children
  pub count_short : length n.keys < 2 ^ 16
  pub children_short : length n.children < 2 ^ 16
  pub children_some : 0 < length n.children

-- The bytes of the keys, before any others.
keys_bytes : List Bytes → Bytes → Bytes
keys_bytes [] rest = rest
keys_bytes (k ∷ ks) rest = put_chunk k (keys_bytes ks rest)

put_keys-append : (ks : List Bytes) (rest : Bytes) → put_keys ks ++ rest ≡ keys_bytes ks rest
unfolding put_keys keys_bytes
put_keys-append [] rest = refl
put_keys-append (k ∷ ks) rest =
    put_chunk-append k _ rest ∙ ap (put_chunk k) (put_keys-append ks rest)

put_children-append :
    (cs : List ℕ) (a rest : Bytes) → put_children cs a ++ rest ≡ put_children cs (a ++ rest)
unfolding put_children put_u32
put_children-append [] a rest = refl
put_children-append (c ∷ cs) a rest = rw (put_children-append cs a rest)

get_keys-bytes :
    (ks : List Bytes) (rest : Bytes) → AllShort ks → get_keys (length ks) (keys_bytes ks rest) ≡ ks
unfolding get_keys keys_bytes
get_keys-bytes [] rest h = refl
get_keys-bytes (k ∷ ks) rest h =
    rw (get_chunk-put_chunk k (keys_bytes ks rest) h.0, get_keys-bytes ks rest h.1)

get_children-put_children :
    (cs : List ℕ) (rest : Bytes)
    → AllIds cs
    → get_children (length cs) (put_children cs rest) ≡ (cs, rest)
unfolding get_children put_children
get_children-put_children [] rest h = refl
get_children-put_children (c ∷ cs) rest h =
    rw (get_u32-put_u32 c (put_children cs rest) h.0, get_children-put_children cs rest h.1)

internal_body-bytes :
    (n : InternalNode) (rest : Bytes)
    → Fits n
    → internal_body n.block_id (
        put_u16
          (length n.keys)
          (put_u16 (length n.children) (put_children n.children (keys_bytes n.keys rest))))
      ≡ record n { num_keys = length n.keys }
unfolding internal_body
internal_body-bytes n rest f = rw (
  get_u16-put_u16 (length n.keys)
      (put_u16 (length n.children) (put_children n.children (keys_bytes n.keys rest)))
      f.count_short,
  get_u16-put_u16 (length n.children) (put_children n.children (keys_bytes n.keys rest))
      f.children_short,
  get_children-put_children n.children (keys_bytes n.keys rest) f.ids,
  get_keys-bytes n.keys rest f.keys_short,
)

deserialize_internal-body :
    (id n m : ℕ) (cs : List ℕ) (rest : Bytes)
    → 0 < length cs
    → deserialize_internal id (2 ∷ put_u16 n (put_u16 m (put_children cs rest)))
      ≡ ok (internal_body id (put_u16 n (put_u16 m (put_children cs rest))))
unfolding deserialize_internal put_u16 put_children put_u32
deserialize_internal-body id n m [] rest h = absurd (omega arith)
deserialize_internal-body id n m (c ∷ cs) rest h = rw (
    ge→ltb (suc (suc (suc (suc (suc (suc (suc (suc (length (put_children cs rest))))))))) + 1) 7
      (omega arith))

serialize_internal-append :
    (n : InternalNode) (rest : Bytes)
    → Fits n
    → serialize_internal n ++ rest
      ≡ 2
        ∷ put_u16
            (length n.keys)
            (put_u16 (length n.children) (put_children n.children (keys_bytes n.keys rest)))
unfolding serialize_internal put_u16
serialize_internal-append n rest f =
    let cut : to_u16 (length n.children) ≡ length n.children = omega (arith, f.children_short) in
    rw (
      f.count,
      cut,
      put_children-append n.children (put_keys n.keys) rest,
      put_keys-append n.keys rest,
    )

-- An internal node with a child that fits the format, whatever bytes follow what is written of it,
-- is read back with its count, keys and children, under the id that the reader names.
pub deserialize_internal-serialize_internal :
    (n : InternalNode) (rest : Bytes)
    → Fits n
    → deserialize_internal n.block_id (serialize_internal n ++ rest) ≡ ok n
deserialize_internal-serialize_internal n rest f =
    ap (deserialize_internal n.block_id) (serialize_internal-append n rest f)
    ∙ deserialize_internal-body n.block_id (length n.keys) (length n.children) n.children
        (keys_bytes n.keys rest) f.children_some
    ∙ ap ok (internal_body-bytes n rest f)
    ∙ ap (λ c. ok (record n { num_keys = c })) (sym f.count)
