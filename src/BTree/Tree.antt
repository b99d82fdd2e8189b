-- ===== src/BTree/Tree.antt =====
-- internal/btree/btree.go: the tree over the pages of a cache. A call that goes down from node to
-- node has fuel for the number of levels; in a tree of pages that lead in a circle the source does
-- not return, and a call without fuel is a panic.
pub mod Weight
pub mod Inner
pub mod Leads
pub mod Reads
pub mod Writes
pub mod Deletes
pub mod Puts
mod Tests
use gothinkdb.Prelude.{
  ℕ, zero, suc, ◌+◌, ◌-◌, Bool, true, false, not, ◌&&◌, Option, none, some, List, [], ◌∷◌, ◌++◌,
  ◌==◌, drop, if◌then◌else◌,
}
use gothinkdb.Prelude.Result
use gothinkdb.Prelude.Result.{Result, ok, err, panic}
use gothinkdb.BTree.Bytes.{Bytes, key_lt}
use gothinkdb.BTree.Search.{find_key, find_child}
use gothinkdb.BTree.Leaf
use gothinkdb.BTree.Leaf.{LeafNode, invalid_block_id, new_leaf_node}
use gothinkdb.BTree.Internal
use gothinkdb.BTree.Internal.{InternalNode, new_internal_node, child_for}
use gothinkdb.BTree.Codec.{
  serialize_leaf, serialize_internal, deserialize_leaf, deserialize_internal, block_of, block_size,
  zeros,
}
use gothinkdb.BTree.Pages.{Pages, Step, lift, ◌>>=◌, ◌>>◌}

-- `block[0] == byte(NodeTypeLeaf)`; a block has a first byte.
unfoldable pub is_leaf_block : Bytes → Bool
is_leaf_block [] = false
is_leaf_block (kind ∷ bytes) = kind == 1

-- `KeyValue`
pub record KeyValue : Type 0 where
  pub key : Bytes
  pub value : Bytes

-- The first key of the right half: `right.keys[0]`.
abbrev first_key : List Bytes → Result Bytes
first_key [] = panic
first_key (k ∷ ks) = ok k

-- The loop of `scan` over the pairs from the start position on; nil is no upper bound.
unfoldable pub pairs_up_to : Option Bytes → List Bytes → List Bytes → Result (List KeyValue)
pairs_up_to end [] vs = ok []
pairs_up_to none (k ∷ ks) [] = panic
pairs_up_to none (k ∷ ks) (v ∷ vs) =
    Result.◌>>=◌ (pairs_up_to none ks vs) λ kvs. ok (record { key = k; value = v } ∷ kvs)
pairs_up_to (some end) (k ∷ ks) [] = if key_lt end k then ok [] else panic
pairs_up_to (some end) (k ∷ ks) (v ∷ vs) =
    let rest =
      Result.◌>>=◌ (pairs_up_to (some end) ks vs) λ kvs. ok (record { key = k; value = v } ∷ kvs) in
    if key_lt end k then ok [] else rest

-- What `scan` takes from a leaf.
unfoldable pub scan_leaf : Bytes → Option Bytes → LeafNode → Result (List KeyValue)
scan_leaf start end n =
    Result.◌>>=◌ (find_key n.keys start)
      λ pos. pairs_up_to end (drop pos n.keys) (drop pos n.values)

-- `BTree`, over the pages of a cache.
pub record BTree (P : Pages) : Type 0 where
  pub cache : P.State
  pub root_id : ℕ

module _ (P : Pages) where
  -- The block of a leaf and of an internal node, stored under its id.
  abbrev pub write_leaf : LeafNode → Step P.State (Unit {0})
  write_leaf n = do bytes ← lift (serialize_leaf n); P.put n.block_id (block_of block_size bytes)

  abbrev pub write_internal : InternalNode → Step P.State (Unit {0})
  write_internal n = P.put n.block_id (block_of block_size (serialize_internal n))

  abbrev root_of : P.State × Result ℕ → P.State × Result (BTree P)
  root_of (s, ok id) = (s, ok (record { cache = s; root_id = id }))
  root_of (s, err) = (s, err)
  root_of (s, panic) = (s, panic)

  abbrev allocate_leaf : LeafNode → Step P.State ℕ
  allocate_leaf n = do bytes ← lift (serialize_leaf n); P.allocate (block_of block_size bytes)

  -- `New`
  unfoldable pub new : P.State → P.State × Result (BTree P)
  new s = root_of (allocate_leaf (new_leaf_node invalid_block_id) s)

  -- `Load`
  unfoldable pub load : P.State → ℕ → BTree P
  load cache root_id = record { cache = cache; root_id = root_id }

  -- `get`; `none` is nil.
  unfoldable pub get_from : ℕ → ℕ → Bytes → Step P.State (Option Bytes)
  get_from zero id key = lift panic
  get_from (suc levels) id key = do
    block ← P.get id
    if is_leaf_block block
        then (do n ← lift (deserialize_leaf id block); lift (Leaf.get key n))
        else (do
          n ← lift (deserialize_internal id block)
          child ← lift (child_for key n)
          get_from levels child key)

  -- `delete`
  unfoldable pub delete_from : ℕ → ℕ → Bytes → Step P.State (Unit {0})
  delete_from zero id key = lift panic
  delete_from (suc levels) id key = do
    block ← P.get id
    if is_leaf_block block
        then (do
          n ← lift (deserialize_leaf id block)
          (n', held) ← lift (Leaf.delete key n)
          if held then write_leaf n' else lift (ok tt))
        else (do
          n ← lift (deserialize_internal id block)
          child ← lift (child_for key n)
          delete_from levels child key)

  -- `createRoot`
  unfoldable pub create_root : ℕ → ℕ → Bytes → Step P.State ℕ
  create_root left_id right_id separator = P.allocate (
      block_of block_size (
        serialize_internal (record (new_internal_node invalid_block_id) {
          children = left_id ∷ right_id ∷ [];
          keys = separator ∷ [];
          num_keys = 1;
        })))

  -- `splitLeaf`
  unfoldable pub split_leaf : LeafNode → Step P.State (ℕ × Bytes)
  split_leaf n = do
    right_id ← P.allocate (zeros block_size)
    let (left, right) = Leaf.split right_id n
    separator ← lift (first_key right.keys)
    write_leaf left
    write_leaf right
    lift (ok (right_id, separator))

  -- `splitInternal`
  unfoldable pub split_internal : InternalNode → Step P.State (ℕ × Bytes)
  split_internal n = do
    right_id ← P.allocate (zeros block_size)
    (left, right, separator) ← lift (Internal.split right_id n)
    write_internal left
    write_internal right
    lift (ok (right_id, separator))

  -- What `put` returns after a split: a new root has no separator, nil.
  unfoldable pub after_split : ℕ → ℕ → ℕ × Bytes → Step P.State (ℕ × Bytes)
  after_split root id (right_id, separator) =
      if id == root
      then (create_root id right_id separator >>= λ new_root. lift (ok (new_root, [])))
      else lift (ok (right_id, separator))

  -- `put` in a leaf.
  unfoldable pub put_leaf : ℕ → ℕ → Bytes → Bytes → LeafNode → Step P.State (ℕ × Bytes)
  put_leaf root id key value n = do
    n' ← lift (Leaf.insert key value n)
    write_leaf n'
    if Leaf.is_full n'
        then (split_leaf n' >>= after_split root id)
        else lift (ok (invalid_block_id, []))

  -- `put` in an internal node, after the call for the child.
  unfoldable pub put_child : ℕ → ℕ → InternalNode → ℕ × Bytes → Step P.State (ℕ × Bytes)
  put_child root id n (new_child, separator) =
      if new_child == invalid_block_id then lift (ok (invalid_block_id, [])) else (do
        n' ← lift (Internal.insert separator new_child n)
        write_internal n'
        if Internal.is_full n'
            then (split_internal n' >>= after_split root id)
            else lift (ok (invalid_block_id, [])))

  -- `put`: the id of a new node, or the invalid id, and the separator.
  unfoldable pub put_from : ℕ → ℕ → ℕ → Bytes → Bytes → Step P.State (ℕ × Bytes)
  put_from zero root id key value = lift panic
  put_from (suc levels) root id key value = do
    block ← P.get id
    if is_leaf_block block
        then (do n ← lift (deserialize_leaf id block); put_leaf root id key value n)
        else (do
          n ← lift (deserialize_internal id block)
          child ← lift (child_for key n)
          put_from levels root child key value >>= put_child root id n)

  -- The loop of `scan` over the children from one on, in order.
  unfoldable pub scan_children :
      (ℕ → Step P.State (List KeyValue)) → List ℕ → Step P.State (List KeyValue)
  scan_children scan_child [] = lift (ok [])
  scan_children scan_child (child ∷ children) = do
    first ← scan_child child
    rest ← scan_children scan_child children
    lift (ok (first ++ rest))

  -- `scan`; the source also returns, beside an error, what it had found before.
  unfoldable pub scan_from : ℕ → ℕ → Bytes → Option Bytes → Step P.State (List KeyValue)
  scan_from zero id start end = lift panic
  scan_from (suc levels) id start end = do
    block ← P.get id
    if is_leaf_block block
        then (do n ← lift (deserialize_leaf id block); lift (scan_leaf start end n))
        else (do
          n ← lift (deserialize_internal id block)
          pos ← lift (find_child n.keys start)
          scan_children (λ child. scan_from levels child start end) (drop pos n.children))

  abbrev on_cache : {A : Type 0} → BTree P → P.State × Result A → BTree P × Result A
  on_cache t (s, r) = (record t { cache = s }, r)

  -- `Get`
  unfoldable pub get : ℕ → Bytes → BTree P → BTree P × Result (Option Bytes)
  get levels key t = on_cache t (get_from levels t.root_id key t.cache)

  abbrev with_root : BTree P → P.State × Result (ℕ × Bytes) → BTree P × Result (Unit {0})
  with_root t (s, panic) = (record t { cache = s }, panic)
  with_root t (s, err) = (record t { cache = s }, err)
  with_root t (s, ok (new_root, separator)) = (
    record t { cache = s; root_id = if new_root == invalid_block_id then t.root_id else new_root },
    ok tt,
  )

  -- `Put`
  unfoldable pub put : ℕ → Bytes → Bytes → BTree P → BTree P × Result (Unit {0})
  put levels key value t = with_root t (put_from levels t.root_id t.root_id key value t.cache)

  -- `Delete`
  unfoldable pub delete : ℕ → Bytes → BTree P → BTree P × Result (Unit {0})
  delete levels key t = on_cache t (delete_from levels t.root_id key t.cache)

  -- `Scan`
  unfoldable pub scan : ℕ → Bytes → Option Bytes → BTree P → BTree P × Result (List KeyValue)
  scan levels start end t = on_cache t (scan_from levels t.root_id start end t.cache)
