-- ===== src/BTree/Tests.antt =====
-- internal/btree at concrete inputs: the operations on a small leaf and a small internal node.
use gothinkdb.Prelude.{◌≤◌, ◌≡◌, refl, false, some, List, [], ◌∷◌, ◌++◌, arith, length}
use gothinkdb.Prelude.Result.{ok}
use gothinkdb.BTree.Bytes.{Bytes, key_lt, bytes_equal}
use gothinkdb.BTree.Search.{binary_search, find_key}
use gothinkdb.BTree.Leaf.{LeafNode, insert, get, split, is_full, has_key_at, insert_new, insert_at}
use gothinkdb.BTree.Leaf.Lookup.{lookup}
use gothinkdb.BTree.Leaf.Laws.{IsLeaf, get-find, insert-Inserted, delete-Deleted}
use gothinkdb.BTree.Leaf.Halves.{split-Halved, Halved}
use gothinkdb.BTree.Internal
use gothinkdb.BTree.Internal.{InternalNode, child_for}
use gothinkdb.BTree.Internal.Route
use gothinkdb.BTree.Internal.Route.{IsInternal, route, child_for-route, insert_child-Inserted}
use gothinkdb.BTree.Internal.Halves.{split_node-Halved}
use gothinkdb.BTree.Codec.{
  block_size, serialize_leaf, deserialize_internal, serialize_internal, zeros, put_u16, put_u32,
  put_chunk,
}
use gothinkdb.BTree.Codec.RoundTrip
use gothinkdb.BTree.Codec.RoundTrip.{leaf_bytes, pairs_bytes}
use gothinkdb.BTree.Codec.InternalTrip
use gothinkdb.BTree.Codec.InternalTrip.{deserialize_internal-serialize_internal}
use gothinkdb.BTree.Codec.Block.{deserialize_leaf-block_of, oversized_value_lost, leaf_of}

abbrev small : LeafNode
small = record {
  block_id = 4;
  num_keys = 3;
  keys = (1 ∷ []) ∷ (1 ∷ 5 ∷ []) ∷ (9 ∷ []) ∷ [];
  values = (10 ∷ []) ∷ (15 ∷ []) ∷ (90 ∷ []) ∷ [];
  right = 7;
}

small-IsLeaf : IsLeaf small
unfolding key_lt
small-IsLeaf = record {
  sorted = ((refl, (refl, tt)), ((refl, tt), (tt, tt)));
  paired = refl;
  counted = refl;
  small = omega arith;
}

-- The new key goes between the second and the third.
insert_runs :
    insert (5 ∷ []) (50 ∷ []) small
    ≡ ok (record small {
      num_keys = 4;
      keys = (1 ∷ []) ∷ (1 ∷ 5 ∷ []) ∷ (5 ∷ []) ∷ (9 ∷ []) ∷ [];
      values = (10 ∷ []) ∷ (15 ∷ []) ∷ (50 ∷ []) ∷ (90 ∷ []) ∷ [];
    })
unfolding insert find_key binary_search key_lt bytes_equal is_full has_key_at insert_new insert_at
insert_runs = refl

get-find_example : get (1 ∷ 5 ∷ []) small ≡ ok (some (15 ∷ []))
unfolding lookup bytes_equal
get-find_example = get-find small (1 ∷ 5 ∷ []) small-IsLeaf

small_room : is_full small ≡ false
unfolding is_full
small_room = refl

insert-Inserted_example :
    IsLeaf (insert-Inserted (5 ∷ []) (50 ∷ []) small small-IsLeaf small_room).0
insert-Inserted_example =
    (insert-Inserted (5 ∷ []) (50 ∷ []) small small-IsLeaf small_room).2.formed

delete-Deleted_example : IsLeaf (delete-Deleted (1 ∷ []) small small-IsLeaf).0
delete-Deleted_example = (delete-Deleted (1 ∷ []) small small-IsLeaf).2.formed

split-Halved_example : Halved 8 (1 ∷ 5 ∷ []) small (split 8 small).0 (split 8 small).1
split-Halved_example = split-Halved 8 small (1 ∷ 5 ∷ []) small-IsLeaf refl

abbrev keys : List Bytes
keys = (1 ∷ []) ∷ (4 ∷ []) ∷ (9 ∷ []) ∷ []

inner : InternalNode
inner = record { block_id = 3; num_keys = 3; keys = keys; children = 10 ∷ 11 ∷ 12 ∷ 13 ∷ [] }

inner-IsInternal : IsInternal inner
unfolding key_lt inner
inner-IsInternal = record {
  sorted = ((refl, (refl, tt)), ((refl, tt), (tt, tt)));
  fanout = refl;
  counted = refl;
  small = omega arith;
}

inner_room : Internal.is_full inner ≡ false
unfolding Internal.is_full inner
inner_room = refl

inner_new : Route.IsNew (5 ∷ []) inner.keys
unfolding inner bytes_equal
inner_new = (refl, (refl, (refl, tt)))

child_for-route_example :
    child_for (5 ∷ []) inner ≡ ok (child_for-route (5 ∷ []) inner inner-IsInternal).0
child_for-route_example = (child_for-route (5 ∷ []) inner inner-IsInternal).1

insert_child-Inserted_example :
    Route.Inserted
      (5 ∷ [])
      20
      inner
      (insert_child-Inserted (5 ∷ []) 20 inner inner-IsInternal inner_room inner_new).0
insert_child-Inserted_example =
    (insert_child-Inserted (5 ∷ []) 20 inner inner-IsInternal inner_room inner_new).2

inner_two : 2 ≤ length inner.children
unfolding inner
inner_two = omega arith

split_node-Halved_example : IsInternal (split_node-Halved 8 inner inner-IsInternal inner_two).0
split_node-Halved_example = (split_node-Halved 8 inner inner-IsInternal inner_two).4.left_formed

small-Fits : RoundTrip.Fits small
small-Fits = record {
  count = refl;
  paired = refl;
  keys_short = omega arith;
  values_short = omega arith;
  count_short = omega arith;
  right_short = omega arith;
}

small_in_block : length (leaf_bytes small []) ≤ block_size
unfolding leaf_bytes pairs_bytes put_u16 put_u32 put_chunk
small_in_block = omega arith

deserialize_leaf-block_of_example :
    serialize_leaf small ≡ ok (deserialize_leaf-block_of small small-Fits small_in_block).0
deserialize_leaf-block_of_example = (deserialize_leaf-block_of small small-Fits small_in_block).1

inner-Fits : InternalTrip.Fits inner
unfolding inner
inner-Fits = record {
  count = refl;
  keys_short = omega arith;
  ids = omega arith;
  count_short = omega arith;
  children_short = omega arith;
  children_some = omega arith;
}

deserialize_internal-serialize_internal_example :
    deserialize_internal inner.block_id (serialize_internal inner ++ 0 ∷ []) ≡ ok inner
deserialize_internal-serialize_internal_example =
    deserialize_internal-serialize_internal inner (0 ∷ []) inner-Fits

oversized_value_lost_example :
    serialize_leaf (leaf_of 1 (7 ∷ []) (zeros 4084 ++ 1 ∷ []))
    ≡ ok (oversized_value_lost 1 (7 ∷ []) (zeros 4084) 1 2 (omega arith)).0
oversized_value_lost_example = (oversized_value_lost 1 (7 ∷ []) (zeros 4084) 1 2 (omega arith)).2
