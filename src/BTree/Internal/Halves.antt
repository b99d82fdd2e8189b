-- ===== src/BTree/Internal/Halves.antt =====
-- internal/btree/node.go: the two halves that `Split` makes of an internal node.
use gothinkdb.Prelude.{
  ℕ, zero, suc, ◌-◌, ◌/◌, ◌≤◌, ◌<◌, ◌≡◌, some, List, [], ◌∷◌, ◌++◌, length, get_elem?, take, drop,
  if◌then◌else◌, ap, sym, some_eq, refl, take-append-drop, arith, length-take, length-drop, lt→ltb,
  get_elem?-some,
}
use gothinkdb.Prelude.Result.{ok}
use gothinkdb.BTree.Bytes.{Bytes, key_lt, key_lt_trans}
use gothinkdb.BTree.Sorted.{IsSorted, IsSorted-take, IsSorted-drop}
use gothinkdb.BTree.Leaf.Halves.{AllAbove-get}
use gothinkdb.BTree.Internal.{InternalNode, split}
use gothinkdb.BTree.Leaf.{to_u16}
use gothinkdb.BTree.Internal.Route.{IsInternal, route}

route-halves :
    (m : ℕ) (ks : List Bytes) (cs : List ℕ) (sep key : Bytes)
    → IsSorted ks
    → length cs ≡ suc (length ks)
    → get_elem? ks m ≡ some sep
    → route ks cs key ≡ (
        if key_lt key sep
        then route (take m ks) (take (suc m) cs) key
        else route (drop (suc m) ks) (drop (suc m) cs) key)
unfolding route
route-halves m [] cs sep key s e h = cc
route-halves m (k ∷ ks) [] sep key s e h = absurd (omega arith)
route-halves zero (k ∷ ks) (c ∷ cs) sep key s e h = ground arith
route-halves (suc m) (k ∷ ks) (c ∷ []) sep key s e h = absurd (omega arith)
route-halves (suc m) (k ∷ ks) (c ∷ (d ∷ cs)) sep key s e h = ground (
  arith,
  AllAbove-get k ks m sep s.0 h,
  key_lt_trans key k sep,
  route-halves m ks (d ∷ cs) sep key s.1 (omega arith) h,
)

abbrev left_half : ℕ → InternalNode → InternalNode
left_half m n = record n {
  keys = take m n.keys;
  children = take (suc m) n.children;
  num_keys = to_u16 (length (take m n.keys));
}

abbrev right_half : ℕ → ℕ → InternalNode → InternalNode
right_half m new_id n = record {
  block_id = new_id;
  num_keys = to_u16 (length (drop (suc m) n.keys));
  keys = drop (suc m) n.keys;
  children = drop (suc m) n.children;
}

-- What the halves of a node and the promoted key are to the whole.
pub record Halved (new_id : ℕ) (promoted : Bytes) (n left right : InternalNode) : Type 0 where
  pub left_id : left.block_id ≡ n.block_id
  pub right_id : right.block_id ≡ new_id
  pub keys : left.keys ++ promoted ∷ right.keys ≡ n.keys
  pub children : left.children ++ right.children ≡ n.children
  pub middle : length left.children ≡ length n.children / 2
  pub left_formed : IsInternal left
  pub right_formed : IsInternal right
  pub routed :
      (key : Bytes)
      → route n.keys n.children key ≡ (
          if key_lt key promoted
          then route left.keys left.children key
          else route right.keys right.children key)

keys-halves :
    (m : ℕ) (ks : List Bytes) (promoted : Bytes)
    → get_elem? ks m ≡ some promoted
    → take m ks ++ promoted ∷ drop (suc m) ks ≡ ks
keys-halves m [] promoted e = cc
keys-halves zero (k ∷ ks) promoted e = ap (◌∷ ks) (sym (some_eq e))
keys-halves (suc m) (k ∷ ks) promoted e = ap (◌∷◌ k) (keys-halves m ks promoted e)

halves-Halved :
    (m new_id : ℕ) (n : InternalNode) (promoted : Bytes)
    → IsInternal n
    → suc m < length n.children
    → length n.children / 2 ≡ suc m
    → get_elem? n.keys m ≡ some promoted
    → Halved new_id promoted n (left_half m n) (right_half m new_id n)
halves-Halved m new_id n promoted w h half e =
    let ks = length-take m n.keys in
    let cs = length-take (suc m) n.children in
    let ks' = length-drop (suc m) n.keys in
    let cs' = length-drop (suc m) n.children in
    record {
      left_formed = record {
        sorted = IsSorted-take m n.keys w.sorted;
        fanout = omega (arith, w.fanout);
        counted = omega (arith, w.fanout, w.small);
        small = omega (arith, w.small);
      };
      right_formed = record {
        sorted = IsSorted-drop (suc m) n.keys w.sorted;
        fanout = omega (arith, w.fanout);
        counted = omega (arith, w.fanout, w.small);
        small = omega (arith, w.small);
      };
      routed = λ key. route-halves m n.keys n.children promoted key w.sorted w.fanout e;
      left_id = refl;
      right_id = refl;
      keys = keys-halves m n.keys promoted e;
      children = take-append-drop (suc m) n.children;
      middle = omega arith;
    }

split-halves :
    (m new_id : ℕ) (n : InternalNode) (promoted : Bytes)
    → length n.children / 2 ≡ suc m
    → get_elem? n.keys m ≡ some promoted
    → split new_id n ≡ ok (left_half m n, right_half m new_id n, promoted)
unfolding split
split-halves m new_id n promoted h e =
    let back : suc m - 1 ≡ m = omega arith in rw (h, lt→ltb 0 (suc m) (omega arith), back, e)

-- `Split` of a well-formed node with at least two children succeeds. Both halves are well-formed.
-- The left one keeps the block id and has the first half of the children, rounded down; the right
-- one has the new id and the other children. The keys of the left half, the promoted key and the
-- keys of the right half are the keys of the whole, in this order. A key below the promoted one goes
-- in the left half where it went in the whole, every other key in the right half.
pub split_node-Halved :
    (new_id : ℕ) (n : InternalNode)
    → IsInternal n
    → 2 ≤ length n.children
    → (left : InternalNode) × (right : InternalNode) × (promoted : Bytes) × (split new_id n
        ≡ ok (left, right, promoted))
      × Halved new_id promoted n left right
split_node-Halved new_id n w h =
    let m = length n.children / 2 - 1 in
    let (promoted, e) = get_elem?-some n.keys m (omega (arith, w.fanout)) in
    (
      left_half m n,
      right_half m new_id n,
      promoted,
      split-halves m new_id n promoted (omega arith) e,
      halves-Halved m new_id n promoted w (omega arith) (omega arith) e,
    )
