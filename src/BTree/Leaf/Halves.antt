-- ===== src/BTree/Leaf/Halves.antt =====
-- internal/btree/node.go: the two halves that `Split` makes of a leaf.
use gothinkdb.Prelude.{
  ℕ, zero, suc, ◌+◌, ◌/◌, ◌≡◌, refl, true, some, List, [], ◌∷◌, length, get_elem?, take, drop,
  if◌then◌else◌, arith, length-take, length-drop,
}
use gothinkdb.BTree.Bytes.{Bytes, key_lt, bytes_equal→eq, key_lt_irrefl}
use gothinkdb.BTree.Sorted.{IsSorted, AllAbove, IsSorted-take, IsSorted-drop, AllAbove-trans}
use gothinkdb.BTree.Leaf.{LeafNode, split}
use gothinkdb.BTree.Leaf.Lookup.{lookup, lookup-below}
use gothinkdb.BTree.Leaf.Laws.{IsLeaf, find}

pub AllAbove-get :
    (b : Bytes) (ks : List Bytes) (i : ℕ) (k : Bytes)
    → AllAbove b ks
    → get_elem? ks i ≡ some k
    → key_lt b k ≡ true
AllAbove-get b [] i k h e = cc
AllAbove-get b (x ∷ ks) zero k h e = ground arith
AllAbove-get b (x ∷ ks) (suc i) k h e = AllAbove-get b ks i k h.1 e

-- Below the key at a position, a map is its front; from it on, its back.
lookup-halves :
    (m : ℕ) (ks vs : List Bytes) (sep key : Bytes)
    → IsSorted ks
    → length vs ≡ length ks
    → get_elem? ks m ≡ some sep
    → lookup ks vs key ≡ (
        if key_lt key sep
        then lookup (take m ks) (take m vs) key
        else lookup (drop m ks) (drop m vs) key)
unfolding lookup
lookup-halves m [] vs sep key s e h = cc
lookup-halves m (k ∷ ks) [] sep key s e h = absurd (omega arith)
lookup-halves zero (k ∷ ks) (v ∷ vs) sep key s e h = ground (
  arith,
  bytes_equal→eq k key,
  key_lt_irrefl k,
  λ (p : key_lt key k ≡ true). lookup-below key ks vs (AllAbove-trans key k ks p s.0),
)
lookup-halves (suc m) (k ∷ ks) (v ∷ vs) sep key s e h = ground (
  arith,
  bytes_equal→eq k key,
  AllAbove-get k ks m sep s.0 h,
  lookup-halves m ks vs sep key s.1 (omega arith) h,
)

-- The first of the right half is the key at the middle.
get_elem?-drop :
    (m : ℕ) (ks : List Bytes) (sep : Bytes)
    → get_elem? ks m ≡ some sep
    → get_elem? (drop m ks) 0 ≡ some sep
get_elem?-drop m [] sep h = cc
get_elem?-drop zero (k ∷ ks) sep h = h
get_elem?-drop (suc m) (k ∷ ks) sep h = get_elem?-drop m ks sep h

-- Keys below the separator are on the left of it, all others on the right.
AllBelow-take :
    (m : ℕ) (ks : List Bytes) (sep : Bytes) (i : ℕ) (k : Bytes)
    → IsSorted ks
    → get_elem? ks m ≡ some sep
    → get_elem? (take m ks) i ≡ some k
    → key_lt k sep ≡ true
AllBelow-take m [] sep i k s h e = cc
AllBelow-take zero (x ∷ ks) sep i k s h e = cc
AllBelow-take (suc m) (x ∷ ks) sep zero k s h e = ground (arith, AllAbove-get x ks m sep s.0 h)
AllBelow-take (suc m) (x ∷ ks) sep (suc i) k s h e = AllBelow-take m ks sep i k s.1 h e

-- What the two halves of a leaf hold.
pub record Halved (new_id : ℕ) (sep : Bytes) (n left right : LeafNode) : Type 0 where
  pub left_formed : IsLeaf left
  pub right_formed : IsLeaf right
  pub separator : get_elem? right.keys 0 ≡ some sep
  pub below : (i : ℕ) (k : Bytes) → get_elem? left.keys i ≡ some k → key_lt k sep ≡ true
  pub found :
      (key : Bytes) → find n key ≡ (if key_lt key sep then find left key else find right key)
  pub linked : left.right ≡ new_id
  pub next : right.right ≡ n.right
  pub sizes : length left.keys + length right.keys ≡ length n.keys

-- `Split` of a well-formed leaf with a key in the middle gives two well-formed leaves, linked in
-- order. The first key of the right one separates them, and every key is found in the half on its
-- side as it was in the whole.
pub split-Halved :
    (new_id : ℕ) (n : LeafNode) (sep : Bytes)
    → IsLeaf n
    → get_elem? n.keys (length n.keys / 2) ≡ some sep
    → Halved new_id sep n (split new_id n).0 (split new_id n).1
unfolding split
split-Halved new_id n sep w h =
    let m = length n.keys / 2 in
    record {
      left_formed = record {
        sorted = IsSorted-take m n.keys w.sorted;
        paired = omega (arith, w.paired, length-take m n.keys, length-take m n.values);
        counted = omega (arith, w.small, length-take m n.keys);
        small = omega (arith, w.small, length-take m n.keys);
      };
      right_formed = record {
        sorted = IsSorted-drop m n.keys w.sorted;
        paired = omega (arith, w.paired, length-drop m n.keys, length-drop m n.values);
        counted = omega (arith, w.small, length-drop m n.keys);
        small = omega (arith, w.small, length-drop m n.keys);
      };
      separator = get_elem?-drop m n.keys sep h;
      below = λ i k e. AllBelow-take m n.keys sep i k w.sorted h e;
      found = λ key. lookup-halves m n.keys n.values sep key w.sorted w.paired h;
      linked = refl;
      next = refl;
      sizes = omega (arith, length-take m n.keys, length-drop m n.keys);
    }
