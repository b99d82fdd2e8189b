-- ===== src/BTree/Leaf/Laws.antt =====
-- The operations of a leaf, as operations of a finite map from keys to values.
use gothinkdb.Prelude.{
  ℕ, zero, suc, ◌+◌, ◌-◌, ◌^◌, ◌≤◌, ◌<◌, ◌≡◌, ◌∙◌, refl, sym, ap, Bool, true, false, Option, some,
  none, List, [], ◌∷◌, ◌++◌, length, take, drop, set, if◌then◌else◌, arith, Bool-cases, inl, inr,
  length-set, length-append, length-take, length-drop, lt→ltb, le→leb,
}
use gothinkdb.Prelude.Result.{ok}
use gothinkdb.BTree.Bytes.{Bytes, key_lt, bytes_equal, bytes_equal→eq}
use native.Mathlib.Numerals.{add-one}
use gothinkdb.BTree.Search.{prefix_length-le}
use gothinkdb.BTree.Sorted.{IsSorted, lower_bound, find_key-lower_bound}
use gothinkdb.BTree.Leaf.{
  LeafNode, max_leaf_keys, is_full, has_key_at, insert, update_value, insert_new, delete,
  remove_pair, get, value_at, set_at, insert_at, remove_at, to_u16,
}
use gothinkdb.BTree.Leaf.Lookup.{
  lookup, value-lookup, lookup-set, lookup-insert, lookup-remove, IsSorted-insert, IsSorted-remove,
}
use gothinkdb.BTree.Leaf.Weight.{weight, weight-remove, weight-insert, weight-set}

-- A well-formed leaf: rising keys, one value for each, the count right, and room for the count.
pub record IsLeaf (n : LeafNode) : Type 0 where
  pub sorted : IsSorted n.keys
  pub paired : length n.values ≡ length n.keys
  pub counted : n.num_keys ≡ length n.keys
  pub small : length n.keys ≤ max_leaf_keys

-- The map that a leaf stands for.
abbrev pub find : LeafNode → Bytes → Option Bytes
find n key = lookup n.keys n.values key

-- `Get` on a well-formed leaf neither fails nor panics, and returns the value of the key in the
-- map, or that there is none.
pub get-find : (n : LeafNode) (key : Bytes) → IsLeaf n → get key n ≡ ok (find n key)
unfolding get value_at
get-find n key w =
    rw (find_key-lower_bound n.keys key w.sorted)
      (value-lookup n.keys n.values key w.sorted w.paired)

bound-le : (keys : List Bytes) (key : Bytes) → lower_bound keys key ≤ length keys
bound-le keys key = prefix_length-le (λ k. key_lt k key) keys

has_key_at-lt :
    (keys : List Bytes) (i : ℕ) (key : Bytes) → has_key_at keys i key ≡ true → i < length keys
unfolding has_key_at
has_key_at-lt [] i key h = cc
has_key_at-lt (k ∷ ks) zero key h = omega arith
has_key_at-lt (k ∷ ks) (suc i) key h = omega (arith, has_key_at-lt ks i key h)

-- The leaf after `Insert`, by the branch that it takes.
pub updated : Bytes → Bytes → LeafNode → LeafNode
updated key value n = record n { values = set n.values (lower_bound n.keys key) value }

pub extended : Bytes → Bytes → LeafNode → LeafNode
extended key value n =
    let pos = lower_bound n.keys key in
    record n {
      keys = take pos n.keys ++ key ∷ drop pos n.keys;
      values = take pos n.values ++ value ∷ drop pos n.values;
      num_keys = to_u16 (n.num_keys + 1);
    }

-- A leaf that maps one key anew and every other key as before.
pub record Inserted (key value : Bytes) (n n' : LeafNode) : Type 0 where
  pub formed : IsLeaf n'
  pub found : (j : Bytes) → find n' j ≡ (if bytes_equal key j then some value else find n j)
  pub same_id : n'.block_id ≡ n.block_id
  pub same_right : n'.right ≡ n.right
  pub weight : weight n'.keys n'.values ≤ 4 + length key + length value + weight n.keys n.values
  pub count : length n'.keys ≤ length n.keys + 1

updated-Inserted :
    (key value : Bytes) (n : LeafNode)
    → IsLeaf n
    → has_key_at n.keys (lower_bound n.keys key) key ≡ true
    → Inserted key value n (updated key value n)
unfolding updated
updated-Inserted key value n w h = record {
  formed = record {
    sorted = w.sorted;
    paired = length-set n.values _ value ∙ w.paired;
    counted = w.counted;
    small = w.small;
  };
  found = λ j. lookup-set n.keys n.values key value j w.paired h;
  same_id = refl;
  same_right = refl;
  weight = omega (arith, weight-set (lower_bound n.keys key) value n.keys n.values);
  count = omega arith;
}

length-insert {ℓ} :
    {A : Type ℓ} (i : ℕ) (x : A) (xs : List A) → length (take i xs ++ x ∷ drop i xs) ≡ length xs + 1
length-insert i x xs = omega (
  arith,
  length-append {ℓ} (take i xs) (x ∷ drop i xs),
  length-take {ℓ} i xs,
  length-drop {ℓ} i xs,
)

not_full : (n : LeafNode) → is_full n ≡ false → length n.keys < max_leaf_keys
unfolding is_full
not_full n h = ground arith

extended-Inserted :
    (key value : Bytes) (n : LeafNode)
    → IsLeaf n
    → is_full n ≡ false
    → has_key_at n.keys (lower_bound n.keys key) key ≡ false
    → Inserted key value n (extended key value n)
unfolding extended is_full
extended-Inserted key value n w room h = record {
  formed = record {
    sorted = IsSorted-insert n.keys key w.sorted h;
    paired = omega (
      arith,
      w.paired,
      length-insert (lower_bound n.keys key) value n.values,
      length-insert (lower_bound n.keys key) key n.keys,
    );
    counted = omega (arith, w.counted, w.small, length-insert (lower_bound n.keys key) key n.keys);
    small = omega (arith, not_full n room, length-insert (lower_bound n.keys key) key n.keys);
  };
  found = λ j. lookup-insert n.keys n.values key value j w.paired;
  same_id = refl;
  same_right = refl;
  weight = weight-insert (lower_bound n.keys key) key value n.keys n.values w.paired;
  count = omega (arith, length-insert (lower_bound n.keys key) key n.keys);
}

insert-old :
    (key value : Bytes) (n : LeafNode)
    → IsLeaf n
    → is_full n ≡ false
    → has_key_at n.keys (lower_bound n.keys key) key ≡ true
    → insert key value n ≡ ok (updated key value n)
unfolding insert update_value set_at updated
insert-old key value n w room h =
    let fits = has_key_at-lt n.keys (lower_bound n.keys key) key h in
    rw (
      room,
      find_key-lower_bound n.keys key w.sorted,
      h,
      lt→ltb (lower_bound n.keys key) (length n.values) (omega arith),
    )

insert-new :
    (key value : Bytes) (n : LeafNode)
    → IsLeaf n
    → is_full n ≡ false
    → has_key_at n.keys (lower_bound n.keys key) key ≡ false
    → insert key value n ≡ ok (extended key value n)
unfolding insert insert_new insert_at extended
insert-new key value n w room h =
    let fits = bound-le n.keys key in
    rw (
      room,
      find_key-lower_bound n.keys key w.sorted,
      h,
      le→leb (lower_bound n.keys key) (length n.keys) fits,
      le→leb (lower_bound n.keys key) (length n.values) (omega arith),
    )

-- `Insert` into a well-formed leaf that is not full succeeds. The leaf is well-formed again, holds
-- the value under the key, holds what it held under every other key, keeps its id and its right
-- sibling, has at most one key more, and takes at most the bytes of the key, of the value and of
-- their lengths more.
pub insert-Inserted :
    (key value : Bytes) (n : LeafNode)
    → IsLeaf n
    → is_full n ≡ false
    → (n' : LeafNode) × (insert key value n ≡ ok n') × Inserted key value n n'
insert-Inserted key value n w room =
    elim (Bool-cases (has_key_at n.keys (lower_bound n.keys key) key)) [
      | inl h ↦
          (updated key value n, insert-old key value n w room h, updated-Inserted key value n w h)
      | inr h ↦ (
        extended key value n,
        insert-new key value n w room h,
        extended-Inserted key value n w room h,
      )
    ]

pub shrunk : Bytes → LeafNode → LeafNode
shrunk key n =
    let pos = lower_bound n.keys key in
    record n {
      keys = take pos n.keys ++ drop (pos + 1) n.keys;
      values = take pos n.values ++ drop (pos + 1) n.values;
      num_keys = to_u16 (n.num_keys + 2 ^ 16 - 1);
    }

-- A leaf without one key, and with every other key as before.
pub record Deleted (key : Bytes) (n n' : LeafNode) : Type 0 where
  pub formed : IsLeaf n'
  pub found : (j : Bytes) → find n' j ≡ (if bytes_equal key j then none else find n j)
  pub same_id : n'.block_id ≡ n.block_id
  pub same_right : n'.right ≡ n.right
  pub weight : weight n'.keys n'.values ≤ weight n.keys n.values

length-remove {ℓ} :
    {A : Type ℓ} (i : ℕ) (xs : List A)
    → i < length xs
    → length (take i xs ++ drop (suc i) xs) + 1 ≡ length xs
length-remove i xs h = omega (
  arith,
  length-append {ℓ} (take i xs) (drop (suc i) xs),
  length-take {ℓ} i xs,
  length-drop {ℓ} (suc i) xs,
)

shrunk-Deleted :
    (key : Bytes) (n : LeafNode)
    → IsLeaf n
    → has_key_at n.keys (lower_bound n.keys key) key ≡ true
    → Deleted key n (shrunk key n)
unfolding shrunk
shrunk-Deleted key n w h =
    let fits = has_key_at-lt n.keys (lower_bound n.keys key) key h in
    let by_one = length-remove (lower_bound n.keys key) n.keys fits in
    rw add-one (record {
      formed = record {
        sorted = IsSorted-remove (lower_bound n.keys key) n.keys w.sorted;
        paired = omega (arith, length-remove (lower_bound n.keys key) n.values (omega arith));
        counted = omega arith;
        small = omega arith;
      };
      found = λ j. lookup-remove n.keys n.values key j w.sorted w.paired h;
      same_id = refl;
      same_right = refl;
      weight = weight-remove (lower_bound n.keys key) n.keys n.values w.paired;
    })

same-Deleted : (key : Bytes) (n : LeafNode) → IsLeaf n → find n key ≡ none → Deleted key n n
same-Deleted key n w h = record {
  formed = w;
  found = λ j. ground (arith, bytes_equal→eq key j);
  same_id = refl;
  same_right = refl;
  weight = omega arith;
}

abbrev pub is_some : Option Bytes → Bool
is_some none = false
is_some (some v) = true

-- Whether a leaf holds a key is read off at the position that the search returns.
has_key-find :
    (key : Bytes) (n : LeafNode)
    → IsLeaf n
    → has_key_at n.keys (lower_bound n.keys key) key ≡ is_some (find n key)
has_key-find key n w = ground (arith, value-lookup n.keys n.values key w.sorted w.paired)

delete-old :
    (key : Bytes) (n : LeafNode)
    → IsLeaf n
    → has_key_at n.keys (lower_bound n.keys key) key ≡ true
    → delete key n ≡ ok (shrunk key n, true)
unfolding delete remove_pair remove_at shrunk
delete-old key n w h =
    let fits = has_key_at-lt n.keys (lower_bound n.keys key) key h in
    rw (
      find_key-lower_bound n.keys key w.sorted,
      h,
      lt→ltb (lower_bound n.keys key) (length n.keys) fits,
      lt→ltb (lower_bound n.keys key) (length n.values) (omega arith),
    )

delete-none :
    (key : Bytes) (n : LeafNode)
    → IsLeaf n
    → has_key_at n.keys (lower_bound n.keys key) key ≡ false
    → delete key n ≡ ok (n, false)
unfolding delete
delete-none key n w h = rw (find_key-lower_bound n.keys key w.sorted, h)

-- `Delete` on a well-formed leaf succeeds, and says whether the key was there. The leaf is
-- well-formed again, without the key, and with every other key as before; it keeps its id and its
-- right sibling, and takes no more bytes.
pub delete-Deleted :
    (key : Bytes) (n : LeafNode)
    → IsLeaf n
    → (n' : LeafNode) × (delete key n ≡ ok (n', is_some (find n key))) × Deleted key n n'
delete-Deleted key n w =
    let held = has_key-find key n w in
    elim (Bool-cases (has_key_at n.keys (lower_bound n.keys key) key)) [
      | inl h ↦ (
        shrunk key n,
        delete-old key n w h ∙ ap (λ b. ok (shrunk key n, b)) (sym h ∙ held),
        shrunk-Deleted key n w h,
      )
      | inr h ↦ (
        n,
        delete-none key n w h ∙ ap (λ b. ok (n, b)) (sym h ∙ held),
        same-Deleted key n w (ground arith),
      )
    ]
