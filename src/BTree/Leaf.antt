-- ===== src/BTree/Leaf.antt =====
-- internal/btree/node.go: leaf nodes. The keys and the values are two slices, as in the source.
pub mod Lookup
pub mod Weight
pub mod Laws
pub mod Halves
use gothinkdb.Prelude.{
  ℕ, ◌+◌, ◌-◌, ◌/◌, ◌%◌, ◌^◌, Bool, true, false, not, ◌&&◌, ◌||◌, Option, some, none, List, [], ◌∷◌,
  ◌++◌, ltb, leb, length, get_elem?, set, take, drop, if◌then◌else◌,
}
use gothinkdb.Prelude.Result.{Result, ok, err, panic, ◌>>=◌, ◌>>◌, or_panic, require}
use gothinkdb.BTree.Bytes.{Bytes, bytes_equal}
use gothinkdb.BTree.Search.{find_key}

abbrev pub invalid_block_id : ℕ
invalid_block_id = 0

abbrev pub max_leaf_keys : ℕ
max_leaf_keys = 50

-- `uint16(n)`
abbrev pub to_u16 : ℕ → ℕ
to_u16 n = n % 2 ^ 16

-- A `LeafNode` with its `Node`; the node type is the constant 1 of every leaf.
pub record LeafNode : Type 0 where
  pub block_id : ℕ
  pub num_keys : ℕ
  pub keys : List Bytes
  pub values : List Bytes
  pub right : ℕ

unfoldable pub new_leaf_node : ℕ → LeafNode
new_leaf_node block_id = record {
  block_id = block_id;
  num_keys = 0;
  keys = [];
  values = [];
  right = invalid_block_id;
}

unfoldable pub is_full : LeafNode → Bool
is_full n = leb max_leaf_keys (length n.keys)

-- `MinLeafKeys` is 25.
unfoldable pub is_underflow : LeafNode → Bool
is_underflow n = ltb (length n.keys) (max_leaf_keys / 2)

-- keys[pos] is there and is the key.
unfoldable pub has_key_at : List Bytes → ℕ → Bytes → Bool
has_key_at keys pos key = elim (get_elem? keys pos) [ none ↦ false | some k ↦ bytes_equal k key ]

-- `s = append(s, nil); copy(s[pos+1:], s[pos:]); s[pos] = x`
unfoldable pub insert_at {ℓ} : {A : Type ℓ} → ℕ → A → List A → Result (List A)
insert_at pos x s = if leb pos (length s) then ok (take pos s ++ x ∷ drop pos s) else panic

-- `append(s[:pos], s[pos+1:]...)`
unfoldable pub remove_at {ℓ} : {A : Type ℓ} → ℕ → List A → Result (List A)
remove_at pos s = if ltb pos (length s) then ok (take pos s ++ drop (pos + 1) s) else panic

-- `s[pos] = x`
unfoldable pub set_at {ℓ} : {A : Type ℓ} → ℕ → A → List A → Result (List A)
set_at pos x s = if ltb pos (length s) then ok (set s pos x) else panic

-- The two branches of `Insert`: the key is there, or it is new.
unfoldable pub update_value : ℕ → Bytes → LeafNode → Result LeafNode
update_value pos value n = do values ← set_at pos value n.values; ok (record n { values = values })

unfoldable pub insert_new : ℕ → Bytes → Bytes → LeafNode → Result LeafNode
insert_new pos key value n = do
  keys ← insert_at pos key n.keys
  values ← insert_at pos value n.values
  ok (record n { keys = keys; values = values; num_keys = to_u16 (n.num_keys + 1) })

-- `Insert`
unfoldable pub insert : Bytes → Bytes → LeafNode → Result LeafNode
insert key value n = do
  require (not (is_full n))
  pos ← find_key n.keys key
  if has_key_at n.keys pos key then update_value pos value n else insert_new pos key value n

unfoldable pub remove_pair : ℕ → LeafNode → Result LeafNode
remove_pair pos n = do
  keys ← remove_at pos n.keys
  values ← remove_at pos n.values
  ok (record n { keys = keys; values = values; num_keys = to_u16 (n.num_keys + 2 ^ 16 - 1) })

abbrev pub with_flag : Bool → Result LeafNode → Result (LeafNode × Bool)
with_flag b m = m >>= λ n. ok (n, b)

-- `Delete`; the flag says whether the key was there.
unfoldable pub delete : Bytes → LeafNode → Result (LeafNode × Bool)
delete key n = do
  pos ← find_key n.keys key
  if has_key_at n.keys pos key then with_flag true (remove_pair pos n) else ok (n, false)

-- `values[pos]`
unfoldable pub value_at : ℕ → LeafNode → Result (Option Bytes)
value_at pos n = or_panic (get_elem? n.values pos) >>= λ v. ok (some v)

-- `Get`; `none` is the flag false.
unfoldable pub get : Bytes → LeafNode → Result (Option Bytes)
get key n = do
  pos ← find_key n.keys key
  if has_key_at n.keys pos key then value_at pos n else ok none

-- `Split`: the left half stays in the node, the right one goes to a new node.
unfoldable pub split : ℕ → LeafNode → LeafNode × LeafNode
split new_block_id n = (
  record n {
    right = new_block_id;
    keys = take (length n.keys / 2) n.keys;
    values = take (length n.keys / 2) n.values;
    num_keys = to_u16 (length (take (length n.keys / 2) n.keys));
  },
  record {
    block_id = new_block_id;
    right = n.right;
    keys = drop (length n.keys / 2) n.keys;
    values = drop (length n.keys / 2) n.values;
    num_keys = to_u16 (length (drop (length n.keys / 2) n.keys));
  },
)
