-- ===== src/BTree/Sorted.antt =====
-- Sorted keys, and what the two searches return on them.
use gothinkdb.Prelude.{ℕ, zero, suc, ◌≡◌, true, false, List, [], ◌∷◌, take, drop, arith}
use gothinkdb.Prelude.Result.{ok}
use gothinkdb.BTree.Bytes.{Bytes, key_lt, key_le, key_lt_above, key_lt_trans}
use gothinkdb.BTree.Search.{
  AllFail, IsSplit, prefix_length, binary_search-prefix, find_key, find_child,
}

-- Every key of the list is above the bound.
abbrev pub AllAbove : Bytes → List Bytes → Type 0
AllAbove b [] = Unit {0}
AllAbove b (k ∷ ks) = (key_lt b k ≡ true) × AllAbove b ks

-- Strictly rising keys.
abbrev pub IsSorted : List Bytes → Type 0
IsSorted [] = Unit {0}
IsSorted (k ∷ ks) = AllAbove k ks × IsSorted ks

-- Where a new key goes: the number of keys below it.
abbrev pub lower_bound : List Bytes → Bytes → ℕ
lower_bound keys key = prefix_length (λ k. key_lt k key) keys

-- The number of keys that are not above it.
abbrev pub upper_bound : List Bytes → Bytes → ℕ
upper_bound keys key = prefix_length (λ k. key_le k key) keys

AllAbove-AllFail_lt :
    (b key : Bytes) (ks : List Bytes)
    → AllAbove b ks
    → key_lt b key ≡ false
    → AllFail (λ k. key_lt k key) ks
AllAbove-AllFail_lt b key [] h p = tt
AllAbove-AllFail_lt b key (k ∷ ks) h p =
    (key_lt_above b k key h.0 p, AllAbove-AllFail_lt b key ks h.1 p)

AllAbove-AllFail_le :
    (b key : Bytes) (ks : List Bytes)
    → AllAbove b ks
    → key_le b key ≡ false
    → AllFail (λ k. key_le k key) ks
AllAbove-AllFail_le b key [] h p = tt
AllAbove-AllFail_le b key (k ∷ ks) h p =
    (ground (arith, key_lt_trans key b k), AllAbove-AllFail_le b key ks h.1 p)

IsSorted-IsSplit_lt : (key : Bytes) (ks : List Bytes) → IsSorted ks → IsSplit (λ k. key_lt k key) ks
IsSorted-IsSplit_lt key [] h = tt
IsSorted-IsSplit_lt key (k ∷ ks) h =
    (λ p. AllAbove-AllFail_lt k key ks h.0 p, IsSorted-IsSplit_lt key ks h.1)

IsSorted-IsSplit_le : (key : Bytes) (ks : List Bytes) → IsSorted ks → IsSplit (λ k. key_le k key) ks
IsSorted-IsSplit_le key [] h = tt
IsSorted-IsSplit_le key (k ∷ ks) h =
    (λ p. AllAbove-AllFail_le k key ks h.0 p, IsSorted-IsSplit_le key ks h.1)

-- On rising keys `findKey` returns the number of keys below the given one.
pub find_key-lower_bound :
    (keys : List Bytes) (key : Bytes)
    → IsSorted keys
    → find_key keys key ≡ ok (lower_bound keys key)
unfolding find_key
find_key-lower_bound keys key s =
    binary_search-prefix (λ k. key_lt k key) keys (IsSorted-IsSplit_lt key keys s)

-- On rising keys `FindChild` returns the number of keys that are not above the given one.
pub find_child-upper_bound :
    (keys : List Bytes) (key : Bytes)
    → IsSorted keys
    → find_child keys key ≡ ok (upper_bound keys key)
unfolding find_child
find_child-upper_bound keys key s =
    binary_search-prefix (λ k. key_le k key) keys (IsSorted-IsSplit_le key keys s)

pub AllAbove-trans :
    (a b : Bytes) (ks : List Bytes) → key_lt a b ≡ true → AllAbove b ks → AllAbove a ks
AllAbove-trans a b [] h k = tt
AllAbove-trans a b (x ∷ ks) h k = (key_lt_trans a b x h k.0, AllAbove-trans a b ks h k.1)

pub AllAbove-take : (n : ℕ) (b : Bytes) (ks : List Bytes) → AllAbove b ks → AllAbove b (take n ks)
AllAbove-take zero b ks h = tt
AllAbove-take (suc n) b [] h = tt
AllAbove-take (suc n) b (k ∷ ks) h = (h.0, AllAbove-take n b ks h.1)

pub AllAbove-drop : (n : ℕ) (b : Bytes) (ks : List Bytes) → AllAbove b ks → AllAbove b (drop n ks)
AllAbove-drop zero b ks h = h
AllAbove-drop (suc n) b [] h = tt
AllAbove-drop (suc n) b (k ∷ ks) h = AllAbove-drop n b ks h.1

pub IsSorted-take : (n : ℕ) (ks : List Bytes) → IsSorted ks → IsSorted (take n ks)
IsSorted-take zero ks h = tt
IsSorted-take (suc n) [] h = tt
IsSorted-take (suc n) (k ∷ ks) h = (AllAbove-take n k ks h.0, IsSorted-take n ks h.1)

pub IsSorted-drop : (n : ℕ) (ks : List Bytes) → IsSorted ks → IsSorted (drop n ks)
IsSorted-drop zero ks h = h
IsSorted-drop (suc n) [] h = tt
IsSorted-drop (suc n) (k ∷ ks) h = IsSorted-drop n ks h.1
