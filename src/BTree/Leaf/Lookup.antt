-- ===== src/BTree/Leaf/Lookup.antt =====
-- A leaf as a finite map: what `Insert`, `Delete`, `Get` and `Split` do to it.
use gothinkdb.Prelude.{
  ℕ, zero, suc, ◌≡◌, refl, true, false, Option, some, none, List, [], ◌∷◌, ◌++◌, length, get_elem?,
  take, drop, set, if◌then◌else◌, arith, Bool-cases, inl, inr,
}
use gothinkdb.Prelude.Result.{ok, or_panic, ◌>>=◌}
use gothinkdb.BTree.Bytes.{
  Bytes, key_lt, key_lt_irrefl, key_lt_total, bytes_equal, bytes_equal→eq, bytes_equal_refl,
}
use gothinkdb.BTree.Search.{prefix_length}
use gothinkdb.BTree.Sorted.{AllAbove, IsSorted, lower_bound, AllAbove-trans}
use gothinkdb.BTree.Leaf.{has_key_at}

-- The value of a key in two parallel lists: the reference, which reads from the left.
unfoldable pub lookup : List Bytes → List Bytes → Bytes → Option Bytes
lookup [] vs key = none
lookup (k ∷ ks) [] key = none
lookup (k ∷ ks) (v ∷ vs) key = if bytes_equal k key then some v else lookup ks vs key

bytes_equal-lt : (a b : Bytes) → key_lt a b ≡ true → bytes_equal a b ≡ false
bytes_equal-lt a b h = ground (arith, bytes_equal→eq a b, key_lt_irrefl a)

bytes_equal-gt : (a b : Bytes) → key_lt b a ≡ true → bytes_equal a b ≡ false
bytes_equal-gt a b h = ground (arith, bytes_equal→eq a b, key_lt_irrefl a)

-- A key that is neither below another nor the same is above it.
pub key_lt-other : (a b : Bytes) → key_lt a b ≡ false → bytes_equal a b ≡ false → key_lt b a ≡ true
key_lt-other a b h k = ground (arith, key_lt_total a b, bytes_equal_refl a)

-- A key below all keys of a list is not in it.
pub lookup-below : (key : Bytes) (ks vs : List Bytes) → AllAbove key ks → lookup ks vs key ≡ none
unfolding lookup
lookup-below key [] vs h = refl
lookup-below key (k ∷ ks) [] h = refl
lookup-below key (k ∷ ks) (v ∷ vs) h =
    ground (arith, bytes_equal-gt k key h.0, lookup-below key ks vs h.1)

lookup-first :
    (key k : Bytes) (ks vs : List Bytes)
    → AllAbove k ks
    → key_lt k key ≡ false
    → bytes_equal k key ≡ false
    → lookup ks vs key ≡ none
lookup-first key k ks vs h p q =
    lookup-below key ks vs (AllAbove-trans key k ks (key_lt-other k key p q) h)

-- What `Get` returns, once the position is known to be the lower bound.
pub value-lookup :
    (ks vs : List Bytes) (key : Bytes)
    → IsSorted ks
    → length vs ≡ length ks
    → (if has_key_at ks (lower_bound ks key) key
        then (or_panic (get_elem? vs (lower_bound ks key)) >>= λ v. ok (some v))
        else ok none)
      ≡ ok (lookup ks vs key)
unfolding lookup has_key_at prefix_length
value-lookup [] vs key s e = refl
value-lookup (k ∷ ks) [] key s e = absurd (omega arith)
value-lookup (k ∷ ks) (v ∷ vs) key s e =
    ground (arith, bytes_equal-lt k key, lookup-first key k ks vs s.0, value-lookup ks vs key s.1)

-- Writing the value at the position of the key.
pub lookup-set :
    (ks vs : List Bytes) (key value j : Bytes)
    → length vs ≡ length ks
    → has_key_at ks (lower_bound ks key) key ≡ true
    → lookup ks (set vs (lower_bound ks key) value) j
      ≡ (if bytes_equal key j then some value else lookup ks vs j)
unfolding lookup has_key_at prefix_length
lookup-set [] vs key value j e h = cc
lookup-set (k ∷ ks) [] key value j e h = absurd (omega arith)
lookup-set (k ∷ ks) (v ∷ vs) key value j e h = ground (
  arith,
  bytes_equal→eq k key,
  bytes_equal→eq k j,
  bytes_equal→eq key j,
  key_lt_irrefl key,
  lookup-set ks vs key value j,
)

-- Putting the key and the value in at the lower bound.
pub lookup-insert :
    (ks vs : List Bytes) (key value j : Bytes)
    → length vs ≡ length ks
    → lookup
        (take (lower_bound ks key) ks ++ key ∷ drop (lower_bound ks key) ks)
        (take (lower_bound ks key) vs ++ value ∷ drop (lower_bound ks key) vs)
        j
      ≡ (if bytes_equal key j then some value else lookup ks vs j)
unfolding lookup prefix_length
lookup-insert [] [] key value j e = refl
lookup-insert [] (v ∷ vs) key value j e = absurd (omega arith)
lookup-insert (k ∷ ks) [] key value j e = absurd (omega arith)
lookup-insert (k ∷ ks) (v ∷ vs) key value j e = ground (
  arith,
  bytes_equal→eq k j,
  bytes_equal→eq key j,
  key_lt_irrefl key,
  lookup-insert ks vs key value j,
)

-- Taking the key and its value out.
pub lookup-remove :
    (ks vs : List Bytes) (key j : Bytes)
    → IsSorted ks
    → length vs ≡ length ks
    → has_key_at ks (lower_bound ks key) key ≡ true
    → lookup
        (take (lower_bound ks key) ks ++ drop (suc (lower_bound ks key)) ks)
        (take (lower_bound ks key) vs ++ drop (suc (lower_bound ks key)) vs)
        j
      ≡ (if bytes_equal key j then none else lookup ks vs j)
unfolding lookup has_key_at prefix_length
lookup-remove [] vs key j s e h = cc
lookup-remove (k ∷ ks) [] key j s e h = absurd (omega arith)
lookup-remove (k ∷ ks) (v ∷ vs) key j s e h = ground (
  arith,
  bytes_equal→eq k key,
  bytes_equal→eq k j,
  bytes_equal→eq key j,
  key_lt_irrefl key,
  lookup-below k ks vs s.0,
  lookup-remove ks vs key j s.1,
)

AllAbove-insert :
    (n : ℕ) (b key : Bytes) (ks : List Bytes)
    → AllAbove b ks
    → key_lt b key ≡ true
    → AllAbove b (take n ks ++ key ∷ drop n ks)
AllAbove-insert zero b key ks h p = (p, h)
AllAbove-insert (suc n) b key [] h p = (p, tt)
AllAbove-insert (suc n) b key (k ∷ ks) h p = (h.0, AllAbove-insert n b key ks h.1 p)

AllAbove-remove :
    (n : ℕ) (b : Bytes) (ks : List Bytes)
    → AllAbove b ks
    → AllAbove b (take n ks ++ drop (suc n) ks)
AllAbove-remove zero b [] h = tt
AllAbove-remove zero b (k ∷ ks) h = h.1
AllAbove-remove (suc n) b [] h = tt
AllAbove-remove (suc n) b (k ∷ ks) h = (h.0, AllAbove-remove n b ks h.1)

pub IsSorted-remove :
    (n : ℕ) (ks : List Bytes) → IsSorted ks → IsSorted (take n ks ++ drop (suc n) ks)
IsSorted-remove zero [] h = tt
IsSorted-remove zero (k ∷ ks) h = h.1
IsSorted-remove (suc n) [] h = tt
IsSorted-remove (suc n) (k ∷ ks) h = (AllAbove-remove n k ks h.0, IsSorted-remove n ks h.1)

pub IsSorted-insert :
    (ks : List Bytes) (key : Bytes)
    → IsSorted ks
    → has_key_at ks (lower_bound ks key) key ≡ false
    → IsSorted (take (lower_bound ks key) ks ++ key ∷ drop (lower_bound ks key) ks)
unfolding has_key_at prefix_length
IsSorted-insert [] key s h = (tt, tt)
IsSorted-insert (k ∷ ks) key s h = elim (Bool-cases (key_lt k key)) [
  | inl p ↦
      rw (p, prefix_length)
        (
          AllAbove-insert (lower_bound ks key) k key ks s.0 p,
          IsSorted-insert ks key s.1 (ground arith),
        )
  | inr p ↦
      let above = key_lt-other k key p (ground arith) in
      rw p ((above, AllAbove-trans key k ks above s.0), s)
]
