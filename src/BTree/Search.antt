-- ===== src/BTree/Search.antt =====
-- internal/btree/node.go: the binary search of `findKey` and `FindChild`, which are one loop with
-- two tests.
use gothinkdb.Prelude.{
  ℕ, zero, suc, ◌+◌, ◌-◌, ◌/◌, ◌≤◌, ◌<◌, ◌≡◌, Bool, false, some, List, [], ◌∷◌, ltb, length,
  get_elem?, if◌then◌else◌, arith, Bool-cases, inl, inr, get_elem?-some,
}
use gothinkdb.Prelude.Result.{Result, ok, panic, ◌>>=◌, or_panic}
use gothinkdb.BTree.Bytes.{Bytes, key_lt, key_le}

-- `for low < high { mid := (low + high) / 2; … }`, with fuel. `before` is the test of keys[mid];
-- `panic` is an index out of range, or no fuel.
unfoldable pub search_loop : (Bytes → Bool) → List Bytes → ℕ → ℕ → ℕ → Result ℕ
search_loop before keys zero low high = panic
search_loop before keys (suc fuel) low high =
    let mid = (low + high) / 2 in
    let right = search_loop before keys fuel (mid + 1) high in
    let left = search_loop before keys fuel low mid in
    let next = or_panic (get_elem? keys mid) >>= λ k. if before k then right else left in
    if ltb low high then next else ok low

-- One round more than there are keys.
unfoldable pub binary_search : (Bytes → Bool) → List Bytes → Result ℕ
unfolding search_loop
binary_search before keys = search_loop before keys (length keys + 1) 0 (length keys)

-- `findKey`
unfoldable pub find_key : List Bytes → Bytes → Result ℕ
find_key keys key = binary_search (λ k. key_lt k key) keys

-- `FindChild`
unfoldable pub find_child : List Bytes → Bytes → Result ℕ
find_child keys key = binary_search (λ k. key_le k key) keys

-- The number of keys before the first one that fails the test.
unfoldable pub prefix_length : (Bytes → Bool) → List Bytes → ℕ
prefix_length before [] = 0
prefix_length before (k ∷ ks) =
    let rest = prefix_length before ks in if before k then suc rest else 0

-- Behind a key that fails the test, every key fails it.
abbrev pub AllFail : (Bytes → Bool) → List Bytes → Type 0
AllFail before [] = Unit {0}
AllFail before (k ∷ ks) = (before k ≡ false) × AllFail before ks

abbrev pub IsSplit : (Bytes → Bool) → List Bytes → Type 0
IsSplit before [] = Unit {0}
IsSplit before (k ∷ ks) = (before k ≡ false → AllFail before ks) × IsSplit before ks

pub prefix_length-le :
    (before : Bytes → Bool) (keys : List Bytes) → prefix_length before keys ≤ length keys
unfolding prefix_length
prefix_length-le before [] = omega arith
prefix_length-le before (k ∷ ks) = ground (arith, prefix_length-le before ks)

AllFail-get :
    (before : Bytes → Bool) (keys : List Bytes) (i : ℕ) (k : Bytes)
    → AllFail before keys
    → get_elem? keys i ≡ some k
    → before k ≡ false
AllFail-get before [] i k h e = cc
AllFail-get before (x ∷ ks) zero k h e = ground arith
AllFail-get before (x ∷ ks) (suc i) k h e = AllFail-get before ks i k h.1 e

-- The test of the key at a position tells on which side of the boundary the position is.
test-prefix_length :
    (before : Bytes → Bool) (keys : List Bytes) (i : ℕ) (k : Bytes)
    → IsSplit before keys
    → get_elem? keys i ≡ some k
    → before k ≡ ltb i (prefix_length before keys)
unfolding prefix_length
test-prefix_length before [] i k h e = cc
test-prefix_length before (x ∷ ks) zero k h e = ground arith
test-prefix_length before (x ∷ ks) (suc i) k h e = ground (
  arith,
  test-prefix_length before ks i k h.1 e,
  λ (p : before x ≡ false). AllFail-get before ks i k (h.0 p) e,
)

search_loop-prefix :
    (before : Bytes → Bool) (keys : List Bytes) (fuel low high : ℕ)
    → IsSplit before keys
    → high - low < fuel
    → low ≤ prefix_length before keys
    → prefix_length before keys ≤ high
    → high ≤ length keys
    → search_loop before keys fuel low high ≡ ok (prefix_length before keys)
unfolding search_loop
search_loop-prefix before keys zero low high s f l h n = absurd (omega arith)
search_loop-prefix before keys (suc fuel) low high s f l h n = elim (Bool-cases (ltb low high)) [
  | inr done ↦ rw done (ground arith)
  | inl more ↦
      let (k, e) = get_elem?-some keys ((low + high) / 2) (ground arith) in
      let side = test-prefix_length before keys ((low + high) / 2) k s e in
      elim (Bool-cases (before k)) [
        | inl p ↦
            rw (more, e, p)
              (search_loop-prefix before keys fuel ((low + high) / 2 + 1) high s (ground arith)
                (ground arith) h n)
        | inr p ↦
            rw (more, e, p)
              (search_loop-prefix before keys fuel low ((low + high) / 2) s (ground arith) l
                (ground arith) (ground arith))
      ]
]

-- On keys that a test splits into a front and a back, the binary search ends, reads no index out of
-- range, and returns the length of the front.
pub binary_search-prefix :
    (before : Bytes → Bool) (keys : List Bytes)
    → IsSplit before keys
    → binary_search before keys ≡ ok (prefix_length before keys)
unfolding binary_search
binary_search-prefix before keys s =
    search_loop-prefix before keys (length keys + 1) 0 (length keys) s (omega arith) (omega arith)
      (prefix_length-le before keys) (omega arith)
