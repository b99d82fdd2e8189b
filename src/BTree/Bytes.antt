-- ===== src/BTree/Bytes.antt =====
-- `bytes.Compare` and `bytes.Equal` of Go's standard library, on lists of bytes.
use gothinkdb.Prelude.{
  ℕ, ◌≡◌, refl, Bool, true, false, not, ◌&&◌, List, [], ◌∷◌, ◌==◌, if◌then◌else◌, arith, ltb,
}

abbrev pub Bytes : Type 0
Bytes = List ℕ

-- `bytes.Compare(a, b) < 0`: the lexicographic order.
unfoldable pub key_lt : Bytes → Bytes → Bool
key_lt a [] = false
key_lt [] (y ∷ ys) = true
key_lt (x ∷ xs) (y ∷ ys) = let rest = key_lt xs ys in if x == y then rest else ltb x y

-- `bytes.Compare(a, b) <= 0`
abbrev pub key_le : Bytes → Bytes → Bool
key_le a b = not (key_lt b a)

-- `bytes.Equal(a, b)`
unfoldable pub bytes_equal : Bytes → Bytes → Bool
bytes_equal [] [] = true
bytes_equal [] (y ∷ ys) = false
bytes_equal (x ∷ xs) [] = false
bytes_equal (x ∷ xs) (y ∷ ys) = x == y && bytes_equal xs ys

pub bytes_equal→eq : (a b : Bytes) → bytes_equal a b ≡ true → a ≡ b
unfolding bytes_equal
bytes_equal→eq [] [] h = refl
bytes_equal→eq [] (y ∷ ys) h = cc
bytes_equal→eq (x ∷ xs) [] h = cc
bytes_equal→eq (x ∷ xs) (y ∷ ys) h = ground (arith, bytes_equal→eq xs ys)

pub bytes_equal_refl : (a : Bytes) → bytes_equal a a ≡ true
unfolding bytes_equal
bytes_equal_refl [] = refl
bytes_equal_refl (x ∷ xs) = ground (arith, bytes_equal_refl xs)

pub key_lt_irrefl : (a : Bytes) → key_lt a a ≡ false
unfolding key_lt
key_lt_irrefl [] = refl
key_lt_irrefl (x ∷ xs) = ground (arith, key_lt_irrefl xs)

pub key_lt_trans : (a b c : Bytes) → key_lt a b ≡ true → key_lt b c ≡ true → key_lt a c ≡ true
unfolding key_lt
key_lt_trans a b [] h k = cc
key_lt_trans a [] (z ∷ zs) h k = cc
key_lt_trans [] (y ∷ ys) (z ∷ zs) h k = refl
key_lt_trans (x ∷ xs) (y ∷ ys) (z ∷ zs) h k = ground (arith, key_lt_trans xs ys zs)

-- Of two keys, one is below the other or they are the same.
pub key_lt_total : (a b : Bytes) → key_lt a b ≡ false → key_lt b a ≡ false → a ≡ b
unfolding key_lt
key_lt_total [] [] h k = refl
key_lt_total [] (y ∷ ys) h k = cc
key_lt_total (x ∷ xs) [] h k = cc
key_lt_total (x ∷ xs) (y ∷ ys) h k = ground (arith, key_lt_total xs ys)

pub key_lt_asym : (a b : Bytes) → key_lt a b ≡ true → key_lt b a ≡ false
unfolding key_lt
key_lt_asym a [] h = cc
key_lt_asym [] (y ∷ ys) h = refl
key_lt_asym (x ∷ xs) (y ∷ ys) h = ground (arith, key_lt_asym xs ys)

-- Above a key that is not below c, nothing is below c.
pub key_lt_above : (a b c : Bytes) → key_lt a b ≡ true → key_lt a c ≡ false → key_lt b c ≡ false
unfolding key_lt
key_lt_above a [] c h k = cc
key_lt_above a (y ∷ ys) [] h k = refl
key_lt_above [] (y ∷ ys) (z ∷ zs) h k = cc
key_lt_above (x ∷ xs) (y ∷ ys) (z ∷ zs) h k = ground (arith, key_lt_above xs ys zs)
