-- ===== src/BTree/Leaf/Weight.antt =====
-- The bytes that a leaf takes when it is written, without the seven at the start.
use gothinkdb.Prelude.{
  ℕ, zero, suc, ◌+◌, ◌≤◌, ◌≡◌, List, [], ◌∷◌, ◌++◌, length, take, drop, set, arith,
}
use gothinkdb.BTree.Bytes.{Bytes}

-- The bytes that the pairs of a leaf take.
unfoldable pub weight : List Bytes → List Bytes → ℕ
weight [] vs = 0
weight (k ∷ ks) [] = 0
weight (k ∷ ks) (v ∷ vs) = 4 + length k + length v + weight ks vs

pub weight-remove :
    (i : ℕ) (ks vs : List Bytes)
    → length vs ≡ length ks
    → weight (take i ks ++ drop (suc i) ks) (take i vs ++ drop (suc i) vs) ≤ weight ks vs
unfolding weight
weight-remove zero [] vs e = omega arith
weight-remove (suc i) [] vs e = omega arith
weight-remove i (k ∷ ks) [] e = absurd (omega arith)
weight-remove zero (k ∷ ks) (v ∷ vs) e = omega arith
weight-remove (suc i) (k ∷ ks) (v ∷ vs) e = omega (arith, weight-remove i ks vs (omega arith))

pub weight-insert :
    (i : ℕ) (key value : Bytes) (ks vs : List Bytes)
    → length vs ≡ length ks
    → weight (take i ks ++ key ∷ drop i ks) (take i vs ++ value ∷ drop i vs)
      ≤ 4 + length key + length value + weight ks vs
unfolding weight
weight-insert zero key value ks vs e = omega arith
weight-insert (suc i) key value [] [] e = omega arith
weight-insert (suc i) key value [] (v ∷ vs) e = absurd (omega arith)
weight-insert (suc i) key value (k ∷ ks) [] e = absurd (omega arith)
weight-insert (suc i) key value (k ∷ ks) (v ∷ vs) e =
    omega (arith, weight-insert i key value ks vs (omega arith))

pub weight-set :
    (i : ℕ) (value : Bytes) (ks vs : List Bytes)
    → weight ks (set vs i value) ≤ length value + weight ks vs
unfolding weight
weight-set i value [] vs = omega arith
weight-set i value (k ∷ ks) [] = omega arith
weight-set zero value (k ∷ ks) (v ∷ vs) = omega arith
weight-set (suc i) value (k ∷ ks) (v ∷ vs) = omega (arith, weight-set i value ks vs)
