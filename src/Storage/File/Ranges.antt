-- ===== src/Storage/File/Ranges.antt =====
-- internal/storage/file_serializer.go: the bytes of a file after a write.
use gothinkdb.Prelude.{
  ℕ, zero, suc, ◌+◌, ◌-◌, ◌≤◌, ◌<◌, ◌≡◌, refl, ap, ◌∙◌, none, some, [], ◌∷◌, length, get_elem?,
  arith, ◌⊎◌,
}
use gothinkdb.BTree.Bytes.{Bytes}
use gothinkdb.Storage.File.{File, byte_at, write_at, bytes_from}

pub get_elem?-past : (xs : Bytes) (i : ℕ) → length xs ≤ i → get_elem? xs i ≡ none
get_elem?-past [] i h = refl
get_elem?-past (x ∷ xs) zero h = absurd (omega arith)
get_elem?-past (x ∷ xs) (suc i) h = get_elem?-past xs i (omega arith)

pub in_range : (xs : Bytes) (i x : ℕ) → get_elem? xs i ≡ some x → i < length xs
in_range [] i x h = cc
in_range (y ∷ xs) zero x h = omega arith
in_range (y ∷ xs) (suc i) x h = omega (arith, in_range xs i x h)

-- A written byte.
pub byte_at-write_at :
    (offset i x : ℕ) (bytes : Bytes) (f : File)
    → get_elem? bytes i ≡ some x
    → byte_at (write_at offset bytes f) (offset + i) ≡ x
unfolding byte_at write_at
byte_at-write_at offset i x bytes f h =
    let e : (offset + i) - offset ≡ i = omega arith in
    let within : i < length bytes = in_range bytes i x h in rw e (ground (arith, h))

-- A byte before or after the ones that are written.
pub byte_at-write_at_apart :
    (offset i : ℕ) (bytes : Bytes) (f : File)
    → (i < offset) ⊎ (offset + length bytes ≤ i)
    → byte_at (write_at offset bytes f) i ≡ byte_at f i
unfolding byte_at write_at
byte_at-write_at_apart offset i bytes f h = ground (arith, get_elem?-past bytes (i - offset))

pub bytes_from-same :
    (n offset : ℕ) (f g : File)
    → ((i : ℕ) → i < n → byte_at f (offset + i) ≡ byte_at g (offset + i))
    → bytes_from f offset n ≡ bytes_from g offset n
unfolding bytes_from
bytes_from-same zero offset f g h = refl
bytes_from-same (suc n) offset f g h =
    let first : byte_at f offset ≡ byte_at g offset =
      ap (byte_at f) (omega arith) ∙ h 0 (omega arith) ∙ ap (byte_at g) (omega arith) in
    let rest = bytes_from-same n (suc offset) f g λ i k.
      ap (byte_at f) (omega arith) ∙ h (suc i) (omega arith) ∙ ap (byte_at g) (omega arith) in
    cc (first, rest)

-- The bytes that were written are there.
pub bytes_from-eq :
    (bytes : Bytes) (offset : ℕ) (f : File)
    → ((i x : ℕ) → get_elem? bytes i ≡ some x → byte_at f (offset + i) ≡ x)
    → bytes_from f offset (length bytes) ≡ bytes
unfolding bytes_from
bytes_from-eq [] offset f h = refl
bytes_from-eq (x ∷ bytes) offset f h =
    let first : byte_at f offset ≡ x = ap (byte_at f) (omega arith) ∙ h 0 x refl in
    let rest =
      bytes_from-eq bytes (suc offset) f λ i y k. ap (byte_at f) (omega arith) ∙ h (suc i) y k in
    cc (first, rest)
