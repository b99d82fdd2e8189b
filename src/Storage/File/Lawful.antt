-- ===== src/Storage/File/Lawful.antt =====
-- internal/storage/file_serializer.go: the blocks of a file, read and written.
use gothinkdb.Prelude.{
  ℕ, zero, suc, ◌+◌, ◌*◌, ◌%◌, ◌^◌, ◌≤◌, ◌<◌, ◌≡◌, ◌≢◌, ◌⊎◌, refl, sym, ap, ◌∙◌, Bool, true, false,
  not, ◌||◌, ltb, ◌==◌, ==_iff, length, if◌then◌else◌, arith, Bool-cases, inl, inr, subst,
}
use gothinkdb.Prelude.Result.{ok, err, ok_eq, require, ◌>>◌}
use gothinkdb.BTree.Bytes.{Bytes}
use gothinkdb.BTree.Codec.{block_size}
use gothinkdb.Storage.Serializer.{Wrote, IsLawful, invalid_block_id}
use gothinkdb.Storage.File.{
  File, FileSerializer, write_at, bytes_from, read_at, is_unknown, block_read, block_write,
  write_block, flush, file_serializer,
}
use gothinkdb.Storage.File.Ranges.{
  byte_at-write_at, byte_at-write_at_apart, bytes_from-same, bytes_from-eq,
}

-- The file has all bytes of the blocks below the next id.
pub record IsSound (s : FileSerializer) : Type 0 where
  pub started : 1 ≤ s.next_id
  pub filled : (s.next_id ≡ 1) ⊎ (s.next_id * block_size ≤ s.file.size)

pub record HasRoom (s : FileSerializer) : Type 0 where
  pub opened : s.closed ≡ false
  pub below : s.next_id + 1 < 2 ^ 32

abbrev pub IsBlock : Bytes → Type 0
IsBlock b = length b ≡ block_size

abbrev pub block_bytes : ℕ → File → Bytes
block_bytes id f = bytes_from f (id * block_size) block_size

-- What `BlockRead` answers.
pub block_read-answer :
    (id : ℕ) (s : FileSerializer)
    → IsSound s
    → block_read id s ≡ (if s.closed || is_unknown id s then err else ok (block_bytes id s.file))
unfolding block_read read_at
block_read-answer id s o = ground arith

block_write-known :
    (id : ℕ) (b : Bytes) (s : FileSerializer)
    → s.closed ≡ false
    → is_unknown id s ≡ false
    → block_write id b s ≡ ok (id, write_block id b s)
unfolding block_write
block_write-known id b s opened known = ground arith

block_write-new :
    (b : Bytes) (s : FileSerializer)
    → HasRoom s
    → block_write invalid_block_id b s
      ≡ ok (s.next_id, write_block s.next_id b (record s { next_id = s.next_id + 1 }))
unfolding block_write
block_write-new b s room =
    let next : (s.next_id + 1) % 2 ^ 32 ≡ s.next_id + 1 = omega (arith, room.below) in
    rw (room.opened, next) refl

disjoint :
    (id j i n : ℕ)
    → n ≡ block_size
    → (id == j) ≡ false
    → i < block_size
    → (j * block_size + i < id * block_size) ⊎ (id * block_size + n ≤ j * block_size + i)
disjoint id j i n sized apart h = elim (Bool-cases (ltb j id)) [
  | inl below ↦ inl (ground arith)
  | inr above ↦ inr (ground arith)
]

-- The bytes of a block after a write of the same block or of another one.
block_bytes-write_at :
    (id j : ℕ) (b : Bytes) (f : File)
    → IsBlock b
    → block_bytes j (write_at (id * block_size) b f) ≡ (if id == j then b else block_bytes j f)
block_bytes-write_at id j b f sized = elim (Bool-cases (id == j)) [
  | inl here ↦ rw here (
      ap (λ k. block_bytes k (write_at (id * block_size) b f)) (sym ((==_iff id j).0 here))
      ∙ ap (bytes_from (write_at (id * block_size) b f) (id * block_size)) (sym sized)
      ∙ bytes_from-eq b (id * block_size) (write_at (id * block_size) b f)
          (λ i x h. byte_at-write_at (id * block_size) i x b f h))
  | inr apart ↦ rw apart (
      bytes_from-same block_size (j * block_size) (write_at (id * block_size) b f) f λ i h.
        byte_at-write_at_apart (id * block_size) (j * block_size + i) b f
          (disjoint id j i (length b) sized apart h))
]

-- What `BlockRead` answers after the write under an id that is known in the state t, which differs
-- from s in the known ids at most by this one.
written_here :
    (id j : ℕ) (b : Bytes) (t : FileSerializer)
    → IsBlock b
    → IsSound (write_block id b t)
    → t.closed ≡ false
    → is_unknown id t ≡ false
    → (id == j) ≡ true
    → block_read j (write_block id b t) ≡ ok b
unfolding write_block
written_here id j b t sized o opened known here =
    let known_j : is_unknown j t ≡ false =
      ap (λ i. is_unknown i t) (sym ((==_iff id j).0 here)) ∙ known in
    block_read-answer j (write_block id b t) o
    ∙ rw (opened, known_j, block_bytes-write_at id j b t.file sized, here) refl

written_apart :
    (id j : ℕ) (b : Bytes) (s t : FileSerializer)
    → IsBlock b
    → IsSound s
    → IsSound (write_block id b t)
    → t.file ≡ s.file
    → t.closed ≡ s.closed
    → is_unknown j t ≡ is_unknown j s
    → (id == j) ≡ false
    → block_read j (write_block id b t) ≡ block_read j s
unfolding write_block
written_apart id j b s t sized o o' same closed known apart =
    block_read-answer j (write_block id b t) o'
    ∙ rw (block_bytes-write_at id j b t.file sized, apart, closed, known, same) refl
    ∙ sym (block_read-answer j s o)

wrote :
    (id : ℕ) (b : Bytes) (s t : FileSerializer)
    → IsBlock b
    → IsSound s
    → IsSound (write_block id b t)
    → t.file ≡ s.file
    → s.closed ≡ false
    → t.closed ≡ false
    → is_unknown id t ≡ false
    → ((j : ℕ) → (id == j) ≡ false → is_unknown j t ≡ is_unknown j s)
    → Wrote file_serializer IsSound id b s (write_block id b t)
wrote id b s t sized o o' same opened open_t known others = record {
  sound = o';
  read = λ j. elim (Bool-cases (id == j)) [
    | inl here ↦ rw here (written_here id j b t sized o' open_t known here)
    | inr apart ↦
        rw apart
          (written_apart id j b s t sized o o' same (open_t ∙ sym opened) (others j apart) apart)
  ];
}

write_block-IsSound :
    (id : ℕ) (b : Bytes) (s : FileSerializer)
    → IsSound s
    → IsBlock b
    → is_unknown id s ≡ false
    → IsSound (write_block id b s)
unfolding write_block write_at
write_block-IsSound id b s o sized known = record {
  started = o.started;
  filled = ground (arith, o.filled);
}

new_block-IsSound :
    (b : Bytes) (s : FileSerializer)
    → IsBlock b
    → IsSound (write_block s.next_id b (record s { next_id = s.next_id + 1 }))
unfolding write_block write_at
new_block-IsSound b s sized = record { started = omega arith; filled = inr (omega (arith, sized)) }

readable :
    (id : ℕ) (old : Bytes) (s : FileSerializer)
    → IsSound s
    → block_read id s ≡ ok old
    → (s.closed ≡ false) × (is_unknown id s ≡ false) × (old ≡ block_bytes id s.file)
readable id old s o h =
    let e = sym (block_read-answer id s o) ∙ h in
    elim (Bool-cases s.closed) [
      | inl shut ↦ cc (rw shut at e)
      | inr opened ↦ elim (Bool-cases (is_unknown id s)) [
        | inl unknown ↦ cc (rw (opened, unknown) at e)
        | inr known ↦ (opened, known, sym (ok_eq (rw (opened, known) at e)))
      ]
    ]

next_is_new : (s : FileSerializer) (old : Bytes) → IsSound s → block_read s.next_id s ≢ ok old
next_is_new s old o there =
    let (_, known, _) = readable s.next_id old s o there in ground (arith, known)

required : (test : Bool) (s s' : FileSerializer) → (require test >> ok s) ≡ ok s' → s ≡ s'
required true s s' h = ok_eq h
required false s s' h = cc

flush-same : (s s' : FileSerializer) → flush s ≡ ok s' → s ≡ s'
unfolding flush
flush-same s s' h = required (not s.closed) s s' h

length-bytes_from : (f : File) (offset n : ℕ) → length (bytes_from f offset n) ≡ n
unfolding bytes_from
length-bytes_from f offset zero = refl
length-bytes_from f offset (suc n) = ap suc (length-bytes_from f (suc offset) n)

-- The file serializer is a lawful store: a block that was written is read back, and no write changes
-- another block. New blocks get ids that were not in use, while there are fewer than 2^32 - 2.
pub file_serializer-IsLawful : IsLawful file_serializer IsBlock IsSound HasRoom
file_serializer-IsLawful = record {
  block_read-block_write = λ id b old s o sized there.
      let (opened, known, _) = readable id old s o there in
      (
        write_block id b s,
        block_write-known id b s opened known,
        wrote id b s s sized o (write_block-IsSound id b s o sized known) refl opened opened known
            (λ j apart. refl),
      );
  allocate = λ b s o sized room.
      let t : FileSerializer = record s { next_id = s.next_id + 1 } in
      (
        s.next_id,
        write_block s.next_id b t,
        block_write-new b s room,
        λ old there. next_is_new s old o there,
        wrote s.next_id b s t sized o (new_block-IsSound b s sized) refl room.opened room.opened
            (ground (arith, o.started)) (λ j apart. ground arith),
      );
  read_IsBlock = λ id b s o there.
      let (_, _, e) = readable id b s o there in
      ap length e ∙ length-bytes_from s.file (id * block_size) block_size;
  flush_keeps = λ s s' o synced.
      let same = flush-same s s' synced in
      (subst IsSound same o, λ j. ap (block_read j) (sym same));
}
