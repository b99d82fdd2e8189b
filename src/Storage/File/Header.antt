-- ===== src/Storage/File/Header.antt =====
-- internal/storage/file_serializer.go: the header at the start of the file.
use gothinkdb.Prelude.{
  ℕ, zero, suc, ◌+◌, ◌*◌, ◌^◌, ◌≤◌, ◌<◌, ◌≡◌, refl, sym, ap, ◌∙◌, true, false, ◌||◌, some, [], ltb,
  leb, ◌==◌, length, get_elem?, arith, inl,
}
use gothinkdb.Prelude.Result.{ok}
use gothinkdb.BTree.Bytes.{Bytes}
use gothinkdb.BTree.Codec.{block_size, put_u32, get_u32}
use gothinkdb.BTree.Codec.Words.{get_u32-put_u32}
use gothinkdb.Storage.File.{
  File, FileSerializer, byte_at, write_at, bytes_from, read_at, block_read, write_header,
  read_header, to_u32, is_unknown,
}
use gothinkdb.Storage.File.Ranges.{
  byte_at-write_at, byte_at-write_at_apart, bytes_from-same, bytes_from-eq,
}
use gothinkdb.Storage.File.Lawful.{IsSound, block_read-answer, block_bytes}

-- The file with the header.
abbrev headed : Bytes → File → File
headed header f = write_at 4 header (write_at 0 (put_u32 (to_u32 (length header)) []) f)

abbrev headed_serializer : Bytes → FileSerializer → FileSerializer
headed_serializer header s = record s { file = headed header s.file }

write_header-headed :
    (header : Bytes) (s : FileSerializer)
    → s.closed ≡ false
    → write_header header s ≡ ok (headed_serializer header s)
unfolding write_header
write_header-headed header s opened = rw opened refl

length-put_u32 : (n : ℕ) → length (put_u32 n []) ≡ 4
unfolding put_u32
length-put_u32 n = refl

size_bytes :
    (header : Bytes) (f : File)
    → bytes_from (headed header f) 0 4 ≡ put_u32 (to_u32 (length header)) []
size_bytes header f =
    let word = put_u32 (to_u32 (length header)) [] in
    bytes_from-same 4 0 (headed header f) (write_at 0 word f)
      (λ i h. byte_at-write_at_apart 4 (0 + i) header (write_at 0 word f) (inl (omega arith)))
    ∙ ap (bytes_from (write_at 0 word f) 0) (sym (length-put_u32 (to_u32 (length header))))
    ∙ bytes_from-eq word 0 (write_at 0 word f) (λ i x h. byte_at-write_at 0 i x word f h)

header_bytes : (header : Bytes) (f : File) → bytes_from (headed header f) 4 (length header) ≡ header
header_bytes header f =
    let inner = write_at 0 (put_u32 (to_u32 (length header)) []) f in
    bytes_from-eq header 4 (headed header f) (λ i x h. byte_at-write_at 4 i x header inner h)

headed_size : (header : Bytes) (f : File) → 4 + length header ≤ (headed header f).size
unfolding write_at
headed_size header f = omega arith

size_read :
    (header : Bytes) (f : File)
    → length header < 2 ^ 32
    → (get_u32 (bytes_from (headed header f) 0 4)).0 ≡ length header
size_read header f h =
    let small : to_u32 (length header) ≡ length header = omega arith in
    ap (λ b. (get_u32 b).0) (size_bytes header f ∙ ap (λ n. put_u32 n []) small)
    ∙ ap (λ r. r.0) (get_u32-put_u32 (length header) [] h)

-- A header of one byte or more, and of at most a megabyte, is read back as it was written, by an
-- open serializer.
pub read_header-write_header :
    (header : Bytes) (s : FileSerializer)
    → s.closed ≡ false
    → 0 < length header
    → length header ≤ 1024 * 1024
    → (s' : FileSerializer) × (write_header header s ≡ ok s') × (read_header s' ≡ ok header)
unfolding read_header read_at
read_header-write_header header s opened some_bytes small =
    let f = headed header s.file in
    let size = headed_size header s.file in
    let four : leb 4 f.size ≡ true = ground (arith, size) in
    let inside : leb f.size 4 ≡ false = ground (arith, size) in
    let allowed : (length header == 0 || ltb (1024 * 1024) (length header)) ≡ false =
      ground arith in
    (
      headed_serializer header s,
      write_header-headed header s opened,
      rw (opened, four, size_read header s.file (omega arith), allowed, inside)
          (ap ok (header_bytes header s.file)),
    )

first_byte :
    (f : File) (offset n : ℕ)
    → 0 < n
    → get_elem? (bytes_from f offset n) 0 ≡ some (byte_at f offset)
unfolding bytes_from
first_byte f offset zero h = absurd (omega arith)
first_byte f offset (suc n) h = refl

headed-IsSound :
    (header : Bytes) (s : FileSerializer) → IsSound s → IsSound (headed_serializer header s)
unfolding write_at
headed-IsSound header s o = record { started = o.started; filled = ground (arith, o.filled) }

headed_block :
    (header : Bytes) (s : FileSerializer)
    → IsSound s
    → s.closed ≡ false
    → 1 < s.next_id
    → block_read 1 (headed_serializer header s) ≡ ok (block_bytes 1 (headed header s.file))
headed_block header s o opened one =
    let known : is_unknown 1 s ≡ false = ground arith in
    block_read-answer 1 (headed_serializer header s) (headed-IsSound header s o)
    ∙ rw (opened, known) refl

-- The header is written at the start of the file with no bound: where it has more than 4092 bytes,
-- the byte at 4092 lands at the front of the first block, if there is one.
pub header_overwrites_block :
    (header : Bytes) (x : ℕ) (s : FileSerializer)
    → IsSound s
    → s.closed ≡ false
    → 1 < s.next_id
    → get_elem? header 4092 ≡ some x
    → (s' : FileSerializer) × (b : Bytes) × (write_header header s ≡ ok s')
      × (block_read 1 s' ≡ ok b)
      × (get_elem? b 0 ≡ some x)
header_overwrites_block header x s o opened one h = (
  headed_serializer header s,
  block_bytes 1 (headed header s.file),
  write_header-headed header s opened,
  headed_block header s o opened one,
  first_byte (headed header s.file) (1 * block_size) block_size (omega arith)
      ∙ ap some (
          byte_at-write_at 4 4092 x header (write_at 0 (put_u32 (to_u32 (length header)) []) s.file)
            h),
)
