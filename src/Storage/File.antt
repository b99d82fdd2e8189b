-- ===== src/Storage/File.antt =====
-- internal/storage/file_serializer.go. The file is an `os.File` as Go and POSIX document it: a write
-- at an offset replaces the bytes there and grows the file, the bytes of a hole are zeros, and a read
-- at or past the end is an error. Errors of the operating system are not modelled. A Go block has
-- 4096 bytes.
pub mod Ranges
pub mod Lawful
pub mod Header
use gothinkdb.Prelude.{
  ℕ, zero, suc, ◌+◌, ◌-◌, ◌*◌, ◌/◌, ◌%◌, ◌^◌, max, Bool, true, false, not, ◌&&◌, ◌||◌, Option, none,
  some, List, [], ◌∷◌, ltb, leb, ◌==◌, length, get_elem?, if◌then◌else◌,
}
use gothinkdb.Prelude.Result.{Result, ok, err, panic, ◌>>=◌, ◌>>◌, require}
use gothinkdb.BTree.Bytes.{Bytes}
use gothinkdb.BTree.Codec.{block_size, zeros, put_u32, get_u32}
use gothinkdb.Storage.Serializer.{Serializer, invalid_block_id}

pub record File : Type 0 where
  pub content : ℕ → ℕ
  pub size : ℕ

-- The byte at an offset, zero past the end.
unfoldable pub byte_at : File → ℕ → ℕ
byte_at f i = if ltb i f.size then f.content i else 0

abbrev pub byte_or : Option ℕ → ℕ → ℕ
byte_or none old = old
byte_or (some new) old = new

-- `file.Seek(offset, 0); file.Write(bytes)`
unfoldable pub write_at : ℕ → Bytes → File → File
unfolding byte_at
write_at offset bytes f = record {
  content = λ i.
      if ltb i offset then byte_at f i else byte_or (get_elem? bytes (i - offset)) (byte_at f i);
  size = max f.size (offset + length bytes);
}

-- n bytes from an offset on.
unfoldable pub bytes_from : File → ℕ → ℕ → Bytes
unfolding byte_at
bytes_from f offset zero = []
bytes_from f offset (suc n) = byte_at f offset ∷ bytes_from f (suc offset) n

-- `file.Seek(offset, 0); file.Read(buffer)` into n zero bytes: what the file does not have stays zero.
unfoldable pub read_at : ℕ → ℕ → File → Result Bytes
read_at offset n f = if leb f.size offset then err else ok (bytes_from f offset n)

-- `uint32(n)`, also `BlockID(n)`
abbrev pub to_u32 : ℕ → ℕ
to_u32 n = n % 2 ^ 32

pub record FileSerializer : Type 0 where
  pub file : File
  pub next_id : ℕ
  pub closed : Bool
  pub block_count : ℕ

abbrev from_one : ℕ → ℕ
from_one zero = 1
from_one (suc n) = suc n

-- `NewFileSerializer`, for the file that was opened.
unfoldable pub new_file_serializer : File → FileSerializer
new_file_serializer file = record {
  file = file;
  next_id = from_one (to_u32 (file.size / block_size));
  closed = false;
  block_count = 0;
}

-- `id == InvalidBlockID || id >= s.nextID`
abbrev pub is_unknown : ℕ → FileSerializer → Bool
is_unknown id s = id == invalid_block_id || leb s.next_id id

-- `BlockRead`
unfoldable pub block_read : ℕ → FileSerializer → Result Bytes
block_read id s = do
  require (not s.closed)
  require (not (is_unknown id s))
  read_at (id * block_size) block_size s.file

-- The write of `BlockWrite`, when the id is settled.
unfoldable pub write_block : ℕ → Bytes → FileSerializer → FileSerializer
write_block id block s = record s {
  file = write_at (id * block_size) block s.file;
  block_count = if leb s.block_count id then to_u32 (id + 1) else s.block_count;
}

-- `BlockWrite`
unfoldable pub block_write : ℕ → Bytes → FileSerializer → Result (ℕ × FileSerializer)
block_write id block s = do
  require (not s.closed)
  if id == invalid_block_id
      then ok
          (s.next_id, write_block s.next_id block (record s { next_id = to_u32 (s.next_id + 1) }))
      else ok (id, write_block id block s)

-- `BlockDelete`
unfoldable pub block_delete : ℕ → FileSerializer → Result FileSerializer
block_delete id s = do
  require (not s.closed)
  require (not (is_unknown id s))
  ok (record s { file = write_at (id * block_size) (zeros block_size) s.file })

-- `EndBlockID`
unfoldable pub end_block_id : FileSerializer → ℕ
end_block_id s = s.next_id

-- `Flush`; `file.Sync` leaves the file as it is.
unfoldable pub flush : FileSerializer → Result FileSerializer
flush s = do require (not s.closed); ok s

-- `Close`
unfoldable pub close : FileSerializer → FileSerializer
close s = record s { closed = true }

-- `WriteHeader`: the size in four bytes, then the header.
unfoldable pub write_header : Bytes → FileSerializer → Result FileSerializer
write_header header s = do
  require (not s.closed)
  ok (record s {
    file = write_at 4 header (write_at 0 (put_u32 (to_u32 (length header)) []) s.file);
  })

-- `ReadHeader`; fewer than four bytes are an error.
unfoldable pub read_header : FileSerializer → Result Bytes
read_header s = do
  require (not s.closed)
  require (leb 4 s.file.size)
  let header_size = (get_u32 (bytes_from s.file 0 4)).0
  require (not (header_size == 0 || ltb (1024 * 1024) header_size))
  read_at 4 header_size s.file

abbrev pub file_serializer : Serializer Bytes
file_serializer = record {
  State = FileSerializer;
  block_read = block_read;
  block_write = block_write;
  block_delete = block_delete;
  flush = flush;
}
