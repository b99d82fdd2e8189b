-- ===== src/Storage/Tests.antt =====
-- internal/storage at concrete inputs: a file with one block of zeros, and a cache over it.
use gothinkdb.Prelude.{
  ◌≡◌, refl, true, false, zero, suc, ℕ, none, [], ◌∷◌, arith, length, inl, inr, ap, subst, ◌==◌,
  Bool-cases,
}
use gothinkdb.Prelude.Result.{ok}
use gothinkdb.BTree.Bytes.{Bytes}
use gothinkdb.BTree.Codec.{zeros}
use gothinkdb.Storage.PageCache.{CacheEntry, PageCache, evict_loop, contains, find_entry}
use gothinkdb.Storage.PageCache.Coherent.{IsBacked, IsCoherent, view}
use gothinkdb.Storage.PageCache.Faults.{evict_loop-rounds}
use gothinkdb.Storage.File.{File, FileSerializer, file_serializer, write_header}
use gothinkdb.Storage.File.Lawful.{
  IsSound, HasRoom, IsBlock, file_serializer-IsLawful, block_read-answer, block_bytes,
}
use gothinkdb.Storage.File.Header.{read_header-write_header}

abbrev blank : File
blank = record { content = λ i. 0; size = 8192 }

abbrev opened : FileSerializer
opened = record { file = blank; next_id = 2; closed = false; block_count = 0 }

opened-IsSound : IsSound opened
opened-IsSound = record { started = omega arith; filled = inr (omega arith) }

opened-HasRoom : HasRoom opened
opened-HasRoom = record { opened = refl; below = omega arith }

abbrev pages : PageCache file_serializer
pages = record { cached = []; lru = []; max_size = 1; store = opened; hits = 0; misses = 0 }

pages-IsCoherent : IsCoherent file_serializer IsBlock IsSound pages
unfolding contains find_entry
pages-IsCoherent = record {
  sound = opened-IsSound;
  positive = omega arith;
  unique = tt;
  keys = λ id. refl;
  backed = λ id e found. cc;
}

length-zeros : (n : ℕ) → length (zeros n) ≡ n
length-zeros zero = refl
length-zeros (suc n) = ap suc (length-zeros n)

sevens : Bytes
sevens = 7 ∷ zeros 4095

sevens-IsBlock : IsBlock sevens
unfolding sevens
sevens-IsBlock = ap suc (length-zeros 4095)

pages_view : view file_serializer 1 pages ≡ ok (block_bytes 1 blank)
unfolding view contains
pages_view = block_read-answer 1 opened opened-IsSound

-- The block is cached and dirty.
abbrev dirty_entry : CacheEntry Bytes
dirty_entry = record { id = 1; block = sevens; dirty = true }

abbrev dirty_pages : PageCache file_serializer
dirty_pages = record pages { cached = 1 ∷ []; lru = dirty_entry ∷ [] }

dirty_entry-IsBacked : IsBacked file_serializer IsBlock dirty_entry opened
dirty_entry-IsBacked = record {
  sized = sevens-IsBlock;
  old = block_bytes 1 blank;
  there = block_read-answer 1 opened opened-IsSound;
  clean = λ e. cc;
}

dirty_pages-IsCoherent : IsCoherent file_serializer IsBlock IsSound dirty_pages
unfolding contains find_entry
dirty_pages-IsCoherent = record {
  sound = opened-IsSound;
  positive = omega arith;
  unique = (refl, tt);
  keys = λ id. ground arith;
  backed = λ id e found. elim (Bool-cases (1 == id)) [
    | inl here ↦
        subst (λ d. IsBacked file_serializer IsBlock d opened) (ground arith) dirty_entry-IsBacked
    | inr apart ↦ ground arith
  ];
}

-- The cache has one entry, which is dirty, and room for one.
evict_loop-rounds_example :
    evict_loop file_serializer 7 (record dirty_pages { max_size = 0 }) ≡ none
evict_loop-rounds_example =
    (evict_loop-rounds file_serializer IsBlock IsSound HasRoom file_serializer-IsLawful 7
      dirty_pages dirty_pages-IsCoherent).4

abbrev header : Bytes
header = 104 ∷ 105 ∷ []

read_header-write_header_example :
    write_header header opened
    ≡ ok (read_header-write_header header opened refl (omega arith) (omega arith)).0
read_header-write_header_example =
    (read_header-write_header header opened refl (omega arith) (omega arith)).1
