-- ===== src/Storage/PageCache.antt =====
-- internal/storage/page_cache.go. The list `lru` has the most recently used entry first. The map
-- `cache` leads from an id to the foremost entry of the list with this id, as each operation of the
-- source puts an entry at the front when it stores it in the map: so the map is its set of keys,
-- `cached`. `Clone` copies a block, and blocks are values here. Each call is one step;
-- `Allocate` writes to the serializer before it takes the lock.
pub mod Lists
pub mod Coherent
pub mod Push
pub mod Reads
pub mod Writes
pub mod Growth
pub mod Flushing
pub mod Faults
use gothinkdb.Prelude.{
  ℕ, zero, suc, ◌+◌, ◌%◌, ◌^◌, Bool, true, false, not, ◌||◌, Option, none, some, List, [], ◌∷◌,
  ◌++◌, leb, ◌==◌, length, if◌then◌else◌, ◌>>=◌,
}
use gothinkdb.Prelude.Result
use gothinkdb.Prelude.Result.{Result, ok, err, panic}
use gothinkdb.Storage.Serializer.{Serializer, invalid_block_id}

-- `cacheEntry`
pub record CacheEntry (B : Type 0) : Type 0 where
  pub id : ℕ
  pub block : B
  pub dirty : Bool

-- The set of a map's keys.
unfoldable pub contains : ℕ → List ℕ → Bool
contains id [] = false
contains id (j ∷ js) = j == id || contains id js

unfoldable pub erase : ℕ → List ℕ → List ℕ
erase id [] = []
erase id (j ∷ js) = let rest = erase id js in if j == id then rest else j ∷ rest

abbrev pub insert : ℕ → List ℕ → List ℕ
insert id js = id ∷ erase id js

module _ {B : Type 0} where
  -- The foremost entry with the id.
  unfoldable pub find_entry : ℕ → List (CacheEntry B) → Option (CacheEntry B)
  find_entry id [] = none
  find_entry id (e ∷ es) = let later = find_entry id es in if e.id == id then some e else later

  -- The list without this entry: `lru.Remove(elem)`.
  unfoldable pub remove_entry : ℕ → List (CacheEntry B) → List (CacheEntry B)
  remove_entry id [] = []
  remove_entry id (e ∷ es) = let later = e ∷ remove_entry id es in if e.id == id then es else later

  abbrev snoc_front :
      CacheEntry B
      → Option (List (CacheEntry B) × CacheEntry B)
      → Option (List (CacheEntry B) × CacheEntry B)
  snoc_front e none = some ([], e)
  snoc_front e (some (front, last)) = some (e ∷ front, last)

  -- `lru.Back()`, with the entries before it.
  unfoldable pub back : List (CacheEntry B) → Option (List (CacheEntry B) × CacheEntry B)
  back [] = none
  back (e ∷ es) = snoc_front e (back es)

-- `PageCache`, over a serializer.
pub record PageCache {B : Type 0} (S : Serializer B) : Type 0 where
  pub cached : List ℕ
  pub lru : List (CacheEntry B)
  pub max_size : ℕ
  pub store : S.State
  pub hits : ℕ
  pub misses : ℕ

module _ {B : Type 0} (S : Serializer B) where
  -- `NewPageCache`
  unfoldable pub new_page_cache : S.State → ℕ → PageCache S
  new_page_cache store max_size = record {
    cached = [];
    lru = [];
    max_size = max_size;
    store = store;
    hits = 0;
    misses = 0;
  }

  abbrev pub store_or : S.State → Result (ℕ × S.State) → S.State
  store_or s panic = s
  store_or s err = s
  store_or s (ok (id, s')) = s'

  -- The write-back of `evict`: an error is dropped.
  unfoldable pub write_back : CacheEntry B → S.State → S.State
  write_back e s = if e.dirty then store_or s (S.block_write e.id e.block s) else s

  abbrev evict_back : Option (List (CacheEntry B) × CacheEntry B) → PageCache S → PageCache S
  evict_back none c = c
  evict_back (some (front, last)) c = record c {
    store = write_back last c.store;
    cached = erase last.id c.cached;
    lru = front;
  }

  -- `evict`
  unfoldable pub evict : PageCache S → PageCache S
  evict c = evict_back (back c.lru) c

  -- `for len(c.cache) >= c.maxSize { c.evict() }`, with fuel.
  unfoldable pub evict_loop : ℕ → PageCache S → Option (PageCache S)
  evict_loop zero c = none
  evict_loop (suc fuel) c =
      let rest = evict_loop fuel (evict c) in
      if leb c.max_size (length c.cached) then rest else some c

  -- `addToCache`. One round more than there are entries; `none` is a loop that does not end.
  unfoldable pub add_to_cache : ℕ → B → Bool → PageCache S → Option (PageCache S)
  add_to_cache id block dirty c = do
    c' ← evict_loop (length c.lru + 1) c
    some (record c' {
      lru = record { id = id; block = block; dirty = dirty } ∷ c'.lru;
      cached = insert id c'.cached;
    })

  -- The answer of a call that reads: a block, or the serializer's error. `panic` is a call that does
  -- not return.
  abbrev answer : B → Option (PageCache S) → PageCache S → PageCache S × Result B
  answer block none c = (c, panic)
  answer block (some c') c = (c', ok block)

  abbrev read_block : ℕ → Result B → PageCache S → PageCache S × Result B
  read_block id panic c = (c, panic)
  read_block id err c = (c, err)
  read_block id (ok block) c = answer block (add_to_cache id block false c) c

  -- A miss of `Get`.
  unfoldable pub read_through : ℕ → PageCache S → PageCache S × Result B
  read_through id c = read_block id (S.block_read id c.store) c

  abbrev use_entry : ℕ → Option (CacheEntry B) → PageCache S → PageCache S × Result B
  use_entry id none c = (c, panic)
  use_entry id (some e) c = (record c { lru = e ∷ remove_entry id c.lru }, ok e.block)

  -- A hit of `Get`.
  unfoldable pub read_cached : ℕ → PageCache S → PageCache S × Result B
  read_cached id c = use_entry id (find_entry id c.lru) c

  -- `Get`; the counters are `uint64`.
  unfoldable pub get : ℕ → PageCache S → PageCache S × Result B
  get id c =
      if contains id c.cached
      then read_cached id (record c { hits = (c.hits + 1) % 2 ^ 64 })
      else read_through id (record c { misses = (c.misses + 1) % 2 ^ 64 })

  -- `Put`; it never fails. `none` is a call that does not return.
  unfoldable pub put : ℕ → B → PageCache S → Option (PageCache S)
  put id block c =
      if contains id c.cached
      then some (record c {
        lru = record { id = id; block = block; dirty = true } ∷ remove_entry id c.lru;
      })
      else add_to_cache id block true c

  abbrev add_allocated : B → Result (ℕ × S.State) → PageCache S → Result (ℕ × PageCache S)
  add_allocated block panic c = panic
  add_allocated block err c = err
  add_allocated block (ok (id, s)) c =
      Result.◌>>=◌ (Result.or_panic (add_to_cache id block false (record c { store = s })))
        λ c'. ok (id, c')

  -- `Allocate`. After a failed write nothing has changed.
  unfoldable pub allocate : B → PageCache S → Result (ℕ × PageCache S)
  allocate block c = add_allocated block (S.block_write invalid_block_id block c.store) c

  abbrev with_entry :
      CacheEntry B → List (CacheEntry B) × S.State × Bool → List (CacheEntry B) × S.State × Bool
  with_entry e (es, s, done) = (e ∷ es, s, done)

  abbrev flush_rest :
      CacheEntry B
      → Result (ℕ × S.State)
      → (S.State → List (CacheEntry B) × S.State × Bool)
      → List (CacheEntry B)
      → S.State
      → List (CacheEntry B) × S.State × Bool
  flush_rest e (ok (id, s')) rest es s = with_entry (record e { dirty = false }) (rest s')
  flush_rest e err rest es s = (e ∷ es, s, false)
  flush_rest e panic rest es s = (e ∷ es, s, false)

  -- The loop of `Flush` from the front to the back; it ends early at a failed write.
  unfoldable pub flush_loop : List (CacheEntry B) → S.State → List (CacheEntry B) × S.State × Bool
  flush_loop [] s = ([], s, true)
  flush_loop (e ∷ es) s =
      let dirty_case = flush_rest e (S.block_write e.id e.block s) (flush_loop es) es s in
      let clean_case = with_entry e (flush_loop es s) in if e.dirty then dirty_case else clean_case

  abbrev flush_end : PageCache S → Bool → Result S.State → PageCache S × Bool
  flush_end c false r = (c, false)
  flush_end c true (ok s) = (record c { store = s }, true)
  flush_end c true err = (c, false)
  flush_end c true panic = (c, false)

  -- `Flush`; the flag says that no error came.
  unfoldable pub flush : PageCache S → PageCache S × Bool
  flush c =
      let (lru, s, done) = flush_loop c.lru c.store in
      flush_end (record c { lru = lru; store = s }) done (S.flush s)

  abbrev closed : PageCache S × Bool → PageCache S × Bool
  closed (c, true) = (record c { cached = []; lru = [] }, true)
  closed (c, false) = (c, false)

  -- `Close`; the nil map and list that it leaves are empty here.
  unfoldable pub close : PageCache S → PageCache S × Bool
  close c = closed (flush c)

  abbrev delete_end : PageCache S → Result S.State → PageCache S × Bool
  delete_end c (ok s) = (record c { store = s }, true)
  delete_end c err = (c, false)
  delete_end c panic = (c, false)

  -- `Delete`; the flag says that the serializer has deleted the block.
  unfoldable pub delete : ℕ → PageCache S → PageCache S × Bool
  delete id c =
      delete_end
        (if contains id c.cached
          then record c { lru = remove_entry id c.lru; cached = erase id c.cached }
          else c)
        (S.block_delete id c.store)

  -- `Size`, and the third result of `Stats`; the other two are fields.
  unfoldable pub size : PageCache S → ℕ
  size c = length c.cached
