-- ===== src/Storage/PageCache/Flushing.antt =====
-- internal/storage/page_cache.go: `Flush`.
use gothinkdb.Prelude.{ℕ, ◌≡◌, Bool, true, false, Option, none, some, List, [], ◌∷◌}
use gothinkdb.Prelude.Result.{Result, ok, err, panic}
use gothinkdb.Storage.Serializer.{Serializer, IsLawful}
use gothinkdb.Storage.PageCache.{CacheEntry, PageCache, find_entry}
use gothinkdb.Storage.PageCache.Coherent.{IsBacked}

abbrev clean_entry : {B : Type 0} → CacheEntry B → CacheEntry B
clean_entry e = record e { dirty = false }

abbrev clean_all : {B : Type 0} → List (CacheEntry B) → List (CacheEntry B)
clean_all [] = []
clean_all (e ∷ es) = clean_entry e ∷ clean_all es

abbrev clean_found : {B : Type 0} → Option (CacheEntry B) → Option (CacheEntry B)
clean_found none = none
clean_found (some e) = some (clean_entry e)

module _ {B : Type 0} (S : Serializer B) (IsBlock : B → Type 0) (IsSound HasRoom : S.State → Type 0)
    (law : IsLawful S IsBlock IsSound HasRoom) where
  abbrev AllBacked : List (CacheEntry B) → S.State → Type 0
  AllBacked es s = (j : ℕ) (e : CacheEntry B) → find_entry j es ≡ some e → IsBacked S IsBlock e s

  abbrev read_or : Option (CacheEntry B) → Result B → Result B
  read_or none r = r
  read_or (some e) r = ok e.block

  abbrev is_ok : Result S.State → Bool
  is_ok (ok s) = true
  is_ok err = false
  is_ok panic = false

  -- The cache that the loop of `Flush` leaves.
  abbrev pub flushed : PageCache S → S.State → PageCache S
  flushed c s = record c { lru = clean_all c.lru; store = s }
