-- ===== src/BTree/Cached.antt =====
-- internal/btree/btree.go on internal/storage/page_cache.go: the cache that a tree is given.
use gothinkdb.Prelude.{ℕ, Option, none, some, refl}
use gothinkdb.Prelude.Result.{Result, ok, err, panic}
use gothinkdb.BTree.Bytes.{Bytes}
use gothinkdb.BTree.Pages.{Pages, IsPages}
use gothinkdb.Storage.Serializer.{Serializer, IsLawful}
use gothinkdb.Storage.PageCache
use gothinkdb.Storage.PageCache.{PageCache}
use gothinkdb.Storage.PageCache.Coherent.{IsCoherent, view}
use gothinkdb.Storage.PageCache.Reads.{get-Keeps}
use gothinkdb.Storage.PageCache.Writes.{put-Shows}
use gothinkdb.Storage.PageCache.Growth.{allocate-Shows}
use gothinkdb.Storage.File.Lawful.{IsBlock}

module _ (S : Serializer Bytes) where
  abbrev put_outcome : PageCache S → Option (PageCache S) → PageCache S × Result (Unit {0})
  put_outcome c none = (c, panic)
  put_outcome c (some c') = (c', ok tt)

  abbrev allocate_outcome : PageCache S → Result (ℕ × PageCache S) → PageCache S × Result ℕ
  allocate_outcome c panic = (c, panic)
  allocate_outcome c err = (c, err)
  allocate_outcome c (ok (id, c')) = (c', ok id)

  -- The three calls, as calls on the pages.
  abbrev pub page_cache : Pages
  page_cache = record {
    State = PageCache S;
    get = PageCache.get S;
    put = λ id b c. put_outcome c (PageCache.put S id b c);
    allocate = λ b c. allocate_outcome c (PageCache.allocate S b c);
  }

  module _ (IsSound HasRoom : S.State → Type 0) (law : IsLawful S IsBlock IsSound HasRoom) where
    -- A page cache over a lawful serializer, in any coherent state, gives the tree what it relies on:
    -- `Get` returns the block that the cache shows under the id, or the error of the store, and keeps
    -- what it shows. `Put` of a block of 4096 bytes under an id that has one, and `Allocate` of one
    -- under a new id, while the store has room, return and change this one block.
    pub page_cache-IsPages :
        IsPages page_cache (IsCoherent S IsBlock IsSound) (λ c. HasRoom c.store) (view S)
    page_cache-IsPages = record {
      get_view = λ id c k.
          let (c', runs, keeps) = get-Keeps S IsBlock IsSound HasRoom law id c k in
          (c', runs, keeps.coherent, keeps.view);
      put_view = λ id b old c k sized there.
          let (c', runs, shows) =
            put-Shows S IsBlock IsSound HasRoom law id b old c k sized there in
          (c', rw runs refl, record { good = shows.coherent; view = shows.view });
      allocate_view = λ b c k sized room.
          let (id, c', runs, new, shows) =
            allocate-Shows S IsBlock IsSound HasRoom law b c k sized room in
          (id, c', rw runs refl, new, record { good = shows.coherent; view = shows.view });
    }
