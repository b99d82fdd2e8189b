-- ===== src/Storage/PageCache/Faults.antt =====
-- internal/storage/page_cache.go: the loop of `addToCache`, with room to make and with none.
use gothinkdb.Prelude.{
  ℕ, zero, suc, ◌+◌, ◌<◌, ◌≡◌, refl, ◌∙◌, none, some, length, arith, Option-cases, inl, inr,
}
use gothinkdb.Storage.Serializer.{Serializer, IsLawful}
use gothinkdb.Storage.PageCache.{PageCache, back, evict, evict_loop}
use gothinkdb.Storage.PageCache.Coherent.{view, IsCoherent, evict_loop-ends}

module _ {B : Type 0} (S : Serializer B) where
  evict-max_size : (c : PageCache S) → (evict S c).max_size ≡ c.max_size
  unfolding evict
  evict-max_size c = elim (Option-cases (back c.lru)) [
    | inl empty ↦ rw empty refl
    | inr (_, some_last) ↦ rw some_last refl
  ]

  evict_loop-none : (fuel : ℕ) (c : PageCache S) → c.max_size ≡ 0 → evict_loop S fuel c ≡ none
  unfolding evict_loop
  evict_loop-none zero c h = refl
  evict_loop-none (suc fuel) c h =
      ground (arith, evict_loop-none fuel (evict S c) (evict-max_size c ∙ h))

module _ {B : Type 0} (S : Serializer B) (IsBlock : B → Type 0) (IsSound HasRoom : S.State → Type 0)
    (law : IsLawful S IsBlock IsSound HasRoom) where
  -- Over a serializer that keeps its laws, the loop of `addToCache` ends for a coherent cache, whose
  -- greatest size is positive, within one round more than the cache has entries. It leaves fewer blocks
  -- cached than the greatest size, and every id shows the block that it showed before. For the same
  -- cache with the greatest size 0, the loop has not ended after any number of rounds.
  pub evict_loop-rounds :
      (fuel : ℕ) (c : PageCache S)
      → IsCoherent S IsBlock IsSound c
      → (c' : PageCache S) × (evict_loop S (length c.lru + 1) c ≡ some c')
        × (length c'.cached < c.max_size)
        × ((id : ℕ) → view S id c' ≡ view S id c)
        × (evict_loop S fuel (record c { max_size = 0 }) ≡ none)
  evict_loop-rounds fuel c k =
      let (c', runs, after, room) =
        evict_loop-ends S IsBlock IsSound HasRoom law (length c.lru + 1) c k (omega arith) in
      (
        c',
        runs,
        omega (arith, room, after.max_size),
        after.view,
        evict_loop-none S fuel (record c { max_size = 0 }) refl,
      )
