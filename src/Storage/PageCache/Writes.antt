-- ===== src/Storage/PageCache/Writes.antt =====
-- internal/storage/page_cache.go: `Put` to a coherent cache.
use gothinkdb.Prelude.{
  ℕ, ◌≡◌, refl, sym, ap, ◌∙◌, true, some, ◌∷◌, Option-cases, Bool-cases, inl, inr,
}
use gothinkdb.Prelude.Result.{ok}
use gothinkdb.Storage.Serializer.{Serializer, IsLawful}
use gothinkdb.Storage.PageCache.{CacheEntry, PageCache, contains, find_entry, remove_entry, put}
use gothinkdb.Storage.PageCache.Lists.{find_entry-id}
use gothinkdb.Storage.PageCache.Coherent.{view, IsCoherent, is_found}
use gothinkdb.Storage.PageCache.Push.{
  Shows, pushed-Shows, add_to_cache-Shows, stored_view, moved-IsPushed,
}

module _ {B : Type 0} (S : Serializer B) (IsBlock : B → Type 0) (IsSound HasRoom : S.State → Type 0)
    (law : IsLawful S IsBlock IsSound HasRoom) where
  put_cached :
      (id : ℕ) (b : B) (c : PageCache S)
      → IsCoherent S IsBlock IsSound c
      → IsBlock b
      → contains id c.cached ≡ true
      → Shows S IsBlock IsSound HasRoom law id b c
          (record c { lru = record { id = id; block = b; dirty = true } ∷ remove_entry id c.lru })
  put_cached id b c k sized h = elim (Option-cases (find_entry id c.lru)) [
    | inl missing ↦ absurd (cc (sym (k.keys id) ∙ h, ap is_found missing))
    | inr (old, found) ↦
        let e : CacheEntry B = record { id = id; block = b; dirty = true } in
        let named = find_entry-id id c.lru old found in
        let backed = k.backed id old found in
        pushed-Shows S IsBlock IsSound HasRoom law e c
          (record c { lru = e ∷ remove_entry id c.lru }) k
          (record {
            sized = sized;
            old = backed.old;
            there = ap (λ i. S.block_read i c.store) (sym named) ∙ backed.there;
            clean = λ dirty. cc;
          })
          (moved-IsPushed S IsBlock IsSound HasRoom law id e c k h refl)
  ]

  -- `Put` of a block under an id that the cache shows returns, and the cache is coherent and shows
  -- the new block under the id, and under every other id what it showed.
  pub put-Shows :
      (id : ℕ) (b old : B) (c : PageCache S)
      → IsCoherent S IsBlock IsSound c
      → IsBlock b
      → view S id c ≡ ok old
      → (c' : PageCache S) × (put S id b c ≡ some c')
        × Shows S IsBlock IsSound HasRoom law id b c c'
  unfolding put
  put-Shows id b old c k sized h = elim (Bool-cases (contains id c.cached)) [
    | inl hit ↦ (
      record c { lru = record { id = id; block = b; dirty = true } ∷ remove_entry id c.lru },
      rw hit refl,
      put_cached id b c k sized hit,
    )
    | inr miss ↦
        let (c', runs, s) =
          add_to_cache-Shows S IsBlock IsSound HasRoom law id b true c k miss (record {
            sized = sized;
            old = old;
            there = sym (stored_view S IsBlock IsSound HasRoom law id c miss) ∙ h;
            clean = λ dirty. cc;
          }) in
        (c', rw miss runs, s)
  ]
