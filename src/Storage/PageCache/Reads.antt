-- ===== src/Storage/PageCache/Reads.antt =====
-- internal/storage/page_cache.go: `Get` of a coherent cache.
use gothinkdb.Prelude.{
  ℕ, ◌+◌, ◌%◌, ◌^◌, ◌≡◌, refl, sym, ap, ◌∙◌, true, false, ◌∷◌, Option-cases, Bool-cases, inl, inr,
}
use gothinkdb.Prelude.Result.{Result-cases}
use gothinkdb.Storage.Serializer.{Serializer, IsLawful}
use gothinkdb.Storage.PageCache.{
  PageCache, contains, find_entry, remove_entry, get, read_cached, read_through,
}
use gothinkdb.Storage.PageCache.Lists.{find_entry-id}
use gothinkdb.Storage.PageCache.Coherent.{view, IsCoherent, entry_block, is_found}
use gothinkdb.Storage.PageCache.Push.{
  pushed-Shows, add_to_cache-Shows, Keeps, counted, Shows-Keeps, cached_view, stored_view,
  moved-IsPushed,
}

module _ {B : Type 0} (S : Serializer B) (IsBlock : B → Type 0) (IsSound HasRoom : S.State → Type 0)
    (law : IsLawful S IsBlock IsSound HasRoom) where
  use_entry-Keeps :
      (id : ℕ) (c : PageCache S)
      → IsCoherent S IsBlock IsSound c
      → contains id c.cached ≡ true
      → (c' : PageCache S) × (read_cached S id c ≡ (c', view S id c))
        × Keeps S IsBlock IsSound HasRoom law c c'
  unfolding read_cached
  use_entry-Keeps id c k h = elim (Option-cases (find_entry id c.lru)) [
    | inl missing ↦ absurd (cc (sym (k.keys id) ∙ h, ap is_found missing))
    | inr (e, found) ↦
        let named = find_entry-id id c.lru e found in
        let c' : PageCache S = record c { lru = e ∷ remove_entry id c.lru } in
        let shown = cached_view S IsBlock IsSound HasRoom law id c h ∙ ap entry_block found in
        let pushed =
          pushed-Shows S IsBlock IsSound HasRoom law e c c' k (k.backed id e found)
            (moved-IsPushed S IsBlock IsSound HasRoom law id e c k h named) in
        (
          c',
          rw (found, shown) refl,
          Shows-Keeps S IsBlock IsSound HasRoom law e.id e.block c c'
              (ap (λ i. view S i c) named ∙ shown) pushed,
        )
  ]

  read_through-Keeps :
      (id : ℕ) (c : PageCache S)
      → IsCoherent S IsBlock IsSound c
      → contains id c.cached ≡ false
      → (c' : PageCache S) × (read_through S id c ≡ (c', view S id c))
        × Keeps S IsBlock IsSound HasRoom law c c'
  unfolding read_through
  read_through-Keeps id c k h =
      let shown = stored_view S IsBlock IsSound HasRoom law id c h in
      elim (Result-cases (S.block_read id c.store)) [
        | inl (inl failed) ↦ (c, rw (shown, failed) refl, record { coherent = k; view = λ j. refl })
        | inl (inr failed) ↦ (c, rw (shown, failed) refl, record { coherent = k; view = λ j. refl })
        | inr (b, there) ↦
            let (c', runs, s) =
              add_to_cache-Shows S IsBlock IsSound HasRoom law id b false c k h (record {
                sized = law.read_IsBlock id b c.store k.sound there;
                old = b;
                there = there;
                clean = λ _. there;
              }) in
            (
              c',
              rw (shown, there, runs) refl,
              Shows-Keeps S IsBlock IsSound HasRoom law id b c c' (shown ∙ there) s,
            )
      ]

  get_hit :
      (id : ℕ) (c : PageCache S)
      → contains id c.cached ≡ true
      → get S id c ≡ read_cached S id (record c { hits = (c.hits + 1) % 2 ^ 64 })
  unfolding get
  get_hit id c h = rw h refl

  get_miss :
      (id : ℕ) (c : PageCache S)
      → contains id c.cached ≡ false
      → get S id c ≡ read_through S id (record c { misses = (c.misses + 1) % 2 ^ 64 })
  unfolding get
  get_miss id c h = rw h refl

  -- `Get` of a coherent cache returns what the cache shows under the id, the error of a missing block
  -- included. The cache is coherent again, and shows under every id what it showed, also where
  -- blocks were evicted.
  pub get-Keeps :
      (id : ℕ) (c : PageCache S)
      → IsCoherent S IsBlock IsSound c
      → (c' : PageCache S) × (get S id c ≡ (c', view S id c))
        × Keeps S IsBlock IsSound HasRoom law c c'
  unfolding view
  get-Keeps id c k = elim (Bool-cases (contains id c.cached)) [
    | inl hit ↦
        let c1 : PageCache S = record c { hits = (c.hits + 1) % 2 ^ 64 } in
        let (c', runs, keeps) =
          use_entry-Keeps id c1 (counted S IsBlock IsSound HasRoom law c1.hits c1.misses c k) hit in
        (c', get_hit id c hit ∙ runs, record { coherent = keeps.coherent; view = keeps.view })
    | inr miss ↦
        let c1 : PageCache S = record c { misses = (c.misses + 1) % 2 ^ 64 } in
        let (c', runs, keeps) =
          read_through-Keeps id c1 (counted S IsBlock IsSound HasRoom law c1.hits c1.misses c k)
            miss in
        (c', get_miss id c miss ∙ runs, record { coherent = keeps.coherent; view = keeps.view })
  ]
