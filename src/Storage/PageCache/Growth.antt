-- ===== src/Storage/PageCache/Growth.antt =====
-- internal/storage/page_cache.go: `Allocate` in a coherent cache.
use gothinkdb.Prelude.{
  ℕ, ◌≡◌, ◌≢◌, refl, sym, ap, ◌∙◌, false, ◌==◌, ==_iff, if◌then◌else◌, arith, Option-cases,
  Bool-cases, inl, inr, subst,
}
use gothinkdb.Prelude.Result.{ok}
use gothinkdb.Storage.Serializer.{Serializer, Wrote, IsLawful}
use gothinkdb.Storage.PageCache.{PageCache, contains, find_entry, allocate}
use gothinkdb.Storage.PageCache.Lists.{find_entry-id}
use gothinkdb.Storage.PageCache.Coherent.{view, IsCoherent, entry_block, is_found}
use gothinkdb.Storage.PageCache.Push.{Shows, add_to_cache-Shows, stored_view}

module _ {B : Type 0} (S : Serializer B) (IsBlock : B → Type 0) (IsSound HasRoom : S.State → Type 0)
    (law : IsLawful S IsBlock IsSound HasRoom) where
  -- A store in which one more id is in use.
  module _ (id : ℕ) (b : B) (c : PageCache S) (s : S.State) (k : IsCoherent S IsBlock IsSound c)
      (fresh : (old : B) → S.block_read id c.store ≢ ok old)
      (w : Wrote S IsSound id b c.store s) where
    not_cached : contains id c.cached ≡ false
    not_cached = elim (Bool-cases (contains id c.cached)) [
      | inr miss ↦ miss
      | inl hit ↦ elim (Option-cases (find_entry id c.lru)) [
        | inl missing ↦ absurd (cc (sym (k.keys id) ∙ hit, ap is_found missing))
        | inr (e, found) ↦
            let backed = k.backed id e found in
            absurd (
              fresh backed.old (
                ap (λ i. S.block_read i c.store) (sym (find_entry-id id c.lru e found))
                ∙ backed.there))
      ]
    ]

    kept_read :
        (j : ℕ) (old : B)
        → S.block_read j c.store ≡ ok old
        → S.block_read j s ≡ S.block_read j c.store
    kept_read j old there = elim (Bool-cases (id == j)) [
      | inr apart ↦ w.read j ∙ rw apart refl
      | inl here ↦
          absurd (fresh old (ap (λ i. S.block_read i c.store) ((==_iff id j).0 here) ∙ there))
    ]

    grown-Shows : Shows S IsBlock IsSound HasRoom law id b c (record c { store = s })
    unfolding view
    grown-Shows = record {
      coherent = record {
        sound = w.sound;
        positive = k.positive;
        unique = k.unique;
        keys = k.keys;
        backed = λ j e found.
            let backed = k.backed j e found in
            let same = kept_read e.id backed.old backed.there in
            record {
              sized = backed.sized;
              old = backed.old;
              there = same ∙ backed.there;
              clean = λ h. same ∙ backed.clean h;
            };
      };
      view = λ j. elim (Bool-cases (id == j)) [
        | inl here ↦
            rw (subst (λ i. contains i c.cached ≡ false) ((==_iff id j).0 here) not_cached)
              (w.read j)
        | inr apart ↦ rw apart (
            ap (λ r. if contains j c.cached then entry_block (find_entry j c.lru) else r)
              (w.read j ∙ rw apart refl))
      ];
    }

  -- `Allocate` of a block, while the store has room, returns an id under which the cache showed
  -- nothing. The cache is coherent, shows the block under it, and under every other id what it
  -- showed.
  pub allocate-Shows :
      (b : B) (c : PageCache S)
      → IsCoherent S IsBlock IsSound c
      → IsBlock b
      → HasRoom c.store
      → (id : ℕ) × (c' : PageCache S) × (allocate S b c ≡ ok (id, c'))
        × ((old : B) → view S id c ≢ ok old)
        × Shows S IsBlock IsSound HasRoom law id b c c'
  unfolding allocate
  allocate-Shows b c k sized room =
      let (id, s, written, fresh, w) = law.allocate b c.store k.sound sized room in
      let grown = grown-Shows id b c s k fresh w in
      let new = not_cached id b c s k fresh w in
      let c1 : PageCache S = record c { store = s } in
      let there : S.block_read id s ≡ ok b = w.read id ∙ rw ((==_iff id id).1 refl) refl in
      let (c', runs, shown) =
        add_to_cache-Shows S IsBlock IsSound HasRoom law id b false c1 grown.coherent new
          (record { sized = sized; old = b; there = there; clean = λ _. there }) in
      (
        id,
        c',
        rw (written, runs) refl,
        λ old h. fresh old (sym (stored_view S IsBlock IsSound HasRoom law id c new) ∙ h),
        record {
          coherent = shown.coherent;
          view = λ j. ground (arith, shown.view j, grown.view j);
        },
      )
