-- ===== src/Storage/PageCache/Push.antt =====
-- internal/storage/page_cache.go: an entry is put at the front, as every operation does.
use gothinkdb.Prelude.{
  ℕ, ◌+◌, ◌≡◌, refl, sym, ap, ◌∙◌, Bool, true, false, none, some, List, ◌∷◌, ◌==◌, ==_iff, length,
  if◌then◌else◌, arith, Option-cases, Bool-cases, inl, inr, subst, some_eq,
}
use gothinkdb.Prelude.Result.{ok}
use gothinkdb.Storage.Serializer.{Serializer, IsLawful}
use gothinkdb.Storage.PageCache.{
  CacheEntry, PageCache, contains, insert, find_entry, remove_entry, add_to_cache,
}
use gothinkdb.Storage.PageCache.Lists.{
  contains-insert, HasUniqueIds, find_entry-remove_entry, HasUniqueIds-remove_entry,
}
use gothinkdb.Storage.PageCache.Coherent.{view, IsBacked, IsCoherent, evict_loop-ends, entry_block}

module _ {B : Type 0} (S : Serializer B) (IsBlock : B → Type 0) (IsSound HasRoom : S.State → Type 0)
    (law : IsLawful S IsBlock IsSound HasRoom) where
  -- The cache shows the block b under the id, and under every other id what it showed.
  pub record Shows (id : ℕ) (b : B) (c c' : PageCache S) : Type 0 where
    pub coherent : IsCoherent S IsBlock IsSound c'
    pub view : (j : ℕ) → view S j c' ≡ (if id == j then ok b else view S j c)

  -- An entry is put at the front, in place of an older one with its id.
  pub record IsPushed (e : CacheEntry B) (c c' : PageCache S) : Type 0 where
    pub others : List (CacheEntry B)
    pub lru : c'.lru ≡ e ∷ others
    pub unique : HasUniqueIds others
    pub find : (j : ℕ) → find_entry j others ≡ (if e.id == j then none else find_entry j c.lru)
    pub cached : (j : ℕ) → contains j c'.cached ≡ (if e.id == j then true else contains j c.cached)
    pub store : c'.store ≡ c.store
    pub max_size : c'.max_size ≡ c.max_size

  pub uncached :
      (id : ℕ) (c : PageCache S)
      → IsCoherent S IsBlock IsSound c
      → contains id c.cached ≡ false
      → find_entry id c.lru ≡ none
  uncached id c k h = elim (Option-cases (find_entry id c.lru)) [
    | inl missing ↦ missing
    | inr (e, found) ↦ ground (arith, k.keys id)
  ]

  pub unfold_view :
      (id : ℕ) (c c' : PageCache S)
      → contains id c.cached ≡ false
      → contains id c'.cached ≡ false
      → view S id c' ≡ view S id c
      → S.block_read id c'.store ≡ S.block_read id c.store
  unfolding view
  unfold_view id c c' h k e = rw (h, k) at e

  pub same_missing :
      (id j : ℕ) (es : List (CacheEntry B))
      → find_entry id es ≡ none
      → (id == j) ≡ true
      → find_entry j es ≡ none
  same_missing id j es h here = ap (λ i. find_entry i es) (sym ((==_iff id j).0 here)) ∙ h

  pub pushed-found :
      (e : CacheEntry B) (c c' : PageCache S) (j : ℕ)
      → IsPushed e c c'
      → find_entry j c'.lru ≡ (if e.id == j then some e else find_entry j c.lru)
  unfolding find_entry
  pushed-found e c c' j p = ap (find_entry j) p.lru ∙ ground (arith, p.find j)

  pub pushed-IsBacked :
      (e d : CacheEntry B) (c : PageCache S) (j : ℕ)
      → IsCoherent S IsBlock IsSound c
      → IsBacked S IsBlock e c.store
      → (if e.id == j then some e else find_entry j c.lru) ≡ some d
      → IsBacked S IsBlock d c.store
  pushed-IsBacked e d c j k b h = elim (Bool-cases (e.id == j)) [
    | inl here ↦ subst (λ u. IsBacked S IsBlock u c.store) (some_eq (rw here at h)) b
    | inr there ↦ k.backed j d (rw there at h)
  ]

  pub pushed-Shows :
      (e : CacheEntry B) (c c' : PageCache S)
      → IsCoherent S IsBlock IsSound c
      → IsBacked S IsBlock e c.store
      → IsPushed e c c'
      → Shows e.id e.block c c'
  unfolding view
  pushed-Shows e c c' k b p = record {
    coherent = record {
      sound = subst IsSound (sym p.store) k.sound;
      positive = rw p.max_size k.positive;
      unique = subst HasUniqueIds (sym p.lru) (p.find e.id ∙ ground arith, p.unique);
      keys = λ id. ground (arith, p.cached id, pushed-found e c c' id p, k.keys id);
      backed = λ id d h.
          subst (IsBacked S IsBlock d) (sym p.store)
            (pushed-IsBacked e d c id k b (sym (pushed-found e c c' id p) ∙ h));
    };
    view = λ j.
        ground (arith, p.cached j, pushed-found e c c' j p, k.keys j, ap (S.block_read j) p.store);
  }

  pub add_to_cache-Shows :
      (id : ℕ) (block : B) (dirty : Bool) (c : PageCache S)
      → IsCoherent S IsBlock IsSound c
      → contains id c.cached ≡ false
      → IsBacked S IsBlock (record { id = id; block = block; dirty = dirty }) c.store
      → (c' : PageCache S) × (add_to_cache S id block dirty c ≡ some c') × Shows id block c c'
  unfolding add_to_cache
  add_to_cache-Shows id block dirty c k new b =
      let (c1, runs, ev, _) =
        evict_loop-ends S IsBlock IsSound HasRoom law (length c.lru + 1) c k (omega arith) in
      let e : CacheEntry B = record { id = id; block = block; dirty = dirty } in
      let c2 : PageCache S = record c1 { lru = e ∷ c1.lru; cached = insert id c1.cached } in
      let new1 = ev.cached id new in
      let missing = uncached id c1 ev.coherent new1 in
      let same = unfold_view id c c1 new new1 (ev.view id) in
      let shown =
        pushed-Shows e c1 c2 ev.coherent
          (record {
            sized = b.sized;
            old = b.old;
            there = same ∙ b.there;
            clean = λ h. same ∙ b.clean h;
          })
          (record {
            others = c1.lru;
            lru = refl;
            unique = ev.coherent.unique;
            find = λ j. ground (arith, same_missing id j c1.lru missing);
            cached = λ j. contains-insert id j c1.cached;
            store = refl;
            max_size = refl;
          }) in
      (
        c2,
        rw runs refl,
        record { coherent = shown.coherent; view = λ j. ground (arith, shown.view j, ev.view j) },
      )

  -- What stays where nothing is written.
  pub record Keeps (c c' : PageCache S) : Type 0 where
    pub coherent : IsCoherent S IsBlock IsSound c'
    pub view : (j : ℕ) → view S j c' ≡ view S j c

  pub counted :
      (hits misses : ℕ) (c : PageCache S)
      → IsCoherent S IsBlock IsSound c
      → IsCoherent S IsBlock IsSound (record c { hits = hits; misses = misses })
  counted hits misses c k = record {
    sound = k.sound;
    positive = k.positive;
    unique = k.unique;
    keys = k.keys;
    backed = k.backed;
  }

  -- A block that is shown, put at the front again, changes nothing.
  pub Shows-Keeps :
      (id : ℕ) (b : B) (c c' : PageCache S) → view S id c ≡ ok b → Shows id b c c' → Keeps c c'
  Shows-Keeps id b c c' h s = record {
    coherent = s.coherent;
    view = λ j. elim (Bool-cases (id == j)) [
      | inl here ↦ s.view j ∙ rw here (sym h ∙ ap (λ i. view S i c) ((==_iff id j).0 here))
      | inr there ↦ s.view j ∙ rw there refl
    ];
  }

  pub cached_view :
      (id : ℕ) (c : PageCache S)
      → contains id c.cached ≡ true
      → view S id c ≡ entry_block (find_entry id c.lru)
  unfolding view
  cached_view id c h = rw h refl

  pub stored_view :
      (id : ℕ) (c : PageCache S)
      → contains id c.cached ≡ false
      → view S id c ≡ S.block_read id c.store
  unfolding view
  stored_view id c h = rw h refl

  pub key_there :
      (id j : ℕ) (c : PageCache S)
      → contains id c.cached ≡ true
      → contains j c.cached ≡ (if id == j then true else contains j c.cached)
  key_there id j c h = elim (Bool-cases (id == j)) [
    | inl here ↦ rw here (subst (λ i. contains i c.cached ≡ true) ((==_iff id j).0 here) h)
    | inr there ↦ rw there refl
  ]

  pub moved-IsPushed :
      (id : ℕ) (e : CacheEntry B) (c : PageCache S)
      → IsCoherent S IsBlock IsSound c
      → contains id c.cached ≡ true
      → e.id ≡ id
      → IsPushed e c (record c { lru = e ∷ remove_entry id c.lru })
  moved-IsPushed id e c k h named = record {
    others = remove_entry id c.lru;
    lru = refl;
    unique = HasUniqueIds-remove_entry id c.lru k.unique;
    find = λ j.
        find_entry-remove_entry id j c.lru k.unique
        ∙ ap (λ i. if i == j then none else find_entry j c.lru) (sym named);
    cached = λ j. key_there (e.id) j c (subst (λ i. contains i c.cached ≡ true) (sym named) h);
    store = refl;
    max_size = refl;
  }
