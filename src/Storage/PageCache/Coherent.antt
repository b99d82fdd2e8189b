-- ===== src/Storage/PageCache/Coherent.antt =====
-- internal/storage/page_cache.go: what a cache holds, seen from outside, and eviction.
use gothinkdb.Prelude.{
  ℕ, zero, suc, ◌+◌, ◌<◌, ◌≡◌, refl, sym, ap, ◌∙◌, Bool, true, false, Option, none, some, List, [],
  ◌∷◌, ◌++◌, ◌==◌, ==_iff, leb, length, if◌then◌else◌, arith, Option-cases, Bool-cases, inl, inr,
  length-append, subst,
}
use gothinkdb.Prelude.Result.{Result, ok, panic}
use gothinkdb.Storage.Serializer.{Serializer, Wrote, IsLawful}
use gothinkdb.Storage.PageCache.{
  CacheEntry, PageCache, contains, erase, find_entry, back, evict, evict_loop, write_back,
}
use gothinkdb.Storage.PageCache.Lists.{
  contains-erase, contains-head, find_entry-append_last, find_entry-id, HasUniqueIds,
  HasUniqueIds-front, back-none, back-some,
}

abbrev pub entry_block : {B : Type 0} → Option (CacheEntry B) → Result B
entry_block none = panic
entry_block (some e) = ok e.block

abbrev pub is_found : {B : Type 0} → Option (CacheEntry B) → Bool
is_found none = false
is_found (some e) = true

-- The block of an id: the cached one, or else the stored one.
unfoldable pub view : {B : Type 0} (S : Serializer B) → ℕ → PageCache S → Result B
view S id c =
    if contains id c.cached then entry_block (find_entry id c.lru) else S.block_read id c.store

-- An entry is a block, its id is one of the store, and if the entry is clean the store has its block.
pub record IsBacked {B : Type 0} (S : Serializer B) (IsBlock : B → Type 0) (e : CacheEntry B)
    (s : S.State) : Type 0 where
  pub sized : IsBlock e.block
  pub old : B
  pub there : S.block_read e.id s ≡ ok old
  pub clean : e.dirty ≡ false → S.block_read e.id s ≡ ok e.block

pub record IsCoherent {B : Type 0} (S : Serializer B) (IsBlock : B → Type 0)
    (IsSound : S.State → Type 0) (c : PageCache S) : Type 0 where
  pub sound : IsSound c.store
  pub positive : 0 < c.max_size
  pub unique : HasUniqueIds c.lru
  pub keys : (id : ℕ) → contains id c.cached ≡ is_found (find_entry id c.lru)
  pub backed :
      (id : ℕ) (e : CacheEntry B) → find_entry id c.lru ≡ some e → IsBacked S IsBlock e c.store

module _ {B : Type 0} (S : Serializer B) (IsBlock : B → Type 0) (IsSound HasRoom : S.State → Type 0)
    (law : IsLawful S IsBlock IsSound HasRoom) where
  -- The write-back of an entry leaves its block in the store, and no other is changed.
  pub write_back-Wrote :
      (e : CacheEntry B) (s : S.State)
      → IsSound s
      → IsBacked S IsBlock e s
      → Wrote S IsSound e.id e.block s (write_back S e s)
  unfolding write_back
  write_back-Wrote e s o k = elim (Bool-cases e.dirty) [
    | inl changed ↦
        let (s', written, w) = law.block_read-block_write e.id e.block k.old s o k.sized k.there in
        rw (changed, written) w
    | inr same ↦ rw same (record {
      sound = o;
      read = λ j. elim (Bool-cases (e.id == j)) [
        | inl here ↦
            rw here (ap (λ i. S.block_read i s) (sym ((==_iff e.id j).0 here)) ∙ k.clean same)
        | inr there ↦ rw there refl
      ];
    })
  ]

  IsBacked-kept :
      (e : CacheEntry B) (s s' : S.State)
      → S.block_read e.id s' ≡ S.block_read e.id s
      → IsBacked S IsBlock e s
      → IsBacked S IsBlock e s'
  IsBacked-kept e s s' same k = record {
    sized = k.sized;
    old = k.old;
    there = same ∙ k.there;
    clean = λ c. same ∙ k.clean c;
  }

  abbrev evicted : PageCache S → List (CacheEntry B) → CacheEntry B → PageCache S
  evicted c front last = record c {
    store = write_back S last c.store;
    cached = erase last.id c.cached;
    lru = front;
  }

  -- The facts about the entry that goes.
  record IsLast (c : PageCache S) (front : List (CacheEntry B)) (last : CacheEntry B) : Type 0 where
    pub lru : c.lru ≡ front ++ last ∷ []
    pub unique : HasUniqueIds front
    pub alone : find_entry last.id front ≡ none
    pub backed : IsBacked S IsBlock last c.store
    pub found :
        (j : ℕ)
        → find_entry j c.lru ≡ elim (find_entry j front) [
          | none ↦ if last.id == j then some last else none
          | some d ↦ some d
        ]

  last_lem :
      (c : PageCache S) (front : List (CacheEntry B)) (last : CacheEntry B)
      → IsCoherent S IsBlock IsSound c
      → back c.lru ≡ some (front, last)
      → IsLast c front last
  last_lem c front last k b =
      let e = back-some c.lru front last b in
      let (unique, alone) = HasUniqueIds-front front last (subst HasUniqueIds e k.unique) in
      let found = λ (j : ℕ). ap (find_entry j) e ∙ find_entry-append_last j front last in
      record {
        lru = e;
        unique = unique;
        alone = alone;
        backed = k.backed last.id last (found last.id ∙ rw alone (ground arith));
        found = found;
      }

  alone_at :
      (c : PageCache S) (front : List (CacheEntry B)) (last : CacheEntry B) (j : ℕ)
      → IsLast c front last
      → (last.id == j) ≡ true
      → find_entry j front ≡ none
  alone_at c front last j l here =
      ap (λ i. find_entry i front) (sym ((==_iff last.id j).0 here)) ∙ l.alone

  front_apart :
      (c : PageCache S) (front : List (CacheEntry B)) (last e : CacheEntry B) (j : ℕ)
      → IsLast c front last
      → find_entry j front ≡ some e
      → (last.id == e.id) ≡ false
  front_apart c front last e j l h =
      ground (arith, alone_at c front last j l, find_entry-id j front e h)

  evicted-IsCoherent :
      (c : PageCache S) (front : List (CacheEntry B)) (last : CacheEntry B)
      → IsCoherent S IsBlock IsSound c
      → IsLast c front last
      → IsCoherent S IsBlock IsSound (evicted c front last)
  evicted-IsCoherent c front last k l = record {
    sound = (write_back-Wrote last c.store k.sound l.backed).sound;
    positive = k.positive;
    unique = l.unique;
    keys = λ id. ground (
      arith,
      contains-erase last.id id c.cached,
      k.keys id,
      l.found id,
      alone_at c front last id l,
    );
    backed = λ id e h.
        IsBacked-kept e c.store (write_back S last c.store)
          ((write_back-Wrote last c.store k.sound l.backed).read e.id
            ∙ rw (front_apart c front last e id l h) refl)
          (k.backed id e (l.found id ∙ rw h refl));
  }

  evicted-view :
      (c : PageCache S) (front : List (CacheEntry B)) (last : CacheEntry B)
      → IsCoherent S IsBlock IsSound c
      → IsLast c front last
      → (j : ℕ) → view S j (evicted c front last) ≡ view S j c
  unfolding view
  evicted-view c front last k l j = ground (
    arith,
    contains-erase last.id j c.cached,
    k.keys j,
    l.found j,
    alone_at c front last j l,
    (write_back-Wrote last c.store k.sound l.backed).read j,
  )

  -- One eviction keeps the cache coherent and what it shows, and takes one entry, if there is one.
  pub record Evicted (c c' : PageCache S) : Type 0 where
    pub coherent : IsCoherent S IsBlock IsSound c'
    pub view : (j : ℕ) → view S j c' ≡ view S j c
    pub max_size : c'.max_size ≡ c.max_size
    pub cached : (j : ℕ) → contains j c.cached ≡ false → contains j c'.cached ≡ false

  pub evict_lem : (c : PageCache S) → IsCoherent S IsBlock IsSound c → Evicted c (evict S c)
  unfolding evict
  evict_lem c k = elim (Option-cases (back c.lru)) [
    | inl empty ↦
        rw empty (record { coherent = k; view = λ j. refl; max_size = refl; cached = λ j h. h })
    | inr ((front, last), some_last) ↦
        let l = last_lem c front last k some_last in
        rw some_last (record {
          coherent = evicted-IsCoherent c front last k l;
          view = evicted-view c front last k l;
          max_size = refl;
          cached = λ j h. ground (arith, contains-erase last.id j c.cached);
        })
  ]

  evict-shrinks : (c : PageCache S) → 0 < length c.lru → length (evict S c).lru + 1 ≡ length c.lru
  unfolding evict
  evict-shrinks c h = elim (Option-cases (back c.lru)) [
    | inl empty ↦ absurd (omega (arith, ap length (back-none c.lru empty)))
    | inr ((front, last), some_last) ↦ rw some_last (
        omega (
          arith,
          ap length (back-some c.lru front last some_last),
          length-append front (last ∷ []),
        ))
  ]

  no_entry : (es : List (CacheEntry B)) (j : ℕ) → length es ≡ 0 → is_found (find_entry j es) ≡ false
  unfolding find_entry
  no_entry [] j h = refl
  no_entry (e ∷ es) j h = absurd (omega arith)

  empty-has_room :
      (c : PageCache S) → IsCoherent S IsBlock IsSound c → length c.lru ≡ 0 → length c.cached ≡ 0
  unfolding find_entry
  empty-has_room c k h = contains-head c.cached λ id. k.keys id ∙ no_entry c.lru id h

  -- The loop of `addToCache` ends, with room for an entry.
  pub evict_loop-ends :
      (fuel : ℕ) (c : PageCache S)
      → IsCoherent S IsBlock IsSound c
      → length c.lru < fuel
      → (c' : PageCache S) × (evict_loop S fuel c ≡ some c')
        × Evicted c c'
        × (length c'.cached < c'.max_size)
  unfolding evict_loop
  evict_loop-ends zero c k h = absurd (omega arith)
  evict_loop-ends (suc fuel) c k h = elim (Bool-cases (leb c.max_size (length c.cached))) [
    | inr room ↦ (
      c,
      rw room refl,
      record { coherent = k; view = λ j. refl; max_size = refl; cached = λ j h. h },
      ground arith,
    )
    | inl full ↦
        let some_entry : 0 < length c.lru = ground (arith, empty-has_room c k, k.positive) in
        let first = evict_lem c k in
        let (c', runs, rest, room) =
          evict_loop-ends fuel (evict S c) first.coherent
            (omega (arith, evict-shrinks c some_entry)) in
        (
          c',
          rw full runs,
          record {
            coherent = rest.coherent;
            view = λ j. rest.view j ∙ first.view j;
            max_size = rest.max_size ∙ first.max_size;
            cached = λ j h. rest.cached j (first.cached j h);
          },
          room,
        )
  ]
