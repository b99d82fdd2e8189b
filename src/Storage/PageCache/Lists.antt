-- ===== src/Storage/PageCache/Lists.antt =====
-- internal/storage/page_cache.go: the lookups in the list and in the set of keys.
use gothinkdb.Prelude.{
  ℕ, ◌≡◌, refl, true, false, none, some, List, [], ◌∷◌, ◌++◌, ◌==◌, length, if◌then◌else◌, arith,
  Option-cases, inl, inr,
}
use gothinkdb.Storage.PageCache.{
  CacheEntry, contains, erase, insert, find_entry, remove_entry, back,
}

pub contains-erase :
    (id j : ℕ) (js : List ℕ) → contains j (erase id js) ≡ (if id == j then false else contains j js)
unfolding contains erase
contains-erase id j [] = ground arith
contains-erase id j (k ∷ js) = ground (arith, contains-erase id j js)

pub contains-insert :
    (id j : ℕ) (js : List ℕ) → contains j (insert id js) ≡ (if id == j then true else contains j js)
unfolding contains
contains-insert id j js = ground (arith, contains-erase id j js)

-- A set with a key is not empty.
pub contains-head : (js : List ℕ) → ((id : ℕ) → contains id js ≡ false) → length js ≡ 0
unfolding contains
contains-head [] h = refl
contains-head (j ∷ js) h = ground (arith, h j)

module _ {B : Type 0} where
  pub find_entry-append_last :
      (j : ℕ) (es : List (CacheEntry B)) (e : CacheEntry B)
      → find_entry j (es ++ e ∷ [])
        ≡ elim (find_entry j es) [ none ↦ if e.id == j then some e else none | some d ↦ some d ]
  unfolding find_entry
  find_entry-append_last j [] e = refl
  find_entry-append_last j (d ∷ es) e = ground (arith, find_entry-append_last j es e)

  -- The entry that is found has the id.
  pub find_entry-id :
      (j : ℕ) (es : List (CacheEntry B)) (e : CacheEntry B) → find_entry j es ≡ some e → e.id ≡ j
  unfolding find_entry
  find_entry-id j [] e h = cc
  find_entry-id j (d ∷ es) e h = ground (arith, find_entry-id j es e)

  -- No two entries have one id.
  abbrev pub HasUniqueIds : List (CacheEntry B) → Type 0
  HasUniqueIds [] = Unit {0}
  HasUniqueIds (e ∷ es) = (find_entry e.id es ≡ none) × HasUniqueIds es

  pub HasUniqueIds-front :
      (es : List (CacheEntry B)) (e : CacheEntry B)
      → HasUniqueIds (es ++ e ∷ [])
      → HasUniqueIds es × (find_entry e.id es ≡ none)
  unfolding find_entry
  HasUniqueIds-front [] e u = (tt, refl)
  HasUniqueIds-front (d ∷ es) e u =
      ground (arith, HasUniqueIds-front es e u.1, find_entry-append_last d.id es e)

  pub find_entry-remove_entry :
      (id j : ℕ) (es : List (CacheEntry B))
      → HasUniqueIds es
      → find_entry j (remove_entry id es) ≡ (if id == j then none else find_entry j es)
  unfolding find_entry remove_entry
  find_entry-remove_entry id j [] u = ground arith
  find_entry-remove_entry id j (d ∷ es) u = ground (arith, find_entry-remove_entry id j es u.1)

  pub HasUniqueIds-remove_entry :
      (id : ℕ) (es : List (CacheEntry B)) → HasUniqueIds es → HasUniqueIds (remove_entry id es)
  unfolding remove_entry
  HasUniqueIds-remove_entry id [] u = tt
  HasUniqueIds-remove_entry id (d ∷ es) u =
      ground (arith, HasUniqueIds-remove_entry id es u.1, find_entry-remove_entry id d.id es u.1)

  pub back-none : (es : List (CacheEntry B)) → back es ≡ none → es ≡ []
  unfolding back
  back-none [] h = refl
  back-none (e ∷ es) h = elim (Option-cases (back es)) [
    | inl p ↦ cc (rw p at h)
    | inr ((front, last), p) ↦ cc (rw p at h)
  ]

  pub back-some :
      (es front : List (CacheEntry B)) (last : CacheEntry B)
      → back es ≡ some (front, last)
      → es ≡ front ++ last ∷ []
  unfolding back
  back-some [] front last h = cc
  back-some (e ∷ es) front last h = elim (Option-cases (back es)) [
    | inl p ↦ ground (arith, back-none es p, rw p at h)
    | inr ((front', last'), p) ↦ ground (arith, back-some es front' last' p, rw p at h)
  ]
