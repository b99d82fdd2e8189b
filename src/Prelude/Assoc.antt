-- ===== src/Prelude/Assoc.antt =====
-- Go's `map[string]V` as an association list. A missing key is `none`.
use mathlib.Core.Path.{◌≡◌, refl}
use mathlib.Core.Bool.{Bool}
use mathlib.Core.Option.{Option, none, some}
use mathlib.Core.List.{List, [], ◌∷◌}
use Prim.Native.String.{String}
use native.Mathlib.Omega.{arith}
use text.Mathlib.Text.{◌==◌}
use text.Mathlib.TextEquality.{eq_iff}
use gothinkdb.Prelude.Tests.{if◌then◌else◌}

module _ {ℓ} {V : Type ℓ} where
  -- `value, exists := entries[key]`
  unfoldable pub lookup : String → List (String × V) → Option V
  lookup key [] = none
  lookup key (entry ∷ entries) =
      let later = lookup key entries in if key == entry.0 then some entry.1 else later

  -- `entries[key] = value`: in the place of the key's old entry, or at the end.
  unfoldable pub insert : String → V → List (String × V) → List (String × V)
  insert key value [] = (key, value) ∷ []
  insert key value (entry ∷ entries) =
      let later = insert key value entries in
      if key == entry.0 then (key, value) ∷ entries else entry ∷ later

  -- `delete(entries, key)`
  unfoldable pub erase : String → List (String × V) → List (String × V)
  erase key [] = []
  erase key (entry ∷ entries) =
      let later = erase key entries in if key == entry.0 then later else entry ∷ later

  -- A loop that deletes the entries whose value passes the test.
  unfoldable pub erase_where : (V → Bool) → List (String × V) → List (String × V)
  erase_where test [] = []
  erase_where test (entry ∷ entries) =
      let later = erase_where test entries in if test entry.1 then later else entry ∷ later

  -- A loop that collects the values that pass the test.
  unfoldable pub values_where : (V → Bool) → List (String × V) → List V
  values_where test [] = []
  values_where test (entry ∷ entries) =
      let later = values_where test entries in if test entry.1 then entry.1 ∷ later else later

  pub lookup-insert :
      (key other : String) (value : V) (entries : List (String × V))
      → lookup other (insert key value entries)
        ≡ (if key == other then some value else lookup other entries)
  unfolding lookup insert
  lookup-insert key other value [] = ground (arith, eq_iff key other, eq_iff other key)
  lookup-insert key other value (entry ∷ entries) = ground (
    arith,
    eq_iff key other,
    eq_iff other key,
    eq_iff key entry.0,
    eq_iff other entry.0,
    lookup-insert key other value entries,
  )

  pub lookup-erase :
      (key other : String) (entries : List (String × V))
      → lookup other (erase key entries) ≡ (if key == other then none else lookup other entries)
  unfolding lookup erase
  lookup-erase key other [] = ground arith
  lookup-erase key other (entry ∷ entries) = ground (
    arith,
    eq_iff key other,
    eq_iff other key,
    eq_iff key entry.0,
    eq_iff other entry.0,
    lookup-erase key other entries,
  )

  -- The key of an entry is not the key of a later one.
  unfoldable pub HasUniqueKeys : List (String × V) → Type ℓ
  HasUniqueKeys [] = Unit {ℓ}
  HasUniqueKeys (entry ∷ entries) = (lookup entry.0 entries ≡ none) × HasUniqueKeys entries

  abbrev pub keep_unless : (V → Bool) → Option V → Option V
  keep_unless test none = none
  keep_unless test (some value) = if test value then none else some value

  pub HasUniqueKeys-insert :
      (key : String) (value : V) (entries : List (String × V))
      → HasUniqueKeys entries
      → HasUniqueKeys (insert key value entries)
  unfolding HasUniqueKeys insert lookup
  HasUniqueKeys-insert key value [] u = (refl, tt)
  HasUniqueKeys-insert key value (entry ∷ entries) u = ground (
    arith,
    eq_iff key entry.0,
    lookup-insert key entry.0 value entries,
    HasUniqueKeys-insert key value entries u.1,
  )

  pub HasUniqueKeys-erase :
      (key : String) (entries : List (String × V))
      → HasUniqueKeys entries
      → HasUniqueKeys (erase key entries)
  unfolding HasUniqueKeys erase
  HasUniqueKeys-erase key [] u = tt
  HasUniqueKeys-erase key (entry ∷ entries) u = ground (
    arith,
    eq_iff key entry.0,
    lookup-erase key entry.0 entries,
    HasUniqueKeys-erase key entries u.1,
  )

  pub lookup-erase_where :
      (test : V → Bool) (key : String) (entries : List (String × V))
      → HasUniqueKeys entries
      → lookup key (erase_where test entries) ≡ keep_unless test (lookup key entries)
  unfolding HasUniqueKeys erase_where lookup
  lookup-erase_where test key [] u = refl
  lookup-erase_where test key (entry ∷ entries) u =
      ground (arith, eq_iff key entry.0, lookup-erase_where test key entries u.1)

  pub HasUniqueKeys-erase_where :
      (test : V → Bool) (entries : List (String × V))
      → HasUniqueKeys entries
      → HasUniqueKeys (erase_where test entries)
  unfolding HasUniqueKeys erase_where
  HasUniqueKeys-erase_where test [] u = tt
  HasUniqueKeys-erase_where test (entry ∷ entries) u = ground (
    arith,
    lookup-erase_where test entry.0 entries u.1,
    HasUniqueKeys-erase_where test entries u.1,
  )
