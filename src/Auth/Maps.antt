-- ===== src/Auth/Maps.antt =====
-- internal/auth/store.go: the loops over keys.
use gothinkdb.Prelude.{
  ◌≡◌, refl, String, true, false, ◌||◌, none, List, [], ◌∷◌, ◌++◌, if◌then◌else◌, arith, str_eq,
  eq_iff,
}
use gothinkdb.Prelude.Assoc.{lookup, erase, lookup-erase}
use gothinkdb.Auth.{contains, erase_all, remove_first}

pub lookup-erase_all :
    {V : Type 0} (keys : List String) (key : String) (entries : List (String × V))
    → lookup key (erase_all keys entries) ≡ (if contains key keys then none else lookup key entries)
unfolding contains erase_all
lookup-erase_all [] key entries = refl
lookup-erase_all (k ∷ ks) key entries =
    ground (arith, lookup-erase_all ks key (erase k entries), lookup-erase k key entries)

-- Only the key itself can be lost.
pub contains-remove_first :
    (key other : String) (ks : List String)
    → str_eq key other ≡ false
    → contains other (remove_first key ks) ≡ contains other ks
unfolding contains remove_first
contains-remove_first key other [] h = refl
contains-remove_first key other (k ∷ ks) h =
    ground
      (arith, eq_iff k key, eq_iff k other, eq_iff key other, contains-remove_first key other ks h)

pub contains-remove_first_only :
    (key other : String) (ks : List String)
    → contains other (remove_first key ks) ≡ true
    → contains other ks ≡ true
unfolding contains remove_first
contains-remove_first_only key other [] h = h
contains-remove_first_only key other (k ∷ ks) h =
    ground (arith, contains-remove_first_only key other ks)

pub contains-nil : (key : String) → contains key [] ≡ false
unfolding contains
contains-nil key = refl

pub contains-append_last :
    (key last : String) (ks : List String)
    → contains key (ks ++ last ∷ []) ≡ (contains key ks || str_eq last key)
unfolding contains
contains-append_last key last [] = ground arith
contains-append_last key last (k ∷ ks) = ground (arith, contains-append_last key last ks)
