-- ===== src/Auth/Keys.antt =====
-- internal/auth/permission.go: the keys of permissions.
use Prim.Native.Char.{Char, code}
use Prim.Native.String.append
use gothinkdb.Prelude.{
  ◌≡◌, ◌∙◌, refl, sym, ap, String, Bool, false, ◌||◌, ◌==◌, Option, none, some, if◌then◌else◌,
  arith, some_eq, str_eq, eq_iff, ◌&&◌, Bool-cases, inl, inr,
}
use gothinkdb.Auth.{permission_key}

-- The text has a colon; an id that the uuid package makes has none.
unfoldable pub has_colon : String → Bool
has_colon String.[] = false
has_colon (String.◌∷◌ c s) = let rest = has_colon s in code c == b':' || rest

abbrev with_char : Char → Option (String × String) → Option (String × String)
with_char c none = none
with_char c (some (u, d)) = some (String.◌∷◌ c u, d)

-- The parts before and after the first colon.
split_key : String → Option (String × String)
split_key String.[] = none
split_key (String.◌∷◌ c s) =
    let rest = split_key s in if code c == b':' then some ("", s) else with_char c rest

split_key-permission_key :
    (user_id database : String)
    → has_colon user_id ≡ false
    → split_key (permission_key user_id database) ≡ some (user_id, database)
unfolding permission_key has_colon split_key
split_key-permission_key String.[] database h = rw (append.nil, append.cons, append.nil) refl
split_key-permission_key (String.◌∷◌ c s) database h =
    let other : (code c == b':') ≡ false = ground arith in
    let rest : has_colon s ≡ false = ground arith in
    rw (append.cons, other, split_key-permission_key s database rest) refl

-- Two keys are the same only for the same user and database, where the ids have no colon.
pub permission_key_inj :
    (u u' d d' : String)
    → has_colon u ≡ false
    → has_colon u' ≡ false
    → permission_key u d ≡ permission_key u' d'
    → (u ≡ u') × (d ≡ d')
permission_key_inj u u' d d' h h' e =
    let pairs : (u, d) ≡ (u', d') =
      some_eq (
        sym (split_key-permission_key u d h)
        ∙ ap split_key e
        ∙ split_key-permission_key u' d' h') in
    (ap (λ (p : String × String). p.0) pairs, ap (λ (p : String × String). p.1) pairs)

pub str_eq-permission_key :
    (u u' d d' : String)
    → has_colon u ≡ false
    → has_colon u' ≡ false
    → str_eq (permission_key u d) (permission_key u' d') ≡ (str_eq u u' && str_eq d d')
str_eq-permission_key u u' d d' h h' =
    elim (Bool-cases (str_eq (permission_key u d) (permission_key u' d'))) [
      | inl same ↦
          let (e, f) =
            permission_key_inj u u' d d' h h'
              ((eq_iff (permission_key u d) (permission_key u' d')).0 same) in
          rw (same, (eq_iff u u').1 e, (eq_iff d d').1 f) refl
      | inr apart ↦
          ground
            (arith, eq_iff u u', eq_iff d d', eq_iff (permission_key u d) (permission_key u' d'))
    ]
