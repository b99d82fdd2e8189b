-- ===== src/Auth/Revokes.antt =====
-- internal/auth/store.go: what a revocation changes.
use gothinkdb.Prelude.{
  ◌≡◌, ◌∙◌, refl, sym, ap, String, true, false, ◌&&◌, some, List, if◌then◌else◌, arith, str_eq,
  eq_iff, Bool-cases, inl, inr,
}
use gothinkdb.Prelude.Assoc.{lookup, insert, erase, lookup-insert, lookup-erase}
use gothinkdb.Prelude.Result.{ok}
use gothinkdb.Auth.{
  Permission, Store, contains, permission_key, perms_of, keys_or_nil, revoke_permission,
  remove_first,
}
use gothinkdb.Auth.Maps.{contains-remove_first, contains-remove_first_only}
use gothinkdb.Auth.Access.{IsStore}

shorter : String → String → Store → List (String × List String)
shorter id key s =
    if contains key (perms_of id s)
    then insert id (remove_first key (perms_of id s)) s.user_perms
    else s.user_perms

abbrev revoked : String → String → Store → Store
revoked id key s = record s { permissions = erase key s.permissions; user_perms = shorter id key s }

revoked-perms_of :
    (id j key : String) (s : Store)
    → perms_of j (revoked id key s) ≡ (
        if contains key (perms_of id s) && str_eq id j
        then remove_first key (perms_of j s)
        else perms_of j s)
unfolding shorter
revoked-perms_of id j key s = elim (Bool-cases (contains key (perms_of id s))) [
  | inr absent ↦ rw absent refl
  | inl held ↦ rw held (
      ap keys_or_nil (lookup-insert id j (remove_first key (perms_of id s)) s.user_perms)
      ∙ elim (Bool-cases (str_eq id j)) [
        | inl here ↦ rw here (ap (λ i. remove_first key (perms_of i s)) ((eq_iff id j).0 here))
        | inr other ↦ rw other refl
      ])
]

-- Another key is kept in each list.
revoked-other :
    (id j key key' : String) (s : Store)
    → str_eq key key' ≡ false
    → contains key' (perms_of j (revoked id key s)) ≡ contains key' (perms_of j s)
revoked-other id j key key' s apart =
    ap (contains key') (revoked-perms_of id j key s)
    ∙ elim (Bool-cases (contains key (perms_of id s) && str_eq id j)) [
      | inl here ↦ rw here (contains-remove_first key key' (perms_of j s) apart)
      | inr other ↦ rw other refl
    ]

-- No list gets a key.
revoked-only :
    (id j key key' : String) (s : Store)
    → contains key' (perms_of j (revoked id key s)) ≡ true
    → contains key' (perms_of j s) ≡ true
revoked-only id j key key' s h =
    let held = sym (ap (contains key') (revoked-perms_of id j key s)) ∙ h in
    elim (Bool-cases (contains key (perms_of id s) && str_eq id j)) [
      | inl here ↦ contains-remove_first_only key key' (perms_of j s) (rw here at held)
      | inr other ↦ rw other at held
    ]

revoked-IsStore :
    (id database : String) (s : Store)
    → IsStore s
    → IsStore (revoked id (permission_key id database) s)
revoked-IsStore id database s k =
    let key = permission_key id database in
    record {
      named = k.named;
      uuid = k.uuid;
      listed = λ j base p plain_j h. elim (Bool-cases (str_eq key (permission_key j base))) [
        | inl here ↦ ground (arith, lookup-erase key (permission_key j base) s.permissions)
        | inr apart ↦
            revoked-other id j key (permission_key j base) s apart
            ∙ k.listed j base p plain_j
                (ground (arith, lookup-erase key (permission_key j base) s.permissions))
      ];
      own = λ j other base plain_j plain_other h.
          k.own j other base plain_j plain_other
            (revoked-only id j key (permission_key other base) s h);
    }

pub revoke_permission-IsStore :
    (id database : String) (p : Permission) (s : Store)
    → IsStore s
    → lookup (permission_key id database) s.permissions ≡ some p
    → (s' : Store) × (revoke_permission id database s ≡ ok s') × IsStore s'
unfolding revoke_permission shorter
revoke_permission-IsStore id database p s k there =
    (revoked id (permission_key id database) s, rw there refl, revoked-IsStore id database s k)
