-- ===== src/Auth/Access.antt =====
-- internal/auth/store.go: who has access to a database.
use gothinkdb.Prelude.{
  ◌≡◌, ◌∙◌, refl, sym, ap, String, true, false, none, some, [], if◌then◌else◌, arith, str_eq,
  eq_iff, Bool-cases, Option-cases, inl, inr, subst,
}
use gothinkdb.Prelude.Assoc.{lookup, erase, lookup-erase}
use gothinkdb.Prelude.Result.{ok}
use gothinkdb.Auth.{
  User, Permission, Rights, Store, contains, permission_key, perms_of, has_database_access,
  delete_user, erase_all,
}
use gothinkdb.Auth.Maps.{lookup-erase_all, contains-nil}
use gothinkdb.Auth.Keys.{has_colon}

-- The ids of users have no colon and stand in their users. Each permission under the key of an id is
-- in the list of this id, and such a list has keys of its id only.
pub record IsStore (s : Store) : Type 0 where
  pub named : (id : String) (u : User) → lookup id s.users ≡ some u → u.id ≡ id
  pub uuid : (id : String) (u : User) → lookup id s.users ≡ some u → has_colon id ≡ false
  pub listed :
      (id database : String) (p : Permission)
      → has_colon id ≡ false
      → lookup (permission_key id database) s.permissions ≡ some p
      → contains (permission_key id database) (perms_of id s) ≡ true
  pub own :
      (id other database : String)
      → has_colon id ≡ false
      → has_colon other ≡ false
      → contains (permission_key other database) (perms_of id s) ≡ true
      → id ≡ other

same_text : (a : String) → str_eq a a ≡ true
same_text a = (eq_iff a a).1 refl

-- The store without a user and the user's permissions.
abbrev removed : String → User → Store → Store
removed id u s = record s {
  permissions = erase_all (perms_of id s) s.permissions;
  user_perms = erase id s.user_perms;
  users = erase u.id s.users;
  users_by_name = erase u.username s.users_by_name;
}

removed-perms_of :
    (id other : String) (u : User) (s : Store)
    → perms_of other (removed id u s) ≡ (if str_eq id other then [] else perms_of other s)
removed-perms_of id other u s = ground (arith, lookup-erase id other s.user_perms)

removed_permission :
    (id other database : String) (u : User) (s : Store)
    → lookup (permission_key other database) (removed id u s).permissions ≡ (
        if contains (permission_key other database) (perms_of id s)
        then none
        else lookup (permission_key other database) s.permissions)
removed_permission id other database u s =
    lookup-erase_all (perms_of id s) (permission_key other database) s.permissions

-- No permission under the id is left.
none_left :
    (id database : String) (u : User) (s : Store)
    → IsStore s
    → has_colon id ≡ false
    → lookup (permission_key id database) (removed id u s).permissions ≡ none
none_left id database u s k plain =
    removed_permission id id database u s
    ∙ elim (Option-cases (lookup (permission_key id database) s.permissions)) [
      | inl missing ↦ ground (arith)
      | inr (p, there) ↦ rw (k.listed id database p plain there) refl
    ]

-- The permissions under another id are kept.
others_kept :
    (id other database : String) (u : User) (s : Store)
    → IsStore s
    → has_colon id ≡ false
    → has_colon other ≡ false
    → str_eq id other ≡ false
    → lookup (permission_key other database) (removed id u s).permissions
      ≡ lookup (permission_key other database) s.permissions
others_kept id other database u s k plain plain' apart =
    removed_permission id other database u s
    ∙ elim (Bool-cases (contains (permission_key other database) (perms_of id s))) [
      | inr kept ↦ rw kept refl
      | inl lost ↦
          absurd (cc (apart, (eq_iff id other).1 (k.own id other database plain plain' lost)))
    ]

removed-IsStore :
    (id : String) (u : User) (s : Store)
    → IsStore s
    → lookup id s.users ≡ some u
    → IsStore (removed id u s)
removed-IsStore id u s k there =
    let plain = k.uuid id u there in
    let user_of = λ (j : String). lookup-erase u.id j s.users in
    record {
      named = λ j v h. k.named j v (ground (arith, user_of j));
      uuid = λ j v h. k.uuid j v (ground (arith, user_of j));
      listed = λ j database p plain_j h. elim (Bool-cases (str_eq id j)) [
        | inl here ↦
            let e = (eq_iff id j).0 here in
            cc (
              h,
              subst (λ i. lookup (permission_key i database) (removed id u s).permissions ≡ none) e
                  (none_left id database u s k plain),
            )
        | inr apart ↦
            ap (contains (permission_key j database)) (removed-perms_of id j u s ∙ rw apart refl)
            ∙ k.listed j database p plain_j
                (sym (others_kept id j database u s k plain plain_j apart) ∙ h)
      ];
      own = λ j other database plain_j plain_other h. elim (Bool-cases (str_eq id j)) [
        | inl here ↦
            let empty : perms_of j (removed id u s) ≡ [] =
              removed-perms_of id j u s ∙ rw here refl in
            let emptied : contains (permission_key other database) (perms_of j (removed id u s))
                ≡ contains (permission_key other database) [] =
              ap (contains (permission_key other database)) empty in
            cc (h, emptied, contains-nil (permission_key other database))
        | inr apart ↦ k.own j other database plain_j plain_other (
            ap (contains (permission_key other database))
              (sym (removed-perms_of id j u s ∙ rw apart refl))
            ∙ h)
      ];
    }

-- `DeleteUser` of a user succeeds. After it the id has access to no database, and every other id
-- has access as before.
pub delete_user-denies :
    (id : String) (u : User) (s : Store)
    → IsStore s
    → lookup id s.users ≡ some u
    → (s' : Store) × (delete_user id s ≡ ok s')
      × IsStore s'
      × ((database : String) (want : Rights) → has_database_access id database want s' ≡ false)
      × ((other database : String) (want : Rights)
          → has_colon other ≡ false
          → str_eq id other ≡ false
          → has_database_access other database want s' ≡ has_database_access other database want s)
unfolding delete_user has_database_access
delete_user-denies id u s k there =
    let plain = k.uuid id u there in
    let named = k.named id u there in
    (
      removed id u s,
      rw there refl,
      removed-IsStore id u s k there,
      λ database want.
          rw (none_left id database u s k plain, lookup-erase u.id id s.users, named, same_text id)
            refl,
      λ other database want plain' apart.
          rw
            (
              others_kept id other database u s k plain plain' apart,
              lookup-erase u.id other s.users,
              named,
              apart,
            )
            refl,
    )
