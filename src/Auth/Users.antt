-- ===== src/Auth/Users.antt =====
-- internal/auth/store.go: a new user.
use gothinkdb.Prelude.{
  ℕ, ◌≡◌, ◌∙◌, refl, sym, ap, String, false, none, some, [], if◌then◌else◌, arith, str_eq, eq_iff,
  Bool-cases, inl, inr, subst, some_eq,
}
use gothinkdb.Prelude.Assoc.{lookup, insert, lookup-insert}
use gothinkdb.Prelude.Result.{ok}
use gothinkdb.Auth.{
  Credentials, is_admin, User, Rights, Store, contains, permission_key, perms_of,
  has_database_access, create_user, new_user,
}
use gothinkdb.Auth.Maps.{contains-nil}
use gothinkdb.Auth.Keys.{has_colon}
use gothinkdb.Auth.Access.{IsStore}

-- The store with one more user, who has no permission.
abbrev with_user : String → User → Store → Store
with_user username u s = record s {
  users = insert u.id u s.users;
  users_by_name = insert username u.id s.users_by_name;
  user_perms = insert u.id [] s.user_perms;
}

with_user-perms_of :
    (username j : String) (u : User) (s : Store)
    → perms_of j (with_user username u s) ≡ (if str_eq u.id j then [] else perms_of j s)
with_user-perms_of username j u s = ground (arith, lookup-insert u.id j [] s.user_perms)

with_user-IsStore :
    (username : String) (u : User) (s : Store)
    → IsStore s
    → has_colon u.id ≡ false
    → ((database : String) → lookup (permission_key u.id database) s.permissions ≡ none)
    → IsStore (with_user username u s)
with_user-IsStore username u s k plain unused =
    let user_of = λ (j : String). lookup-insert u.id j u s.users in
    record {
      named = λ j v h. elim (Bool-cases (str_eq u.id j)) [
        | inl here ↦
            let e : some u ≡ some v = sym (user_of j ∙ rw here refl) ∙ h in
            ap (λ (x : User). x.id) (sym (some_eq e)) ∙ (eq_iff u.id j).0 here
        | inr apart ↦ k.named j v (sym (user_of j ∙ rw apart refl) ∙ h)
      ];
      uuid = λ j v h. elim (Bool-cases (str_eq u.id j)) [
        | inl here ↦ subst (λ i. has_colon i ≡ false) ((eq_iff u.id j).0 here) plain
        | inr apart ↦ k.uuid j v (sym (user_of j ∙ rw apart refl) ∙ h)
      ];
      listed = λ j database p plain_j h. elim (Bool-cases (str_eq u.id j)) [
        | inl here ↦ cc (
          h,
          subst (λ i. lookup (permission_key i database) s.permissions ≡ none)
              ((eq_iff u.id j).0 here) (unused database),
        )
        | inr apart ↦
            ap (contains (permission_key j database))
              (with_user-perms_of username j u s ∙ rw apart refl)
            ∙ k.listed j database p plain_j h
      ];
      own = λ j other database plain_j plain_other h. elim (Bool-cases (str_eq u.id j)) [
        | inl here ↦
            let empty : perms_of j (with_user username u s) ≡ [] =
              with_user-perms_of username j u s ∙ rw here refl in
            let emptied : contains (permission_key other database)
                  (perms_of j (with_user username u s))
                ≡ contains (permission_key other database) [] =
              ap (contains (permission_key other database)) empty in
            cc (h, emptied, contains-nil (permission_key other database))
        | inr apart ↦
            let same : perms_of j (with_user username u s) ≡ perms_of j s =
              with_user-perms_of username j u s ∙ rw apart refl in
            k.own j other database plain_j plain_other
              (ap (contains (permission_key other database)) (sym same) ∙ h)
      ];
    }

-- `CreateUser` with a new name, a password that was hashed and a new id without a colon, under which
-- no permission is left, gives a well-formed store. The new user has access to a database as an
-- administrator only, and the access of every other user is not changed.
pub create_user-access :
    (username password role id : String) (c : Credentials) (now : ℕ) (s : Store)
    → IsStore s
    → has_colon id ≡ false
    → ((database : String) → lookup (permission_key id database) s.permissions ≡ none)
    → lookup username s.users_by_name ≡ none
    → str_eq username "" ≡ false
    → str_eq password "" ≡ false
    → (s' : Store) × (u : User) × (create_user username password role (ok c) id now s ≡ ok (s', u))
      × IsStore s'
      × ((other database : String) (want : Rights)
          → has_database_access other database want s' ≡ (
              if str_eq id other
              then str_eq role "admin"
              else has_database_access other database want s))
unfolding create_user new_user has_database_access is_admin
create_user-access username password role id c now s k plain unused new some_name some_password =
    let u : User = record {
      id = id;
      username = username;
      role = role;
      created_at = now;
      updated_at = now;
      credentials = c;
    } in
    let s' : Store = record s {
      users = insert id u s.users;
      users_by_name = insert username id s.users_by_name;
      user_perms = insert id [] s.user_perms;
    } in
    (
      s',
      u,
      rw (new, some_name, some_password) refl,
      with_user-IsStore username u s k plain unused,
      λ other database want. elim (Bool-cases (str_eq id other)) [
        | inl here ↦
            let e = (eq_iff id other).0 here in
            rw
              (
                lookup-insert id other u s.users,
                here,
                subst (λ i. lookup (permission_key i database) s.permissions ≡ none) e
                    (unused database),
              )
              (ground arith)
        | inr apart ↦ rw (lookup-insert id other u s.users, apart) refl
      ],
    )
