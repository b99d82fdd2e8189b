-- ===== src/Auth/Tests.antt =====
-- internal/auth at concrete inputs: a store with one user, who may read one database.
use gothinkdb.Prelude.{
  ◌≡◌, refl, sym, ap, ◌∙◌, String, true, false, none, some, [], ◌∷◌, arith, str_eq, eq_iff,
  Bool-cases, inl, inr, some_eq,
}
use gothinkdb.Prelude.Assoc.{lookup}
use gothinkdb.Prelude.Result.{ok}
use gothinkdb.Auth.{
  new_store, Credentials, User, Rights, Permission, Store, permission_key, contains,
  has_database_access, grant_permission,
}
use gothinkdb.Auth.Keys.{has_colon, str_eq-permission_key}
use gothinkdb.Auth.Invariant.{Call, create, grant, IsFresh, step, start, next, Reached-IsStore}
use gothinkdb.Auth.Access.{IsStore, delete_user-denies}
use gothinkdb.Auth.Grants.{grant_permission-access}

abbrev secret : Credentials
secret = record {
  password_hash = "h";
  salt = "s";
  iterations = 4096;
  stored_key = "k";
  server_key = "v";
}

abbrev ada : User
ada = record {
  id = "u1";
  username = "ada";
  role = "user";
  created_at = 1;
  updated_at = 1;
  credentials = secret;
}

abbrev read_only : Rights
read_only = record { read = true; write = false; create = false; drop = false }

abbrev may_read : Permission
may_read = record {
  id = "p1";
  user_id = "u1";
  database = "db";
  can = read_only;
  created_at = 2;
  updated_at = 2;
}

abbrev shared : Store
shared = record {
  users = ("u1", ada) ∷ [];
  users_by_name = ("ada", "u1") ∷ [];
  permissions = (permission_key "u1" "db", may_read) ∷ [];
  user_perms = ("u1", permission_key "u1" "db" ∷ []) ∷ [];
}

ada_plain : has_colon "u1" ≡ false
unfolding has_colon
ada_plain = refl

only_ada : (id : String) (u : User) → lookup id shared.users ≡ some u → (id ≡ "u1") × (ada ≡ u)
unfolding lookup
only_ada id u h = elim (Bool-cases (str_eq id "u1")) [
  | inl here ↦ ((eq_iff id "u1").0 here, some_eq (rw here at h))
  | inr apart ↦ cc (rw apart at h)
]

shared-IsStore : IsStore shared
unfolding lookup contains
shared-IsStore = record {
  named = λ id u h. let (e, f) = only_ada id u h in ap (λ (v : User). v.id) (sym f) ∙ sym e;
  uuid = λ id u h. ap has_colon (only_ada id u h).0 ∙ ada_plain;
  listed = λ id database p plain h. ground (
    arith,
    str_eq-permission_key id "u1" database "db" plain ada_plain,
    eq_iff id "u1",
    eq_iff (permission_key "u1" "db") (permission_key id database),
    eq_iff (permission_key id database) (permission_key "u1" "db"),
  );
  own = λ id other database plain plain' h. ground (
    arith,
    str_eq-permission_key "u1" other "db" database ada_plain plain',
    eq_iff id "u1",
    eq_iff "u1" other,
  );
}

ada_there : lookup "u1" shared.users ≡ some ada
unfolding lookup
ada_there = refl

delete_user-denies_example :
    has_database_access "u1" "db" read_only
      (delete_user-denies "u1" ada shared shared-IsStore ada_there).0
    ≡ false
delete_user-denies_example =
    (delete_user-denies "u1" ada shared shared-IsStore ada_there).3 "db" read_only

abbrev may_write : Rights
may_write = record { read = true; write = true; create = false; drop = false }

grant_permission-access_example :
    grant_permission "u1" "logs" may_write "p2" 3 shared
    ≡ ok (
      (grant_permission-access "u1" "logs" "p2" ada may_write 3 shared shared-IsStore ada_there).0,
      (grant_permission-access "u1" "logs" "p2" ada may_write 3 shared shared-IsStore ada_there).1,
    )
grant_permission-access_example =
    (grant_permission-access "u1" "logs" "p2" ada may_write 3 shared shared-IsStore ada_there).2

bob_plain : has_colon "u2" ≡ false
unfolding has_colon
bob_plain = refl

bob_unused : (database : String) → lookup (permission_key "u2" database) shared.permissions ≡ none
unfolding lookup
bob_unused database =
    ground (arith, str_eq-permission_key "u2" "u1" database "db" bob_plain ada_plain)

bob_new : lookup "bob" shared.users_by_name ≡ none
unfolding lookup
bob_new = refl

abbrev create_ada : Call
create_ada = create "ada" "secret" "user" (ok secret) "u1" 1

create_ada-IsFresh : IsFresh create_ada new_store
unfolding new_store has_colon lookup
create_ada-IsFresh = (refl, refl)

abbrev grant_ada : Call
grant_ada = grant "u1" "db" read_only "p1" 2

Reached-IsStore_example : IsStore (step grant_ada (step create_ada new_store))
Reached-IsStore_example = Reached-IsStore (step grant_ada (step create_ada new_store)) (
    next grant_ada (step create_ada new_store) tt
      (next create_ada new_store create_ada-IsFresh start))
