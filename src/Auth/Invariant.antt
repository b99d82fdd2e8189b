-- ===== src/Auth/Invariant.antt =====
-- internal/auth/store.go: a store under any sequence of calls.
use gothinkdb.Prelude.{
  ℕ, ◌≡◌, ◌∙◌, refl, sym, ap, String, false, none, some, [], str_eq, eq_iff, Bool-cases,
  Option-cases, inl, inr, subst, some_eq,
}
use gothinkdb.Prelude.Assoc.{lookup, insert, lookup-insert}
use gothinkdb.Prelude.Result.{Result, ok, err, panic}
use gothinkdb.Auth.{
  Credentials, User, Rights, Store, contains, permission_key, perms_of, delete_user,
  grant_permission, revoke_permission, create_user, keys_or_nil, new_user, new_store,
  update_user_password, set_password,
}
use gothinkdb.Auth.Maps.{contains-nil}
use gothinkdb.Auth.Keys.{has_colon}
use gothinkdb.Auth.Access.{IsStore, delete_user-denies}
use gothinkdb.Auth.Grants.{grant_permission-access}
use gothinkdb.Auth.Revokes.{revoke_permission-IsStore}
use gothinkdb.Auth.Users.{create_user-access}

-- A call with its arguments, and with the ids, times and hashes that it makes.
pub data Call : Type 0 where
  create :
      (username password role : String) (hashed : Result Credentials) (id : String) (now : ℕ) → Call
  delete : (user_id : String) → Call
  grant : (user_id database : String) (can : Rights) (id : String) (now : ℕ) → Call
  revoke : (user_id database : String) → Call
  set : (user_id password : String) (hashed : Result Credentials) (now : ℕ) → Call

abbrev kept : Store → Result Store → Store
kept s (ok s') = s'
kept s err = s
kept s panic = s

abbrev first_kept : {A : Type 0} → Store → Result (Store × A) → Store
first_kept s (ok (s', a)) = s'
first_kept s err = s
first_kept s panic = s

-- The store after a call; a call that fails changes nothing.
unfoldable pub step : Call → Store → Store
step (create username password role hashed id now) s =
    first_kept s (create_user username password role hashed id now s)
step (delete user_id) s = kept s (delete_user user_id s)
step (grant user_id database can id now) s =
    first_kept s (grant_permission user_id database can id now s)
step (revoke user_id database) s = kept s (revoke_permission user_id database s)
step (set user_id password hashed now) s =
    kept s (update_user_password user_id password hashed now s)

-- The id of a new user is one of the uuid package: it has no colon and is not in use.
abbrev pub IsFresh : Call → Store → Type 0
IsFresh (create username password role hashed id now) s =
    (has_colon id ≡ false) × (lookup id s.user_perms ≡ none)
IsFresh (delete user_id) s = Unit {0}
IsFresh (grant user_id database can id now) s = Unit {0}
IsFresh (revoke user_id database) s = Unit {0}
IsFresh (set user_id password hashed now) s = Unit {0}

fresh_unused :
    (id database : String) (s : Store)
    → IsStore s
    → has_colon id ≡ false
    → lookup id s.user_perms ≡ none
    → lookup (permission_key id database) s.permissions ≡ none
fresh_unused id database s k plain fresh =
    elim (Option-cases (lookup (permission_key id database) s.permissions)) [
      | inl missing ↦ missing
      | inr (p, there) ↦
          let empty : perms_of id s ≡ [] = ap keys_or_nil fresh in
          cc (
            k.listed id database p plain there,
            ap (contains (permission_key id database)) empty,
            contains-nil (permission_key id database),
          )
    ]

create-hashed :
    (username password role : String) (hashed : Result Credentials) (id : String) (now : ℕ)
    (s : Store)
    → IsStore s
    → has_colon id ≡ false
    → lookup id s.user_perms ≡ none
    → lookup username s.users_by_name ≡ none
    → str_eq username "" ≡ false
    → str_eq password "" ≡ false
    → IsStore (first_kept s (create_user username password role hashed id now s))
unfolding create_user new_user
create-hashed username password role panic id now s k plain fresh new name secret =
    rw (new, name, secret) k
create-hashed username password role err id now s k plain fresh new name secret =
    rw (new, name, secret) k
create-hashed username password role (ok c) id now s k plain fresh new name secret =
    let (s', u, runs, k', _) =
      create_user-access username password role id c now s k plain
        (λ database. fresh_unused id database s k plain fresh) new name secret in
    subst (λ r. IsStore (first_kept s r)) (sym runs) k'

create-IsStore :
    (username password role : String) (hashed : Result Credentials) (id : String) (now : ℕ)
    (s : Store)
    → IsStore s
    → has_colon id ≡ false
    → lookup id s.user_perms ≡ none
    → IsStore (first_kept s (create_user username password role hashed id now s))
unfolding create_user new_user
create-IsStore username password role hashed id now s k plain fresh =
    elim (Option-cases (lookup username s.users_by_name)) [
      | inr (_, taken) ↦ rw taken k
      | inl new ↦ elim (Bool-cases (str_eq username "")) [
        | inl empty ↦ rw (new, empty) k
        | inr name ↦ elim (Bool-cases (str_eq password "")) [
          | inl empty ↦ rw (new, name, empty) k
          | inr secret ↦
              create-hashed username password role hashed id now s k plain fresh new name secret
        ]
      ]
    ]

with_credentials-IsStore :
    (user_id : String) (u u' : User) (s : Store)
    → IsStore s
    → lookup user_id s.users ≡ some u
    → u'.id ≡ u.id
    → IsStore (record s { users = insert user_id u' s.users })
with_credentials-IsStore user_id u u' s k there same =
    let user_of = λ (j : String). lookup-insert user_id j u' s.users in
    record {
      named = λ j v h. elim (Bool-cases (str_eq user_id j)) [
        | inl here ↦
            let e : some u' ≡ some v = sym (user_of j ∙ rw here refl) ∙ h in
            ap (λ (x : User). x.id) (sym (some_eq e))
            ∙ same
            ∙ k.named user_id u there
            ∙ (eq_iff user_id j).0 here
        | inr apart ↦ k.named j v (sym (user_of j ∙ rw apart refl) ∙ h)
      ];
      uuid = λ j v h. elim (Bool-cases (str_eq user_id j)) [
        | inl here ↦
            subst (λ i. has_colon i ≡ false) ((eq_iff user_id j).0 here) (k.uuid user_id u there)
        | inr apart ↦ k.uuid j v (sym (user_of j ∙ rw apart refl) ∙ h)
      ];
      listed = k.listed;
      own = k.own;
    }

set-hashed :
    (user_id password : String) (u : User) (hashed : Result Credentials) (now : ℕ) (s : Store)
    → IsStore s
    → lookup user_id s.users ≡ some u
    → str_eq password "" ≡ false
    → IsStore (kept s (update_user_password user_id password hashed now s))
unfolding update_user_password set_password
set-hashed user_id password u panic now s k there secret = rw (there, secret) k
set-hashed user_id password u err now s k there secret = rw (there, secret) k
set-hashed user_id password u (ok c) now s k there secret =
    rw (there, secret)
      (with_credentials-IsStore user_id u (record u { credentials = c; updated_at = now }) s k there
        refl)

set-IsStore :
    (user_id password : String) (hashed : Result Credentials) (now : ℕ) (s : Store)
    → IsStore s
    → IsStore (kept s (update_user_password user_id password hashed now s))
unfolding update_user_password set_password
set-IsStore user_id password hashed now s k = elim (Option-cases (lookup user_id s.users)) [
  | inl missing ↦ rw missing k
  | inr (u, there) ↦ elim (Bool-cases (str_eq password "")) [
    | inl empty ↦ rw (there, empty) k
    | inr secret ↦ set-hashed user_id password u hashed now s k there secret
  ]
]

delete-IsStore : (id : String) (s : Store) → IsStore s → IsStore (kept s (delete_user id s))
unfolding delete_user
delete-IsStore id s k = elim (Option-cases (lookup id s.users)) [
  | inl missing ↦ rw missing k
  | inr (u, there) ↦
      let (s', runs, k', _, _) = delete_user-denies id u s k there in
      subst (λ r. IsStore (kept s r)) (sym runs) k'
]

grant-IsStore :
    (user_id database : String) (can : Rights) (id : String) (now : ℕ) (s : Store)
    → IsStore s
    → IsStore (first_kept s (grant_permission user_id database can id now s))
unfolding grant_permission
grant-IsStore user_id database can id now s k = elim (Option-cases (lookup user_id s.users)) [
  | inl missing ↦ rw missing k
  | inr (u, there) ↦
      let (s', p, runs, k', _) = grant_permission-access user_id database id u can now s k there in
      subst (λ r. IsStore (first_kept s r)) (sym runs) k'
]

revoke-IsStore :
    (user_id database : String) (s : Store)
    → IsStore s
    → IsStore (kept s (revoke_permission user_id database s))
unfolding revoke_permission
revoke-IsStore user_id database s k =
    elim (Option-cases (lookup (permission_key user_id database) s.permissions)) [
      | inl missing ↦ rw missing k
      | inr (p, there) ↦
          let (s', runs, k') = revoke_permission-IsStore user_id database p s k there in
          subst (λ r. IsStore (kept s r)) (sym runs) k'
    ]

step-IsStore : (c : Call) (s : Store) → IsStore s → IsFresh c s → IsStore (step c s)
unfolding step
step-IsStore (create username password role hashed id now) s k f =
    create-IsStore username password role hashed id now s k f.0 f.1
step-IsStore (delete user_id) s k f = delete-IsStore user_id s k
step-IsStore (grant user_id database can id now) s k f =
    grant-IsStore user_id database can id now s k
step-IsStore (revoke user_id database) s k f = revoke-IsStore user_id database s k
step-IsStore (set user_id password hashed now) s k f = set-IsStore user_id password hashed now s k

-- A store that calls lead to from the empty one.
pub data Reached : Store → Type 0 where
  start : Reached new_store
  next : (c : Call) (s : Store) → IsFresh c s → Reached s → Reached (step c s)

-- Every store that calls lead to is well formed, where the ids that are made for users have no colon
-- and are not in use: each user stands under the own id, and a permission under the key of an id is
-- in the list of this id and of no other.
pub Reached-IsStore : (s : Store) → Reached s → IsStore s
unfolding new_store lookup contains
Reached-IsStore _ start = record {
  named = λ id u h. cc;
  uuid = λ id u h. cc;
  listed = λ id database p plain h. cc;
  own = λ id other database plain plain' h. cc;
}
Reached-IsStore _ (next c s f r) = step-IsStore c s (Reached-IsStore s r) f
