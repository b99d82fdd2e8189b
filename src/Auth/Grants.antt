-- ===== src/Auth/Grants.antt =====
-- internal/auth/store.go: what a grant changes.
use gothinkdb.Prelude.{
  ℕ, ◌≡◌, ◌∙◌, refl, ap, String, Bool, false, not, ◌&&◌, ◌||◌, some, [], ◌∷◌, ◌++◌, if◌then◌else◌,
  arith, str_eq, eq_iff, Bool-cases, Option-cases, inl, inr,
}
use gothinkdb.Prelude.Assoc.{lookup, insert, lookup-insert}
use gothinkdb.Prelude.Result.{ok}
use gothinkdb.Auth.{
  User, Permission, Rights, Store, contains, permission_key, perms_of, keys_or_nil, admin_of,
  has_access, has_database_access, grant_permission, new_permission, grant_at,
}
use gothinkdb.Auth.Maps.{contains-append_last}
use gothinkdb.Auth.Keys.{has_colon, str_eq-permission_key}
use gothinkdb.Auth.Access.{IsStore}

-- The rights that are wanted are among those that are given.
abbrev pub allows : Rights → Rights → Bool
allows can want =
    (not want.read || can.read)
    && (not want.write || can.write)
    && (not want.create || can.create)
    && (not want.drop || can.drop)

has_access-allows : (want : Rights) (p : Permission) → has_access want p ≡ allows p.can want
unfolding has_access
has_access-allows want p = ground arith

-- A store with a permission for the user and the database, and for no other.
record IsGranted (id database : String) (can : Rights) (s s' : Store) : Type 0 where
  pub permission : Permission
  pub can_do : permission.can ≡ can
  pub users : s'.users ≡ s.users
  pub permissions : s'.permissions ≡ insert (permission_key id database) permission s.permissions
  pub formed : IsStore s'

granted-access :
    (id other database base : String) (can want : Rights) (s s' : Store)
    → IsGranted id database can s s'
    → has_colon id ≡ false
    → has_colon other ≡ false
    → has_database_access other base want s' ≡ (
        if str_eq id other && str_eq database base
        then admin_of (lookup other s.users) || allows can want
        else has_database_access other base want s)
unfolding has_database_access
granted-access id other database base can want s s' g plain plain' =
    let key = permission_key id database in
    let key' = permission_key other base in
    let found : lookup key' s'.permissions
        ≡ (if str_eq key key' then some g.permission else lookup key' s.permissions) =
      ap (lookup key') g.permissions ∙ lookup-insert key key' g.permission s.permissions in
    let access : has_access want g.permission ≡ allows can want =
      has_access-allows want g.permission ∙ ap (λ c. allows c want) g.can_do in
    let both : lookup key' s'.permissions ≡ (
        if str_eq id other && str_eq database base
        then some g.permission
        else lookup key' s.permissions) =
      found
      ∙ ap (λ b. if b then some g.permission else lookup key' s.permissions)
          (str_eq-permission_key id other database base plain plain') in
    elim (Bool-cases (str_eq id other && str_eq database base)) [
      | inl hit ↦ rw (g.users, both, hit) (ap (λ b. admin_of (lookup other s.users) || b) access)
      | inr apart ↦ rw (g.users, both, apart) refl
    ]

-- The permission that is there gets the new rights.
updated-IsGranted :
    (id database : String) (can : Rights) (p : Permission) (now : ℕ) (s : Store)
    → IsStore s
    → has_colon id ≡ false
    → lookup (permission_key id database) s.permissions ≡ some p
    → IsGranted id database can s (record s {
      permissions =
          insert
            (permission_key id database)
            (record p { can = can; updated_at = now })
            s.permissions;
    })
updated-IsGranted id database can p now s k plain there =
    let p' : Permission = record p { can = can; updated_at = now } in
    let key = permission_key id database in
    record {
      permission = p';
      can_do = refl;
      users = refl;
      permissions = refl;
      formed = record {
        named = k.named;
        uuid = k.uuid;
        listed = λ j base q plain_j h.
            elim (Option-cases (lookup (permission_key j base) s.permissions)) [
              | inr (old, was) ↦ k.listed j base old plain_j was
              | inl missing ↦ ground (
                arith,
                lookup-insert key (permission_key j base) p' s.permissions,
                eq_iff key (permission_key j base),
              )
            ];
        own = k.own;
      };
    }

added : String → String → Permission → Store → Store
added id key p s = record s {
  permissions = insert key p s.permissions;
  user_perms = insert id (perms_of id s ++ key ∷ []) s.user_perms;
}

added-perms_of :
    (id j key key' : String) (p : Permission) (s : Store)
    → contains key' (perms_of j (added id key p s))
      ≡ (contains key' (perms_of j s) || (str_eq id j && str_eq key key'))
unfolding added
added-perms_of id j key key' p s =
    ap (λ o. contains key' (keys_or_nil o))
      (lookup-insert id j (perms_of id s ++ key ∷ []) s.user_perms)
    ∙ elim (Bool-cases (str_eq id j)) [
      | inl here ↦ rw here (
          contains-append_last key' key (perms_of id s)
          ∙ ap (λ i. contains key' (perms_of i s) || str_eq key key') ((eq_iff id j).0 here))
      | inr apart ↦ rw apart (ground arith)
    ]

added-IsGranted :
    (id database perm_id : String) (can : Rights) (now : ℕ) (s : Store)
    → IsStore s
    → has_colon id ≡ false
    → IsGranted id database can s
        (added id (permission_key id database) (new_permission perm_id id database can now) s)
unfolding added new_permission
added-IsGranted id database perm_id can now s k plain =
    let p' = new_permission perm_id id database can now in
    let key = permission_key id database in
    record {
      permission = p';
      can_do = refl;
      users = refl;
      permissions = refl;
      formed = record {
        named = k.named;
        uuid = k.uuid;
        listed = λ j base q plain_j h.
            elim (Option-cases (lookup (permission_key j base) s.permissions)) [
              | inr (old, was) ↦
                  added-perms_of id j key (permission_key j base) p' s
                  ∙ rw (k.listed j base old plain_j was) refl
              | inl missing ↦ ground (
                arith,
                added-perms_of id j key (permission_key j base) p' s,
                lookup-insert key (permission_key j base) p' s.permissions,
                str_eq-permission_key id j database base plain plain_j,
              )
            ];
        own = λ j other base plain_j plain_other h.
            elim (Bool-cases (contains (permission_key other base) (perms_of j s))) [
              | inl had ↦ k.own j other base plain_j plain_other had
              | inr new ↦ ground (
                arith,
                added-perms_of id j key (permission_key other base) p' s,
                str_eq-permission_key id other database base plain plain_other,
                eq_iff id j,
                eq_iff id other,
              )
            ];
      };
    }

-- `GrantPermission` to a user succeeds. After it the user has the access to the database that was
-- granted, or all of it as an administrator, and no other access of any user is changed.
pub grant_permission-access :
    (id database perm_id : String) (u : User) (can : Rights) (now : ℕ) (s : Store)
    → IsStore s
    → lookup id s.users ≡ some u
    → (s' : Store) × (p : Permission) × (grant_permission id database can perm_id now s
        ≡ ok (s', p))
      × IsStore s'
      × ((other base : String) (want : Rights)
          → has_colon other ≡ false
          → has_database_access other base want s' ≡ (
              if str_eq id other && str_eq database base
              then admin_of (lookup other s.users) || allows can want
              else has_database_access other base want s))
unfolding grant_permission grant_at added
grant_permission-access id database perm_id u can now s k there =
    let plain = k.uuid id u there in
    let done : (s' : Store)
        → IsGranted id database can s s'
        → (other base : String) (want : Rights) → has_colon other ≡ false
        → has_database_access other base want s' ≡ (
            if str_eq id other && str_eq database base
            then admin_of (lookup other s.users) || allows can want
            else has_database_access other base want s) =
      λ s' g other base want plain'.
        granted-access id other database base can want s s' g plain plain' in
    elim (Option-cases (lookup (permission_key id database) s.permissions)) [
      | inr (p, old) ↦
          let g = updated-IsGranted id database can p now s k plain old in
          let p' : Permission = record p { can = can; updated_at = now } in
          let s' : Store = record s {
            permissions = insert (permission_key id database) p' s.permissions;
          } in
          (s', p', rw (there, old) refl, g.formed, done s' g)
      | inl missing ↦
          let p = new_permission perm_id id database can now in
          let g = added-IsGranted id database perm_id can now s k plain in
          (
            added id (permission_key id database) p s,
            p,
            rw (there, missing) refl,
            g.formed,
            done (added id (permission_key id database) p s) g,
          )
    ]
