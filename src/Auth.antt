-- ===== src/Auth.antt =====
-- internal/auth/store.go, user.go and permission.go: the users and what each may do with a database.
-- Each locked region is one step. The calls of bcrypt and of scram.go give the outcome `hashed`, the
-- ids and times are arguments. The records that the calls return are not changed by their callers.
-- `persist` and `load`, the file of the store, are not modelled.
pub mod Maps
pub mod Keys
pub mod Access
pub mod Grants
pub mod Revokes
pub mod Users
pub mod Invariant
mod Tests
use Prim.Native.String.{◌++◌ as ◌+++◌}
use gothinkdb.Prelude.{
  ℕ, String, Bool, true, false, not, ◌&&◌, ◌||◌, Option, none, some, List, [], ◌∷◌, ◌++◌,
  if◌then◌else◌, str_eq,
}
use gothinkdb.Prelude.Assoc.{lookup, insert, erase, values_where}
use gothinkdb.Prelude.Result.{Result, ok, err, panic, ◌>>=◌, ◌>>◌, or_err, require}

-- What is stored of a password.
pub record Credentials : Type 0 where
  pub password_hash : String
  pub salt : String
  pub iterations : ℕ
  pub stored_key : String
  pub server_key : String

-- `User`; a role is a string, and "admin" is that of an administrator.
pub record User : Type 0 where
  pub id : String
  pub username : String
  pub role : String
  pub created_at : ℕ
  pub updated_at : ℕ
  pub credentials : Credentials

-- `NewUser`
unfoldable pub new_user : String → String → String → Result Credentials → String → ℕ → Result User
new_user username password role hashed id now = do
  require (not (str_eq username ""))
  require (not (str_eq password ""))
  credentials ← hashed
  ok (record {
    id = id;
    username = username;
    role = role;
    created_at = now;
    updated_at = now;
    credentials = credentials;
  })

-- `SetPassword`
unfoldable pub set_password : String → Result Credentials → ℕ → User → Result User
set_password password hashed now u = do
  require (not (str_eq password ""))
  credentials ← hashed
  ok (record u { credentials = credentials; updated_at = now })

-- `IsAdmin`
unfoldable pub is_admin : User → Bool
is_admin u = str_eq u.role "admin"

-- The four kinds of access.
pub record Rights : Type 0 where
  pub read : Bool
  pub write : Bool
  pub create : Bool
  pub drop : Bool

pub record Permission : Type 0 where
  pub id : String
  pub user_id : String
  pub database : String
  pub can : Rights
  pub created_at : ℕ
  pub updated_at : ℕ

-- `NewPermission`
unfoldable pub new_permission : String → String → String → Rights → ℕ → Permission
new_permission id user_id database can now = record {
  id = id;
  user_id = user_id;
  database = database;
  can = can;
  created_at = now;
  updated_at = now;
}

-- `HasAccess`
unfoldable pub has_access : Rights → Permission → Bool
has_access want p =
    if want.read && not p.can.read
    then false
    else if want.write && not p.can.write
    then false
    else if want.create && not p.can.create
    then false
    else if want.drop && not p.can.drop
    then false
    else true

pub record Store : Type 0 where
  pub users : List (String × User)
  pub users_by_name : List (String × String)
  pub permissions : List (String × Permission)
  pub user_perms : List (String × List String)

-- `NewStore`
unfoldable pub new_store : Store
new_store = record { users = []; users_by_name = []; permissions = []; user_perms = [] }

abbrev pub is_there : {V : Type 0} → Option V → Bool
is_there none = false
is_there (some v) = true

-- A missing key of a map of slices is nil.
abbrev pub keys_or_nil : Option (List String) → List String
keys_or_nil none = []
keys_or_nil (some keys) = keys

-- `s.userPerms[userID]`
abbrev pub perms_of : String → Store → List String
perms_of user_id s = keys_or_nil (lookup user_id s.user_perms)

-- `CreateUser`
unfoldable pub create_user :
    String → String → String → Result Credentials → String → ℕ → Store → Result (Store × User)
create_user username password role hashed id now s = do
  require (not (is_there (lookup username s.users_by_name)))
  u ← new_user username password role hashed id now
  ok (
    record s {
      users = insert u.id u s.users;
      users_by_name = insert username u.id s.users_by_name;
      user_perms = insert u.id [] s.user_perms;
    },
    u,
  )

-- `GetUser`
unfoldable pub get_user : String → Store → Option User
get_user user_id s = lookup user_id s.users

abbrev user_named : Option String → Store → Option User
user_named none s = none
user_named (some user_id) s = lookup user_id s.users

-- `GetUserByUsername`
unfoldable pub get_user_by_username : String → Store → Option User
get_user_by_username username s = user_named (lookup username s.users_by_name) s

-- `ListUsers`, in the order of the list.
unfoldable pub list_users : Store → List User
list_users s = values_where (λ u. true) s.users

-- The loop that deletes keys of a map.
unfoldable pub erase_all : {V : Type 0} → List String → List (String × V) → List (String × V)
erase_all [] entries = entries
erase_all (key ∷ keys) entries = erase_all keys (erase key entries)

-- `DeleteUser`
unfoldable pub delete_user : String → Store → Result Store
delete_user user_id s = do
  u ← or_err (lookup user_id s.users)
  ok (record s {
    permissions = erase_all (perms_of user_id s) s.permissions;
    user_perms = erase user_id s.user_perms;
    users = erase u.id s.users;
    users_by_name = erase u.username s.users_by_name;
  })

-- The loop that takes a key out of a slice.
unfoldable pub remove_first : String → List String → List String
remove_first key [] = []
remove_first key (k ∷ ks) = let rest = k ∷ remove_first key ks in if str_eq k key then ks else rest

-- `CreateDefaultAdmin` and `EnsureAdmin`; the first result is nil where the name is taken.
abbrev created : Result (Store × User) → Result (Store × Option User)
created call = call >>= λ (s, u). ok (s, some u)

unfoldable pub ensure_admin :
    String → String → Result Credentials → String → ℕ → Store → Result (Store × Option User)
ensure_admin username password hashed id now s =
    if is_there (lookup username s.users_by_name)
    then ok (s, none)
    else created (create_user username password "admin" hashed id now s)

-- `UpdateUserPassword`
unfoldable pub update_user_password :
    String → String → Result Credentials → ℕ → Store → Result Store
update_user_password user_id password hashed now s = do
  u ← or_err (lookup user_id s.users)
  u' ← set_password password hashed now u
  ok (record s { users = insert user_id u' s.users })

abbrev pub admin_of : Option User → Bool
admin_of none = false
admin_of (some u) = is_admin u

-- `PermissionKey`: `fmt.Sprintf("%s:%s", userID, database)`
unfoldable pub permission_key : String → String → String
permission_key user_id database = user_id +++ (":" +++ database)

unfoldable pub contains : String → List String → Bool
contains key [] = false
contains key (k ∷ ks) = str_eq k key || contains key ks

-- The branches of `GrantPermission`: the permission is there, or it is new.
unfoldable pub grant_at :
    Option Permission → String → String → Rights → String → ℕ → Store → Store × Permission
grant_at (some p) user_id database can id now s =
    let p' = record p { can = can; updated_at = now } in
    (record s { permissions = insert (permission_key user_id database) p' s.permissions }, p')
grant_at none user_id database can id now s =
    let key = permission_key user_id database in
    let p = new_permission id user_id database can now in
    (
      record s {
        permissions = insert key p s.permissions;
        user_perms = insert user_id (perms_of user_id s ++ key ∷ []) s.user_perms;
      },
      p,
    )

-- `GrantPermission`
unfoldable pub grant_permission :
    String → String → Rights → String → ℕ → Store → Result (Store × Permission)
grant_permission user_id database can id now s = do
  require (is_there (lookup user_id s.users))
  ok (
      grant_at (lookup (permission_key user_id database) s.permissions) user_id database can id now
        s)

-- `RevokePermission`
unfoldable pub revoke_permission : String → String → Store → Result Store
revoke_permission user_id database s = do
  let key = permission_key user_id database
  require (is_there (lookup key s.permissions))
  let perms = perms_of user_id s
  ok (record s {
    permissions = erase key s.permissions;
    user_perms =
        if contains key perms
        then insert user_id (remove_first key perms) s.user_perms
        else s.user_perms;
  })

-- `GetPermission`
unfoldable pub get_permission : String → String → Store → Option Permission
get_permission user_id database s = lookup (permission_key user_id database) s.permissions

abbrev pub access_of : Rights → Option Permission → Bool
access_of want none = false
access_of want (some p) = has_access want p

-- `HasDatabaseAccess`
unfoldable pub has_database_access : String → String → Rights → Store → Bool
has_database_access user_id database want s =
    admin_of (lookup user_id s.users)
    || access_of want (lookup (permission_key user_id database) s.permissions)

abbrev with_permission : Option Permission → List Permission → List Permission
with_permission none rest = rest
with_permission (some p) rest = p ∷ rest

unfoldable pub permissions_at : List String → Store → List Permission
permissions_at [] s = []
permissions_at (key ∷ keys) s = with_permission (lookup key s.permissions) (permissions_at keys s)

-- `GetUserPermissions`
unfoldable pub get_user_permissions : String → Store → List Permission
get_user_permissions user_id s = permissions_at (perms_of user_id s) s

unfoldable pub readable_databases : List Permission → List String
readable_databases [] = []
readable_databases (p ∷ ps) =
    let rest = readable_databases ps in if p.can.read then p.database ∷ rest else rest

-- `GetAccessibleDatabases`; `none` is nil, all databases.
unfoldable pub get_accessible_databases : String → Store → Option (List String)
get_accessible_databases user_id s =
    if admin_of (lookup user_id s.users)
    then none
    else some (readable_databases (get_user_permissions user_id s))
