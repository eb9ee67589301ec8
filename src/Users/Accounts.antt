-- ===== src/Users/Accounts.antt =====
-- The operations on users and sessions of internal/services/user_service.go. The retry of a failed
-- operation is left out: config.MaxRetries is 1.

use loxilb_oam.Prelude.{
  ℕ, ◌+◌, Bool, true, false, not, ◌&&◌, ◌||◌, Option, none, some, is_some, [], ◌∷◌, Bytes, ◌==◌,
  any, leb, ◌=ℕ◌, Result, ok, err, if◌then◌else◌,
}
use loxilb_oam.Strings.Decimal.{format_int}
use loxilb_oam.Rbac.{role_admin, role_viewer, is_valid_role}
use loxilb_oam.Users.{
  User, Db, PasswordError, same_as_previous, Error, user_not_found, invalid_role, no_fields,
  username_exists, last_admin, invalid_password, system, weak, M, ◌>>=◌, ◌>>◌, pure, lift,
  refuse_if, statement, query, exec, transaction, find_user, count_users, update_users,
  delete_users, delete_tokens, owned_by, is_live,
}
use loxilb_oam.Users.Rules.{Unicode, check_password}

-- The password hash of pkg/utils: a password and the drawn salt to the stored text, and a password
-- against a stored text, `none` if that cannot be read.
pub record Hashing : Type 0 where
  pub hash : Bytes → Bytes → Bytes
  pub verify : Bytes → Bytes → Option Bool

abbrev pub has_id : ℕ → User → Bool
has_id id u = u.id =ℕ id

abbrev pub has_name : Bytes → User → Bool
has_name name u = u.username == name

abbrev pub is_admin : User → Bool
is_admin u = u.role == role_admin

abbrev pub weak_if : Result PasswordError (Unit {0}) → Result Error (Unit {0})
weak_if (ok u) = ok u
weak_if (err e) = err (weak e)

module _ (unicode : Unicode) (h : Hashing) where
  abbrev pub verified : Option Bool → M (Unit {0})
  verified none = lift (err system)
  verified (some true) = lift (err (weak same_as_previous))
  verified (some false) = pure tt

  abbrev pub compare_previous : Bytes → Option User → M (Unit {0})
  compare_previous password none = pure tt
  compare_previous password (some u) = verified (h.verify password u.password)

  unfoldable pub validate_password : Bytes → Bytes → M (Unit {0})
  unfolding check_password query find_user
  validate_password username password = do
    lift (weak_if (check_password unicode username password))
    previous ← query (λ now db. find_user (has_name username) db.users)
    compare_previous password previous

abbrev refuse_last : Bool → Option User → M (Unit {0})
refuse_last remains_admin none = lift (err user_not_found)
refuse_last remains_admin (some u) =
    if is_admin u && not remains_admin
    then (query (λ now db. count_users is_admin db.users) >>= λ n. refuse_if (leb n 1) last_admin)
    else pure tt

-- The lock on the table keeps other sessions out until the transaction ends.
unfoldable pub protect_last_admin : ℕ → Bool → M (Unit {0})
unfolding statement query find_user count_users
protect_last_admin id remains_admin = do
  statement
  user ← query (λ now db. find_user (has_id id) db.users)
  refuse_last remains_admin user

abbrev pub without_user : ℕ → Db → Db
without_user id db = record db { users = delete_users (has_id id) db.users }

unfoldable pub delete_user : ℕ → M (Unit {0})
unfolding protect_last_admin exec transaction delete_users
delete_user id = transaction do protect_last_admin id false; exec (λ db. ok (without_user id db))

-- The fields of an update, each `none` if it is not there or not text.
pub record Updates : Type 0 where
  pub username : Option Bytes
  pub email : Option Bytes
  pub role : Option Bytes
  pub password : Option Bytes

-- A text that is not empty.
abbrev pub given : Option Bytes → Option Bytes
given none = none
given (some []) = none
given (some (c ∷ s)) = some (c ∷ s)

abbrev pub or_old : Option Bytes → Bytes → Bytes
or_old none old = old
or_old (some new) old = new

-- The columns that are set: the password is a hash by then.
abbrev pub changed : Updates → User → User
changed c u = record u {
  username = or_old c.username u.username;
  email = or_old c.email u.email;
  role = or_old c.role u.role;
  password = or_old c.password u.password;
}

-- UPDATE, refused by the unique name.
unfoldable pub update_user_row : ℕ → Updates → Db → Result Error Db
unfolding update_users
update_user_row id c db =
    if any (λ u. not (u.id =ℕ id) && u.username == or_old c.username []) db.users
      && is_some c.username
    then err username_exists
    else ok (record db { users = update_users (has_id id) (changed c) db.users })

abbrev pub revoke : ℕ → Db → Db
revoke id db = record db { tokens = delete_tokens (owned_by id) db.tokens }

-- updates["role"] == "admin"
abbrev pub is_admin_role : Option Bytes → Bool
is_admin_role none = false
is_admin_role (some role) = role == role_admin

abbrev pub check_role : Option Bytes → Result Error (Unit {0})
check_role none = ok tt
check_role (some role) = if is_valid_role role then ok tt else err invalid_role

abbrev pub protect_if : Bool → ℕ → Bool → M (Unit {0})
protect_if true id remains_admin = protect_last_admin id remains_admin
protect_if false id remains_admin = pure tt

abbrev pub revoke_if : Bool → ℕ → M (Unit {0})
revoke_if true id = exec (λ db. ok (revoke id db))
revoke_if false id = pure tt

unfoldable pub update_tx : ℕ → Updates → M (Unit {0})
unfolding protect_last_admin exec update_user_row
update_tx id c = do
  protect_if (is_some c.role) id (is_admin_role c.role)
  exec (update_user_row id c)
  revoke_if (is_some c.password) id

unfoldable pub store_changes : ℕ → Updates → M (Unit {0})
unfolding update_tx transaction exec update_user_row
store_changes id c =
    if is_some c.password || is_some c.role
    then transaction (update_tx id c)
    else exec (update_user_row id c)

module _ (unicode : Unicode) (h : Hashing) (salt : Bytes) where
  abbrev pub check_new_password : Bytes → Option Bytes → M (Option Bytes)
  check_new_password username none = pure none
  check_new_password username (some password) = do
    validate_password unicode h username password
    pure (some (h.hash password salt))

  -- The loop over the fields. Go goes over a map in any order: `role_first` is whether the role comes
  -- before the password.
  abbrev pub collect : Bool → Bytes → Updates → M Updates
  collect role_first name updates = do
    lift (if role_first then check_role (given updates.role) else ok tt)
    password ← check_new_password (or_old (given updates.username) name) (given updates.password)
    lift (check_role (given updates.role))
    pure (record {
      username = given updates.username;
      email = updates.email;
      role = given updates.role;
      password = password;
    })

  abbrev pub is_nothing : Updates → Bool
  is_nothing c = not (is_some c.username || is_some c.email || is_some c.role || is_some c.password)

  abbrev pub name_or_missing : Option User → M Bytes
  name_or_missing none = lift (err user_not_found)
  name_or_missing (some u) = pure u.username

  unfoldable pub update_user : Bool → ℕ → Updates → M (Unit {0})
  unfolding validate_password query find_user
  update_user role_first id updates = do
    user ← query (λ now db. find_user (has_id id) db.users)
    name ← name_or_missing user
    c ← collect role_first name updates
    refuse_if (is_nothing c) no_fields
    store_changes id c

  abbrev role_or_viewer : Bytes → Bytes
  role_or_viewer [] = role_viewer
  role_or_viewer (c ∷ s) = c ∷ s

  abbrev insert_user : Bytes → Bytes → Bytes → Bytes → Db → Result Error Db
  insert_user username email hash role db =
      if any (has_name username) db.users
      then err username_exists
      else ok (record db {
        users =
            record {
              id = db.next_id;
              username = username;
              email = email;
              password = hash;
              role = role;
            }
            ∷ db.users;
        next_id = db.next_id + 1;
      })

  unfoldable pub create_user_with_role : Bytes → Bytes → Bytes → Bytes → M (Unit {0})
  unfolding validate_password query find_user exec transaction
  create_user_with_role username email password role = do
    refuse_if (not (is_valid_role (role_or_viewer role))) invalid_role
    transaction do
      existing ← query (λ now db. find_user (has_name username) db.users)
      refuse_if (is_some existing) username_exists
      validate_password unicode h username password
      exec (insert_user username email (h.hash password salt) (role_or_viewer role))

-- In seconds: config.TokenExpirationMinutes is a setting.
abbrev insert_token : ℕ → Bytes → ℕ → Db → Db
insert_token expires_at value id db = record db {
  tokens = record { value = value; owner = format_int id; expires_at = expires_at } ∷ db.tokens;
}

module _ (h : Hashing) where
  abbrev check_current : Bytes → Option User → Result Error (Unit {0})
  check_current password none = err user_not_found
  check_current password (some u) = elim (h.verify password u.password) [
    | none ↦ err system
    | some true ↦ ok tt
    | some false ↦ err invalid_password
  ]

  unfoldable pub save_token_for_credentials : ℕ → ℕ → Bytes → Bytes → Bytes → M (Unit {0})
  unfolding query find_user exec transaction
  save_token_for_credentials expires_at id username password value = transaction do
    user ← query (λ now db. find_user (λ u. has_id id u && has_name username u) db.users)
    lift (check_current password user)
    exec (λ db. ok (insert_token expires_at value id db))

unfoldable pub validate_token : Bytes → M Bool
unfolding query
validate_token value = query (λ now db. any (is_live value now db) db.tokens)

unfoldable pub logout : Bytes → M (Unit {0})
unfolding exec delete_tokens
logout value =
    exec (λ db. ok (record db { tokens = delete_tokens (λ t. t.value == value) db.tokens }))
