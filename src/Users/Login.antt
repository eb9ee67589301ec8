-- ===== src/Users/Login.antt =====
-- ValidateUser and its upgrade of stored passwords (internal/services/user_service.go).
use loxilb_oam.Prelude.{
  ℕ, ◌≡◌, refl, ap, ◌∙◌, Bool, true, false, ◌&&◌, Option, none, some, List, [], ◌∷◌, Bytes, ◌==◌,
  Result, ok, err, arith, if◌then◌else◌,
}
use mathlib.Core.Path.{subst}
use loxilb_oam.Users.{
  User, Db, World, Error, user_not_found, invalid_password, system, M, ◌>>=◌, ◌>>◌, pure, continue,
  lift, statement, query, exec, find_user, update_users, quiet,
}
use loxilb_oam.Users.Accounts.{has_id, has_name}
use loxilb_oam.Users.Passwords.{
  Kdf, IsStandard, hashing, hash_password, verify_password, needs_rehash,
  verify_password-hash_password,
}

-- A failure of which the caller is not told.
abbrev as_system : {A : Type 0} → Result Error A × World → Result Error A × World
as_system (ok a, w) = (ok a, w)
as_system (err e, w) = (err system, w)

-- A failure that is only logged.
abbrev logged : {A : Type 0} → Result Error A × World → Result Error (Unit {0}) × World
logged (r, w) = (ok tt, w)

module _ (k : Kdf) (salt : Bytes) where
  abbrev holds : User → User → Bool
  holds u v = has_id u.id v && v.password == u.password

  abbrev renewed : Bytes → User → User
  renewed password v = record v { password = hash_password k password salt }

  abbrev pub upgrade : Bytes → User → Db → Db
  upgrade password u db = record db { users = update_users (holds u) (renewed password) db.users }

  abbrev rehash : Bytes → User → M (Unit {0})
  rehash password u w =
      if needs_rehash u.password
      then logged (exec (λ db. ok (upgrade password u db)) w)
      else (ok tt, w)

  abbrev check_verified : Bytes → User → Option Bool → M ℕ
  check_verified password u none = lift (err system)
  check_verified password u (some true) = rehash password u >> pure u.id
  check_verified password u (some false) = lift (err invalid_password)

  abbrev check_login : Bytes → Option User → M ℕ
  check_login password none = lift (err user_not_found)
  check_login password (some u) = check_verified password u ((hashing k).verify password u.password)

  unfoldable pub validate_user : Bytes → Bytes → M ℕ
  unfolding query exec find_user update_users
  validate_user name password =
      (λ w. as_system (query (λ now db. find_user (has_name name) db.users) w))
      >>= check_login password

pub record Upgraded (k : Kdf) (name password : Bytes) (db : Db) (id : ℕ) : Type 0 where
  pub user : User
  pub found : find_user (has_name name) db.users ≡ some user
  pub known : user.id ≡ id
  pub valid : verify_password k password user.password ≡ true
  pub present : needs_rehash user.password ≡ false

find_user-update :
    (p q : User → Bool) (f : User → User)
    → ((v : User) → p (f v) ≡ p v)
    → (us : List User) (u : User) → find_user p us ≡ some u
    → find_user p (update_users q f us) ≡ some (if q u then f u else u)
unfolding find_user update_users
find_user-update p q f keeps [] u h = cc
find_user-update p q f keeps (v ∷ us) u h =
    ground (arith, keeps v, find_user-update p q f keeps us u)

holds_itself : (u : User) → (has_id u.id u && u.password == u.password) ≡ true
holds_itself u = ground arith

module _ (k : Kdf) (s : IsStandard k) (salt name password : Bytes) where
  check_login_current :
      (now : ℕ) (db : Db) (u : User) (id : ℕ)
      → u.id ≡ id
      → verify_password k password u.password ≡ true
      → needs_rehash u.password ≡ false
      → check_login k salt password (some u) (quiet db now) ≡ (ok id, quiet db now)
  check_login_current now db u id e v n =
      ap (λ b. check_verified k salt password u (some b) (quiet db now)) v
      ∙ ap
          (λ b.
            continue (λ _. pure u.id)
              (if b
                then logged (exec (λ db. ok (upgrade k salt password u db)) (quiet db now))
                else (ok tt, quiet db now)))
          n
      ∙ ap (λ i. (ok i, quiet db now)) e

  validate_user-Upgraded :
      (db : Db) (now id : ℕ)
      → Upgraded k name password db id
      → validate_user k salt name password (quiet db now) ≡ (ok id, quiet db now)
  unfolding validate_user query statement
  validate_user-Upgraded db now id h =
      ap (λ r. check_login k salt password r (quiet db now)) h.found
      ∙ check_login_current now db h.user id h.known h.valid h.present

  abbrev Settled : Result Error ℕ × World → Type 0
  Settled (ok id, w) =
      Upgraded k name password w.db id × validate_user k salt name password w ≡ (ok id, w)
  Settled (err e, w) = Unit

  present-Settled :
      (db : Db) (now id : ℕ) → Upgraded k name password db id → Settled (ok id, quiet db now)
  present-Settled db now id h = (h, validate_user-Upgraded db now id h)

  upgrade-Upgraded :
      (db : Db) (u : User)
      → find_user (has_name name) db.users ≡ some u
      → Upgraded k name password (upgrade k salt password u db) u.id
  upgrade-Upgraded db u e = record {
    user = renewed k salt password u;
    found =
        find_user-update (has_name name) (holds k salt u) (renewed k salt password) (λ v. refl)
          db.users u e
        ∙ ap (λ b. some (if b then renewed k salt password u else u)) (holds_itself u);
    known = refl;
    valid = (verify_password-hash_password k s password salt).1;
    present = (verify_password-hash_password k s password salt).2;
  }

  rehash-Settled :
      (db : Db) (now : ℕ) (u : User)
      → find_user (has_name name) db.users ≡ some u
      → verify_password k password u.password ≡ true
      → (b : Bool) → needs_rehash u.password ≡ b
      → Settled (
          continue
            (λ t. pure u.id)
            (if b
              then logged (exec (λ db'. ok (upgrade k salt password u db')) (quiet db now))
              else (ok tt, quiet db now)))
  unfolding exec statement
  rehash-Settled db now u e v true n = present-Settled _ now u.id (upgrade-Upgraded db u e)
  rehash-Settled db now u e v false n =
      present-Settled db now u.id
        (record { user = u; found = e; known = refl; valid = v; present = n })

  check_verified-Settled :
      (db : Db) (now : ℕ) (u : User)
      → find_user (has_name name) db.users ≡ some u
      → (b : Bool) → verify_password k password u.password ≡ b
      → Settled (check_verified k salt password u (some b) (quiet db now))
  check_verified-Settled db now u e true v = rehash-Settled db now u e v _ refl
  check_verified-Settled db now u e false v = tt

  check_login-Settled :
      (db : Db) (now : ℕ) (r : Option User)
      → find_user (has_name name) db.users ≡ r
      → Settled (check_login k salt password r (quiet db now))
  check_login-Settled db now none e = tt
  check_login-Settled db now (some u) e = check_verified-Settled db now u e _ refl

  -- A login that succeeds, with no failing statement, leaves the stored password in the present format
  -- and valid for the same password, so that the same login succeeds again for the same user and changes
  -- nothing. For the base64 and the keys of `IsStandard`.
  pub validate_user_upgrades :
      (db : Db) (now id : ℕ) (w : World)
      → validate_user k salt name password (quiet db now) ≡ (ok id, w)
      → Upgraded k name password w.db id × validate_user k salt name password w ≡ (ok id, w)
  unfolding validate_user query statement
  validate_user_upgrades db now id w h =
      subst Settled h (check_login-Settled db now (find_user (has_name name) db.users) refl)
