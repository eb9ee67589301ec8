-- ===== src/Examples/Passwords.antt =====
-- A stored password under keys that are the password itself (pkg/utils/password.go).
use loxilb_oam.Prelude.{
  ℕ, zero, suc, ◌+◌, ◌-◌, ◌≡◌, ◌≢◌, refl, ap, true, false, some, [], ◌∷◌, map, Bytes, bytes, ◌==◌,
  length, All, arith, ok, Bytes-discrete,
}
use loxilb_oam.Strings.{has_prefix}
use loxilb_oam.Rbac.{role_admin}
use loxilb_oam.Users.{quiet, User, Db, World, query, statement, exec, find_user}
use loxilb_oam.Users.Login.{validate_user, upgrade, Upgraded, validate_user_upgrades}
use loxilb_oam.Users.Passwords.{
  Kdf, IsStandard, hash_password, verify_password, needs_rehash, pbkdf2_rounds, pbkdf2_key_size,
  verify_password-hash_password,
}

-- The first `n` bytes of a text, with zeros after it.
abbrev padded : ℕ → Bytes → Bytes
padded zero s = []
padded (suc n) [] = 0 ∷ padded n []
padded (suc n) (c ∷ s) = c ∷ padded n s

length-padded : (n : ℕ) (s : Bytes) → length (padded n s) ≡ n
length-padded zero s = refl
length-padded (suc n) [] = ap suc (length-padded n [])
length-padded (suc n) (c ∷ s) = ap suc (length-padded n s)

shifted : (s : Bytes) → map (λ c. c - 100) (map (λ c. c + 100) s) ≡ s
shifted [] = refl
shifted (c ∷ s) = ground (arith, shifted s)

shifted-plain : (s : Bytes) → All (λ c. c ≢ b'$') (map (λ c. c + 100) s)
shifted-plain [] = tt
shifted-plain (c ∷ s) = (omega arith, shifted-plain s)

abbrev toy : Kdf
toy = record {
  key = λ password salt rounds size. padded size password;
  encode = map (λ c. c + 100);
  decode = λ s. some (map (λ c. c - 100) s);
  bcrypt = λ stored password. stored == password;
}

toy-IsStandard : IsStandard toy
toy-IsStandard = record {
  decoded = λ s. ap some (shifted s);
  plain = shifted-plain;
  sized = λ password salt rounds size. length-padded size password;
}

verify_password-hash_password_example :
    ((other : Bytes)
      → verify_password toy other (hash_password toy (bytes "Old-pass1") (bytes "salt")) ≡ (
          toy.key (bytes "Old-pass1") (bytes "salt") pbkdf2_rounds pbkdf2_key_size
          == toy.key other (bytes "salt") pbkdf2_rounds pbkdf2_key_size))
    × verify_password toy (bytes "Old-pass1") (hash_password toy (bytes "Old-pass1") (bytes "salt"))
      ≡ true
    × needs_rehash (hash_password toy (bytes "Old-pass1") (bytes "salt")) ≡ false
verify_password-hash_password_example =
    verify_password-hash_password toy toy-IsStandard (bytes "Old-pass1") (bytes "salt")

-- One whose password is stored in the oldest form.
abbrev old : User
old = record {
  id = 1;
  username = bytes "root";
  email = [];
  password = bytes "Old-pass1";
  role = role_admin;
}

abbrev tables : Db
tables = record { users = old ∷ []; tokens = []; attempts = []; next_id = 2 }

abbrev after_login : World
after_login = quiet (upgrade toy (bytes "salt") (bytes "Old-pass1") old tables) 7

login_upgrades :
    validate_user toy (bytes "salt") (bytes "root") (bytes "Old-pass1") (quiet tables 7)
    ≡ (ok 1, after_login)
unfolding validate_user query statement exec find_user verify_password needs_rehash has_prefix
    Bytes-discrete
login_upgrades = refl

validate_user_upgrades_example :
    Upgraded toy (bytes "root") (bytes "Old-pass1") after_login.db 1
    × validate_user toy (bytes "salt") (bytes "root") (bytes "Old-pass1") after_login
      ≡ (ok 1, after_login)
validate_user_upgrades_example =
    validate_user_upgrades toy toy-IsStandard (bytes "salt") (bytes "root") (bytes "Old-pass1")
      tables 7 1 after_login login_upgrades
