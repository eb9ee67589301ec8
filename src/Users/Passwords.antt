-- ===== src/Users/Passwords.antt =====
-- The stored form of a password (pkg/utils/password.go).

use loxilb_oam.Prelude.{
  ℕ, zero, suc, ◌+◌, ◌≡◌, ◌≢◌, refl, ap, ◌∙◌, Bool, true, false, not, ◌&&◌, ◌||◌, Option, none,
  some, List, [], ◌∷◌, ◌++◌, Bytes, bytes, ◌==◌, length, take, All, ltb, is_empty, arith,
  if◌then◌else◌,
}
use loxilb_oam.Strings.{has_prefix}
use loxilb_oam.Strings.Segments.{join, split, split-join}
use loxilb_oam.Strings.Decimal.{format_int, parse_int, parse_int-format_int}
use loxilb_oam.Users.Accounts.{Hashing}

abbrev pub salt_size : ℕ
salt_size = 16

abbrev pub pbkdf2_rounds : ℕ
pbkdf2_rounds = 600_000

abbrev pub pbkdf2_key_size : ℕ
pbkdf2_key_size = 32

abbrev pub legacy_pbkdf2_rounds : ℕ
legacy_pbkdf2_rounds = 10_000

abbrev pub pbkdf2_prefix : Bytes
pbkdf2_prefix = bytes "pbkdf2-sha256"

-- PBKDF2 with SHA-256, of a password, a salt, rounds and a size; base64; and whether bcrypt takes a
-- stored hash for a password.
pub record Kdf : Type 0 where
  pub key : Bytes → Bytes → ℕ → ℕ → Bytes
  pub encode : Bytes → Bytes
  pub decode : Bytes → Option Bytes
  pub bcrypt : Bytes → Bytes → Bool

abbrev drop : ℕ → Bytes → Bytes
drop zero s = s
drop (suc n) [] = []
drop (suc n) (c ∷ s) = drop n s

module _ (k : Kdf) where
  -- `salt` is drawn.
  unfoldable pub hash_password : Bytes → Bytes → Bytes
  unfolding join
  hash_password password salt = join b'$' (
      pbkdf2_prefix
      ∷ format_int pbkdf2_rounds
      ∷ k.encode salt
      ∷ k.encode (k.key password salt pbkdf2_rounds pbkdf2_key_size)
      ∷ [])

  -- The comparison with a key that is stored, once the parts are decoded. Fewer rounds than one, a
  -- negative number among them, are refused.
  abbrev pub compare_key : Bytes → Option (Bool × ℕ) → Option Bytes → Option Bytes → Bool
  compare_key password (some (false, rounds)) (some salt) (some stored) =
      not (ltb rounds 1)
      && not (is_empty stored)
      && stored == k.key password salt rounds (length stored)
  compare_key password _ _ _ = false

  abbrev pub verify_parts : Bytes → List Bytes → Bool
  verify_parts password (prefix ∷ rounds ∷ salt ∷ stored ∷ []) =
      compare_key password (parse_int rounds) (k.decode salt) (k.decode stored)
  verify_parts password _ = false

  abbrev compare_legacy : Bytes → Option Bytes → Bool
  compare_legacy password none = false
  compare_legacy password (some s) =
      not (ltb (length s) (salt_size + pbkdf2_key_size))
      && drop salt_size s == k.key password (take salt_size s) legacy_pbkdf2_rounds pbkdf2_key_size

  unfoldable pub verify_password : Bytes → Bytes → Bool
  unfolding split
  verify_password password stored =
      if has_prefix stored (pbkdf2_prefix ++ bytes "$")
      then verify_parts password (split b'$' stored)
      else (k.bcrypt stored password || compare_legacy password (k.decode stored))

  -- What the user service uses of it: nothing that is stored is an error.
  abbrev pub hashing : Hashing
  hashing = record {
    hash = hash_password;
    verify = λ password stored. some (verify_password password stored);
  }

abbrev is_old : Option (Bool × ℕ) → Bool
is_old none = true
is_old (some (true, rounds)) = true
is_old (some (false, rounds)) = ltb rounds pbkdf2_rounds

abbrev pub is_old_format : List Bytes → Bool
is_old_format (prefix ∷ rounds ∷ salt ∷ stored ∷ []) = is_old (parse_int rounds)
is_old_format _ = true

unfoldable pub needs_rehash : Bytes → Bool
unfolding split
needs_rehash stored =
    if has_prefix stored (pbkdf2_prefix ++ bytes "$")
    then is_old_format (split b'$' stored)
    else true

-- What is documented of base64 and of PBKDF2.
pub record IsStandard (k : Kdf) : Type 0 where
  pub decoded : (s : Bytes) → k.decode (k.encode s) ≡ some s
  pub plain : (s : Bytes) → All (λ c. c ≢ b'$') (k.encode s)
  pub sized :
      (password salt : Bytes) (rounds size : ℕ) → length (k.key password salt rounds size) ≡ size

module _ (k : Kdf) (s : IsStandard k) (password salt : Bytes) where
  abbrev parts : List Bytes
  parts =
      pbkdf2_prefix
      ∷ format_int pbkdf2_rounds
      ∷ k.encode salt
      ∷ k.encode (k.key password salt pbkdf2_rounds pbkdf2_key_size)
      ∷ []

  split-hash_password : split b'$' (hash_password k password salt) ≡ parts
  unfolding hash_password format_int
  split-hash_password =
      split-join b'$' pbkdf2_prefix _ (omega arith, (omega arith, (s.plain salt, (s.plain _, tt))))

  prefixed : has_prefix (hash_password k password salt) (pbkdf2_prefix ++ bytes "$") ≡ true
  unfolding hash_password has_prefix
  prefixed = refl

  compared_sized :
      (other stored : Bytes)
      → length stored ≡ pbkdf2_key_size
      → compare_key k other (some (false, pbkdf2_rounds)) (some salt) (some stored)
        ≡ (stored == k.key other salt pbkdf2_rounds pbkdf2_key_size)
  compared_sized other [] h = absurd (omega arith)
  compared_sized other (c ∷ stored) h = ap (λ n. (c ∷ stored) == k.key other salt pbkdf2_rounds n) h

  compared :
      (other : Bytes)
      → verify_parts k other parts ≡ (
          k.key password salt pbkdf2_rounds pbkdf2_key_size
          == k.key other salt pbkdf2_rounds pbkdf2_key_size)
  compared other =
      ap (λ r. compare_key k other r (k.decode (k.encode salt)) (k.decode (k.encode key)))
        (parse_int-format_int pbkdf2_rounds (omega arith))
      ∙ ap (λ a. compare_key k other (some (false, pbkdf2_rounds)) a (k.decode (k.encode key)))
          (s.decoded salt)
      ∙ ap (compare_key k other (some (false, pbkdf2_rounds)) (some salt)) (s.decoded key)
      ∙ compared_sized other key (s.sized password salt pbkdf2_rounds pbkdf2_key_size)
    where
      key : Bytes
      key = k.key password salt pbkdf2_rounds pbkdf2_key_size

  verified_if :
      (other : Bytes)
      → verify_password k other (hash_password k password salt) ≡ (
          k.key password salt pbkdf2_rounds pbkdf2_key_size
          == k.key other salt pbkdf2_rounds pbkdf2_key_size)
  unfolding verify_password
  verified_if other =
      ap
        (λ b.
          if b
          then verify_parts k other (split b'$' (hash_password k password salt))
          else (k.bcrypt (hash_password k password salt) other
              || compare_legacy k other (k.decode (hash_password k password salt))))
        prefixed
      ∙ ap (verify_parts k other) split-hash_password
      ∙ compared other

  hash_password-current : needs_rehash (hash_password k password salt) ≡ false
  unfolding needs_rehash
  hash_password-current =
      ap (λ b. if b then is_old_format (split b'$' (hash_password k password salt)) else true)
        prefixed
      ∙ ap is_old_format split-hash_password
      ∙ ap is_old (parse_int-format_int pbkdf2_rounds (omega arith))

  -- From the password and the salt, HashPassword makes a text that VerifyPassword accepts for a password
  -- exactly if the key of that password, by the same salt and rounds, is the one that is stored, so that
  -- it accepts it for the password itself, and that NeedsRehash takes for one of the present format. For
  -- base64 that decodes what it encoded and writes no "$", and keys of the size that is asked for.
  pub verify_password-hash_password :
      ((other : Bytes)
        → verify_password k other (hash_password k password salt) ≡ (
            k.key password salt pbkdf2_rounds pbkdf2_key_size
            == k.key other salt pbkdf2_rounds pbkdf2_key_size))
      × verify_password k password (hash_password k password salt) ≡ true
      × needs_rehash (hash_password k password salt) ≡ false
  verify_password-hash_password =
      (verified_if, verified_if password ∙ same (k.key password salt _ _), hash_password-current)
    where
      same : (t : Bytes) → (t == t) ≡ true
      same t = ground arith
