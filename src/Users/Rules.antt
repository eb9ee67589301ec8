-- ===== src/Users/Rules.antt =====
-- The password rules of validatePassword (internal/services/user_service.go), but for the comparison
-- with the password before.
use loxilb_oam.Prelude.{
  ℕ, ◌+◌, ◌≤◌, ◌≡◌, ◌≢◌, ◌↔◌, refl, ap, Bool, true, false, not, ◌&&◌, List, [], ◌∷◌, ◌++◌, Bytes,
  ◌==◌, length, any, ltb, leb, ◌=ℕ◌, Result, ok, fail_if, ◌>>◌, arith, Bool-cases, inl, inr,
  if◌then◌else◌,
}
use loxilb_oam.Users.{
  PasswordError, too_short, same_as_username, repeated, no_upper, no_lower, no_number, no_special,
}

abbrev pub min_password_length : ℕ
min_password_length = 9

-- Go's view of text: the runes that a loop over a string sees, and their classes, of which the
-- loop asks in this order.
pub record Unicode : Type 0 where
  pub decode : Bytes → List ℕ
  pub is_upper : ℕ → Bool
  pub is_lower : ℕ → Bool
  pub is_number : ℕ → Bool
  -- unicode.IsPunct or unicode.IsSymbol
  pub is_special : ℕ → Bool

-- The variables of the loop after the first rune: the rune before, and how often it was repeated.
unfoldable pub repeats : ℕ → ℕ → List ℕ → Bool
repeats prev count [] = false
repeats prev count (c ∷ rs) =
    let again = repeats c (count + 1) rs in
    let fresh = repeats c 0 rs in
    if c =ℕ prev then (if leb 2 (count + 1) then true else again) else fresh

unfoldable pub has_repeats : List ℕ → Bool
unfolding repeats
has_repeats [] = false
has_repeats (c ∷ rs) = repeats c 0 rs

module _ (u : Unicode) where
  -- The cases of the switch: a rune counts for the first class that it is of.
  abbrev pub counts_lower : ℕ → Bool
  counts_lower c = not (u.is_upper c) && u.is_lower c

  abbrev pub counts_number : ℕ → Bool
  counts_number c = not (u.is_upper c) && not (u.is_lower c) && u.is_number c

  abbrev pub counts_special : ℕ → Bool
  counts_special c =
      not (u.is_upper c) && not (u.is_lower c) && not (u.is_number c) && u.is_special c

  unfoldable pub check_password : Bytes → Bytes → Result PasswordError (Unit {0})
  unfolding has_repeats
  check_password username password = do
    fail_if (ltb (length password) min_password_length) too_short
    fail_if (password == username) same_as_username
    fail_if (has_repeats (u.decode password)) repeated
    fail_if (not (any u.is_upper (u.decode password))) no_upper
    fail_if (not (any counts_lower (u.decode password))) no_lower
    fail_if (not (any counts_number (u.decode password))) no_number
    fail_if (not (any counts_special (u.decode password))) no_special

-- No rune stands three times in a row.
abbrev pub NoTriple : List ℕ → Type 0
NoTriple rs = (pre post : List ℕ) (c : ℕ) → rs ≢ pre ++ (c ∷ c ∷ c ∷ post)

-- Wherever the loop stands, a triple to come is seen.
triple_seen :
    (prev count c : ℕ) (pre post : List ℕ) → repeats prev count (pre ++ (c ∷ c ∷ c ∷ post)) ≡ true
unfolding repeats
triple_seen prev count c [] post = ground arith
triple_seen prev count c (d ∷ pre) post =
    ground (arith, triple_seen d (count + 1) c pre post, triple_seen d 0 c pre post)

abbrev HasTriple : List ℕ → Type 0
HasTriple rs = (pre : List ℕ) × (post : List ℕ) × (c : ℕ) × (rs ≡ pre ++ (c ∷ c ∷ c ∷ post))

HasTriple-cons : (d : ℕ) (rs : List ℕ) → HasTriple rs → HasTriple (d ∷ rs)
HasTriple-cons d rs (pre, post, c, e) = (d ∷ pre, post, c, ap (λ l. d ∷ l) e)

-- What the loop refuses has a triple, counted from the rune before.
triple_found :
    (prev : ℕ) (rs : List ℕ)
    → (repeats prev 0 rs ≡ true → HasTriple (prev ∷ rs))
      × (repeats prev 1 rs ≡ true → HasTriple (prev ∷ prev ∷ rs))
unfolding repeats
triple_found prev [] = (λ e. cc, λ e. cc)
triple_found prev (c ∷ rs) =
    let (once, twice) = triple_found c rs in
    elim (Bool-cases (c =ℕ prev)) [
      | inl p ↦
          let same : c ≡ prev = ground arith in
          (
            λ e. rw (← same) (twice (ground arith)),
            λ e. ([], rs, prev, ap (λ d. prev ∷ prev ∷ d ∷ rs) same),
          )
      | inr p ↦ (
        λ e. HasTriple-cons prev (c ∷ rs) (once (ground arith)),
        λ e.
            HasTriple-cons prev (prev ∷ c ∷ rs)
              (HasTriple-cons prev (c ∷ rs) (once (ground arith))),
      )
    ]

twice_again : (c : ℕ) (post : List ℕ) → repeats c 0 (c ∷ c ∷ post) ≡ true
unfolding repeats
twice_again c post = ground arith

no_triple : (rs : List ℕ) → has_repeats rs ≡ false → NoTriple rs
unfolding has_repeats
no_triple [] h [] post c = λ e. ground arith
no_triple [] h (d ∷ pre) post c = λ e. ground arith
no_triple (d ∷ rs) h [] post c = λ e. let q = twice_again c post in ground arith
no_triple (d ∷ rs) h (x ∷ pre) post c = λ e. let q = triple_seen d 0 c pre post in ground arith

no_repeats : (rs : List ℕ) → NoTriple rs → has_repeats rs ≡ false
unfolding has_repeats
no_repeats [] n = refl
no_repeats (d ∷ rs) n = elim (Bool-cases (repeats d 0 rs)) [
  | inl p ↦ let (pre, post, c, e) = (triple_found d rs).0 p in absurd (n pre post c e)
  | inr p ↦ p
]

-- What the code accepts: a password passes these rules exactly when it has at least 9 bytes, is not
-- the username, has no rune three times in a row, and has a rune that counts as upper case, one as
-- lower case, one as a number and one as a special character. The comment above validatePassword asks
-- for more: 9 characters, where the code counts bytes, and no consecutive characters, for which the
-- code has no rule.
pub check_password_iff :
    (u : Unicode) (username password : Bytes)
    → (check_password u username password ≡ ok tt) ↔ (
        (9 ≤ length password)
        × (password ≢ username)
        × NoTriple (u.decode password)
        × (any u.is_upper (u.decode password) ≡ true)
        × (any (counts_lower u) (u.decode password) ≡ true)
        × (any (counts_number u) (u.decode password) ≡ true)
        × (any (counts_special u) (u.decode password) ≡ true))
unfolding check_password
check_password_iff u username password = (
  λ e. (
    ground arith,
    ground arith,
    no_triple (u.decode password) (ground arith),
    ground arith,
    ground arith,
    ground arith,
    ground arith,
  ),
  λ h. let r = no_repeats (u.decode password) h.2 in ground arith,
)
