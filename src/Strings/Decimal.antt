-- ===== src/Strings/Decimal.antt =====
-- strconv.FormatInt and strconv.ParseInt in base 10, and the round trip.
use loxilb_oam.Prelude.{
  ℕ, zero, suc, ◌+◌, ◌-◌, ◌*◌, ◌/◌, ◌%◌, ◌^◌, ◌<◌, ◌≡◌, ap, ◌∙◌, Bool, true, false, ◌&&◌, Option,
  none, some, [], ◌∷◌, Bytes, leb, ltb, ◌=ℕ◌, if◌then◌else◌, arith, ◌≢◌,
}

abbrev pub is_digit : ℕ → Bool
is_digit c = leb b'0' c && leb c b'9'

-- The digits of a number before a text. A number has fewer digits than its successor as fuel.
unfoldable pub format_digits : ℕ → ℕ → Bytes → Bytes
format_digits zero n rest = rest
format_digits (suc fuel) n rest = elim (ltb n 10) [
  | true ↦ (b'0' + n) ∷ rest
  | false ↦ format_digits fuel (n / 10) ((b'0' + n % 10) ∷ rest)
]

-- strconv.FormatInt(n, 10) of a number that is not negative.
unfoldable pub format_int : ℕ → Bytes
unfolding format_digits
format_int n = format_digits (suc n) n []

-- The value of digits after digits of value `acc`.
unfoldable pub parse_digits : ℕ → Bytes → Option ℕ
parse_digits acc [] = some acc
parse_digits acc (c ∷ s) =
    let rest = parse_digits (acc * 10 + (c - b'0')) s in if is_digit c then rest else none

-- A value of int64: whether it is negative, and its magnitude.
abbrev pub signed : Bool → Option ℕ → Option (Bool × ℕ)
signed b none = none
signed true (some n) = if leb n (2 ^ 63) then some (true, n) else none
signed false (some n) = if ltb n (2 ^ 63) then some (false, n) else none

abbrev unsigned : Bool → Bytes → Option (Bool × ℕ)
unsigned negative [] = none
unsigned negative (c ∷ s) = signed negative (parse_digits 0 (c ∷ s))

-- strconv.ParseInt(s, 10, 64)
unfoldable pub parse_int : Bytes → Option (Bool × ℕ)
unfolding parse_digits
parse_int [] = none
parse_int (c ∷ s) =
    if c =ℕ b'+'
    then unsigned false s
    else if c =ℕ b'-'
    then unsigned true s
    else unsigned false (c ∷ s)

parse-format :
    (fuel n : ℕ) (rest : Bytes)
    → n < fuel
    → parse_digits 0 (format_digits fuel n rest) ≡ parse_digits n rest
unfolding format_digits parse_digits
parse-format zero n rest h = absurd (omega arith)
parse-format (suc fuel) n rest h =
    ground (arith, parse-format fuel (n / 10) ((b'0' + n % 10) ∷ rest))

abbrev starts_with_digit : Bytes → Bool
starts_with_digit [] = false
starts_with_digit (c ∷ s) = is_digit c

format_digits_start :
    (fuel n : ℕ) (rest : Bytes) → n < fuel → starts_with_digit (format_digits fuel n rest) ≡ true
unfolding format_digits
format_digits_start zero n rest h = absurd (omega arith)
format_digits_start (suc fuel) n rest h =
    ground (arith, format_digits_start fuel (n / 10) ((b'0' + n % 10) ∷ rest))

parse_int_digits :
    (s : Bytes) → starts_with_digit s ≡ true → parse_int s ≡ signed false (parse_digits 0 s)
unfolding parse_int
parse_int_digits [] h = cc
parse_int_digits (c ∷ s) h = ground arith

-- A number that fits is read back from its digits.
pub parse_int-format_int : (n : ℕ) → n < 2 ^ 63 → parse_int (format_int n) ≡ some (false, n)
unfolding format_int
parse_int-format_int n h =
    parse_int_digits (format_int n) (format_digits_start (suc n) n [] (omega arith))
    ∙ ap (signed false) (parse-format (suc n) n [] (omega arith))
    ∙ in_range
  where
    in_range : signed false (parse_digits n []) ≡ some (false, n)
    in_range = unfold parse_digits in ground arith

pub format_int-nonempty : (n : ℕ) → format_int n ≢ []
unfolding format_int
format_int-nonempty n = λ e. let d = format_digits_start (suc n) n [] (omega arith) in ground arith
