-- ===== src/Appliance/HostAuth.antt =====
-- internal/appliance/hostauth.go: how a request to the host adapter is signed, and how its signature
-- is verified. Times are nanoseconds since 1970.
pub mod Replay
pub mod Signing
use mathlib.Core.Option
use loxilb_oam.Prelude.{
  ℕ, ◌+◌, ◌-◌, ◌*◌, ◌/◌, Bool, true, false, not, ◌&&◌, ◌||◌, Option, none, some, List, [], ◌∷◌,
  ◌++◌, Bytes, bytes, ◌==◌, Result, ok, err, ltb, leb, ◌=ℕ◌, is_empty, any, if◌then◌else◌,
}
use loxilb_oam.Strings.Segments.{join}
use loxilb_oam.Strings.Decimal.{format_int, parse_int}

abbrev pub second : ℕ
second = 1_000_000_000

abbrev pub max_clock_skew : ℕ
max_clock_skew = 60 * second

abbrev pub signature_version : Bytes
signature_version = bytes "v1"

pub data SignatureError : Type 0 where
  missing invalid expired replay : SignatureError

-- SHA-256 in hexadecimal, and HMAC-SHA-256 of an input under a key, in hexadecimal.
pub record Crypto : Type 0 where
  pub sum : Bytes → Bytes
  pub mac : Bytes → Bytes → Bytes

-- A request: its method, its URI with the query, and the three headers, empty if they are absent.
pub record SignedRequest : Type 0 where
  pub method : Bytes
  pub uri : Bytes
  pub signature : Bytes
  pub timestamp : Bytes
  pub nonce : Bytes

-- A nonce, and when it was used.
pub record Seen : Type 0 where
  pub nonce : Bytes
  pub at : ℕ

-- NonceCache.use, by the clock that the skew is checked by: the nonces whose time is over go, and the new one is added if it is new.
abbrev still_known : ℕ → Seen → Bool
still_known now s = not (ltb (2 * max_clock_skew) (now - s.at))

unfoldable pub evict : ℕ → List Seen → List Seen
evict now [] = []
evict now (s ∷ seen) = let rest = evict now seen in if still_known now s then s ∷ rest else rest

unfoldable pub use_nonce : Bytes → ℕ → List Seen → Bool × List Seen
unfolding evict
use_nonce nonce now seen =
    let left = evict now seen in
    if any (λ s. s.nonce == nonce) left
    then (false, left)
    else (true, record { nonce = nonce; at = now } ∷ left)

-- strings.Cut(s, "=")
unfoldable pub cut : Bytes → Option (Bytes × Bytes)
cut [] = none
cut (c ∷ s) =
    let rest = cut s in if c =ℕ b'=' then some ([], s) else Option.map (λ p. (c ∷ p.0, p.1)) rest

abbrev pub is_skewed : ℕ → Bool × ℕ → Bool
is_skewed now (false, seconds) =
    ltb (seconds * second + max_clock_skew) now || ltb (now + max_clock_skew) (seconds * second)
is_skewed now (true, seconds) = ltb max_clock_skew (now + seconds * second)

module _ (c : Crypto) where
  unfoldable pub signing_input : Bytes → Bytes → Bytes → Bytes → Bytes → Bytes
  unfolding join
  signing_input method uri timestamp nonce body =
      join b'\n' (method ∷ uri ∷ timestamp ∷ nonce ∷ c.sum body ∷ [])

  -- `nonce` is the drawn nonce in hexadecimal.
  unfoldable pub sign_request : SignedRequest → Bytes → Bytes → Bytes → ℕ → SignedRequest
  sign_request r key body nonce now =
      let timestamp = format_int (now / second) in
      record r {
        timestamp = timestamp;
        nonce = nonce;
        signature =
            signature_version
            ++ bytes "="
            ++ c.mac key (signing_input r.method r.uri timestamp nonce body);
      }

  -- The part after the version, if the version is known.
  abbrev claimed : Option (Bytes × Bytes) → Option Bytes
  claimed none = none
  claimed (some (version, got)) = if version == signature_version then some got else none

  unfoldable pub is_authentic : SignedRequest → Bytes → Bytes → Bool
  unfolding cut signing_input
  is_authentic r key body = elim (claimed (cut r.signature)) [
    | none ↦ false
    | some got ↦ got == c.mac key (signing_input r.method r.uri r.timestamp r.nonce body)
  ]

  abbrev after_nonce : Bool × List Seen → Result SignatureError (Unit {0}) × List Seen
  after_nonce (true, seen) = (ok tt, seen)
  after_nonce (false, seen) = (err replay, seen)

  abbrev check_time :
      SignedRequest
      → ℕ
      → List Seen
      → Option (Bool × ℕ)
      → Result SignatureError (Unit {0}) × List Seen
  check_time r now seen none = (err invalid, seen)
  check_time r now seen (some t) =
      if is_skewed now t then (err expired, seen) else after_nonce (use_nonce r.nonce now seen)

  unfoldable pub verify_request :
      SignedRequest → Bytes → Bytes → ℕ → List Seen → Result SignatureError (Unit {0}) × List Seen
  unfolding is_authentic use_nonce parse_int
  verify_request r key body now seen =
      if is_empty r.signature || is_empty r.timestamp || is_empty r.nonce
      then (err missing, seen)
      else if not (is_authentic r key body)
      then (err invalid, seen)
      else check_time r now seen (parse_int r.timestamp)
