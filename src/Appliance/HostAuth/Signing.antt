-- ===== src/Appliance/HostAuth/Signing.antt =====
-- A request that is signed is accepted, and what a signature covers (internal/appliance/hostauth.go).

use loxilb_oam.Prelude.{
  ℕ, ◌+◌, ◌-◌, ◌/◌, ◌^◌, ◌≤◌, ◌<◌, ◌≡◌, ◌≢◌, sym, ap, ◌∙◌, true, false, ◌||◌, some, List, [], ◌∷◌,
  Bytes, ◌==◌, Bytes-discrete, ok, any, All, arith, is_empty,
}
use loxilb_oam.Strings.Segments.{split, split-join}
use loxilb_oam.Strings.Decimal.{format_int, parse_int, parse_int-format_int, format_int-nonempty}
use loxilb_oam.Appliance.HostAuth.{
  Crypto, SignedRequest, Seen, max_clock_skew, second, evict, use_nonce, cut, signing_input,
  sign_request, is_authentic, verify_request, is_skewed,
}

-- A text of one line.
abbrev pub IsLine : Bytes → Type 0
IsLine s = All (λ c. c ≢ b'\n') s

==_refl : (s : Bytes) → (s == s) ≡ true
==_refl s = ground arith

module _ (c : Crypto) where
  -- What is signed determines the method, the URI, the timestamp, the nonce and the digest of the
  -- body, if none of them has a line feed.
  pub signing_input-injective :
      (m m' u u' t t' n n' body body' : Bytes)
      → IsLine m × IsLine u × IsLine t × IsLine n × IsLine (c.sum body)
      → IsLine m' × IsLine u' × IsLine t' × IsLine n' × IsLine (c.sum body')
      → signing_input c m u t n body ≡ signing_input c m' u' t' n' body'
      → (m ≡ m') × (u ≡ u') × (t ≡ t') × (n ≡ n') × (c.sum body ≡ c.sum body')
  unfolding signing_input
  signing_input-injective m m' u u' t t' n n' body body' l l' e =
      let x =
        split-join b'\n' m (u ∷ t ∷ n ∷ c.sum body ∷ []) (l.0, (l.1, (l.2, (l.3, (l.4, tt))))) in
      let y =
        split-join b'\n' m' (u' ∷ t' ∷ n' ∷ c.sum body' ∷ [])
          (l'.0, (l'.1, (l'.2, (l'.3, (l'.4, tt))))) in
      let same : m ∷ u ∷ t ∷ n ∷ c.sum body ∷ [] ≡ m' ∷ u' ∷ t' ∷ n' ∷ c.sum body' ∷ [] =
        sym x ∙ ap (split b'\n') e ∙ y in
      ground arith

  signed_authentic :
      (r : SignedRequest) (key body nonce : Bytes) (now : ℕ)
      → is_authentic c (sign_request c r key body nonce now) key body ≡ true
  unfolding is_authentic sign_request cut Bytes-discrete signing_input
  signed_authentic r key body nonce now =
      ==_refl (c.mac key (signing_input c r.method r.uri (format_int (now / second)) nonce body))

  unskewed :
      (now t : ℕ)
      → now ≤ t
      → t ≤ now + max_clock_skew - second
      → is_skewed t (false, now / second) ≡ false
  unskewed now t l u = ground arith

  accepted :
      (r : SignedRequest) (key body : Bytes) (t : ℕ) (seen : List Seen) (seconds : ℕ)
      → is_empty r.signature || is_empty r.timestamp || is_empty r.nonce ≡ false
      → is_authentic c r key body ≡ true
      → parse_int r.timestamp ≡ some (false, seconds)
      → is_skewed t (false, seconds) ≡ false
      → any (λ s. s.nonce == r.nonce) (evict t seen) ≡ false
      → (verify_request c r key body t seen).0 ≡ ok tt
  unfolding verify_request use_nonce
  accepted r key body t seen seconds e a p s f = ground arith

  -- A request that is signed and arrives not later than 59 seconds, with the same body, is accepted
  -- under the same key, if its nonce is not empty and is not known then, and the clock has not come
  -- to the year 2262.
  pub verify_request-sign_request :
      (r : SignedRequest) (key body nonce : Bytes) (now t : ℕ) (seen : List Seen)
      → now < 2 ^ 63
      → now ≤ t
      → t ≤ now + max_clock_skew - second
      → nonce ≢ []
      → any (λ s. s.nonce == nonce) (evict t seen) ≡ false
      → (verify_request c (sign_request c r key body nonce now) key body t seen).0 ≡ ok tt
  unfolding sign_request
  verify_request-sign_request r key body nonce now t seen y l u n f =
      let auth = signed_authentic r key body nonce now in
      let time = parse_int-format_int (now / second) (omega arith) in
      let some_time = format_int-nonempty (now / second) in
      let near = unskewed now t l u in
      accepted (sign_request c r key body nonce now) key body t seen (now / second) (ground arith)
        auth (ground arith) near (ground arith)
