-- ===== src/Appliance/HostAuth/Replay.antt =====
-- No signed request is accepted twice (internal/appliance/hostauth.go).
use loxilb_oam.Prelude.{
  ℕ, ◌+◌, ◌*◌, ◌≤◌, ◌≡◌, ◌≢◌, ap, sym, ◌∙◌, Bool, true, false, ◌&&◌, some, List, [], ◌∷◌, Bytes,
  ◌==◌, ok, leb, any, All, arith, Option-cases, inl, inr,
}
use loxilb_oam.Strings.Decimal.{parse_int}
use loxilb_oam.Appliance.HostAuth.{
  Crypto, SignedRequest, Seen, max_clock_skew, evict, use_nonce, verify_request, is_skewed,
}

-- A use of the nonce is remembered, not so long ago that it is forgotten at `t`.
abbrev is_held : Bytes → ℕ → Seen → Bool
is_held nonce t s = s.nonce == nonce && leb t (s.at + 2 * max_clock_skew)

evict-held :
    (nonce : Bytes) (now t : ℕ) (seen : List Seen)
    → now ≤ t
    → any (is_held nonce t) seen ≡ true
    → any (is_held nonce t) (evict now seen) ≡ true
unfolding evict
evict-held nonce now t [] l h = cc
evict-held nonce now t (s ∷ seen) l h = ground (arith, evict-held nonce now t seen l)

held_known :
    (nonce : Bytes) (t : ℕ) (seen : List Seen)
    → any (is_held nonce t) seen ≡ true
    → any (λ s. s.nonce == nonce) seen ≡ true
held_known nonce t [] h = cc
held_known nonce t (s ∷ seen) h = ground (arith, held_known nonce t seen)

use_nonce-held :
    (nonce other : Bytes) (now t : ℕ) (seen : List Seen)
    → now ≤ t
    → any (is_held nonce t) seen ≡ true
    → any (is_held nonce t) (use_nonce other now seen).1 ≡ true
unfolding use_nonce
use_nonce-held nonce other now t seen l h = ground (arith, evict-held nonce now t seen l h)

use_nonce_again :
    (nonce : Bytes) (t : ℕ) (seen : List Seen)
    → any (is_held nonce t) seen ≡ true
    → (use_nonce nonce t seen).0 ≡ false
unfolding use_nonce
use_nonce_again nonce t seen h =
    let k = held_known nonce t (evict t seen) (evict-held nonce t t seen (omega arith) h) in
    ground arith

-- A verification, as the adapter is asked for one.
pub record Call : Type 0 where
  pub request : SignedRequest
  pub key : Bytes
  pub body : Bytes
  pub at : ℕ

module _ (c : Crypto) where
  unfoldable pub verify_all : List Call → List Seen → List Seen
  verify_all [] seen = seen
  verify_all (x ∷ calls) seen =
      verify_all calls (verify_request c x.request x.key x.body x.at seen).1

  verify_request-held :
      (nonce : Bytes) (t : ℕ) (r : SignedRequest) (key body : Bytes) (now : ℕ) (seen : List Seen)
      → now ≤ t
      → any (is_held nonce t) seen ≡ true
      → any (is_held nonce t) (verify_request c r key body now seen).1 ≡ true
  unfolding verify_request
  verify_request-held nonce t r key body now seen l h =
      ground (arith, use_nonce-held nonce r.nonce now t seen l h)

  verify_all-held :
      (nonce : Bytes) (t : ℕ) (calls : List Call) (seen : List Seen)
      → All (λ x. x.at ≤ t) calls
      → any (is_held nonce t) seen ≡ true
      → any (is_held nonce t) (verify_all calls seen) ≡ true
  unfolding verify_all
  verify_all-held nonce t [] seen l h = h
  verify_all-held nonce t (x ∷ calls) seen (l, ls) h =
      verify_all-held nonce t calls _ ls
        (verify_request-held nonce t x.request x.key x.body x.at seen l h)

  accepted_held :
      (r : SignedRequest) (key body : Bytes) (now t : ℕ) (seen : List Seen)
      → (verify_request c r key body now seen).0 ≡ ok tt
      → t ≤ now + 2 * max_clock_skew
      → any (is_held r.nonce t) (verify_request c r key body now seen).1 ≡ true
  unfolding verify_request use_nonce
  accepted_held r key body now t seen h l = ground arith

  accepted_time :
      (r : SignedRequest) (key body : Bytes) (now : ℕ) (seen : List Seen)
      → (verify_request c r key body now seen).0 ≡ ok tt
      → (p : Bool × ℕ) × (parse_int r.timestamp ≡ some p)
        × (is_skewed now p ≡ false)
        × ((use_nonce r.nonce now seen).0 ≡ true)
  unfolding verify_request
  accepted_time r key body now seen h = elim (Option-cases (parse_int r.timestamp)) [
    | inl n ↦ absurd (ground arith)
    | inr (p, e) ↦ (p, e, ground arith, ground arith)
  ]

  skew_span :
      (p : Bool × ℕ) (now t : ℕ)
      → is_skewed now p ≡ false
      → is_skewed t p ≡ false
      → t ≤ now + 2 * max_clock_skew
  skew_span (false, n) now t h k = ground arith
  skew_span (true, n) now t h k = ground arith

  -- A signed request is accepted once: after it has been accepted, and whatever requests come until
  -- a later time, by clocks that do not run past that time, a request with its nonce and timestamp
  -- is refused at that time.
  pub verify_request-once :
      (r r' : SignedRequest) (key key' body body' : Bytes) (now t : ℕ) (seen : List Seen)
      (calls : List Call)
      → (verify_request c r key body now seen).0 ≡ ok tt
      → r'.nonce ≡ r.nonce
      → r'.timestamp ≡ r.timestamp
      → All (λ x. x.at ≤ t) calls
      → (verify_request c r' key' body' t
          (verify_all calls (verify_request c r key body now seen).1)).0
        ≢ ok tt
  verify_request-once r r' key key' body body' now t seen calls h n s l = λ k.
      let (p, e, a, u) = accepted_time r key body now seen h in
      let (q, f, b, v) = accepted_time r' key' body' t _ k in
      let same : is_skewed t p ≡ false = ground arith in
      let held = accepted_held r key body now t seen h (skew_span p now t a same) in
      let still = verify_all-held r.nonce t calls _ l held in
      let again = use_nonce_again r.nonce t _ still in
      let used =
        ap (λ x. (use_nonce x t (verify_all calls (verify_request c r key body now seen).1)).0)
          (sym n)
        ∙ v in
      cc
