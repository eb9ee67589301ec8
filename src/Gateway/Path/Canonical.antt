-- ===== src/Gateway/Path/Canonical.antt =====
-- What CanonicalGatewayPath (internal/services/gateway_path.go) guarantees of the path it returns.
use loxilb_oam.Prelude.{
  ℕ, ◌≡◌, ◌≢◌, refl, sym, Bool, true, false, Option, none, some, List, [], ◌∷◌, Bytes, bytes, any,
  All, ◌==◌, arith, ok, Bool-cases, inl, inr,
}
use mathlib.Core.Path.{subst}
use loxilb_oam.Strings.{has_prefix, trim_slash, contains, to_lower}
use loxilb_oam.Strings.Utf8.{runes, runes-any, IsAscii}
use loxilb_oam.Strings.Segments.{cons_head, split, join, split-free}
use loxilb_oam.Gateway.Path.{
  GatewayPath, is_bad_rune, is_bad_segment, slash, from_segments, from_trimmed, check_runes,
  canonical_gateway_path, gateway_api_version,
}

-- A segment that names something: not empty, no dot segment, no separator, and no byte that means
-- something else in a URL.
pub record IsPlain (s : Bytes) : Type 0 where
  pub named : is_bad_segment s ≡ false
  pub whole : All (λ c. c ≢ slash) s
  pub clean : any is_bad_rune s ≡ false

pub record IsCanonical (p : GatewayPath) : Type 0 where
  pub segments : List Bytes
  pub shape : p.rel ≡ slash ∷ join slash segments
  pub plain : All IsPlain segments

is_bad_rune-IsAscii : IsAscii is_bad_rune
is_bad_rune-IsAscii c h = ground arith

any-trim_slash : (p : ℕ → Bool) (s : Bytes) → any p s ≡ false → any p (trim_slash s) ≡ false
unfolding trim_slash
any-trim_slash p [] h = refl
any-trim_slash p (c ∷ []) h = ground arith
any-trim_slash p (c ∷ d ∷ s) h = ground (arith, any-trim_slash p (d ∷ s))

any-cons_head :
    (p : ℕ → Bool) (c : ℕ) (ss : List Bytes)
    → p c ≡ false
    → All (λ t. any p t ≡ false) ss
    → All (λ t. any p t ≡ false) (cons_head c ss)
any-cons_head p c [] h a = (rw h, tt)
any-cons_head p c (s ∷ ss) h a = (rw (h, a.0), a.1)

any-split :
    (p : ℕ → Bool) (sep : ℕ) (s : Bytes)
    → any p s ≡ false
    → All (λ t. any p t ≡ false) (split sep s)
unfolding split
any-split p sep [] h = (refl, tt)
any-split p sep (c ∷ s) h = ground (arith, any-split p sep s, any-cons_head p c (split sep s))

All-IsPlain :
    (ss : List Bytes)
    → any is_bad_segment ss ≡ false
    → All (All (λ c. c ≢ slash)) ss
    → All (λ t. any is_bad_rune t ≡ false) ss
    → All IsPlain ss
All-IsPlain [] a b c = tt
All-IsPlain (s ∷ ss) a b c = (
  record { named = ground arith; whole = b.0; clean = c.0 },
  All-IsPlain ss (ground arith) b.1 c.1,
)

from_segments-IsCanonical : (ss : List Bytes) → All IsPlain ss → IsCanonical (from_segments ss)
unfolding from_segments
from_segments-IsCanonical [] h = record { segments = []; shape = unfold join in refl; plain = tt }
from_segments-IsCanonical (s ∷ ss) h = elim (Bool-cases (s == gateway_api_version)) [
  | inl e ↦ record { segments = ss; shape = rw e; plain = h.1 }
  | inr n ↦ record { segments = s ∷ ss; shape = rw n; plain = h }
]

from_trimmed_inv :
    (c : ℕ) (s : Bytes) (p : GatewayPath)
    → from_trimmed (c ∷ s) ≡ ok p
    → (any is_bad_segment (split slash s) ≡ false) × (p ≡ from_segments (split slash s))
unfolding from_trimmed
from_trimmed_inv c s p e = ground arith

from_trimmed-IsCanonical :
    (s : Bytes) (p : GatewayPath)
    → any is_bad_rune s ≡ false
    → from_trimmed s ≡ ok p
    → IsCanonical p
unfolding from_trimmed
from_trimmed-IsCanonical [] p h e = record {
  segments = [];
  shape = unfold join in ground arith;
  plain = tt;
}
from_trimmed-IsCanonical (c ∷ s) p h e =
    let (good, whole) = from_trimmed_inv c s p e in
    subst IsCanonical (sym whole) (
      from_segments-IsCanonical (split slash s) (
        All-IsPlain (split slash s) good (split-free slash s)
          (any-split is_bad_rune slash s (ground arith))))

-- What a path that is accepted has passed.
pub canonical_inv :
    (decoded escaped : Bytes) {p : GatewayPath}
    → canonical_gateway_path decoded escaped ≡ ok p
    → (contains (to_lower escaped) (bytes "%2f") ≡ false)
      × (contains (to_lower escaped) (bytes "%5c") ≡ false)
      × (has_prefix decoded (bytes "/") ≡ true)
      × (check_runes (runes decoded) ≡ ok tt)
      × (from_trimmed (trim_slash decoded) ≡ ok p)
unfolding canonical_gateway_path
canonical_inv decoded escaped e = ground arith

-- And what it has to pass to be accepted.
pub canonical_intro :
    (decoded escaped : Bytes) {p : GatewayPath}
    → (contains (to_lower escaped) (bytes "%2f") ≡ false)
    → (contains (to_lower escaped) (bytes "%5c") ≡ false)
    → (has_prefix decoded (bytes "/") ≡ true)
    → (check_runes (runes decoded) ≡ ok tt)
    → (from_trimmed (trim_slash decoded) ≡ ok p)
    → canonical_gateway_path decoded escaped ≡ ok p
unfolding canonical_gateway_path
canonical_intro decoded escaped a b c d e = ground arith

pub check_runes_inv :
    (o : Option (List ℕ))
    → check_runes o ≡ ok tt
    → (rs : List ℕ) × (o ≡ some rs) × (any is_bad_rune rs ≡ false)
unfolding check_runes
check_runes_inv none e = cc
check_runes_inv (some rs) e = (rs, refl, ground arith)

-- The canonical form is "/" and plain segments joined by "/".
pub canonical_gateway_path-IsCanonical :
    (decoded escaped : Bytes) {p : GatewayPath}
    → canonical_gateway_path decoded escaped ≡ ok p
    → IsCanonical p
canonical_gateway_path-IsCanonical decoded escaped {p} e =
    let (_, _, _, valid, built) = canonical_inv decoded escaped e in
    let (rs, decodes, clean) = check_runes_inv (runes decoded) valid in
    from_trimmed-IsCanonical (trim_slash decoded) p
      (any-trim_slash is_bad_rune decoded
        (runes-any is_bad_rune is_bad_rune-IsAscii decoded decodes clean))
      built
