-- ===== src/Gateway/Path/Version.antt =====
-- The version segment (internal/services/gateway_path.go): added to a path that has none, and put
-- before a path that is sent on.
use loxilb_oam.Prelude.{
  ◌≡◌, refl, ◌⊎◌, inl, inr, true, false, [], ◌∷◌, ◌++◌, Bytes, is_empty, arith, some,
}
use loxilb_oam.Strings.{trim_slash, has_suffix}
use loxilb_oam.Gateway.Path.{GatewayPath, Url, gateway_target_url}

abbrev v : Bytes
v = b'/' ∷ b'v' ∷ b'1' ∷ []

has_suffix-append : (s t : Bytes) → has_suffix (s ++ t) t ≡ true
unfolding has_suffix
has_suffix-append [] [] = ground arith
has_suffix-append [] (c ∷ t) = ground arith
has_suffix-append (c ∷ s) t = ground (arith, has_suffix-append s t)

-- An endpoint may be written with the version or without it: if its path, less a slash at its end,
-- is a base that does not end in "/v1", or that base and "/v1", a versioned path that is not empty
-- is sent to the base, "/v1" once, and the path less a slash at its end, with the query and without
-- a fragment.
pub gateway_target_url_once :
    (target : Url) (base : Bytes) (p : GatewayPath) (query : Bytes)
    → (trim_slash target.path ≡ base) ⊎ (trim_slash target.path ≡ base ++ v)
    → has_suffix base v ≡ false
    → p.versioned ≡ true
    → is_empty p.rel ≡ false
    → gateway_target_url target p query
      ≡ some
          (record target { path = base ++ v ++ trim_slash p.rel; raw_query = query; fragment = [] })
unfolding gateway_target_url
gateway_target_url_once target base p query (inl e) b u n = rw (n, u, e, b) refl
gateway_target_url_once target base p query (inr e) b u n =
    rw (n, u, e, has_suffix-append base v) refl
