-- ===== src/Examples/Gateway.antt =====
-- An operator's requests through the gateway's gate (internal/middleware/rbac.go and
-- internal/services/gateway_path.go).
use loxilb_oam.Prelude.{
  ◌≡◌, ◌↔◌, ◌⊎◌, refl, inl, inr, true, false, Option, none, some, ◌++◌, [], Bytes, bytes,
  Bytes-discrete, ok, err,
}
use loxilb_oam.Strings.{to_lower, contains, has_prefix, has_suffix, trim_slash}
use loxilb_oam.Strings.Utf8.{runes}
use loxilb_oam.Strings.Segments.{split, join}
use loxilb_oam.Rbac.{User, Context, resolve_caller, normalize_role, can, role_capabilities}
use loxilb_oam.Gateway.Path.{
  GatewayPath, Url, canonical_gateway_path, check_runes, from_trimmed, from_segments,
  is_bad_segment, gateway_target_url, encoded_separator, bad_segment,
}
use loxilb_oam.Gateway.Path.Canonical.{IsCanonical, canonical_gateway_path-IsCanonical}
use loxilb_oam.Gateway.Path.Version.{gateway_target_url_once}
use loxilb_oam.Gateway.Classify.{
  gateway_document_families, gateway_config_families, gateway_method_allowed, classify_segments,
  classify_gateway_request, is_read, trim_leading_slash,
}
use loxilb_oam.Gateway.Access.{Request, forward, decide_access, require_gateway_access, is_allowed}
use loxilb_oam.Gateway.Access.Policy.{
  Policy, segments_of, require_gateway_access-Policy, decide_access_mono,
}

abbrev alice : User
alice = record { username = bytes "alice"; role = bytes "operator" }

abbrev root : User
root = record { username = bytes "root"; role = bytes "admin" }

abbrev nobody : Bytes → Option User
nobody name = none

abbrev request : Request
request = record {
  method = bytes "POST";
  path = bytes "/config/bgp/";
  escaped = bytes "/config/bgp/";
}

abbrev path : GatewayPath
path = record { rel = bytes "/config/bgp"; versioned = false }

path_found : canonical_gateway_path request.path request.escaped ≡ ok path
unfolding canonical_gateway_path to_lower contains has_prefix check_runes runes trim_slash
    from_trimmed from_segments is_bad_segment Bytes-discrete split join
path_found = refl

bad_paths :
    (canonical_gateway_path (bytes "/config/../auth") (bytes "/config/../auth") ≡ err bad_segment)
    × (canonical_gateway_path (bytes "/config/auth") (bytes "/config%2Fauth")
        ≡ err encoded_separator)
unfolding canonical_gateway_path to_lower contains has_prefix check_runes runes trim_slash
    from_trimmed from_segments is_bad_segment Bytes-discrete split join
bad_paths = (refl, refl)

canonical_gateway_path-IsCanonical_example : IsCanonical path
canonical_gateway_path-IsCanonical_example =
    canonical_gateway_path-IsCanonical request.path request.escaped path_found

abbrev endpoint : Url
endpoint = record {
  scheme_host = bytes "https://gateway:8091";
  path = bytes "/netlox/v1/";
  raw_query = [];
  fragment = [];
}

base_of_endpoint :
    (trim_slash endpoint.path ≡ bytes "/netlox")
    ⊎ (trim_slash endpoint.path ≡ bytes "/netlox" ++ bytes "/v1")
unfolding trim_slash
base_of_endpoint = inr refl

base_unversioned : has_suffix (bytes "/netlox") (bytes "/v1") ≡ false
unfolding has_suffix Bytes-discrete
base_unversioned = refl

gateway_target_url_once_example :
    gateway_target_url endpoint (record path { versioned = true }) (bytes "a=1")
    ≡ some (record endpoint {
      path = bytes "/netlox" ++ bytes "/v1" ++ trim_slash path.rel;
      raw_query = bytes "a=1";
      fragment = [];
    })
gateway_target_url_once_example =
    gateway_target_url_once endpoint (bytes "/netlox") (record path { versioned = true })
      (bytes "a=1") base_of_endpoint base_unversioned refl refl

abbrev known : Context
known = record { caller_user = some alice; claims = none }

alice_found : (resolve_caller nobody known).0 ≡ some alice
unfolding resolve_caller
alice_found = refl

require_gateway_access-Policy_example :
    ((require_gateway_access nobody request known).0 ≡ forward path) ↔ (
      (gateway_method_allowed request.method ≡ true)
      × (canonical_gateway_path request.path request.escaped ≡ ok path)
      × Policy alice.role request.method (segments_of path))
require_gateway_access-Policy_example =
    require_gateway_access-Policy nobody request known alice path alice_found

alice_forwarded : decide_access alice request ≡ forward path
unfolding decide_access canonical_gateway_path to_lower contains has_prefix check_runes runes
    trim_slash from_trimmed from_segments is_bad_segment Bytes-discrete split join
    gateway_method_allowed classify_gateway_request is_read trim_leading_slash classify_segments
    is_allowed can normalize_role role_capabilities gateway_document_families
    gateway_config_families
alice_forwarded = refl

decide_access_mono_example : decide_access root request ≡ forward path
decide_access_mono_example = decide_access_mono alice root request path (inl refl) alice_forwarded
