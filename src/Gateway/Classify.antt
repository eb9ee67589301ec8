-- ===== src/Gateway/Classify.antt =====
-- internal/services/gateway_path.go: what a proxied request requires of the caller.
use loxilb_oam.Prelude.{
  Bool, ◌&&◌, ◌||◌, List, [], ◌∷◌, Bytes, bytes, ◌==◌, is_empty, any, length, ◌=ℕ◌, if◌then◌else◌,
}
use loxilb_oam.Strings.Segments.{split}
use loxilb_oam.Gateway.Path.{GatewayPath, slash}

pub data GatewayAccess : Type 0 where
  denied admin operator authenticated : GatewayAccess

abbrev pub one_of : List Bytes → Bytes → Bool
one_of names s = any (λ n. s == n) names

abbrev pub method_get : Bytes
method_get = bytes "GET"

abbrev pub method_head : Bytes
method_head = bytes "HEAD"

unfoldable pub gateway_method_allowed : Bytes → Bool
gateway_method_allowed =
    one_of
      (method_get ∷ method_head ∷ bytes "POST" ∷ bytes "PUT" ∷ bytes "PATCH" ∷ bytes "DELETE" ∷ [])

unfoldable pub gateway_document_families : Bytes → Bool
gateway_document_families =
    one_of
      (bytes "snapshot" ∷ bytes "export" ∷ bytes "restore" ∷ bytes "import" ∷ bytes "persist" ∷ [])

unfoldable pub gateway_config_families : Bytes → Bool
gateway_config_families = one_of (
    bytes "ai"
    ∷ bytes "bfd"
    ∷ bytes "bgp"
    ∷ bytes "cert"
    ∷ bytes "cistate"
    ∷ bytes "conntrack"
    ∷ bytes "cors"
    ∷ bytes "dpu"
    ∷ bytes "endpoint"
    ∷ bytes "endpointhoststate"
    ∷ bytes "fdb"
    ∷ bytes "firewall"
    ∷ bytes "gpu"
    ∷ bytes "halfclose"
    ∷ bytes "ipfilter"
    ∷ bytes "ipsec"
    ∷ bytes "ipv4address"
    ∷ bytes "ipv6address"
    ∷ bytes "l4trace"
    ∷ bytes "l7policy"
    ∷ bytes "llamafirewall"
    ∷ bytes "loadbalancer"
    ∷ bytes "metrics"
    ∷ bytes "mirror"
    ∷ bytes "neighbor"
    ∷ bytes "opa"
    ∷ bytes "params"
    ∷ bytes "pii"
    ∷ bytes "policy"
    ∷ bytes "port"
    ∷ bytes "route"
    ∷ bytes "securityrate"
    ∷ bytes "session"
    ∷ bytes "sessionulcl"
    ∷ bytes "trace"
    ∷ bytes "tunnel"
    ∷ bytes "vlan"
    ∷ bytes "worker"
    ∷ [])

unfoldable pub gateway_operational_families : Bytes → Bool
gateway_operational_families = one_of (
    bytes "diagnostics"
    ∷ bytes "maintenance"
    ∷ bytes "meta"
    ∷ bytes "metrics"
    ∷ bytes "nodegraph"
    ∷ bytes "sni"
    ∷ bytes "status"
    ∷ bytes "version"
    ∷ [])

-- `segments[0]` and `segments[1]`; strings.Split never returns an empty list.
abbrev pub family_of : List Bytes → Bytes
family_of [] = []
family_of (s ∷ ss) = s

abbrev pub sub_of : List Bytes → Bytes
sub_of [] = []
sub_of (s ∷ []) = []
sub_of (s ∷ t ∷ ss) = t

unfoldable pub is_read : Bytes → Bool
is_read method = method == method_get || method == method_head

abbrev pub standard : Bool → GatewayAccess
standard read = if read then authenticated else operator

-- strings.TrimPrefix(s, "/")
unfoldable pub trim_leading_slash : Bytes → Bytes
trim_leading_slash [] = []
trim_leading_slash (c ∷ s) = if c =ℕ slash then s else c ∷ s

-- The `switch` on the family.
unfoldable pub classify_segments : Bool → List Bytes → GatewayAccess
classify_segments read segments =
    let family = family_of segments in
    let sub = sub_of segments in
    if family == bytes "auth"
    then denied
    else if family == bytes "config"
    then (if gateway_document_families sub
        then admin
        else if gateway_config_families sub
        then standard read
        else admin)
    else if family == bytes "audit"
    then (if read
        then (if sub == bytes "status" && length segments =ℕ 2 then authenticated else operator)
        else admin)
    else if family == bytes "logs" || family == bytes "log-archives"
    then (if read then operator else admin)
    else if gateway_operational_families family
    then standard read
    else admin

unfoldable pub classify_gateway_request : Bytes → GatewayPath → GatewayAccess
unfolding is_read split trim_leading_slash classify_segments
classify_gateway_request method p =
    if is_empty p.rel
    then denied
    else classify_segments (is_read method) (split slash (trim_leading_slash p.rel))
