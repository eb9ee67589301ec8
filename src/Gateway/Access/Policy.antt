-- ===== src/Gateway/Access/Policy.antt =====
-- What the gateway's gate (internal/middleware/rbac.go, RequireGatewayAccess) lets through, by role.
use loxilb_oam.Prelude.{
  ◌≡◌, ◌≢◌, ◌↔◌, refl, ◌⊎◌, Bool, true, false, Option, some, List, Bytes, bytes, is_empty,
  Bytes-discrete, length, arith, ok,
}
use loxilb_oam.Rbac.{User, Context, can, resolve_caller, gateway_write, gateway_admin}
use loxilb_oam.Rbac.Laws.{Rank, can_mono}
use loxilb_oam.Strings.Segments.{split}
use loxilb_oam.Gateway.Path.{GatewayPath, slash, canonical_gateway_path}
use loxilb_oam.Gateway.Classify.{
  GatewayAccess, denied, admin, operator, authenticated, is_read, family_of, sub_of,
  gateway_config_families, gateway_document_families, gateway_operational_families,
  gateway_method_allowed, trim_leading_slash, classify_segments, classify_gateway_request,
}
use loxilb_oam.Gateway.Path.Canonical.{IsCanonical, canonical_gateway_path-IsCanonical}
use loxilb_oam.Gateway.Access.{Request, forward, is_allowed, decide_access, require_gateway_access}

-- The segments by which a canonical path is judged.
abbrev pub segments_of : GatewayPath → List Bytes
segments_of p = split slash (trim_leading_slash p.rel)

-- A family that every role may read and an operator may change.
abbrev pub IsStandard : List Bytes → Type 0
IsStandard ss =
    ((family_of ss ≡ bytes "config")
      × (gateway_config_families (sub_of ss) ≡ true)
      × (gateway_document_families (sub_of ss) ≡ false))
    ⊎ (gateway_operational_families (family_of ss) ≡ true)

-- A family whose records an operator may read.
abbrev pub IsDiagnostic : List Bytes → Type 0
IsDiagnostic ss =
    (family_of ss ≡ bytes "audit")
    ⊎ (family_of ss ≡ bytes "logs")
    ⊎ (family_of ss ≡ bytes "log-archives")

abbrev pub IsAuditStatus : List Bytes → Type 0
IsAuditStatus ss = (family_of ss ≡ bytes "audit") × (sub_of ss ≡ bytes "status") × (length ss ≡ 2)

-- What a request must satisfy to be forwarded, for each level of role.
abbrev pub OpenToAll : Bytes → List Bytes → Type 0
OpenToAll method ss = (is_read method ≡ true) × (IsStandard ss ⊎ IsAuditStatus ss)

abbrev pub OpenToOperators : Bytes → List Bytes → Type 0
OpenToOperators method ss = IsStandard ss ⊎ ((is_read method ≡ true) × IsDiagnostic ss)

classify-authenticated :
    (read : Bool) (ss : List Bytes)
    → classify_segments read ss ≡ authenticated
    → (read ≡ true) × (IsStandard ss ⊎ IsAuditStatus ss)
unfolding classify_segments
classify-authenticated read ss h = ground arith

classify-operator :
    (read : Bool) (ss : List Bytes)
    → classify_segments read ss ≡ operator
    → IsStandard ss ⊎ ((read ≡ true) × IsDiagnostic ss)
unfolding classify_segments
classify-operator read ss h = ground arith

classify-auth :
    (read : Bool) (ss : List Bytes)
    → (classify_segments read ss ≡ denied) ↔ (family_of ss ≡ bytes "auth")
unfolding classify_segments
classify-auth read ss = ground arith

-- None of the families with rules of their own is an operational one.
operational_others :
    (gateway_operational_families (bytes "auth") ≡ false)
    × (gateway_operational_families (bytes "config") ≡ false)
    × (gateway_operational_families (bytes "audit") ≡ false)
    × (gateway_operational_families (bytes "logs") ≡ false)
    × (gateway_operational_families (bytes "log-archives") ≡ false)
unfolding gateway_operational_families Bytes-discrete
operational_others = (refl, refl, refl, refl, refl)

-- What the gate is meant to decide, of a role, a method and the segments of a path.
abbrev pub Policy : Bytes → Bytes → List Bytes → Type 0
Policy role method ss =
    (family_of ss ≢ bytes "auth")
    × (OpenToAll method ss
        ⊎ ((can role gateway_write ≡ true) × OpenToOperators method ss)
        ⊎ (can role gateway_admin ≡ true))

admin_writes : (role : Bytes) → can role gateway_admin ≡ true → can role gateway_write ≡ true
unfolding can
admin_writes role h = ground arith

classify_sound :
    (role method : Bytes) (ss : List Bytes)
    → is_allowed role (classify_segments (is_read method) ss) ≡ true
    → Policy role method ss
unfolding is_allowed classify_segments
classify_sound role method ss h = ground (arith, operational_others)

classify_complete :
    (role method : Bytes) (ss : List Bytes)
    → Policy role method ss
    → is_allowed role (classify_segments (is_read method) ss) ≡ true
unfolding is_allowed classify_segments
classify_complete role method ss h = ground (arith, operational_others, admin_writes role)

is_allowed_mono :
    (low high : Bytes) (a : GatewayAccess)
    → Rank low high
    → is_allowed low a ≡ true
    → is_allowed high a ≡ true
unfolding is_allowed
is_allowed_mono low high admin above h = can_mono low high gateway_admin above h
is_allowed_mono low high operator above h = can_mono low high gateway_write above h
is_allowed_mono low high _ above h = h

rel-nonempty : (p : GatewayPath) → IsCanonical p → is_empty p.rel ≡ false
rel-nonempty p h = rw (h.shape)

decide_inv :
    (u : User) (r : Request) (p : GatewayPath)
    → (decide_access u r ≡ forward p) ↔ (
        (gateway_method_allowed r.method ≡ true)
        × (canonical_gateway_path r.path r.escaped ≡ ok p)
        × (is_allowed u.role (classify_gateway_request r.method p) ≡ true))
unfolding decide_access
decide_inv u r p = ground arith

classify_path :
    (method : Bytes) (p : GatewayPath)
    → IsCanonical p
    → classify_gateway_request method p ≡ classify_segments (is_read method) (segments_of p)
unfolding classify_gateway_request
classify_path method p h = rw (rel-nonempty p h)

gate_found :
    (find : Bytes → Option User) (r : Request) (c : Context) (u : User)
    → (resolve_caller find c).0 ≡ some u
    → (require_gateway_access find r c).0 ≡ decide_access u r
unfolding require_gateway_access
gate_found find r c u found = ground arith

-- For a caller who is found, the gate forwards a path exactly if the method is one the proxy
-- forwards, the path is the canonical form of the request's, and the policy grants it: no account
-- family for anybody; reads of the listed families and of the audit status for all; changes of those
-- families, and reads of the audit trail and the logs, for the roles that may write to the gateway;
-- and everything else for those that administer it.
pub require_gateway_access-Policy :
    (find : Bytes → Option User) (r : Request) (c : Context) (u : User) (p : GatewayPath)
    → (resolve_caller find c).0 ≡ some u
    → ((require_gateway_access find r c).0 ≡ forward p) ↔ (
        (gateway_method_allowed r.method ≡ true)
        × (canonical_gateway_path r.path r.escaped ≡ ok p)
        × Policy u.role r.method (segments_of p))
require_gateway_access-Policy find r c u p found = rw (gate_found find r c u found) (to, from)
  where
    to :
        decide_access u r ≡ forward p
        → (gateway_method_allowed r.method ≡ true)
          × (canonical_gateway_path r.path r.escaped ≡ ok p)
          × Policy u.role r.method (segments_of p)
    to h =
        let (m, q, a) = (decide_inv u r p).0 h in
        (
          m,
          q,
          classify_sound u.role r.method (segments_of p) (
              rw (classify_path r.method p (canonical_gateway_path-IsCanonical r.path r.escaped q))
                at a),
        )

    from :
        (gateway_method_allowed r.method ≡ true)
          × (canonical_gateway_path r.path r.escaped ≡ ok p)
          × Policy u.role r.method (segments_of p)
        → decide_access u r ≡ forward p
    from (m, q, a) = (decide_inv u r p).1 (
      m,
      q,
      rw (classify_path r.method p (canonical_gateway_path-IsCanonical r.path r.escaped q))
          (classify_complete u.role r.method (segments_of p) a),
    )

-- Raising a caller's role never closes a path: what is forwarded for a role is forwarded for
-- every role above it.
pub decide_access_mono :
    (u w : User) (r : Request) (p : GatewayPath)
    → Rank u.role w.role
    → decide_access u r ≡ forward p
    → decide_access w r ≡ forward p
decide_access_mono u w r p above h =
    let (m, q, a) = (decide_inv u r p).0 h in
    (decide_inv w r p).1
      (m, q, is_allowed_mono u.role w.role (classify_gateway_request r.method p) above a)
