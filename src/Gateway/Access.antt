-- ===== src/Gateway/Access.antt =====
-- internal/middleware/rbac.go, RequireGatewayAccess: the gate in front of the proxy handler.
pub mod Policy
use loxilb_oam.Prelude.{
  Bool, true, false, not, Option, none, some, Bytes, Result, ok, err, if◌then◌else◌,
}
use loxilb_oam.Rbac.{gateway_write, gateway_admin, can, User, Context, resolve_caller}
use loxilb_oam.Gateway.Path.{GatewayPath, canonical_gateway_path}
use loxilb_oam.Gateway.Classify.{
  GatewayAccess, denied, admin, operator, authenticated, gateway_method_allowed,
  classify_gateway_request,
}

-- The request line: the method, the route's wildcard as decoded, and the path as it was sent.
pub record Request : Type 0 where
  pub method : Bytes
  pub path : Bytes
  pub escaped : Bytes

-- Each refusal is OAM's own, with its HTTP status; `forward` leaves the path for the handler.
pub data Outcome : Type 0 where
  refuse_unauthorized refuse_method refuse_path refuse_forbidden : Outcome
  forward : GatewayPath → Outcome

unfoldable pub is_allowed : Bytes → GatewayAccess → Bool
is_allowed role denied = false
is_allowed role authenticated = true
is_allowed role operator = can role gateway_write
is_allowed role admin = can role gateway_admin

unfoldable pub decide_access : User → Request → Outcome
decide_access u r =
    if not (gateway_method_allowed r.method)
    then refuse_method
    else elim (canonical_gateway_path r.path r.escaped) [
      | err e ↦ refuse_path
      | ok p ↦
          if not (is_allowed u.role (classify_gateway_request r.method p))
          then refuse_forbidden
          else forward p
    ]

unfoldable pub require_gateway_access :
    (Bytes → Option User) → Request → Context → Outcome × Context
require_gateway_access find r c =
    let (user, c') = resolve_caller find c in
    (elim user [ none ↦ refuse_unauthorized | some u ↦ decide_access u r ], c')
