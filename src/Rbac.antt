-- ===== src/Rbac.antt =====
-- internal/models/roles.go and internal/middleware/rbac.go: roles, capabilities, and the gate that
-- a route puts in front of its handler. The gateway's own gate is in Gateway.Access.
pub mod Laws
use loxilb_oam.Prelude.{
  Bool, true, false, Option, none, some, Bytes, bytes, ◌==◌, ◌||◌, not, if◌then◌else◌,
}

abbrev pub role_admin : Bytes
role_admin = bytes "admin"

abbrev pub role_operator : Bytes
role_operator = bytes "operator"

abbrev pub role_viewer : Bytes
role_viewer = bytes "viewer"

abbrev pub role_legacy_user : Bytes
role_legacy_user = bytes "user"

unfoldable pub normalize_role : Bytes → Bytes
normalize_role role = if role == role_legacy_user then role_operator else role

unfoldable pub is_valid_role : Bytes → Bool
is_valid_role role =
    role == role_admin || role == role_operator || role == role_viewer || role == role_legacy_user

pub data Action : Type 0 where
  user_admin instance_write gateway_write gateway_admin config_write alert_write log_read : Action
  appliance_read appliance_backup appliance_restore appliance_update appliance_rollback : Action
  appliance_reset appliance_diagnostics : Action

-- The rows of `roleCapabilities`. The administrator's names every action of the type.
admin_capabilities : Action → Bool
admin_capabilities a = true

operator_capabilities : Action → Bool
operator_capabilities gateway_write = true
operator_capabilities alert_write = true
operator_capabilities appliance_read = true
operator_capabilities _ = false

viewer_capabilities : Action → Bool
viewer_capabilities appliance_read = true
viewer_capabilities _ = false

-- A key that is not in the map yields `none`.
unfoldable pub role_capabilities : Bytes → Option (Action → Bool)
unfolding admin_capabilities operator_capabilities viewer_capabilities
role_capabilities role =
    if role == role_admin
    then some admin_capabilities
    else if role == role_operator
    then some operator_capabilities
    else if role == role_viewer
    then some viewer_capabilities
    else none

unfoldable pub can : Bytes → Action → Bool
unfolding normalize_role role_capabilities
can role action = elim (role_capabilities (normalize_role role)) [
  | none ↦ false
  | some caps ↦ caps action
]

pub record User : Type 0 where
  pub username : Bytes
  pub role : Bytes

-- What the gate reads of the request's context: the user cached by an earlier gate, and the name
-- in the token's claims. `none` stands for a missing value and for one of another type.
pub record Context : Type 0 where
  pub caller_user : Option User
  pub claims : Option Bytes

-- The result and the context that it leaves. `find` is `GetUserByUsername`: `none` for an error
-- as for a user who is not there.
unfoldable pub resolve_caller : (Bytes → Option User) → Context → Option User × Context
resolve_caller find c = elim c.caller_user [
  | some u ↦ (some u, c)
  | none ↦ elim c.claims [
    | none ↦ (none, c)
    | some name ↦ elim (find name) [
      | none ↦ (none, c)
      | some u ↦ (some u, record c { caller_user = some u })
    ]
  ]
]

-- What a gate answers: it aborts with a status, or lets the request through.
pub data Gate : Type 0 where
  unauthorized forbidden next : Gate

unfoldable pub require_capability : (Bytes → Option User) → Action → Context → Gate × Context
unfolding resolve_caller can
require_capability find action c =
    let (user, c') = resolve_caller find c in
    (
      elim user [
        | none ↦ unauthorized
        | some u ↦ if not (can u.role action) then forbidden else next
      ],
      c',
    )
