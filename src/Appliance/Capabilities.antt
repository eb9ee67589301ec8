-- ===== src/Appliance/Capabilities.antt =====
-- internal/appliance/service.go, Capabilities: what can be done here and now.
pub mod Sound
use loxilb_oam.Prelude.{
  ℕ, Bool, true, false, ◌&&◌, ◌||◌, not, Option, none, some, List, [], ◌∷◌, map, Bytes,
  Bytes-discrete, ◌==◌, any, Result, ok, err, if◌then◌else◌,
}
use mathlib.Core.Option
use loxilb_oam.Appliance.Contract.{Action, destructive, schema_version}
use loxilb_oam.Appliance.Operation.{OperationState, active, ◌is◌}
use loxilb_oam.Appliance.Host.{HostError, not_configured}
use loxilb_oam.Appliance.Store.Row.{Row, find_row}
use loxilb_oam.Appliance.Store.World.{Error, World, M}
use loxilb_oam.Appliance.Store.Statements.{query}

unfoldable pub Action-discrete : Discrete Action
Action-discrete = hlevel Bytes-discrete

abbrev pub same_action : Action → Action → Bool
same_action a b = elim (Action-discrete a b) [ yes p ↦ true | no p ↦ false ]

-- A Go string type; its empty value is no reason, `none` of an Option.
pub data UnavailableReason : Type 0 where
  host_not_configured host_unreachable host_unsupported schema_mismatch : UnavailableReason
  operation_in_progress recovery_required : UnavailableReason
  other : Bytes → UnavailableReason

pub record HostActionState : Type 0 where
  pub action : Action
  pub available : Bool
  pub reason : Option UnavailableReason

pub record HostCapabilities : Type 0 where
  pub contract_versions : List Bytes
  pub fixture : Bool
  pub actions : List HostActionState
  pub observed_at : ℕ

pub record ActionCapability : Type 0 where
  pub action : Action
  pub supported : Bool
  pub available : Bool
  pub unavailable_reason : Option UnavailableReason
  pub permitted : Bool
  pub requires_reauthentication : Bool

pub record Capabilities : Type 0 where
  pub host_configured : Bool
  pub host_fixture : Bool
  pub host_contract_versions : List Bytes
  pub observed_at : Option ℕ
  pub actions : List ActionCapability

abbrev pub all_actions : List Action
all_actions =
    Action.backup ∷ Action.restore ∷ Action.update ∷ Action.rollback ∷ Action.reset
    ∷ Action.diagnostics ∷ []

abbrev pub host_reason : HostError → UnavailableReason
host_reason not_configured = host_not_configured
host_reason _ = host_unreachable

-- The reason that every action shares.
unfoldable pub blanket_reason : Result HostError HostCapabilities → Option UnavailableReason
blanket_reason (err e) = some (host_reason e)
blanket_reason (ok caps) =
    if not (any (λ v. v == schema_version) caps.contract_versions)
    then some schema_mismatch
    else none

-- byAction[action]; of several entries the last one counts.
unfoldable pub by_action : Action → List HostActionState → Option HostActionState
by_action a [] = none
by_action a (s ∷ ss) = elim (by_action a ss) [
  | some t ↦ some t
  | none ↦ if same_action s.action a then some s else none
]

abbrev pub host_actions : Result HostError HostCapabilities → List HostActionState
host_actions (err e) = []
host_actions (ok caps) = caps.actions

-- The state that the query yields: of an active operation, one that needs an operator first.
unfoldable pub occupying_state : List Row → Option OperationState
occupying_state rows = elim (find_row (λ r. r.state is OperationState.recovery_required) rows) [
  | some r ↦ some r.state
  | none ↦ Option.map (λ r. r.state) (find_row (λ r. active r.state) rows)
]

-- A query that fails occupies nothing.
unfoldable pub occupied_reason : Result Error (Option OperationState) → Option UnavailableReason
occupied_reason (err e) = none
occupied_reason (ok none) = none
occupied_reason (ok (some s)) =
    if s is OperationState.recovery_required
    then some recovery_required
    else some operation_in_progress

-- The default case: the host knows the action and cannot run it.
abbrev pub stated_reason : Option UnavailableReason → UnavailableReason
stated_reason none = host_unsupported
stated_reason (some r) = r

abbrev pub is_unsupported : UnavailableReason → Bool
is_unsupported host_unsupported = true
is_unsupported _ = false

-- One turn of the loop: the entry of an action, from what the host says of it.
abbrev pub unavailable : ActionCapability → Bool → UnavailableReason → ActionCapability
unavailable e supported reason = record e {
  supported = supported;
  unavailable_reason = some reason;
}

abbrev pub judge :
    Option UnavailableReason
    → Option UnavailableReason
    → Option HostActionState
    → ActionCapability
    → ActionCapability
judge (some reason) occupied state e = unavailable e false reason
judge none occupied none e = unavailable e false host_unsupported
judge none none (some s) e =
    if s.available
    then record e { supported = true; available = true }
    else unavailable e (not (is_unsupported (stated_reason s.reason))) (stated_reason s.reason)
judge none (some reason) (some s) e =
    if s.available && not (same_action e.action Action.diagnostics)
    then unavailable e true reason
    else if s.available
    then record e { supported = true; available = true }
    else unavailable e (not (is_unsupported (stated_reason s.reason))) (stated_reason s.reason)

unfoldable pub action_entry :
    (Action → Bool)
    → Option UnavailableReason
    → Option UnavailableReason
    → List HostActionState
    → Action
    → ActionCapability
action_entry permitted blanket occupied states a =
    judge blanket occupied (by_action a states) (record {
      action = a;
      supported = false;
      available = false;
      unavailable_reason = none;
      permitted = permitted a;
      requires_reauthentication = destructive a;
    })

-- The tables are asked only if the host serves at all.
unfoldable pub occupied : Option UnavailableReason → World → Option UnavailableReason × World
occupied (some reason) w = (none, w)
occupied none w =
    let (r, w') = query (λ now db. occupying_state db.operations) w in (occupied_reason r, w')

abbrev pub versions_of : Result HostError HostCapabilities → List Bytes
versions_of (err e) = []
versions_of (ok caps) = caps.contract_versions

abbrev pub fixture_of : Result HostError HostCapabilities → Bool
fixture_of (err e) = false
fixture_of (ok caps) = caps.fixture

abbrev pub observed_of : Result HostError HostCapabilities → Option ℕ
observed_of (err e) = none
observed_of (ok caps) = some caps.observed_at

-- Capabilities, with the answer of the host's own GET /v1/capabilities.
unfoldable pub capabilities :
    Result HostError HostCapabilities → (Action → Bool) → World → Capabilities × World
capabilities host permitted w =
    let blanket = blanket_reason host in
    let (busy, w') = occupied blanket w in
    (
      record {
        host_configured = w.configured;
        host_fixture = fixture_of host;
        host_contract_versions = versions_of host;
        observed_at = observed_of host;
        actions = map (action_entry permitted blanket busy (host_actions host)) all_actions;
      },
      w',
    )
