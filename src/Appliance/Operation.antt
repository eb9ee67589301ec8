-- ===== src/Appliance/Operation.antt =====
-- internal/appliance/operation.go: types and states of an operation, and the operation as the API
-- returns it.
use loxilb_oam.Prelude.{
  ℕ, Bool, true, false, Option, none, List, [], Bytes, bytes, Bytes-discrete, ◌==◌, if◌then◌else◌,
}
use loxilb_oam.Appliance.Contract.{Action}

pub data OperationType : Type 0 where
  backup restore update rollback reset : OperationType
  unknown : Bytes → OperationType

unfoldable pub OperationType-discrete : Discrete OperationType
OperationType-discrete = hlevel Bytes-discrete

unfoldable pub valid_type : OperationType → Bool
valid_type (OperationType.unknown s) = false
valid_type _ = true

-- Action(t): the same string, read as an action.
unfoldable pub action : OperationType → Action
action OperationType.backup = Action.backup
action OperationType.restore = Action.restore
action OperationType.update = Action.update
action OperationType.rollback = Action.rollback
action OperationType.reset = Action.reset
action (OperationType.unknown s) =
    if s == bytes "diagnostics" then Action.diagnostics else Action.other s

pub data OperationState : Type 0 where
  planned awaiting_authorization queued running verifying succeeded failed : OperationState
  compensating rolled_back recovery_required cancelled : OperationState
  unknown : Bytes → OperationState

unfoldable pub OperationState-discrete : Discrete OperationState
OperationState-discrete = hlevel Bytes-discrete

infix 50 ◌is◌
abbrev pub ◌is◌ : OperationState → OperationState → Bool
s is t = elim (OperationState-discrete s t) [ yes p ↦ true | no p ↦ false ]

unfoldable pub valid_state : OperationState → Bool
valid_state (OperationState.unknown s) = false
valid_state _ = true

unfoldable pub host_owned : OperationState → Bool
host_owned OperationState.planned = false
host_owned OperationState.awaiting_authorization = false
host_owned (OperationState.unknown s) = false
host_owned _ = true

unfoldable pub terminal : OperationState → Bool
terminal OperationState.succeeded = true
terminal OperationState.failed = true
terminal OperationState.rolled_back = true
terminal OperationState.cancelled = true
terminal _ = false

unfoldable pub active : OperationState → Bool
active OperationState.awaiting_authorization = true
active OperationState.queued = true
active OperationState.running = true
active OperationState.verifying = true
active OperationState.compensating = true
active OperationState.recovery_required = true
active _ = false

-- In seconds.
abbrev pub plan_ttl : ℕ
plan_ttl = 900

abbrev pub challenge_ttl : ℕ
challenge_ttl = 300

-- How a row relates to the host journal.
pub data Reconciliation : Type 0 where
  in_sync host_unreachable host_unknown : Reconciliation

pub record PlanRequest : Type 0 where
  pub request_schema : Bytes
  pub request_type : OperationType
  pub archive_ref : Bytes
  pub target_release_ref : Bytes
  pub request_note : Bytes

pub record Plan : Type 0 where
  pub irreversible_after_phase : Bytes
  pub current_release_digest : Bytes
  pub target_release_digest : Bytes
  pub archive_digest : Bytes
  pub compatibility : Bytes
  pub affected_resources : List Bytes

-- Times are seconds on the database clock; an `Option` is a nil pointer or a withheld field.
pub record Operation : Type 0 where
  pub id : Bytes
  pub type : OperationType
  pub state : OperationState
  pub phase : Bytes
  pub installation_id : Bytes
  pub model : Bytes
  pub actor : Bytes
  pub request_id : Bytes
  pub note : Bytes
  pub host_fixture : Bool
  pub plan_hash : Bytes
  pub plan_expires_at : ℕ
  pub plan : Option Plan
  pub redacted : Bool
  pub requires_reauthentication : Bool
  pub cancellable : Bool
  pub host_generation : ℕ
  pub reconciliation : Reconciliation
  pub stale : Bool
  pub error_code : Bytes
  pub error_origin : Bytes
  pub created_at : ℕ
  pub updated_at : ℕ
  pub submitted_at : Option ℕ
  pub finished_at : Option ℕ
  pub actor_user_id : ℕ
  pub request_hash : Bytes
  pub request : PlanRequest

-- The copy for a caller who may not run the operation.
unfoldable pub redact : Operation → Operation
redact o = record o { plan_hash = []; plan = none; note = []; redacted = true }
