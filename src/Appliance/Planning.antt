-- ===== src/Appliance/Planning.antt =====
-- internal/appliance/operation_service.go and operation_store.go: planning an operation, and
-- reading one.
pub mod Replay
use loxilb_oam.Prelude.{
  ℕ, ◌+◌, Bool, true, false, ◌&&◌, ◌||◌, not, Option, none, some, List, [], ◌∷◌, Bytes, bytes,
  Result, ok, err, ◌==◌, ltb, if◌then◌else◌,
}
use loxilb_oam.Appliance.Contract.{schema_version, code_plan_expired, origin_oam}
use loxilb_oam.Appliance.Operation.{
  OperationState, Operation, PlanRequest, in_sync, plan_ttl, action, redact, ◌is◌,
}
use loxilb_oam.Appliance.Request.{RequestError, validate, valid_idempotency_key, valid_operation_id}
use loxilb_oam.Appliance.Host.{
  HostError, HostPlanRequest, HostPlan, Response, silent, not_configured, plan_result,
}
use loxilb_oam.Appliance.Store.Row.{Row, AuditEvent}
use loxilb_oam.Appliance.Store.World.{
  Error, database, idempotency_key, schema_mismatch, permission_denied, idempotency_key_reused,
  operation_not_found, vanished, invalid_request, host, HostCall, plan_call, World, M, pure, raise,
  lift, refuse_if, ◌>>=◌, ◌>>◌,
}
use loxilb_oam.Appliance.Store.Statements.{
  exec_operations, insert_operation, audit, operation_by_id, operation_by_key,
}
use loxilb_oam.Appliance.Caller.{Caller, Digest, request_hash, entry, by}

-- PLANNED or AWAITING_AUTHORIZATION.
abbrev pub is_open : OperationState → Bool
is_open s = s is OperationState.planned || s is OperationState.awaiting_authorization

abbrev pub is_expired : ℕ → Row → Bool
is_expired now r = is_open r.state && ltb r.plan_expires_at now

abbrev pub expire : ℕ → Row → Row
expire now r = record r {
  state = OperationState.cancelled;
  error_code = code_plan_expired;
  error_origin = origin_oam;
  finished_at = some now;
}

unfoldable pub expire_plans : M (Unit {0})
expire_plans = do _ ← exec_operations is_expired expire; pure tt

-- `req.Validate()` as an error of the service.
abbrev pub validated : Result RequestError (Unit {0}) → M (Unit {0})
validated (ok u) = pure tt
validated (err e) = raise (invalid_request e)

-- The next answer to a plan request; an adapter that has no answer is silent.
abbrev next_plan : List (Response HostPlan) → World → Response HostPlan × World
next_plan [] w = (silent, w)
next_plan (r ∷ rs) w = (r, record w { plan_answers = rs })

abbrev host_outcome : Result HostError HostPlan → M HostPlan
host_outcome (ok p) = pure p
host_outcome (err e) = raise (host e)

unfoldable pub host_plan : HostPlanRequest → M HostPlan
host_plan req w =
    if w.configured
    then (let (r, w') = next_plan w.plan_answers (record w { calls = plan_call req ∷ w.calls }) in
        host_outcome (plan_result r) w')
    else (err (host not_configured), w)

-- insertPlanned
abbrev pub planned_row : Digest → Bytes → Caller → Bytes → Bytes → PlanRequest → HostPlan → ℕ → Row
planned_row d id caller key request_id req plan now = record {
  id = id;
  type = req.request_type;
  state = OperationState.planned;
  phase = [];
  installation_id = plan.installation_id;
  model = plan.model;
  actor_user_id = caller.user_id;
  actor_username = caller.username;
  request_id = request_id;
  idempotency_key = key;
  request_hash = request_hash d req;
  request = req;
  plan_hash = plan.plan_hash;
  plan_expires_at = now + plan_ttl;
  plan = plan.plan;
  fixture = plan.fixture;
  host_generation = 0;
  reconciliation = in_sync;
  error_code = [];
  error_origin = [];
  created_at = now;
  updated_at = now;
  submitted_at = none;
  finished_at = none;
  cancellable = false;
}

unfoldable pub insert_planned :
    Digest → Bytes → Caller → Bytes → Bytes → PlanRequest → HostPlan → M Bool
insert_planned d id caller key request_id req plan =
    insert_operation (planned_row d id caller key request_id req plan)

abbrev pub same_request : Digest → Operation → PlanRequest → M (Operation × Bool)
same_request d existing req =
    if not (existing.request_hash == request_hash d req)
    then raise idempotency_key_reused
    else pure (existing, false)

abbrev pub found_or_vanished : Option Operation → M Operation
found_or_vanished none = raise vanished
found_or_vanished (some op) = pure op

-- After the insert: the row that was made, or the winner of a race for the key.
unfoldable pub after_insert :
    Digest → Bytes → Caller → Bytes → PlanRequest → Bool → M (Operation × Bool)
after_insert d id caller key req false = do
  found ← operation_by_key caller.user_id key
  winner ← found_or_vanished found
  same_request d winner req
after_insert d id caller key req true = do
  found ← operation_by_id id
  op ← found_or_vanished found
  audit (
      by caller (record (entry op.id AuditEvent.plan) {
        new_state = some OperationState.planned;
        type = some op.type;
        plan_hash = op.plan_hash;
      }))
  pure (op, true)

-- newOperationID may fail to read random bytes: `none`.
unfoldable pub create_planned :
    Digest → Option Bytes → Caller → Bytes → Bytes → PlanRequest → M (Operation × Bool)
create_planned d none caller key request_id req = raise database
create_planned d (some id) caller key request_id req = do
  plan ← host_plan (record {
    operation_id = id;
    type = req.request_type;
    archive_ref = req.archive_ref;
    target_release_ref = req.target_release_ref;
  })
  inserted ← insert_planned d id caller key request_id req plan
  after_insert d id caller key req inserted

-- What follows the look-up of the idempotency key.
unfoldable pub plan_or_replay :
    Digest
    → Option Bytes
    → Caller
    → Bytes
    → Bytes
    → PlanRequest
    → Option Operation
    → M (Operation × Bool)
plan_or_replay d id caller key request_id req (some existing) = same_request d existing req
plan_or_replay d id caller key request_id req none = create_planned d id caller key request_id req

-- PlanOperation, with the ID that newOperationID would make.
unfoldable pub plan_operation :
    Digest → Option Bytes → Caller → Bytes → Bytes → PlanRequest → M (Operation × Bool)
plan_operation d id caller key request_id req = do
  refuse_if (not (valid_idempotency_key key)) idempotency_key
  refuse_if (not (req.request_schema == schema_version)) schema_mismatch
  validated (validate req)
  refuse_if (not (caller.permitted (action req.request_type))) permission_denied
  expire_plans
  existing ← operation_by_key caller.user_id key
  plan_or_replay d id caller key request_id req existing

unfoldable pub visible_to : Operation → Caller → Operation
visible_to op caller = if caller.permitted (action op.type) then op else redact op

abbrev pub found_or_missing : Option Operation → M Operation
found_or_missing none = raise operation_not_found
found_or_missing (some op) = pure op

unfoldable pub get_operation : Caller → Bytes → M Operation
get_operation caller id = do
  refuse_if (not (valid_operation_id id)) operation_not_found
  expire_plans
  found ← operation_by_id id
  op ← found_or_missing found
  pure (visible_to op caller)
