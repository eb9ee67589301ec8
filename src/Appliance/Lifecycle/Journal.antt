-- ===== src/Appliance/Lifecycle/Journal.antt =====
-- internal/appliance/lifecycle.go: recording what the host adapter answered, and what OAM decided
-- on its own.
pub mod Latest
pub mod Tables
use loxilb_oam.Prelude.{
  ℕ, Bool, false, ◌&&◌, ◌||◌, not, Option, none, some, List, [], ◌∷◌, Bytes, Result, ok, err, ◌==◌,
  ltb, is_empty, ◌=ℕ◌, if◌then◌else◌,
}
use loxilb_oam.Appliance.Contract.{
  code_plan_expired, code_submit_rejected, code_host_job_lost, origin_host,
}
use loxilb_oam.Appliance.Operation.{
  OperationState, Operation, Reconciliation, in_sync, host_unreachable, host_unknown, action,
  terminal, active, ◌is◌,
}
use loxilb_oam.Appliance.Request.{host_error_code_ok, valid_operation_id}
use loxilb_oam.Appliance.Host.{HostError, HostJob, Response, silent, not_configured}
use loxilb_oam.Appliance.Store.Row.{Row, AuditEvent, find_row}
use loxilb_oam.Appliance.Store.World.{
  Error, conflict, permission_denied, operation_not_found, plan_expired, operation_state, HostCall,
  World, M, pure, raise, refuse_if, ignore, ◌>>=◌, ◌>>◌,
}
use loxilb_oam.Appliance.Store.Statements.{
  query, exec_operations, audit, operation_by_id, is_unreachable,
}
use loxilb_oam.Appliance.Caller.{Caller, entry}
use loxilb_oam.Appliance.Planning.{expire_plans, found_or_missing}

-- blockingOperation; `LIMIT 1` takes the first that fits.
unfoldable pub blocking_operation : Bytes → Bytes → M Bytes
blocking_operation installation except_id = do
  found ← query (λ now db.
      find_row (λ r. r.installation_id == installation && not (r.id == except_id) && active r.state)
        db.operations)
  pure (elim found [ none ↦ [] | some r ↦ r.id ])

-- The error that reports which operation is in the way.
unfoldable pub raise_conflict {ℓ} : {A : Type ℓ} → Operation → M A
raise_conflict op = do
  blocker ← blocking_operation op.installation_id op.id
  raise (conflict blocker)

-- load
unfoldable pub load : Caller → Bytes → M Operation
load caller id = do
  refuse_if (not (valid_operation_id id)) operation_not_found
  expire_plans
  found ← operation_by_id id
  op ← found_or_missing found
  refuse_if (not (caller.permitted (action op.type))) permission_denied
  pure op

unfoldable pub reload : Bytes → M Operation
reload id = do found ← operation_by_id id; found_or_missing found

unfoldable pub expired_or : Operation → Error
expired_or op =
    if op.state is OperationState.cancelled && op.error_code == code_plan_expired
    then plan_expired
    else operation_state (some op.state)

-- One call to the adapter about a job, on the response that it gets.
abbrev next_answer : List (Response HostJob) → World → Response HostJob × World
next_answer [] w = (silent, w)
next_answer (r ∷ rs) w = (r, record w { job_answers = rs })

unfoldable pub ask_host :
    HostCall → (Response HostJob → Result HostError HostJob) → M (Result HostError HostJob)
ask_host call read w =
    if w.configured
    then (let (r, w') = next_answer w.job_answers (record w { calls = call ∷ w.calls }) in
        (ok (read r), w'))
    else (ok (err not_configured), w)

-- The error code and origin that are stored for a journal entry.
abbrev pub stored_code : Bytes → Bytes
stored_code code =
    if not (is_empty code) && not (host_error_code_ok code) then code_submit_rejected else code

abbrev pub stored_origin : Bytes → Bytes
stored_origin code = if is_empty code then [] else origin_host

-- COALESCE(finished_at, now)
abbrev pub coalesce : Option ℕ → ℕ → Option ℕ
coalesce none now = some now
coalesce (some t) now = some t

-- The columns that a journal entry sets.
unfoldable pub follow : HostJob → ℕ → Row → Row
follow job now r = record r {
  state = job.state;
  phase = job.phase;
  host_generation = job.generation;
  cancellable = job.cancellable && not (terminal job.state);
  reconciliation = in_sync;
  error_code = stored_code job.error_code;
  error_origin = stored_origin job.error_code;
  finished_at = if terminal job.state then coalesce r.finished_at now else none;
}

abbrev pub is_newer : Bytes → HostJob → ℕ → Row → Bool
is_newer id job now r = r.id == id && ltb r.host_generation job.generation

-- The marker that the adapter did not answer is taken off.
abbrev pub clear_stale : Bytes → M (Unit {0})
clear_stale id = do
  ignore (
      exec_operations (λ now r. r.id == id && is_unreachable r.reconciliation)
        (λ now r. record r { reconciliation = in_sync }))

-- What applyJob does with the number of rows that followed the entry.
unfoldable pub after_follow : Operation → HostJob → ℕ → M (Unit {0})
after_follow op job n =
    if not (n =ℕ 1)
    then (if is_unreachable op.reconciliation then clear_stale op.id else pure tt)
    else if not (job.state is op.state) || not (job.phase == op.phase)
    then audit (record (entry op.id AuditEvent.state_change) {
      old_state = some op.state;
      new_state = some job.state;
      type = some op.type;
      phase = job.phase;
      host_generation = job.generation;
      error_code = stored_code job.error_code;
      error_origin = stored_origin job.error_code;
    })
    else pure tt

-- applyJob: a failed update is only logged.
unfoldable pub apply_job : Operation → HostJob → M (Unit {0})
apply_job op job =
    ignore (do n ← exec_operations (is_newer op.id job) (follow job); after_follow op job n)

abbrev pub lost_or_in_sync : Bytes → Reconciliation
lost_or_in_sync code = if code == code_host_job_lost then host_unknown else in_sync

unfoldable pub decide_state : OperationState → Bytes → Bytes → ℕ → Row → Row
decide_state state code origin now r = record r {
  state = state;
  error_code = code;
  error_origin = origin;
  reconciliation = lost_or_in_sync code;
  cancellable = false;
  finished_at = if terminal state then some now else none;
}

unfoldable pub after_decision :
    Operation → OperationState → Bytes → Bytes → AuditEvent → ℕ → M (Unit {0})
after_decision op state code origin event n =
    if n =ℕ 1
    then audit (record (entry op.id event) {
      old_state = some op.state;
      new_state = some state;
      type = some op.type;
      error_code = code;
      error_origin = origin;
      reason = code;
    })
    else pure tt

-- finishWithoutHost
unfoldable pub finish_without_host :
    Operation → OperationState → Bytes → Bytes → AuditEvent → M (Unit {0})
finish_without_host op state code origin event = ignore (do
  n ←
      exec_operations (λ now r. r.id == op.id && r.state is op.state)
        (decide_state state code origin)
  after_decision op state code origin event n)

-- markUnreachable
unfoldable pub mark_unreachable : Operation → M (Unit {0})
mark_unreachable op =
    if is_unreachable op.reconciliation
    then pure tt
    else ignore (
        exec_operations (λ now r. r.id == op.id)
          (λ now r. record r { reconciliation = host_unreachable }))
