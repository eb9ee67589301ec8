-- ===== src/Appliance/Lifecycle/Cancellation.antt =====
-- internal/appliance/lifecycle.go: Cancel.
use loxilb_oam.Prelude.{
  ◌&&◌, not, Option, none, some, Bytes, Result, ok, err, ◌==◌, is_some, ◌=ℕ◌, if◌then◌else◌,
}
use loxilb_oam.Appliance.Contract.{code_cancelled_by_user, origin_oam}
use loxilb_oam.Appliance.Operation.{OperationState, Operation, terminal, ◌is◌}
use loxilb_oam.Appliance.Host.{HostError, job_not_found, rejected, HostJob, cancel_result}
use loxilb_oam.Appliance.Store.Row.{AuditEvent}
use loxilb_oam.Appliance.Store.World.{
  operation_state, not_cancellable, host, cancel_call, M, pure, raise, refuse_if, transaction,
  ◌>>=◌, ◌>>◌,
}
use loxilb_oam.Appliance.Store.Statements.{exec_operations, audit}
use loxilb_oam.Appliance.Caller.{Caller, entry, by}
use loxilb_oam.Appliance.Planning.{is_open}
use loxilb_oam.Appliance.Lifecycle.Journal.{load, reload, ask_host, apply_job, finish_without_host}
use loxilb_oam.Appliance.Lifecycle.Submission.{undelivered}

abbrev pub cancel_answer : Operation → Result HostError HostJob → M (Unit {0})
cancel_answer op (ok job) = apply_job op job
cancel_answer op (err job_not_found) =
    finish_without_host op OperationState.cancelled code_cancelled_by_user origin_oam
      AuditEvent.state_change
cancel_answer op (err (rejected r)) = raise not_cancellable
cancel_answer op (err e) = raise (host e)

abbrev pub cancel_found : Option Operation → M (Unit {0})
cancel_found none = raise (operation_state none)
cancel_found (some op) = do
  answer ← ask_host (cancel_call op.id) (cancel_result op.id)
  cancel_answer op answer

-- cancelUndelivered: the row stays locked while the host is asked.
unfoldable pub cancel_undelivered : Bytes → M (Unit {0})
cancel_undelivered id = transaction (do found ← undelivered id; cancel_found found)

-- Before submission it is OAM's decision.
unfoldable pub cancel_open : Caller → Operation → M Operation
cancel_open caller op = do
  n ←
      exec_operations (λ now r. r.id == op.id && is_open r.state)
        (λ now r. record r {
          state = OperationState.cancelled;
          error_code = code_cancelled_by_user;
          error_origin = origin_oam;
          finished_at = some now;
        })
  refuse_if (not (n =ℕ 1)) (operation_state none)
  audit (
      by caller (record (entry op.id AuditEvent.cancel) {
        old_state = some op.state;
        new_state = some OperationState.cancelled;
        type = some op.type;
        reason = code_cancelled_by_user;
      }))
  reload op.id

abbrev pub submitted_answer : Operation → Result HostError HostJob → M (Unit {0})
submitted_answer op (ok job) = apply_job op job
submitted_answer op (err (rejected r)) = raise not_cancellable
submitted_answer op (err job_not_found) =
    if op.host_generation =ℕ 0 then cancel_undelivered op.id else raise (host job_not_found)
submitted_answer op (err e) = raise (host e)

-- After it, the host adapter's.
unfoldable pub cancel_submitted : Caller → Operation → M Operation
cancel_submitted caller op = do
  audit (
      by caller (record (entry op.id AuditEvent.cancel) {
        old_state = some op.state;
        type = some op.type;
        phase = op.phase;
      }))
  answer ← ask_host (cancel_call op.id) (cancel_result op.id)
  submitted_answer op answer
  reload op.id

unfoldable pub cancel_loaded : Caller → Operation → M Operation
cancel_loaded caller op =
    if op.state is OperationState.cancelled
    then pure op
    else if terminal op.state
    then raise (operation_state (some op.state))
    else if not (is_some op.submitted_at)
    then cancel_open caller op
    else cancel_submitted caller op

-- Cancel
unfoldable pub cancel : Caller → Bytes → M Operation
cancel caller id = do op ← load caller id; cancel_loaded caller op
