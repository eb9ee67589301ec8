-- ===== src/Appliance/Lifecycle/Submission.antt =====
-- internal/appliance/lifecycle.go: Submit, and the delivery of a submitted operation to the host
-- adapter.
pub mod Once
pub mod Atomic
use loxilb_oam.Prelude.{
  ◌&&◌, ◌||◌, not, Option, none, some, Bytes, Result, ok, err, ◌==◌, ltb, is_empty, is_some, ◌=ℕ◌,
  if◌then◌else◌,
}
use loxilb_oam.Appliance.Contract.{
  destructive, code_submit_rejected, code_challenge_consumed, code_challenge_expired,
  code_challenge_mismatch, origin_host,
}
use loxilb_oam.Appliance.Operation.{OperationState, Operation, action, ◌is◌}
use loxilb_oam.Appliance.Request.{host_error_code_ok}
use loxilb_oam.Appliance.Host.{HostError, rejected, HostJobRequest, HostJob, submit_result}
use loxilb_oam.Appliance.Store.Row.{AuditEvent, find_row}
use loxilb_oam.Appliance.Store.World.{
  Error, active_conflict, challenge_mismatch, challenge_consumed, challenge_expired,
  challenge_required, operation_state, plan_stale, session_unbound, submit_call, World, M, pure,
  refuse_if, ignore, transaction, ◌>>=◌, ◌>>◌,
}
use loxilb_oam.Appliance.Store.Statements.{
  query, exec_operations, scan_operation, write_audit, audit,
}
use loxilb_oam.Appliance.Caller.{Caller, Digest, entry, by}
use loxilb_oam.Appliance.Lifecycle.Journal.{
  load, reload, expired_or, raise_conflict, ask_host, apply_job, finish_without_host,
  mark_unreachable,
}
use loxilb_oam.Appliance.Lifecycle.Authorization.{consume_challenge}
use mathlib.Core.Option

abbrev pub job_request : Operation → HostJobRequest
job_request op = record {
  operation_id = op.id;
  type = op.type;
  installation_id = op.installation_id;
  plan_hash = op.plan_hash;
  archive_ref = op.request.archive_ref;
  target_release_ref = op.request.target_release_ref;
}

-- The code of a rejection, if it may be stored.
abbrev pub rejection_code : Bytes → Bytes
rejection_code code = if host_error_code_ok code then code else code_submit_rejected

abbrev pub record_submission : Operation → Result HostError HostJob → M (Unit {0})
record_submission op (ok job) = apply_job op job
record_submission op (err (rejected r)) =
    finish_without_host op OperationState.failed (rejection_code r.code) origin_host
      AuditEvent.state_change
record_submission op (err _) = mark_unreachable op

-- submitToHost
unfoldable pub submit_to_host : Operation → M (Unit {0})
submit_to_host op = do
  answer ← ask_host (submit_call (job_request op)) (submit_result op.id)
  record_submission op answer

-- undelivered: the row, if it is submitted and the host has never reported on it.
abbrev pub if_undelivered : Option Operation → Option Operation
if_undelivered none = none
if_undelivered (some op) =
    if not (op.state is OperationState.queued) || not (op.host_generation =ℕ 0)
    then none
    else some op

unfoldable pub undelivered : Bytes → M (Option Operation)
undelivered id =
    query λ now db.
      if_undelivered (Option.map scan_operation (find_row (λ r. r.id == id) db.operations))

abbrev pub deliver_found : Option Operation → M (Unit {0})
deliver_found none = pure tt
deliver_found (some op) = submit_to_host op

-- deliver: the row stays locked while the host is asked, so nothing else happens in between.
-- A failure is only logged.
unfoldable pub deliver : Bytes → M (Unit {0})
deliver id = ignore (transaction (do found ← undelivered id; deliver_found found))

-- The state from which an operation is submitted.
abbrev pub expected_state : Operation → OperationState
expected_state op =
    if destructive (action op.type)
    then OperationState.awaiting_authorization
    else OperationState.planned

-- The checks of Submit that change nothing, below the one for a repeated submit.
unfoldable pub submittable : Caller → Operation → Bytes → M (Unit {0})
submittable caller op challenge = do
  refuse_if (destructive (action op.type) && op.state is OperationState.planned) challenge_required
  refuse_if (not (op.state is expected_state op)) (expired_or op)
  refuse_if (destructive (action op.type) && is_empty challenge) challenge_required
  refuse_if (destructive (action op.type) && is_empty caller.session_id) session_unbound

unfoldable pub consume_if_destructive : Digest → Caller → Operation → Bytes → M (Unit {0})
consume_if_destructive d caller op challenge =
    if destructive (action op.type) then consume_challenge d op caller challenge else pure tt

-- The transaction of Submit.
unfoldable pub submit_tx : Digest → Caller → Operation → Bytes → M (Unit {0})
submit_tx d caller op challenge = do
  consume_if_destructive d caller op challenge
  n ←
      exec_operations
        (λ now r. r.id == op.id && r.state is expected_state op && ltb now r.plan_expires_at)
        (λ now r. record r { state = OperationState.queued; submitted_at = some now })
  refuse_if (not (n =ℕ 1)) (operation_state none)
  write_audit (
      by caller (record (entry op.id AuditEvent.submit) {
        old_state = some op.state;
        new_state = some OperationState.queued;
        type = some op.type;
        plan_hash = op.plan_hash;
      }))

-- challengeCode, for the errors that refuse a challenge.
abbrev pub challenge_code : Error → Option Bytes
challenge_code challenge_consumed = some code_challenge_consumed
challenge_code challenge_expired = some code_challenge_expired
challenge_code challenge_mismatch = some code_challenge_mismatch
challenge_code _ = none

abbrev pub deny : Caller → Operation → Option Bytes → M (Unit {0})
deny caller op none = pure tt
deny caller op (some code) = audit (
    by caller (record (entry op.id AuditEvent.submit_denied) {
      old_state = some op.state;
      type = some op.type;
      reason = code;
    }))

-- What Submit does once its transaction is over, if it failed.
abbrev pub after_submit_tx :
    Caller → Operation → Result Error (Unit {0}) × World → Result Error (Unit {0}) × World
after_submit_tx caller op (ok u, w) = (ok tt, w)
after_submit_tx caller op (err active_conflict, w) = raise_conflict op w
after_submit_tx caller op (err e, w) = (err e, (deny caller op (challenge_code e) w).1)

unfoldable pub submit_new : Digest → Caller → Operation → Bytes → M Operation
submit_new d caller op challenge = do
  submittable caller op challenge
  λ w. after_submit_tx caller op (transaction (submit_tx d caller op challenge) w)
  deliver op.id
  reload op.id

unfoldable pub submit : Digest → Caller → Bytes → Bytes → Bytes → M Operation
submit d caller id plan_hash challenge = do
  op ← load caller id
  refuse_if (not (plan_hash == op.plan_hash)) plan_stale
  (if is_some op.submitted_at then pure op else submit_new d caller op challenge)
