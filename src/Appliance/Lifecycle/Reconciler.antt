-- ===== src/Appliance/Lifecycle/Reconciler.antt =====
-- internal/appliance/lifecycle.go: following the host journal.
use loxilb_oam.Prelude.{
  Bool, ◌&&◌, ◌||◌, not, List, [], ◌∷◌, map, Bytes, Result, ok, err, ◌==◌, is_some, ◌=ℕ◌, take,
  sort_by, bytes_leb, if◌then◌else◌,
}
use loxilb_oam.Appliance.Contract.{code_host_job_lost, origin_oam}
use loxilb_oam.Appliance.Operation.{OperationState, Operation, terminal, ◌is◌}
use loxilb_oam.Appliance.Host.{HostError, job_not_found, HostJob, job_result}
use loxilb_oam.Appliance.Store.Row.{Row, AuditEvent}
use loxilb_oam.Appliance.Store.World.{job_call, M, pure, ◌>>=◌, ◌>>◌}
use loxilb_oam.Appliance.Store.Statements.{query, scan_operation}
use loxilb_oam.Appliance.Caller.{Caller}
use loxilb_oam.Appliance.Lifecycle.Journal.{
  load, reload, ask_host, apply_job, finish_without_host, mark_unreachable,
}
use loxilb_oam.Appliance.Lifecycle.Submission.{deliver}

-- The journal has no entry for the operation.
unfoldable pub not_in_journal : Operation → M (Unit {0})
not_in_journal op =
    if op.host_generation =ℕ 0
    then deliver op.id
    else if not (op.state is OperationState.recovery_required)
        || not (op.error_code == code_host_job_lost)
    then finish_without_host op OperationState.recovery_required code_host_job_lost origin_oam
        AuditEvent.reconcile
    else pure tt

abbrev pub follow_journal : Operation → Result HostError HostJob → M (Unit {0})
follow_journal op (ok job) = apply_job op job
follow_journal op (err job_not_found) = not_in_journal op
follow_journal op (err _) = mark_unreachable op

-- reconcile, of one operation as it was read
unfoldable pub reconcile_operation : Operation → M (Unit {0})
reconcile_operation op =
    if not (is_some op.submitted_at) || terminal op.state
    then pure tt
    else do answer ← ask_host (job_call op.id) (job_result op.id); follow_journal op answer

-- Reconcile
unfoldable pub reconcile : Caller → Bytes → M Operation
reconcile caller id = do op ← load caller id; reconcile_operation op; reload op.id

-- The operations that ReconcileActive reads: submitted, not finished, the first fifty by ID.
abbrev pub in_flight : Row → Bool
in_flight r =
    is_some r.submitted_at
    && (r.state is OperationState.queued
        || r.state is OperationState.running
        || r.state is OperationState.verifying
        || r.state is OperationState.compensating
        || r.state is OperationState.recovery_required)

abbrev pub keep_rows {ℓ} : {A : Type ℓ} → (A → Bool) → List A → List A
keep_rows sel [] = []
keep_rows sel (r ∷ rs) = let rest = keep_rows sel rs in if sel r then r ∷ rest else rest

unfoldable pub reconcile_all : List Operation → M (Unit {0})
reconcile_all [] = pure tt
reconcile_all (op ∷ ops) = do reconcile_operation op; reconcile_all ops

unfoldable pub reconcile_read : M (Unit {0})
reconcile_read = do
  rows ←
      query
        λ now db. take 50 (sort_by (λ r q. bytes_leb r.id q.id) (keep_rows in_flight db.operations))
  reconcile_all (map scan_operation rows)

-- ReconcileActive
unfoldable pub reconcile_active : M (Unit {0})
reconcile_active w = if not w.configured then (ok tt, w) else reconcile_read w
