-- ===== src/Appliance/HostCalls/Discipline.antt =====
-- Which calls each operation of internal/appliance makes to the host adapter.
use loxilb_oam.Prelude.{
  ℕ, ◌≡◌, ◌≢◌, refl, Bool, true, false, Option, none, some, List, [], ◌∷◌, Bytes, Result, ok, err,
  arith, Bool-cases, inl, inr, ◌=ℕ◌, if◌then◌else◌,
}
use loxilb_oam.Appliance.Operation.{OperationState, Operation}
use loxilb_oam.Appliance.Host.{HostError, HostJob, rejected, job_not_found, Response}
use loxilb_oam.Appliance.Store.Row.{AuditEvent}
use loxilb_oam.Appliance.Store.World.{HostCall, job_call, submit_call, World}
use loxilb_oam.Appliance.Store.Statements.{operation_by_id}
use loxilb_oam.Appliance.Caller.{Caller}
use loxilb_oam.Appliance.Planning.{expire_plans, found_or_missing, get_operation}
use loxilb_oam.Appliance.Lifecycle.Journal.{
  load, reload, ask_host, clear_stale, after_follow, apply_job, after_decision, finish_without_host,
  mark_unreachable,
}
use loxilb_oam.Appliance.Lifecycle.Submission.{
  job_request, record_submission, submit_to_host, deliver_found,
}
use loxilb_oam.Appliance.Lifecycle.Reconciler.{not_in_journal, follow_journal, reconcile_operation}
use loxilb_oam.Appliance.HostCalls.{
  Asked, Asking, Asking-pure, Asking-raise, Asking-ignore, Asking-if, Asking-refuse_if, Asking-bind,
  Asking-query, Asking-exec_operations, Asking-audit,
}

ruleset asking = (
  Asking-pure, Asking-raise, Asking-ignore, Asking-if, Asking-refuse_if, Asking-bind, Asking-query,
  Asking-exec_operations, Asking-audit,
)

module _ (P : HostCall → Type 0) where
  expire_plans-Asking : Asking P expire_plans
  unfolding expire_plans
  expire_plans-Asking = search asking depth 8

  operation_by_id-Asking : (id : Bytes) → Asking P (operation_by_id id)
  unfolding operation_by_id
  operation_by_id-Asking id = Asking-query P _

  found_or_missing-Asking : (o : Option Operation) → Asking P (found_or_missing o)
  found_or_missing-Asking none = Asking-raise P _
  found_or_missing-Asking (some op) = Asking-pure P op

  ask_host-calls :
      (call : HostCall) (read : Response HostJob → Result HostError HostJob) (w : World)
      → (ask_host call read w).1.calls ≡ (if w.configured then call ∷ w.calls else w.calls)
  unfolding ask_host
  ask_host-calls call read w = ground arith

  Asked-if :
      (call : HostCall) (b : Bool) (cs : List HostCall)
      → P call
      → Asked P cs (if b then call ∷ cs else cs)
  Asked-if call true cs p = (call ∷ [], refl, (p, tt))
  Asked-if call false cs p = ([], refl, tt)

  ask_host-Asking :
      (call : HostCall) (read : Response HostJob → Result HostError HostJob)
      → P call
      → Asking P (ask_host call read)
  ask_host-Asking call read p = record {
    asks = λ w. rw (ask_host-calls call read w) (Asked-if call w.configured w.calls p);
  }

  clear_stale-Asking : (id : Bytes) → Asking P (clear_stale id)
  clear_stale-Asking id = search asking depth 8

  after_follow-Asking : (op : Operation) (job : HostJob) (n : ℕ) → Asking P (after_follow op job n)
  unfolding after_follow
  after_follow-Asking op job n = search (asking, clear_stale-Asking) depth 8

  apply_job-Asking : (op : Operation) (job : HostJob) → Asking P (apply_job op job)
  unfolding apply_job
  apply_job-Asking op job = search (asking, after_follow-Asking) depth 8

  after_decision-Asking :
      (op : Operation) (s : OperationState) (code origin : Bytes) (e : AuditEvent) (n : ℕ)
      → Asking P (after_decision op s code origin e n)
  unfolding after_decision
  after_decision-Asking op s code origin e n = search asking depth 8

  finish-Asking :
      (op : Operation) (s : OperationState) (code origin : Bytes) (e : AuditEvent)
      → Asking P (finish_without_host op s code origin e)
  unfolding finish_without_host
  finish-Asking op s code origin e = search (asking, after_decision-Asking) depth 8

  mark_unreachable-Asking : (op : Operation) → Asking P (mark_unreachable op)
  unfolding mark_unreachable
  mark_unreachable-Asking op = search asking depth 8

  record_submission-Asking :
      (op : Operation) (r : Result HostError HostJob) → Asking P (record_submission op r)
  record_submission-Asking op (ok job) = apply_job-Asking op job
  record_submission-Asking op (err (rejected x)) = finish-Asking op _ _ _ _
  record_submission-Asking op (err _) = mark_unreachable-Asking op

  submit_to_host-Asking :
      (op : Operation) → P (submit_call (job_request op)) → Asking P (submit_to_host op)
  unfolding submit_to_host
  submit_to_host-Asking op p =
      Asking-bind P _ _ (ask_host-Asking _ _ p) (record_submission-Asking op)

  pub deliver_found-Asking :
      (o : Option Operation)
      → ((op : Operation) → o ≡ some op → P (submit_call (job_request op)))
      → Asking P (deliver_found o)
  deliver_found-Asking none h = Asking-pure P tt
  deliver_found-Asking (some op) h = submit_to_host-Asking op (h op refl)

  load-Asking : (c : Caller) (id : Bytes) → Asking P (load c id)
  unfolding load
  load-Asking c id =
      search (asking, expire_plans-Asking, operation_by_id-Asking, found_or_missing-Asking) depth 14

  reload-Asking : (id : Bytes) → Asking P (reload id)
  unfolding reload
  reload-Asking id = search (asking, operation_by_id-Asking, found_or_missing-Asking) depth 14

not_in_journal-Asking :
    (P : HostCall → Type 0) (op : Operation) → op.host_generation ≢ 0 → Asking P (not_in_journal op)
unfolding not_in_journal
not_in_journal-Asking P op h = elim (Bool-cases (op.host_generation =ℕ 0)) [
  | inl e ↦ absurd (h (ground arith))
  | inr e ↦ rw e (Asking-if P _ _ _ (finish-Asking P op _ _ _ _) (Asking-pure P tt))
]

follow_journal-Asking :
    (P : HostCall → Type 0) (op : Operation) (r : Result HostError HostJob)
    → op.host_generation ≢ 0
    → Asking P (follow_journal op r)
follow_journal-Asking P op (ok job) h = apply_job-Asking P op job
follow_journal-Asking P op (err job_not_found) h = not_in_journal-Asking P op h
follow_journal-Asking P op (err _) h = mark_unreachable-Asking P op

-- An operation that the host has reported on (its generation is not 0) is never handed over again:
-- whatever the adapter answers, reconciling it only asks for its job.
pub reconcile_operation-Asking :
    (op : Operation)
    → op.host_generation ≢ 0
    → Asking (λ call. call ≡ job_call op.id) (reconcile_operation op)
unfolding reconcile_operation
reconcile_operation-Asking op h =
    let P : HostCall → Type 0 = λ call. call ≡ job_call op.id in
    Asking-if P _ _ _ (Asking-pure P tt)
      (Asking-bind P _ _ (ask_host-Asking P _ _ refl) (λ r. follow_journal-Asking P op r h))

-- Reading an operation never asks the host adapter anything.
get_operation-Asking : (c : Caller) (id : Bytes) → Asking (λ call. ⊥) (get_operation c id)
unfolding get_operation
get_operation-Asking c id =
    let P : HostCall → Type 0 = λ call. ⊥ in
    search (asking, expire_plans-Asking, operation_by_id-Asking, found_or_missing-Asking) depth 14
