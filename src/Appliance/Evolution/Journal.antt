-- ===== src/Appliance/Evolution/Journal.antt =====
-- The guarantee of following the host journal, and of what Journal of Lifecycle offers the rest.
use loxilb_oam.Prelude.{ℕ, ◌≡◌, true, false, ◌&&◌, Option, none, some, Bytes, ◌==◌, Result, arith}
use loxilb_oam.Appliance.Operation.{OperationState, Operation, terminal, ◌is◌}
use loxilb_oam.Appliance.Host.{HostError, HostJob, Response}
use loxilb_oam.Appliance.Store.Row.{Row, AuditEvent}
use loxilb_oam.Appliance.Store.World.{HostCall}
use loxilb_oam.Appliance.Store.Statements.{touch, operation_by_id, operation_by_key}
use loxilb_oam.Appliance.Caller.{Caller}
use loxilb_oam.Appliance.Planning.{expire_plans, is_expired, expire, found_or_missing}
use loxilb_oam.Appliance.Lifecycle.Journal.{
  blocking_operation, raise_conflict, load, reload, ask_host, follow, is_newer, clear_stale,
  after_follow, apply_job, decide_state, after_decision, finish_without_host, mark_unreachable,
}
use loxilb_oam.Appliance.Evolution.{Legal, Guarded}
use loxilb_oam.Appliance.Evolution.Rules.{
  Guarded-same, Guarded-pure, Guarded-raise, Guarded-ignore, Guarded-if, Guarded-refuse_if,
  Guarded-bind, Guarded-transaction,
}
use loxilb_oam.Appliance.Evolution.Statements.{
  Guarded-query, Guarded-bind_query, Guarded-exec_operations, Guarded-exec_challenges,
  Guarded-delete_challenges, Guarded-insert_challenge, Guarded-insert_operation,
  Guarded-write_audit, Guarded-audit,
}

pub ruleset guards = (
  Guarded-pure, Guarded-raise, Guarded-ignore, Guarded-if, Guarded-refuse_if, Guarded-bind,
  Guarded-transaction, Guarded-query, Guarded-write_audit, Guarded-audit,
)

pub expire_plans-Guarded : Guarded expire_plans
unfolding expire_plans
expire_plans-Guarded =
    Guarded-bind _ _
      (Guarded-exec_operations is_expired expire (λ now r h. unfold terminal in ground arith))
      (λ n. Guarded-pure tt)

pub operation_by_id-Guarded : (id : Bytes) → Guarded (operation_by_id id)
unfolding operation_by_id
operation_by_id-Guarded id = Guarded-query _

pub operation_by_key-Guarded : (user : ℕ) (key : Bytes) → Guarded (operation_by_key user key)
unfolding operation_by_key
operation_by_key-Guarded user key = Guarded-query _

pub found_or_missing-Guarded : (o : Option Operation) → Guarded (found_or_missing o)
found_or_missing-Guarded none = Guarded-raise _
found_or_missing-Guarded (some op) = Guarded-pure op

pub load-Guarded : (c : Caller) (id : Bytes) → Guarded (load c id)
unfolding load
load-Guarded c id =
    search (guards, expire_plans-Guarded, operation_by_id-Guarded, found_or_missing-Guarded) depth
      14

pub reload-Guarded : (id : Bytes) → Guarded (reload id)
unfolding reload
reload-Guarded id = search (guards, operation_by_id-Guarded, found_or_missing-Guarded) depth 14

blocking-Guarded : (i x : Bytes) → Guarded (blocking_operation i x)
unfolding blocking_operation
blocking-Guarded i x = search guards depth 12

pub raise_conflict-Guarded {ℓ} : {A : Type ℓ} (op : Operation) → Guarded (raise_conflict {A = A} op)
unfolding raise_conflict
raise_conflict-Guarded op = Guarded-bind _ _ (blocking-Guarded _ _) (λ b. Guarded-raise _)

pub ask_host-Guarded :
    (call : HostCall) (read : Response HostJob → Result HostError HostJob)
    → Guarded (ask_host call read)
unfolding ask_host
ask_host-Guarded call read = Guarded-same _ (λ w. ground arith) (λ w. ground arith)

clear_stale-Guarded : (id : Bytes) → Guarded (clear_stale id)
clear_stale-Guarded id = Guarded-ignore _ (Guarded-exec_operations _ _ (λ now r h. ground arith))

after_follow-Guarded : (op : Operation) (job : HostJob) (n : ℕ) → Guarded (after_follow op job n)
unfolding after_follow
after_follow-Guarded op job n = search (guards, clear_stale-Guarded) depth 8

follow-Legal :
    (id : Bytes) (job : HostJob) (now : ℕ) (r : Row)
    → is_newer id job now r ≡ true
    → Legal r (touch now (follow job now r))
unfolding follow
follow-Legal id job now r h = ground arith

pub apply_job-Guarded : (op : Operation) (job : HostJob) → Guarded (apply_job op job)
unfolding apply_job
apply_job-Guarded op job = Guarded-ignore _ (
    Guarded-bind _ _
      (Guarded-exec_operations (is_newer op.id job) (follow job) (follow-Legal op.id job))
      (after_follow-Guarded op job))

decide-Legal :
    (op : Operation) (s : OperationState) (code origin : Bytes)
    → terminal op.state ≡ false
    → (now : ℕ) (r : Row) → (r.id == op.id && r.state is op.state) ≡ true
    → Legal r (touch now (decide_state s code origin now r))
unfolding decide_state
decide-Legal op s code origin running now r h = ground arith

after_decision-Guarded :
    (op : Operation) (s : OperationState) (code origin : Bytes) (e : AuditEvent) (n : ℕ)
    → Guarded (after_decision op s code origin e n)
unfolding after_decision
after_decision-Guarded op s code origin e n = search guards depth 8

pub finish-Guarded :
    (op : Operation) (s : OperationState) (code origin : Bytes) (e : AuditEvent)
    → terminal op.state ≡ false
    → Guarded (finish_without_host op s code origin e)
unfolding finish_without_host
finish-Guarded op s code origin e running = Guarded-ignore _ (
    Guarded-bind _ _
      (Guarded-exec_operations (λ now r. r.id == op.id && r.state is op.state)
        (decide_state s code origin) (decide-Legal op s code origin running))
      (after_decision-Guarded op s code origin e))

pub mark_unreachable-Guarded : (op : Operation) → Guarded (mark_unreachable op)
unfolding mark_unreachable
mark_unreachable-Guarded op =
    Guarded-if _ _ _ (Guarded-pure tt)
      (Guarded-ignore _ (Guarded-exec_operations _ _ (λ now r h. ground arith)))
