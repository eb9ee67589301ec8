-- ===== src/Appliance/Evolution/Following.antt =====
-- The guarantee of reconciling and cancelling an operation.
use loxilb_oam.Prelude.{
  ℕ, ◌≡◌, Bool, true, false, ◌&&◌, ◌||◌, not, Option, none, some, is_some, List, [], ◌∷◌, Bytes,
  ◌==◌, Result, ok, err, arith, Bool-cases, inl, inr, ◌=ℕ◌, if◌then◌else◌,
}
use loxilb_oam.Appliance.Contract.{code_cancelled_by_user, origin_oam}
use loxilb_oam.Appliance.Operation.{OperationState, Operation, terminal, ◌is◌}
use loxilb_oam.Appliance.Host.{HostError, rejected, job_not_found, HostJob}
use loxilb_oam.Appliance.Store.Row.{Row}
use loxilb_oam.Appliance.Store.World.{World}
use loxilb_oam.Appliance.Store.Statements.{touch}
use loxilb_oam.Appliance.Caller.{Caller}
use loxilb_oam.Appliance.Planning.{is_open}
use loxilb_oam.Appliance.Lifecycle.Submission.{undelivered, if_undelivered}
use loxilb_oam.Appliance.Lifecycle.Reconciler
use loxilb_oam.Appliance.Lifecycle.Reconciler.{
  not_in_journal, follow_journal, reconcile_operation, reconcile_all, reconcile_read,
  reconcile_active,
}
use loxilb_oam.Appliance.Lifecycle.Cancellation
use loxilb_oam.Appliance.Lifecycle.Cancellation.{
  cancel_answer, cancel_found, cancel_undelivered, cancel_open, submitted_answer, cancel_submitted,
  cancel_loaded,
}
use loxilb_oam.Appliance.Evolution.{Legal, Evolves, Evolves-refl, Fair, Guarded}
use loxilb_oam.Appliance.Evolution.Rules.{
  Guarded-pure, Guarded-raise, Guarded-if, Guarded-refuse_if, Guarded-bind, Guarded-transaction,
}
use loxilb_oam.Appliance.Evolution.Statements.{
  Guarded-query, Guarded-bind_query, Guarded-exec_operations, Guarded-audit,
}
use loxilb_oam.Appliance.Evolution.Journal.{
  guards, load-Guarded, reload-Guarded, ask_host-Guarded, apply_job-Guarded, finish-Guarded,
  mark_unreachable-Guarded,
}
use loxilb_oam.Appliance.Evolution.Submission.{queued_running, deliver-Guarded}

not_in_journal-Guarded : (op : Operation) → terminal op.state ≡ false → Guarded (not_in_journal op)
unfolding not_in_journal
not_in_journal-Guarded op h =
    Guarded-if _ _ _ (deliver-Guarded op.id)
      (Guarded-if _ _ _ (finish-Guarded op _ _ _ _ h) (Guarded-pure tt))

follow_journal-Guarded :
    (op : Operation) (r : Result HostError HostJob)
    → terminal op.state ≡ false
    → Guarded (follow_journal op r)
follow_journal-Guarded op (ok job) h = apply_job-Guarded op job
follow_journal-Guarded op (err job_not_found) h = not_in_journal-Guarded op h
follow_journal-Guarded op (err _) h = mark_unreachable-Guarded op

reconcile_operation-Guarded : (op : Operation) → Guarded (reconcile_operation op)
unfolding reconcile_operation
reconcile_operation-Guarded op =
    elim (Bool-cases (not (is_some op.submitted_at) || terminal op.state)) [
      | inl e ↦ rw e (Guarded-pure tt)
      | inr e ↦ rw e (
          Guarded-bind _ _ (ask_host-Guarded _ _) (λ r. follow_journal-Guarded op r (ground arith)))
    ]

pub reconcile-Guarded : (c : Caller) (id : Bytes) → Guarded (Reconciler.reconcile c id)
unfolding Reconciler.reconcile
reconcile-Guarded c id =
    search (guards, load-Guarded, reconcile_operation-Guarded, reload-Guarded) depth 12

reconcile_all-Guarded : (ops : List Operation) → Guarded (reconcile_all ops)
unfolding reconcile_all
reconcile_all-Guarded [] = Guarded-pure tt
reconcile_all-Guarded (op ∷ ops) =
    Guarded-bind _ _ (reconcile_operation-Guarded op) (λ u. reconcile_all-Guarded ops)

reconcile_read-Guarded : Guarded reconcile_read
unfolding reconcile_read
reconcile_read-Guarded = Guarded-bind _ _ (Guarded-query _) (λ rows. reconcile_all-Guarded _)

unless_configured :
    (b : Bool) (w : World)
    → Fair w.turns
    → Evolves w.db (if not b then (ok tt, w) else reconcile_read w).1.db
      × Fair (if not b then (ok tt, w) else reconcile_read w).1.turns
unless_configured true w f = (reconcile_read-Guarded.evolves w f, reconcile_read-Guarded.fair w f)
unless_configured false w f = (Evolves-refl w.db, f)

pub reconcile_active-Guarded : Guarded reconcile_active
unfolding reconcile_active
reconcile_active-Guarded = record {
  evolves = λ w f. (unless_configured w.configured w f).0;
  fair = λ w f. (unless_configured w.configured w f).1;
}

cancel-Legal :
    (op : Operation) (now : ℕ) (r : Row)
    → (r.id == op.id && is_open r.state) ≡ true
    → Legal r (
        touch now (record r {
          state = OperationState.cancelled;
          error_code = code_cancelled_by_user;
          error_origin = origin_oam;
          finished_at = some now;
        }))
unfolding terminal
cancel-Legal op now r h = ground arith

cancel_answer-Guarded :
    (op : Operation) (r : Result HostError HostJob)
    → terminal op.state ≡ false
    → Guarded (cancel_answer op r)
cancel_answer-Guarded op (ok job) h = apply_job-Guarded op job
cancel_answer-Guarded op (err job_not_found) h = finish-Guarded op _ _ _ _ h
cancel_answer-Guarded op (err (rejected x)) h = Guarded-raise _
cancel_answer-Guarded op (err _) h = Guarded-raise _

cancel_found-Guarded : (o : Option Operation) → Guarded (cancel_found (if_undelivered o))
cancel_found-Guarded none = Guarded-raise _
cancel_found-Guarded (some op) = elim (Bool-cases (op.state is OperationState.queued)) [
  | inr n ↦ rw n (Guarded-raise _)
  | inl q ↦ elim (Bool-cases (op.host_generation =ℕ 0)) [
    | inr n ↦ rw (q, n) (Guarded-raise _)
    | inl z ↦
        rw (q, z)
          (Guarded-bind _ _ (ask_host-Guarded _ _)
            (λ r. cancel_answer-Guarded op r (queued_running op.state q)))
  ]
]

cancel_undelivered-Guarded : (id : Bytes) → Guarded (cancel_undelivered id)
unfolding cancel_undelivered undelivered
cancel_undelivered-Guarded id =
    Guarded-transaction _ (Guarded-bind_query _ _ (λ now d. cancel_found-Guarded _))

cancel_open-Guarded : (c : Caller) (op : Operation) → Guarded (cancel_open c op)
unfolding cancel_open
cancel_open-Guarded c op = Guarded-bind _ _ (Guarded-exec_operations _ _ (cancel-Legal op)) λ n.
    Guarded-bind _ _ (Guarded-refuse_if _ _)
      λ u. Guarded-bind _ _ (Guarded-audit _) (λ v. reload-Guarded op.id)

submitted_answer-Guarded :
    (op : Operation) (r : Result HostError HostJob) → Guarded (submitted_answer op r)
submitted_answer-Guarded op (ok job) = apply_job-Guarded op job
submitted_answer-Guarded op (err (rejected x)) = Guarded-raise _
submitted_answer-Guarded op (err job_not_found) =
    Guarded-if _ _ _ (cancel_undelivered-Guarded op.id) (Guarded-raise _)
submitted_answer-Guarded op (err _) = Guarded-raise _

pub cancel-Guarded : (c : Caller) (id : Bytes) → Guarded (Cancellation.cancel c id)
unfolding Cancellation.cancel cancel_loaded cancel_submitted
cancel-Guarded c id = Guarded-bind _ _ (load-Guarded c id) λ op.
    Guarded-if _ _ _ (Guarded-pure op) (
      Guarded-if _ _ _ (Guarded-raise _) (
        Guarded-if _ _ _ (cancel_open-Guarded c op) (
          Guarded-bind _ _ (Guarded-audit _) λ u.
            Guarded-bind _ _ (ask_host-Guarded _ _)
              λ r. Guarded-bind _ _ (submitted_answer-Guarded op r) λ v. reload-Guarded op.id)))
