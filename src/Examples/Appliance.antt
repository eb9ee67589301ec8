-- ===== src/Examples/Appliance.antt =====
-- Submitting, following, planning again and reading a restore (internal/appliance).
use loxilb_oam.Prelude.{
  ℕ, ◌≡◌, ◌≢◌, ◌≤◌, ◌⊎◌, refl, true, false, none, some, List, [], ◌∷◌, map, bytes, ◌==◌,
  Bytes-discrete, ok, err, arith, ltb, if◌then◌else◌,
}
use loxilb_oam.Appliance.Contract.{destructive}
use loxilb_oam.Appliance.Operation.{OperationState, OperationState-discrete, action, valid_type}
use loxilb_oam.Appliance.Request.{validate, valid_idempotency_key, valid_operation_id}
use loxilb_oam.Appliance.Host.{HostJob}
use loxilb_oam.Appliance.Store.Row.{has_conflict, update_rows, find_row, count_rows}
use loxilb_oam.Appliance.Store.World.{
  World, Error, challenge_mismatch, idempotency_key_reused, statement, transaction, job_call,
}
use loxilb_oam.Appliance.Store.Statements.{
  scan_operation, query, exec_operations, exec_challenges, write_audit, touch, operation_by_id,
}
use loxilb_oam.Appliance.Caller.{request_hash}
use loxilb_oam.Appliance.Planning.{expire_plans, plan_operation, get_operation, visible_to}
use loxilb_oam.Appliance.Planning.Replay.{
  Plannable, has_key, plan_operation-replay, get_operation-redacted,
}
use loxilb_oam.Appliance.Lifecycle.Journal.{apply_job}
use loxilb_oam.Appliance.Lifecycle.Journal.Latest.{
  shown, entry_shown, absorb_all, absorb_all-latest,
}
use loxilb_oam.Appliance.Lifecycle.Submission.Atomic.{submit_tx-atomic}
use loxilb_oam.Appliance.Lifecycle.Journal.Tables.{rows_shown, moved, told, apply_job-told}
use loxilb_oam.Appliance.Lifecycle.Authorization.{is_usable, after_use, consume_challenge}
use loxilb_oam.Appliance.Lifecycle.Authorization.OneUse.{consume_challenge-once}
use loxilb_oam.Appliance.Lifecycle.Submission.{consume_if_destructive, submit_tx, deliver}
use loxilb_oam.Appliance.Lifecycle.Submission.Once.{is_due, queue, submit_tx-authorized}
use loxilb_oam.Appliance.Lifecycle.Reconciler.{reconcile_operation}
use loxilb_oam.Appliance.HostCalls.{Asked, Asking}
use loxilb_oam.Appliance.HostCalls.Discipline.{reconcile_operation-Asking}
use loxilb_oam.Appliance.HostCalls.Delivery.{Delivery, deliver-Asked}
use loxilb_oam.Appliance.Evolution.{Evolves}
use loxilb_oam.Appliance.Evolution.Calls.{Call, serve, serve-Evolves}
use loxilb_oam.Examples.Data.{
  plain, admin, viewer, id, key, restore_request, waiting, running, ticket, world, in_tx, reader,
}

abbrev first : World
first = in_tx (world waiting (ticket ∷ []))

used_once :
    (consume_challenge plain (scan_operation waiting) admin (bytes "secret") first).0 ≡ ok tt
unfolding consume_challenge exec_challenges statement count_rows update_rows after_use
    scan_operation Bytes-discrete
used_once = refl

abbrev second : World
second = in_tx (consume_challenge plain (scan_operation waiting) admin (bytes "secret") first).1

not_earlier : (statement first).1.now ≤ second.now
unfolding consume_challenge exec_challenges statement after_use count_rows scan_operation
    Bytes-discrete
not_earlier = omega arith

consume_challenge-once_example :
    (consume_challenge plain (scan_operation waiting) admin (bytes "secret") second).0 ≢ ok tt
consume_challenge-once_example =
    consume_challenge-once plain (scan_operation waiting) admin (bytes "secret") first second
      used_once refl refl not_earlier

submitted : (submit_tx plain admin (scan_operation waiting) (bytes "secret") first).0 ≡ ok tt
unfolding submit_tx consume_if_destructive destructive action consume_challenge exec_challenges
    exec_operations write_audit statement count_rows update_rows has_conflict after_use
    scan_operation Bytes-discrete OperationState-discrete
submitted = refl

submit_tx-authorized_example :
    let op = scan_operation waiting in
    (count_rows (is_usable plain op admin (bytes "secret") first.now) first.db.challenges ≡ 1)
    × (count_rows (is_due op first.now) first.db.operations ≡ 1)
    × ((submit_tx plain admin op (bytes "secret") first).1.db.operations
        ≡ update_rows
            (is_due op first.now)
            (λ r. touch first.now (queue first.now r))
            first.db.operations)
unfolding scan_operation destructive action
submit_tx-authorized_example =
    submit_tx-authorized plain admin (scan_operation waiting) (bytes "secret") first refl refl
      submitted

-- With no challenge.
abbrev bare : World
bare = world waiting []

refused :
    (transaction (submit_tx plain admin (scan_operation waiting) (bytes "secret")) bare).0
    ≡ err challenge_mismatch
unfolding transaction submit_tx consume_if_destructive destructive action consume_challenge
    exec_challenges statement count_rows update_rows after_use query find_row scan_operation
    Bytes-discrete
refused = refl

-- With the challenge that it was authorized with.
abbrev ready : World
ready = world waiting (ticket ∷ [])

submit_tx-atomic_example :
    let b : World = (statement ready).1 in
    let r = transaction (submit_tx plain admin (scan_operation waiting) (bytes "secret")) ready in
    ((r.0 ≡ ok tt)
      × (count_rows
            (is_usable plain (scan_operation waiting) admin (bytes "secret") b.now)
            b.db.challenges
          ≡ 1)
      × (r.1.db.challenges
          ≡ update_rows
              (is_usable plain (scan_operation waiting) admin (bytes "secret") b.now)
              (λ c. record c { consumed_at = some b.now })
              b.db.challenges)
      × (count_rows (is_due (scan_operation waiting) b.now) b.db.operations ≡ 1)
      × (r.1.db.operations
          ≡ update_rows
              (is_due (scan_operation waiting) b.now)
              (λ r. touch b.now (queue b.now r))
              b.db.operations))
    ⊎ ((e : Error) × (r.0 ≡ err e) × (r.1.db ≡ b.db))
unfolding scan_operation destructive action
submit_tx-atomic_example =
    submit_tx-atomic plain admin (scan_operation waiting) (bytes "secret") ready refl

-- The journal of the restore.
abbrev journal : ℕ → HostJob
journal g = record {
  operation_id = id;
  state = if ltb g 5 then OperationState.running else OperationState.succeeded;
  phase = bytes "apply";
  generation = g;
  cancellable = true;
  error_code = [];
}

-- The sixth entry, then a late fourth one, and the sixth once more.
absorb_all-latest_example :
    shown (absorb_all id journal ((6, 300) ∷ (4, 310) ∷ (6, 320) ∷ []) running)
    ≡ (if ltb 3 6 then entry_shown (journal 6) else shown running)
absorb_all-latest_example =
    absorb_all-latest id journal (λ g. refl) ((6, 300) ∷ (4, 310) ∷ (6, 320) ∷ []) running refl

apply_job-told_example :
    rows_shown (apply_job (scan_operation running) (journal 6) (world running [])).1 ≡ (
      if has_conflict (map (moved id (journal 6)) (running ∷ []))
      then rows_shown (world running [])
      else map (told id (journal 6)) (running ∷ []))
unfolding scan_operation
apply_job-told_example =
    apply_job-told (scan_operation running) (journal 6) (world running []) (refl, refl, refl)

reported : (scan_operation running).host_generation ≢ 0
unfolding scan_operation
reported = λ p. omega arith

reconcile_operation-Asking_example :
    Asking
      (λ call. call ≡ job_call (scan_operation running).id)
      (reconcile_operation (scan_operation running))
reconcile_operation-Asking_example = reconcile_operation-Asking (scan_operation running) reported

-- A row that was handed over and may not have arrived.
abbrev handed_over : World
handed_over = world (record waiting { state = OperationState.queued; submitted_at = some 150 }) []

deliver-Asked_example :
    Asked (Delivery id (statement handed_over).1.db.operations) [] (deliver id handed_over).1.calls
deliver-Asked_example = deliver-Asked id handed_over

read_by_viewer :
    (get_operation viewer id reader).0 ≡ ok (visible_to (scan_operation waiting) viewer)
unfolding get_operation valid_operation_id expire_plans exec_operations statement has_conflict
    update_rows count_rows operation_by_id query find_row Bytes-discrete OperationState-discrete
read_by_viewer = refl

get_operation-redacted_example :
    let op = visible_to (scan_operation waiting) viewer in
    (op.plan_hash ≡ []) × (op.plan ≡ none) × (op.note ≡ []) × (op.redacted ≡ true)
get_operation-redacted_example =
    get_operation-redacted viewer id reader (visible_to (scan_operation waiting) viewer)
      read_by_viewer refl

acceptable : Plannable admin key restore_request
unfolding validate valid_idempotency_key Bytes-discrete valid_type
acceptable = record { key_ok = refl; schema_ok = refl; request_ok = refl; permitted = refl }

no_fault : (expire_plans reader).0 ≡ ok tt
unfolding expire_plans exec_operations statement has_conflict update_rows count_rows
no_fault = refl

waiting_found : find_row (has_key admin key) (expire_plans reader).1.db.operations ≡ some waiting
unfolding expire_plans exec_operations statement has_conflict update_rows count_rows find_row
    Bytes-discrete OperationState-discrete
waiting_found = refl

plan_operation-replay_example :
    plan_operation plain none admin key (bytes "r2") restore_request reader ≡ (
      if waiting.request_hash == request_hash plain restore_request
          then ok (scan_operation waiting, false)
          else err idempotency_key_reused,
      (expire_plans reader).1,
    )
plan_operation-replay_example =
    plan_operation-replay plain none admin key (bytes "r2") restore_request reader waiting
      (refl, refl, refl) acceptable no_fault waiting_found

-- The restore is submitted, followed by a round of the reconciler, and an attempt to cancel it.
abbrev requests : List Call
requests =
    Call.submit admin id (bytes "p1") (bytes "secret")
    ∷ Call.reconcile_round
    ∷ Call.cancel admin id
    ∷ []

serve-Evolves_example : Evolves first.db (serve plain requests (world waiting (ticket ∷ []))).db
serve-Evolves_example = serve-Evolves plain requests (world waiting (ticket ∷ [])) tt
