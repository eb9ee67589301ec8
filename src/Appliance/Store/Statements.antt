-- ===== src/Appliance/Store/Statements.antt =====
-- The statements: queries, updates with the constraints checked, and inserts.
use loxilb_oam.Prelude.{
  ℕ, Bool, true, false, ◌&&◌, ◌||◌, Option, some, List, [], ◌∷◌, ◌++◌, Bytes, ◌==◌, ok, err, any,
  ◌=ℕ◌, if◌then◌else◌,
}
use mathlib.Core.Option
use loxilb_oam.Appliance.Contract.{destructive}
use loxilb_oam.Appliance.Operation.{
  OperationState, Operation, Reconciliation, host_unreachable, action, ◌is◌,
}
use loxilb_oam.Appliance.Store.Row.{
  Row, ChallengeRow, AuditRow, Db, has_conflict, update_rows, count_rows, find_row,
}
use loxilb_oam.Appliance.Store.World.{
  Error, active_conflict, database, M, after_failure, statement, ◌>>◌, ignore,
}

unfoldable pub query {ℓ} : {A : Type ℓ} → (ℕ → Db → A) → M A
query f = do statement; λ w. (ok (f w.now w.db), w)

-- A statement that violates a constraint changes nothing.
abbrev pub violation {ℓ} : {A : Type ℓ} → Error → M A
violation e w = (err e, record w { connection = after_failure w.connection })

-- The trigger trg_appliance_operations_updated_at.
abbrev pub touch : ℕ → Row → Row
touch now r = record r { updated_at = now }

abbrev pub write_operations : (ℕ → Row → Bool) → (ℕ → Row → Row) → M ℕ
write_operations sel f w =
    let rows = update_rows (sel w.now) (λ r. touch w.now (f w.now r)) w.db.operations in
    if has_conflict rows then violation active_conflict w else (
      ok (count_rows (sel w.now) w.db.operations),
      record w { db = record w.db { operations = rows } },
    )

-- UPDATE appliance_operations; the result is the number of rows affected.
unfoldable pub exec_operations : (ℕ → Row → Bool) → (ℕ → Row → Row) → M ℕ
exec_operations sel f = do statement; write_operations sel f

-- UPDATE appliance_challenges
unfoldable pub exec_challenges : (ℕ → ChallengeRow → Bool) → (ℕ → ChallengeRow → ChallengeRow) → M ℕ
exec_challenges sel f = do
  statement
  λ w. (
    ok (count_rows (sel w.now) w.db.challenges),
    record w {
      db = record w.db { challenges = update_rows (sel w.now) (f w.now) w.db.challenges };
    },
  )

abbrev pub remove_rows {ℓ} : {A : Type ℓ} → (A → Bool) → List A → List A
remove_rows sel [] = []
remove_rows sel (r ∷ rs) = let rest = remove_rows sel rs in if sel r then rest else r ∷ rest

-- DELETE FROM appliance_challenges
unfoldable pub delete_challenges : (ChallengeRow → Bool) → M (Unit {0})
delete_challenges sel = do
  statement
  λ w. (ok tt, record w { db = record w.db { challenges = remove_rows sel w.db.challenges } })

-- INSERT INTO appliance_challenges; the hash is unique.
unfoldable pub insert_challenge : (ℕ → ChallengeRow) → M ChallengeRow
insert_challenge make = do
  statement
  λ w.
      let c = make w.now in
      if any (λ d. d.challenge_hash == c.challenge_hash) w.db.challenges
      then violation database w
      else (ok c, record w { db = record w.db { challenges = w.db.challenges ++ c ∷ [] } })

-- INSERT INTO appliance_operations … ON CONFLICT ON CONSTRAINT
-- uk_appliance_operations_idempotency DO NOTHING; whether the row was inserted. The ID is unique.
unfoldable pub insert_operation : (ℕ → Row) → M Bool
insert_operation make = do
  statement
  λ w.
      let r = make w.now in
      if any (λ q. q.actor_user_id =ℕ r.actor_user_id && q.idempotency_key == r.idempotency_key)
        w.db.operations
      then (ok false, w)
      else if any (λ q. q.id == r.id) w.db.operations
      then violation database w
      else (ok true, record w { db = record w.db { operations = w.db.operations ++ r ∷ [] } })

-- writeAudit
unfoldable pub write_audit : AuditRow → M (Unit {0})
write_audit e = do
  statement
  λ w. (ok tt, record w { db = record w.db { audits = w.db.audits ++ e ∷ [] } })

-- audit: a failure is only logged.
unfoldable pub audit : AuditRow → M (Unit {0})
audit e = ignore (write_audit e)

abbrev pub is_unreachable : Reconciliation → Bool
is_unreachable host_unreachable = true
is_unreachable _ = false

-- scanOperation: the row as an operation, with what is derived from it.
unfoldable pub scan_operation : Row → Operation
scan_operation r = record {
  id = r.id;
  type = r.type;
  state = r.state;
  phase = r.phase;
  installation_id = r.installation_id;
  model = r.model;
  actor = r.actor_username;
  request_id = r.request_id;
  note = r.request.request_note;
  host_fixture = r.fixture;
  plan_hash = r.plan_hash;
  plan_expires_at = r.plan_expires_at;
  plan = some r.plan;
  redacted = false;
  requires_reauthentication = destructive (action r.type);
  cancellable =
      r.state is OperationState.planned
      || r.state is OperationState.awaiting_authorization
      || r.cancellable;
  host_generation = r.host_generation;
  reconciliation = r.reconciliation;
  stale = is_unreachable r.reconciliation;
  error_code = r.error_code;
  error_origin = r.error_origin;
  created_at = r.created_at;
  updated_at = r.updated_at;
  submitted_at = r.submitted_at;
  finished_at = r.finished_at;
  actor_user_id = r.actor_user_id;
  request_hash = r.request_hash;
  request = r.request;
}

unfoldable pub operation_by_id : Bytes → M (Option Operation)
operation_by_id id =
    query λ now db. Option.map scan_operation (find_row (λ r. r.id == id) db.operations)

unfoldable pub operation_by_key : ℕ → Bytes → M (Option Operation)
operation_by_key user key = query λ now db.
    Option.map scan_operation
      (find_row (λ r. r.actor_user_id =ℕ user && r.idempotency_key == key) db.operations)
