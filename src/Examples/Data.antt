-- ===== src/Examples/Data.antt =====
-- A restore, its requests and its tables, for the runs of the service of internal/appliance.
use loxilb_oam.Prelude.{true, false, none, some, List, [], ◌∷◌, Bytes, bytes}
use loxilb_oam.Appliance.Contract.{schema_version}
use loxilb_oam.Appliance.Operation.{OperationType, OperationState, PlanRequest, Plan, in_sync}
use loxilb_oam.Appliance.Store.Row.{Row, ChallengeRow}
use loxilb_oam.Appliance.Store.World.{idle, open_tx, World}
use loxilb_oam.Appliance.Caller.{Caller, Digest}

-- A digest for the runs.
abbrev pub plain : Digest
plain = record { sha256_hex = λ s. s; marshal = λ ss. bytes "request" }

abbrev pub admin : Caller
admin = record {
  user_id = 1;
  username = bytes "root";
  permitted = λ a. true;
  session_id = bytes "s1";
  request_id = bytes "r1";
  source_ip = bytes "10.0.0.1";
}

abbrev pub viewer : Caller
viewer = record admin { user_id = 2; username = bytes "eve"; permitted = λ a. false }

abbrev pub id : Bytes
id = bytes "0190a0b0-c0d0-7000-8000-000000000001"

abbrev pub key : Bytes
key = bytes "key-0123456789abcdef"

abbrev pub restore_request : PlanRequest
restore_request = record {
  request_schema = schema_version;
  request_type = OperationType.restore;
  archive_ref = bytes "archive-1";
  target_release_ref = [];
  request_note = [];
}

abbrev pub restore_plan : Plan
restore_plan = record {
  irreversible_after_phase = bytes "apply";
  current_release_digest = [];
  target_release_digest = [];
  archive_digest = [];
  compatibility = [];
  affected_resources = [];
}

-- A restore that waits for its authorization.
abbrev pub waiting : Row
waiting = record {
  id = id;
  type = OperationType.restore;
  state = OperationState.awaiting_authorization;
  phase = [];
  installation_id = bytes "i1";
  model = [];
  actor_user_id = 1;
  actor_username = bytes "root";
  request_id = bytes "r1";
  idempotency_key = key;
  request_hash = bytes "request";
  request = restore_request;
  plan_hash = bytes "p1";
  plan_expires_at = 1000;
  plan = restore_plan;
  fixture = false;
  host_generation = 0;
  reconciliation = in_sync;
  error_code = [];
  error_origin = [];
  created_at = 100;
  updated_at = 100;
  submitted_at = none;
  finished_at = none;
  cancellable = false;
}

-- The same, handed over, and followed to the third entry of the journal.
abbrev pub running : Row
running = record waiting {
  state = OperationState.running;
  phase = bytes "apply";
  host_generation = 3;
  submitted_at = some 150;
}

abbrev pub ticket : ChallengeRow
ticket = record {
  challenge_hash = bytes "secret";
  operation_id = id;
  actor_user_id = 1;
  session_id = bytes "s1";
  plan_hash = bytes "p1";
  installation_id = bytes "i1";
  type = OperationType.restore;
  expires_at = 400;
  consumed_at = none;
}

abbrev pub world : Row → List ChallengeRow → World
world r cs = record {
  db = record { operations = r ∷ []; challenges = cs; audits = [] };
  now = 200;
  connection = idle;
  turns = [];
  faults = [];
  configured = true;
  job_answers = [];
  plan_answers = [];
  calls = [];
}

abbrev pub in_tx : World → World
in_tx w = record w { connection = open_tx }

abbrev pub reader : World
reader = world waiting []
