-- ===== src/Appliance/Caller.antt =====
-- internal/appliance/operation_service.go and audit.go: the caller on whose behalf the service acts,
-- and the audit rows that name them. The digests are those of the standard library's crypto/sha256
-- and encoding/json, as the functions that they are.
use loxilb_oam.Prelude.{ℕ, Bool, none, some, List, [], ◌∷◌, Bytes, bytes}
use loxilb_oam.Appliance.Contract.{Action}
use loxilb_oam.Appliance.Operation.{OperationType, PlanRequest}
use loxilb_oam.Appliance.Store.Row.{AuditEvent, AuditRow}

pub record Caller : Type 0 where
  pub user_id : ℕ
  pub username : Bytes
  pub permitted : Action → Bool
  pub session_id : Bytes
  pub request_id : Bytes
  pub source_ip : Bytes

-- sha256_hex: hex of SHA-256; marshal: the JSON of a list of strings.
pub record Digest : Type 0 where
  pub sha256_hex : Bytes → Bytes
  pub marshal : List Bytes → Bytes

abbrev pub type_name : OperationType → Bytes
type_name OperationType.backup = bytes "backup"
type_name OperationType.restore = bytes "restore"
type_name OperationType.update = bytes "update"
type_name OperationType.rollback = bytes "rollback"
type_name OperationType.reset = bytes "reset"
type_name (OperationType.unknown s) = s

unfoldable pub request_hash : Digest → PlanRequest → Bytes
request_hash d r = d.sha256_hex (
    d.marshal
      (type_name r.request_type ∷ r.archive_ref ∷ r.target_release_ref ∷ r.request_note ∷ []))

-- An entry with no caller and no detail; OAM acts on its own.
abbrev pub entry : Bytes → AuditEvent → AuditRow
entry id event = record {
  operation_id = id;
  event = event;
  actor_user_id = none;
  actor_username = [];
  request_id = [];
  source_ip = [];
  old_state = none;
  new_state = none;
  type = none;
  plan_hash = [];
  phase = [];
  host_generation = 0;
  error_code = [];
  error_origin = [];
  reason = [];
}

abbrev pub by : Caller → AuditRow → AuditRow
by c e = record e {
  actor_user_id = some c.user_id;
  actor_username = c.username;
  request_id = c.request_id;
  source_ip = c.source_ip;
}
