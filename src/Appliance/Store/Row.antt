-- ===== src/Appliance/Store/Row.antt =====
-- The rows of the three tables, and the constraints that the database keeps on them.
use loxilb_oam.Prelude.{
  ℕ, suc, Bool, false, ◌&&◌, ◌||◌, Option, none, some, List, [], ◌∷◌, Bytes, ◌==◌, any,
  if◌then◌else◌,
}
use loxilb_oam.Appliance.Operation.{
  OperationType, OperationState, Reconciliation, PlanRequest, Plan, active,
}

-- appliance_operations. JSON columns are held as the values that they encode.
pub record Row : Type 0 where
  pub id : Bytes
  pub type : OperationType
  pub state : OperationState
  pub phase : Bytes
  pub installation_id : Bytes
  pub model : Bytes
  pub actor_user_id : ℕ
  pub actor_username : Bytes
  pub request_id : Bytes
  pub idempotency_key : Bytes
  pub request_hash : Bytes
  pub request : PlanRequest
  pub plan_hash : Bytes
  pub plan_expires_at : ℕ
  pub plan : Plan
  pub fixture : Bool
  pub host_generation : ℕ
  pub reconciliation : Reconciliation
  pub error_code : Bytes
  pub error_origin : Bytes
  pub created_at : ℕ
  pub updated_at : ℕ
  pub submitted_at : Option ℕ
  pub finished_at : Option ℕ
  pub cancellable : Bool

-- appliance_challenges
pub record ChallengeRow : Type 0 where
  pub challenge_hash : Bytes
  pub operation_id : Bytes
  pub actor_user_id : ℕ
  pub session_id : Bytes
  pub plan_hash : Bytes
  pub installation_id : Bytes
  pub type : OperationType
  pub expires_at : ℕ
  pub consumed_at : Option ℕ

pub data AuditEvent : Type 0 where
  plan authorize authorize_denied submit submit_denied state_change cancel reconcile : AuditEvent

-- appliance_audit: `auditEntry` with the columns of the caller, if there is one, and the fields of
-- `auditDetail`. An absent state or text is the empty one.
pub record AuditRow : Type 0 where
  pub operation_id : Bytes
  pub event : AuditEvent
  pub actor_user_id : Option ℕ
  pub actor_username : Bytes
  pub request_id : Bytes
  pub source_ip : Bytes
  pub old_state : Option OperationState
  pub new_state : Option OperationState
  pub type : Option OperationType
  pub plan_hash : Bytes
  pub phase : Bytes
  pub host_generation : ℕ
  pub error_code : Bytes
  pub error_origin : Bytes
  pub reason : Bytes

pub record Db : Type 0 where
  pub operations : List Row
  pub challenges : List ChallengeRow
  pub audits : List AuditRow

-- The unique index uk_appliance_operations_one_active.
abbrev pub clashes : Row → Row → Bool
clashes r q = active r.state && active q.state && r.installation_id == q.installation_id

unfoldable pub has_conflict : List Row → Bool
has_conflict [] = false
has_conflict (r ∷ rs) = any (clashes r) rs || has_conflict rs

-- UPDATE … SET f WHERE sel.
unfoldable pub update_rows {ℓ} : {A : Type ℓ} → (A → Bool) → (A → A) → List A → List A
update_rows sel f [] = []
update_rows sel f (r ∷ rs) = (if sel r then f r else r) ∷ update_rows sel f rs

-- The number of rows that a condition selects.
unfoldable pub count_rows {ℓ} : {A : Type ℓ} → (A → Bool) → List A → ℕ
count_rows sel [] = 0
count_rows sel (r ∷ rs) = let n = count_rows sel rs in if sel r then suc n else n

-- A query of one row.
unfoldable pub find_row {ℓ} : {A : Type ℓ} → (A → Bool) → List A → Option A
find_row sel [] = none
find_row sel (r ∷ rs) = if sel r then some r else find_row sel rs
