-- ===== src/Appliance/Contract.antt =====
-- internal/appliance/contract.go: the vocabulary of the contract.
use loxilb_oam.Prelude.{Bool, true, false, Bytes, bytes}

abbrev pub schema_version : Bytes
schema_version = bytes "appliance-ops/v1alpha1"

-- A Go string type: the constants, and whatever else a value of it may hold.
pub data Action : Type 0 where
  backup restore update rollback reset diagnostics : Action
  other : Bytes → Action

unfoldable pub destructive : Action → Bool
destructive Action.restore = true
destructive Action.update = true
destructive Action.rollback = true
destructive Action.reset = true
destructive _ = false

-- Error origins.
abbrev pub origin_oam : Bytes
origin_oam = bytes "oam"

abbrev pub origin_host : Bytes
origin_host = bytes "host"

-- Machine error codes that are stored with an operation.
abbrev pub code_plan_expired : Bytes
code_plan_expired = bytes "PLAN_EXPIRED"

abbrev pub code_cancelled_by_user : Bytes
code_cancelled_by_user = bytes "CANCELLED_BY_USER"

abbrev pub code_host_job_lost : Bytes
code_host_job_lost = bytes "HOST_JOB_LOST"

abbrev pub code_submit_rejected : Bytes
code_submit_rejected = bytes "SUBMIT_REJECTED"

abbrev pub code_challenge_consumed : Bytes
code_challenge_consumed = bytes "CHALLENGE_CONSUMED"

abbrev pub code_challenge_expired : Bytes
code_challenge_expired = bytes "CHALLENGE_EXPIRED"

abbrev pub code_challenge_mismatch : Bytes
code_challenge_mismatch = bytes "CHALLENGE_MISMATCH"
