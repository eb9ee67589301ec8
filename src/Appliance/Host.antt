-- ===== src/Appliance/Host.antt =====
-- internal/appliance/host.go: the client of the host adapter. What the adapter sends back is the
-- environment's: a response is a value of `Response`.
use loxilb_oam.Prelude.{
  ℕ, Bool, true, false, ◌&&◌, ◌||◌, not, Option, none, some, Bytes, ◌==◌, Result, ok, err, ◌>>=◌,
  ◌=ℕ◌, ltb, is_empty, if◌then◌else◌,
}
use loxilb_oam.Appliance.Operation.{OperationType, OperationState, Plan, host_owned}

pub record HostRejection : Type 0 where
  pub code : Bytes
  pub message : Bytes

pub data HostError : Type 0 where
  not_configured unreachable job_not_found : HostError
  rejected : HostRejection → HostError

pub record HostPlanRequest : Type 0 where
  pub operation_id : Bytes
  pub type : OperationType
  pub archive_ref : Bytes
  pub target_release_ref : Bytes

pub record HostPlan : Type 0 where
  pub plan_hash : Bytes
  pub installation_id : Bytes
  pub model : Bytes
  pub fixture : Bool
  pub plan : Plan

pub record HostJobRequest : Type 0 where
  pub operation_id : Bytes
  pub type : OperationType
  pub installation_id : Bytes
  pub plan_hash : Bytes
  pub archive_ref : Bytes
  pub target_release_ref : Bytes

-- A generation below 1 is refused, so the negative ones are read as 0.
pub record HostJob : Type 0 where
  pub operation_id : Bytes
  pub state : OperationState
  pub phase : Bytes
  pub generation : ℕ
  pub cancellable : Bool
  pub error_code : Bytes

-- One exchange: no usable HTTP response, or a status with the body read as a rejection and as the
-- answer that was asked for, each `none` if it does not decode.
pub data Response (A : Type 0) : Type 0 where
  silent : Response A
  answered : ℕ → Option HostRejection → Option A → Response A

-- The first test of `do` on a response: a rejection that the contract knows.
abbrev pub refusal : ℕ → Option HostRejection → Option HostRejection
refusal status none = none
refusal status (some r) = if status =ℕ 422 && not (is_empty r.code) then some r else none

-- `do`, below the transport. `job_path` is strings.HasPrefix(path, "/v1/jobs/").
unfoldable pub read_response : {A : Type 0} → Bool → Response A → Result HostError A
read_response job_path silent = err unreachable
read_response job_path (answered status rejection body) = elim (refusal status rejection) [
  | some r ↦ err (rejected r)
  | none ↦
      if status =ℕ 404 && job_path
      then err job_not_found
      else if not (status =ℕ 200)
      then err unreachable
      else elim body [ none ↦ err unreachable | some a ↦ ok a ]
]

unfoldable pub check_job : HostJob → Bytes → Result HostError HostJob
check_job job operation_id =
    if not (job.operation_id == operation_id) || not (host_owned job.state) || ltb job.generation 1
    then err unreachable
    else ok job

unfoldable pub check_plan : HostPlan → Result HostError HostPlan
check_plan p = if is_empty p.plan_hash || is_empty p.installation_id then err unreachable else ok p

-- The three calls about a job, and planning, on the response that they get. `Submit` posts to
-- "/v1/jobs", so a 404 means nothing to it.
unfoldable pub submit_result : Bytes → Response HostJob → Result HostError HostJob
submit_result id r = do job ← read_response false r; check_job job id

unfoldable pub job_result : Bytes → Response HostJob → Result HostError HostJob
job_result id r = do job ← read_response true r; check_job job id

unfoldable pub cancel_result : Bytes → Response HostJob → Result HostError HostJob
cancel_result id r = do job ← read_response true r; check_job job id

unfoldable pub plan_result : Response HostPlan → Result HostError HostPlan
plan_result r = do p ← read_response false r; check_plan p
