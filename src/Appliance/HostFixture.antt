-- ===== src/Appliance/HostFixture.antt =====
-- internal/appliance/hostfixture: the stand-in for the host adapter, its journal (jobs.go) and its
-- plans (fixture.go). Times are nanoseconds; a call is made at a time `now`.
pub mod Serving
pub mod Contract
pub mod Journal
pub mod Answers
pub mod Once
pub mod Ending
pub mod Plans
use loxilb_oam.Prelude.{
  ℕ, zero, suc, ◌+◌, ◌-◌, Bool, true, false, not, ◌&&◌, ◌||◌, Option, none, some, List, [], ◌∷◌,
  ◌++◌, Bytes, bytes, ◌==◌, length, ltb, leb, ◌=ℕ◌, is_empty, if◌then◌else◌,
}
use loxilb_oam.Appliance.Operation.{OperationType, OperationState}
use loxilb_oam.Appliance.Host.{HostJobRequest, HostJob}

pub data Outcome : Type 0 where
  succeed fail recovery : Outcome
  other : Bytes → Outcome

pub record Step : Type 0 where
  pub state : OperationState
  pub phase : Bytes

pub record Job : Type 0 where
  pub request : HostJobRequest
  pub script : List Step
  pub irreversible_at : ℕ
  pub position : ℕ
  pub generation : ℕ
  pub cancelled : Bool
  pub stepped_at : ℕ

abbrev pub step : OperationState → Bytes → Step
step state phase = record { state = state; phase = phase }

-- The phase after which a job of the type cannot be undone, empty if there is none.
unfoldable pub point : OperationType → Bytes
point OperationType.restore = bytes "stop-services"
point OperationType.update = bytes "switch-slot"
point OperationType.rollback = bytes "switch-slot"
point OperationType.reset = bytes "wipe-state"
point _ = []

abbrev pub begun : List Step
begun = step OperationState.queued [] ∷ step OperationState.running (bytes "prepare") ∷ []

abbrev pub ending : Outcome → List Step
ending Outcome.recovery =
    step OperationState.compensating (bytes "undo") ∷ step OperationState.recovery_required [] ∷ []
ending _ = step OperationState.verifying (bytes "verify") ∷ step OperationState.succeeded [] ∷ []

-- The steps past the beginning, and the first that cannot be cancelled, for the point of the type.
abbrev pub past : Bytes → Outcome → List Step × ℕ
past [] outcome = (begun ++ (step OperationState.running (bytes "archive") ∷ ending outcome), 3)
past (c ∷ point) outcome = (begun ++ (step OperationState.running (c ∷ point) ∷ ending outcome), 2)

unfoldable pub script : OperationType → Outcome → List Step × ℕ
unfolding point
script t Outcome.fail = (begun ++ (step OperationState.failed [] ∷ []), 2)
script t outcome = past (point t) outcome

abbrev pub get_elem? : List Step → ℕ → Option Step
get_elem? [] i = none
get_elem? (s ∷ ss) zero = some s
get_elem? (s ∷ ss) (suc i) = get_elem? ss i

abbrev pub current_if : Bool → Job → Option Step
current_if true j = some (step OperationState.cancelled [])
current_if false j = get_elem? j.script j.position

-- job.current; `none` is an index out of range.
unfoldable pub current : Job → Option Step
current j = current_if j.cancelled j

unfoldable pub done : Job → Bool
done j = j.cancelled || j.position =ℕ (length j.script - 1)

unfoldable pub error_code_of : OperationState → Bytes
error_code_of OperationState.failed = bytes "FIXTURE_FAILURE"
error_code_of OperationState.recovery_required = bytes "FIXTURE_COMPENSATION_FAILED"
error_code_of _ = []

abbrev pub entry_at : Job → Step → HostJob
entry_at j now = record {
  operation_id = j.request.operation_id;
  state = now.state;
  phase = now.phase;
  generation = j.generation;
  cancellable = not (done j) && ltb j.position j.irreversible_at;
  error_code = error_code_of now.state;
}

-- job.entry; the mark that every entry of the fixture carries is left out.
unfoldable pub entry : Job → Option HostJob
unfolding current done error_code_of
entry j = elim (current j) [ none ↦ none | some now ↦ some (entry_at j now) ]

abbrev pub advanced : ℕ → Job → Job
advanced at j = record j {
  position = j.position + 1;
  generation = j.generation + 1;
  stepped_at = at;
}

-- The loop of catchUp. A script is as many rounds as it has steps.
unfoldable pub catch_up_loop : ℕ → ℕ → ℕ → Job → Job
catch_up_loop zero every now j = j
catch_up_loop (suc rounds) every now j = elim (not (done j) && leb every (now - j.stepped_at)) [
  | true ↦ catch_up_loop rounds every now (advanced (j.stepped_at + every) j)
  | false ↦ j
]

unfoldable pub catch_up : ℕ → ℕ → Job → Job
unfolding catch_up_loop
catch_up every now j = if every =ℕ 0 then j else catch_up_loop (length j.script) every now j
