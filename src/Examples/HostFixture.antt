-- ===== src/Examples/HostFixture.antt =====
-- A fixture that offers every operation, and a backup (internal/appliance/hostfixture).
use loxilb_oam.Prelude.{
  ◌+◌, ◌*◌, ◌<◌, ◌≤◌, ◌≡◌, ◌≢◌, refl, length, true, none, some, List, [], ◌∷◌, bytes, err, arith,
  Bytes-discrete,
}
use loxilb_oam.Appliance.Operation.{OperationType, OperationState, valid_type}
use loxilb_oam.Appliance.Host.{
  unreachable, HostPlanRequest, HostPlan, HostJob, job_result, cancel_result,
}
use loxilb_oam.Appliance.HostAuth.{Crypto}
use loxilb_oam.Appliance.HostFixture.{Outcome, Job, done, script, catch_up}
use loxilb_oam.Appliance.HostFixture.Journal.{Journal}
use loxilb_oam.Appliance.HostFixture.Answers.{replies_understood}
use loxilb_oam.Appliance.HostFixture.Once.{Moves, Request, serve_all, serve-Moves, executed_once}
use loxilb_oam.Appliance.HostFixture.Ending.{left, IsCaughtUp, catch_up-IsCaughtUp, get_job_done}
use loxilb_oam.Appliance.HostFixture.Plans.{planned, plan, plan_for, job_for, plan-submit_job}
use loxilb_oam.Appliance.HostFixture.Serving.{
  Host, answer, answer_entry, wire, put_job, new_job, submit_job, get_job, cancel_job, submitting,
  getting, serve,
}

abbrev toy : Crypto
toy = record { sum = λ s. s; mac = λ key s. s }

abbrev idle_host : Host
idle_host = record {
  available = λ a. true;
  outcome = Outcome.succeed;
  step_every = 5;
  jobs = λ id. none;
  submissions = λ id. 0;
  executions = λ id. 0;
}

abbrev backup : HostPlanRequest
backup = record {
  operation_id = [];
  type = OperationType.backup;
  archive_ref = [];
  target_release_ref = [];
}

abbrev backup_plan : HostPlan
backup_plan = plan_for toy backup

abbrev busy : Host
busy =
    put_job (new_job idle_host 100 (job_for (bytes "a") backup backup_plan)) (bytes "a") idle_host

plans : plan toy (some backup) idle_host ≡ planned backup_plan
unfolding plan Bytes-discrete valid_type
plans = refl

abbrev queued_backup : Job
queued_backup = new_job idle_host 100 (job_for (bytes "a") backup backup_plan)

inside : queued_backup.position < length queued_backup.script
unfolding script
inside = omega arith

present : busy.jobs (bytes "a") ≡ some queued_backup
unfolding Bytes-discrete
present = refl

in_time : queued_backup.stepped_at + left queued_backup * 5 ≤ 130
unfolding script
in_time = omega arith

empty-Journal : Journal idle_host
empty-Journal = λ id j e. ground arith

replies_understood_example :
    (job_result (bytes "a") (wire (get_job 7 (bytes "a") idle_host).1) ≢ err unreachable)
    × (cancel_result (bytes "a") (wire (cancel_job 7 (bytes "a") idle_host).1) ≢ err unreachable)
    × Journal (serve toy 7 (submitting (some (job_for (bytes "a") backup backup_plan))) idle_host)
replies_understood_example =
    replies_understood toy 7 (bytes "a")
      (submitting (some (job_for (bytes "a") backup backup_plan))) idle_host empty-Journal

serve-Moves_example :
    Moves
      (busy.jobs (bytes "a"))
      (busy.executions (bytes "a"))
      ((serve toy 130 (getting (bytes "a")) busy).jobs (bytes "a"))
      ((serve toy 130 (getting (bytes "a")) busy).executions (bytes "a"))
serve-Moves_example = serve-Moves (bytes "a") toy 130 (getting (bytes "a")) busy (λ e. ground arith)

-- The same job twice.
abbrev twice : List Request
twice =
    record { event = submitting (some (job_for (bytes "a") backup backup_plan)); at = 1 }
    ∷ record { event = submitting (some (job_for (bytes "a") backup backup_plan)); at = 2 }
    ∷ []

executed_once_example : (serve_all toy twice idle_host).executions (bytes "a") ≤ 1
executed_once_example =
    executed_once toy (bytes "a") twice idle_host (λ e. ground arith, (λ e. ground arith, tt)) refl
      refl

catch_up-IsCaughtUp_example :
    IsCaughtUp 5 112
      (catch_up 5 112 (new_job idle_host 100 (job_for (bytes "a") backup backup_plan)))
catch_up-IsCaughtUp_example =
    catch_up-IsCaughtUp 5 112 (new_job idle_host 100 (job_for (bytes "a") backup backup_plan))
      (omega arith) inside

get_job_done_example :
    (k : Job) × ((get_job 130 (bytes "a") busy).0.jobs (bytes "a") ≡ some k)
    × (done k ≡ true)
    × ((get_job 130 (bytes "a") busy).1 ≡ answer_entry k)
get_job_done_example =
    get_job_done 130 (bytes "a") busy
      (new_job idle_host 100 (job_for (bytes "a") backup backup_plan)) (omega arith) present inside
      in_time

plan-submit_job_example :
    (e : HostJob) × ((submit_job toy 7 (some (job_for (bytes "a") backup backup_plan)) idle_host).1
      ≡ answer e)
    × (e.operation_id ≡ bytes "a")
    × (e.state ≡ OperationState.queued)
    × (e.generation ≡ 1)
    × ((submit_job toy 7 (some (job_for (bytes "a") backup backup_plan)) idle_host).0.executions
          (bytes "a")
        ≡ 0 + 1)
plan-submit_job_example =
    plan-submit_job toy 7 (bytes "a") backup backup_plan idle_host idle_host plans refl refl refl
