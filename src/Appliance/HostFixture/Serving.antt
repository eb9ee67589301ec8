-- ===== src/Appliance/HostFixture/Serving.antt =====
-- The fixture and its handlers (internal/appliance/hostfixture/jobs.go).
use loxilb_oam.Prelude.{
  ℕ, ◌+◌, Bool, true, false, not, ◌||◌, Option, none, some, List, [], ◌∷◌, ◌++◌, Bytes, bytes, ◌==◌,
  leb, is_empty, if◌then◌else◌,
}
use loxilb_oam.Strings.Segments.{join}
use loxilb_oam.Appliance.Contract.{Action}
use loxilb_oam.Appliance.Operation.{OperationType, valid_type, action}
use loxilb_oam.Appliance.Host.{HostJobRequest, HostJob, Response, silent, answered}
use loxilb_oam.Appliance.Caller.{type_name}
use loxilb_oam.Appliance.HostAuth.{Crypto}
use loxilb_oam.Appliance.HostFixture.{Outcome, Job, script, entry, done, advanced, catch_up}

abbrev pub fixture_installation_id : Bytes
fixture_installation_id = bytes "FIXTURE-INSTALLATION"

-- The maps of a host: a job of the journal, and how often an operation was submitted and started.
pub record Host : Type 0 where
  pub available : Action → Bool
  pub outcome : Outcome
  pub step_every : ℕ
  pub jobs : Bytes → Option Job
  pub submissions : Bytes → ℕ
  pub executions : Bytes → ℕ

-- What a handler writes. `panicked` is an index out of range.
pub data Reply : Type 0 where
  answer : HostJob → Reply
  reject : Bytes → Bytes → Reply
  not_found unreadable panicked : Reply

-- The reply as the client gets it.
unfoldable pub wire : Reply → Response HostJob
wire (answer job) = answered 200 none (some job)
wire (reject code message) = answered 422 (some (record { code = code; message = message })) none
wire not_found =
    answered 404
      (some
        (record { code = bytes "JOB_NOT_FOUND"; message = bytes "the journal has no such job" }))
      none
wire unreadable = answered 400 none none
wire panicked = silent

abbrev pub put : {A : Type 0} → Bytes → A → (Bytes → A) → Bytes → A
put id a m k = if k == id then a else m k

abbrev pub put_job : Job → Bytes → Host → Host
put_job j id h = record h { jobs = put id (some j) h.jobs }

abbrev pub answer_entry : Job → Reply
answer_entry j = elim (entry j) [ none ↦ panicked | some e ↦ answer e ]

-- The zero byte stands between the parts.
unfoldable pub fake_digest : Crypto → List Bytes → Bytes
unfolding join
fake_digest c parts = bytes "sha256:" ++ c.sum (join 0 parts)

unfoldable pub plan_hash : Crypto → OperationType → Bytes → Bytes → Bytes
unfolding fake_digest
plan_hash c t archive_ref target_release_ref =
    fake_digest c (type_name t ∷ archive_ref ∷ target_release_ref ∷ fixture_installation_id ∷ [])

abbrev pub new_job : Host → ℕ → HostJobRequest → Job
new_job h now req = record {
  request = req;
  script = (script req.type h.outcome).0;
  irreversible_at = (script req.type h.outcome).1;
  position = 0;
  generation = 1;
  cancelled = false;
  stepped_at = now;
}

unfoldable pub start : ℕ → HostJobRequest → Host → Host × Reply
unfolding script entry
start now req h =
    let j = new_job h now req in
    let h' = put_job j req.operation_id h in
    (
      record h' {
        executions = put req.operation_id (h.executions req.operation_id + 1) h.executions;
      },
      answer_entry j,
    )

abbrev pub caught_up : ℕ → Bytes → Job → Host → Host × Reply
caught_up now id j h = let j' = catch_up h.step_every now j in (put_job j' id h, answer_entry j')

unfoldable pub submit_new : Crypto → ℕ → HostJobRequest → Host → Host × Reply
unfolding plan_hash start
submit_new c now req h =
    if not (valid_type req.type) || not (h.available (action req.type))
    then (
      h,
      reject (bytes "HOST_UNSUPPORTED") (bytes "this host adapter does not offer the operation"),
    )
    else if not (req.installation_id == fixture_installation_id)
    then (
      h,
      reject (bytes "INSTALLATION_MISMATCH") (bytes "the job was planned for another installation"),
    )
    else if not (req.plan_hash == plan_hash c req.type req.archive_ref req.target_release_ref)
    then (h, reject (bytes "PLAN_STALE") (bytes "the plan no longer matches the installation"))
    else start now req h

abbrev pub submit_known : Crypto → ℕ → HostJobRequest → Option Job → Host → Host × Reply
submit_known c now req none h = submit_new c now req h
submit_known c now req (some existing) h = caught_up now req.operation_id existing h

abbrev pub submitted : HostJobRequest → Host → Host
submitted req h = record h {
  submissions = put req.operation_id (h.submissions req.operation_id + 1) h.submissions;
}

-- `none` is a body that does not decode.
unfoldable pub submit_job : Crypto → ℕ → Option HostJobRequest → Host → Host × Reply
unfolding submit_new catch_up entry
submit_job c now none h = (h, unreadable)
submit_job c now (some req) h =
    if is_empty req.operation_id
    then (h, unreadable)
    else submit_known c now req (h.jobs req.operation_id) (submitted req h)

unfoldable pub get_job : ℕ → Bytes → Host → Host × Reply
unfolding catch_up entry
get_job now id h = elim (h.jobs id) [ none ↦ (h, not_found) | some j ↦ caught_up now id j h ]

abbrev pub cancel_caught_up : Bytes → Job → Host → Host × Reply
cancel_caught_up id j h =
    let h' = put_job j id h in
    let j' = record j { cancelled = true; generation = j.generation + 1 } in
    if j.cancelled
    then (h', answer_entry j)
    else if done j || leb j.irreversible_at j.position
    then (
      h',
      reject (bytes "OPERATION_NOT_CANCELLABLE")
          (bytes "the job has passed the point where it can be stopped"),
    )
    else (put_job j' id h, answer_entry j')

unfoldable pub cancel_job : ℕ → Bytes → Host → Host × Reply
unfolding catch_up entry done
cancel_job now id h = elim (h.jobs id) [
  | none ↦ (h, not_found)
  | some j ↦ cancel_caught_up id (catch_up h.step_every now j) h
]

abbrev pub advance_found : ℕ → Bytes → Option Job → Host → Host × Bool
advance_found now id none h = (h, false)
advance_found now id (some j) h =
    if done j then (h, false) else (put_job (advanced now j) id h, true)

unfoldable pub advance : ℕ → Bytes → Host → Host × Bool
unfolding done
advance now id h = advance_found now id (h.jobs id) h

unfoldable pub forget : Bytes → Host → Host
forget id h = record h { jobs = put id none h.jobs }

-- What may be asked of the fixture.
pub data Event : Type 0 where
  submitting : Option HostJobRequest → Event
  getting cancelling advancing forgetting : Bytes → Event
  choosing : Outcome → Event
  pacing : ℕ → Event

unfoldable pub serve : Crypto → ℕ → Event → Host → Host
unfolding submit_job get_job cancel_job advance forget
serve c now (submitting req) h = (submit_job c now req h).0
serve c now (getting id) h = (get_job now id h).0
serve c now (cancelling id) h = (cancel_job now id h).0
serve c now (advancing id) h = (advance now id h).0
serve c now (forgetting id) h = forget id h
serve c now (choosing outcome) h = record h { outcome = outcome }
serve c now (pacing every) h = record h { step_every = every }
