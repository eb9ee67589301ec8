-- ===== src/Appliance/HostFixture/Answers.antt =====
-- What the client of internal/appliance/host.go makes of the fixture's replies.
use loxilb_oam.Prelude.{ℕ, ◌≢◌, Bytes, bytes, err, arith, Option-cases, inl, inr}
use loxilb_oam.Appliance.Host.{unreachable, read_response, job_result, cancel_result}
use loxilb_oam.Appliance.HostAuth.{Crypto}
use loxilb_oam.Appliance.HostFixture.{Job}
use loxilb_oam.Appliance.HostFixture.Contract.{IsSound, catch_up-IsSound, entry-IsSound}
use loxilb_oam.Appliance.HostFixture.Journal.{Journal, serve-Journal, cancelled-IsSound}
use loxilb_oam.Appliance.HostFixture.Serving.{
  Host, Event, serve, reject, not_found, wire, answer_entry, get_job, cancel_job, cancel_caught_up,
}

-- The reply for a sound job is taken by the client.
answered_get :
    (id : Bytes) (j : Job) → IsSound id j → job_result id (wire (answer_entry j)) ≢ err unreachable
unfolding job_result wire read_response
answered_get id j s = let (e, p, q) = entry-IsSound id j s in ground arith

answered_cancel :
    (id : Bytes) (j : Job)
    → IsSound id j
    → cancel_result id (wire (answer_entry j)) ≢ err unreachable
unfolding cancel_result wire read_response
answered_cancel id j s = let (e, p, q) = entry-IsSound id j s in ground arith

not_found_get : (id : Bytes) → job_result id (wire not_found) ≢ err unreachable
unfolding job_result wire read_response
not_found_get id = λ e. ground arith

not_found_cancel : (id : Bytes) → cancel_result id (wire not_found) ≢ err unreachable
unfolding cancel_result wire read_response
not_found_cancel id = λ e. ground arith

refused_cancel :
    (id : Bytes) (message : Bytes)
    → cancel_result id (wire (reject (bytes "OPERATION_NOT_CANCELLABLE") message)) ≢ err unreachable
unfolding cancel_result wire read_response
refused_cancel id message = λ e. ground arith

cancelled_reply :
    (id : Bytes) (j : Job) (h : Host)
    → IsSound id j
    → cancel_result id (wire (cancel_caught_up id j h).1) ≢ err unreachable
cancelled_reply id j h s =
    let a = answered_cancel id j s in
    let b = answered_cancel id _ (cancelled-IsSound id j s) in
    let r = refused_cancel id (bytes "the job has passed the point where it can be stopped") in
    λ e. ground arith

get_job_understood :
    (now : ℕ) (id : Bytes) (h : Host)
    → Journal h
    → job_result id (wire (get_job now id h).1) ≢ err unreachable
unfolding get_job
get_job_understood now id h k = elim (Option-cases (h.jobs id)) [
  | inl e ↦ rw (e, get_job) (not_found_get id)
  | inr (j, e) ↦
      rw (e, get_job) (answered_get id _ (catch_up-IsSound h.step_every now id j (k id j e)))
]

cancel_job_understood :
    (now : ℕ) (id : Bytes) (h : Host)
    → Journal h
    → cancel_result id (wire (cancel_job now id h).1) ≢ err unreachable
unfolding cancel_job
cancel_job_understood now id h k = elim (Option-cases (h.jobs id)) [
  | inl e ↦ rw (e, cancel_job) (not_found_cancel id)
  | inr (j, e) ↦
      rw (e, cancel_job)
        (cancelled_reply id _ h (catch_up-IsSound h.step_every now id j (k id j e)))
]

-- A fixture whose journal is sound answers about a job, and about cancelling one, in a way that the
-- client understands: neither reply is taken for an adapter that cannot be reached, and the journal
-- stays sound under whatever is asked.
pub replies_understood :
    (c : Crypto) (now : ℕ) (id : Bytes) (event : Event) (h : Host)
    → Journal h
    → (job_result id (wire (get_job now id h).1) ≢ err unreachable)
      × (cancel_result id (wire (cancel_job now id h).1) ≢ err unreachable)
      × Journal (serve c now event h)
replies_understood c now id event h k =
    (get_job_understood now id h k, cancel_job_understood now id h k, serve-Journal c now event h k)
