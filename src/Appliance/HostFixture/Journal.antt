-- ===== src/Appliance/HostFixture/Journal.antt =====
-- The journal of the fixture stays sound (internal/appliance/hostfixture/jobs.go).
use loxilb_oam.Prelude.{
  ◌⊎◌, ℕ, ◌+◌, ◌<◌, ◌≡◌, refl, sym, ap, ◌∙◌, true, false, Option, none, some, [], ◌∷◌, Bytes, ◌==◌,
  length, all, is_empty, arith, Bool-cases, Option-cases, inl, inr,
}
use loxilb_oam.Appliance.Operation.{OperationType, host_owned}
use loxilb_oam.Appliance.Host.{HostJobRequest}
use loxilb_oam.Appliance.HostAuth.{Crypto}
use loxilb_oam.Appliance.HostFixture.{Outcome, Job, point, past, script, done}
use loxilb_oam.Appliance.HostFixture.Contract.{IsSound, advanced-IsSound, catch_up-IsSound}
use loxilb_oam.Appliance.HostFixture.Serving.{
  Host, submit_known, submitted, cancel_caught_up, advance_found, submitting, getting, cancelling,
  advancing, forgetting, choosing, pacing, put_job, new_job, start, submit_new, submit_job, get_job,
  cancel_job, advance, forget, Event, serve,
}

-- Every job of the journal is sound.
abbrev pub AllSound : (Bytes → Option Job) → Type 0
AllSound jobs = (id : Bytes) (j : Job) → jobs id ≡ some j → IsSound id j

abbrev pub Journal : Host → Type 0
Journal h = AllSound h.jobs

same_id : (id id' : Bytes) → (id' == id) ≡ true → id ≡ id'
same_id id id' p = ground arith

put_same :
    (id id' : Bytes) (j j' : Job) → IsSound id j → (id' == id) ≡ true → j ≡ j' → IsSound id' j'
put_same id id' j j' s p e = rw (← e) (rw (← (same_id id id' p)) s)

put-Journal :
    (id : Bytes) (j : Job) (h : Host) → IsSound id j → Journal h → Journal (put_job j id h)
put-Journal id j h s k = λ id' j' e. elim (Bool-cases (id' == id)) [
  | inl p ↦ put_same id id' j j' s p (ground arith)
  | inr p ↦ k id' j' (ground arith)
]

pub cancelled-IsSound :
    (id : Bytes) (j : Job)
    → IsSound id j
    → IsSound id (record j { cancelled = true; generation = j.generation + 1 })
cancelled-IsSound id j s = ground arith

past-owned :
    (p : Bytes) (o : Outcome)
    → (all (λ s. host_owned s.state) (past p o).0 ≡ true) × (0 < length (past p o).0)
unfolding host_owned
past-owned [] Outcome.recovery = (refl, omega arith)
past-owned [] Outcome.succeed = (refl, omega arith)
past-owned [] Outcome.fail = (refl, omega arith)
past-owned [] (Outcome.other x) = (refl, omega arith)
past-owned (c ∷ p) Outcome.recovery = (refl, omega arith)
past-owned (c ∷ p) Outcome.succeed = (refl, omega arith)
past-owned (c ∷ p) Outcome.fail = (refl, omega arith)
past-owned (c ∷ p) (Outcome.other x) = (refl, omega arith)

script-owned :
    (t : OperationType) (o : Outcome)
    → (all (λ s. host_owned s.state) (script t o).0 ≡ true) × (0 < length (script t o).0)
unfolding script host_owned
script-owned t Outcome.fail = (refl, omega arith)
script-owned t Outcome.recovery = past-owned (point t) Outcome.recovery
script-owned t Outcome.succeed = past-owned (point t) Outcome.succeed
script-owned t (Outcome.other x) = past-owned (point t) (Outcome.other x)

new_job-IsSound :
    (h : Host) (now : ℕ) (req : HostJobRequest) → IsSound req.operation_id (new_job h now req)
new_job-IsSound h now req = let (o, p) = script-owned req.type h.outcome in ground arith

jobs-AllSound : (m m' : Bytes → Option Job) → m' ≡ m → AllSound m → AllSound m'
jobs-AllSound m m' e k = λ id j f. k id j (ap (λ m. m id) (sym e) ∙ f)

module _ (c : Crypto) (now : ℕ) where
  -- What a new submission does to the journal.
  submit_new_jobs :
      (req : HostJobRequest) (h : Host)
      → ((submit_new c now req h).0.jobs ≡ h.jobs)
        ⊎ ((submit_new c now req h).0.jobs ≡ (put_job (new_job h now req) req.operation_id h).jobs)
  unfolding submit_new start
  submit_new_jobs req h = ground arith

  submit_known-Journal :
      (req : HostJobRequest) (h : Host) (o : Option Job)
      → h.jobs req.operation_id ≡ o
      → Journal h
      → Journal (submit_known c now req o h).0
  submit_known-Journal req h none e k = elim (submit_new_jobs req h) [
    | inl same ↦ jobs-AllSound h.jobs _ same k
    | inr new ↦
        jobs-AllSound (put_job (new_job h now req) req.operation_id h).jobs _ new
          (put-Journal req.operation_id _ h (new_job-IsSound h now req) k)
  ]
  submit_known-Journal req h (some j) e k =
      put-Journal req.operation_id _ h
        (catch_up-IsSound h.step_every now req.operation_id j (k req.operation_id j e)) k

  submit_job_known :
      (req : HostJobRequest) (h : Host)
      → is_empty req.operation_id ≡ false
      → submit_job c now (some req) h
        ≡ submit_known c now req (h.jobs req.operation_id) (submitted req h)
  unfolding submit_job
  submit_job_known req h p = ground arith

  submit_job-Journal :
      (req : Option HostJobRequest) (h : Host) → Journal h → Journal (submit_job c now req h).0
  unfolding submit_job
  submit_job-Journal none h k = k
  submit_job-Journal (some req) h k = elim (Bool-cases (is_empty req.operation_id)) [
    | inl p ↦ rw (p, submit_job) k
    | inr p ↦
        jobs-AllSound _ _ (ap (λ x. x.0.jobs) (submit_job_known req h p))
          (submit_known-Journal req (submitted req h) (h.jobs req.operation_id) refl k)
  ]

  get_job-Journal : (id : Bytes) (h : Host) → Journal h → Journal (get_job now id h).0
  unfolding get_job
  get_job-Journal id h k = elim (Option-cases (h.jobs id)) [
    | inl e ↦ rw (e, get_job) k
    | inr (j, e) ↦
        rw (e, get_job) (put-Journal id _ h (catch_up-IsSound h.step_every now id j (k id j e)) k)
  ]

  cancel_jobs :
      (id : Bytes) (j : Job) (h : Host)
      → ((cancel_caught_up id j h).0.jobs ≡ (put_job j id h).jobs)
        ⊎ ((cancel_caught_up id j h).0.jobs
            ≡ (put_job (record j { cancelled = true; generation = j.generation + 1 }) id h).jobs)
  cancel_jobs id j h = ground arith

  cancel_caught_up-Journal :
      (id : Bytes) (j : Job) (h : Host)
      → IsSound id j
      → Journal h
      → Journal (cancel_caught_up id j h).0
  cancel_caught_up-Journal id j h s k = elim (cancel_jobs id j h) [
    | inl e ↦ jobs-AllSound (put_job j id h).jobs _ e (put-Journal id j h s k)
    | inr e ↦ jobs-AllSound _ _ e (
        put-Journal id (record j { cancelled = true; generation = j.generation + 1 }) h
          (cancelled-IsSound id j s) k)
  ]

  cancel_job-Journal : (id : Bytes) (h : Host) → Journal h → Journal (cancel_job now id h).0
  unfolding cancel_job
  cancel_job-Journal id h k = elim (Option-cases (h.jobs id)) [
    | inl e ↦ rw (e, cancel_job) k
    | inr (j, e) ↦
        rw (e, cancel_job)
          (cancel_caught_up-Journal id _ h (catch_up-IsSound h.step_every now id j (k id j e)) k)
  ]

  advance_found-Journal :
      (id : Bytes) (o : Option Job) (h : Host)
      → h.jobs id ≡ o
      → Journal h
      → Journal (advance_found now id o h).0
  advance_found-Journal id none h e k = k
  advance_found-Journal id (some j) h e k = elim (Bool-cases (done j)) [
    | inl p ↦ rw p k
    | inr p ↦ rw p (put-Journal id _ h (advanced-IsSound id now j (k id j e) p) k)
  ]

  forget-Journal : (id : Bytes) (h : Host) → Journal h → Journal (forget id h)
  unfolding forget
  forget-Journal id h k = λ id' j e. k id' j (ground arith)

  -- Whatever is asked of it, the fixture keeps its journal sound.
  pub serve-Journal : (event : Event) (h : Host) → Journal h → Journal (serve c now event h)
  unfolding serve advance
  serve-Journal (submitting req) h k = submit_job-Journal req h k
  serve-Journal (getting id) h k = get_job-Journal id h k
  serve-Journal (cancelling id) h k = cancel_job-Journal id h k
  serve-Journal (advancing id) h k = advance_found-Journal id (h.jobs id) h refl k
  serve-Journal (forgetting id) h k = forget-Journal id h k
  serve-Journal (choosing outcome) h k = k
  serve-Journal (pacing every) h k = k
