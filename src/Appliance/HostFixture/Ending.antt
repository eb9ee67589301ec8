-- ===== src/Appliance/HostFixture/Ending.antt =====
-- Jobs of the fixture come to their end, and not by a cancellation that comes too late
-- (internal/appliance/hostfixture/jobs.go).
use loxilb_oam.Prelude.{
  ℕ, zero, suc, ◌+◌, ◌-◌, ◌*◌, ◌<◌, ◌≤◌, ◌≡◌, sym, ap, ◌∙◌, true, false, not, ◌&&◌, some, Bytes,
  length, leb, arith, Bool-cases, inl, inr,
}
use loxilb_oam.Appliance.HostFixture.{Job, done, advanced, catch_up_loop, catch_up}
use loxilb_oam.Appliance.HostFixture.Serving.{Host, answer_entry, get_job}

-- The steps that a job has left.
abbrev pub left : Job → ℕ
left j = length j.script - 1 - j.position

-- Nothing is due: the job is done, or its next step is to come.
abbrev pub IsCaughtUp : ℕ → ℕ → Job → Type 0
IsCaughtUp every now j = (not (done j) && leb every (now - j.stepped_at)) ≡ false

left_after :
    (j : Job) (at : ℕ)
    → j.position < length j.script
    → done j ≡ false
    → left (advanced at j) + 1 ≡ left j
unfolding done
left_after j at h d = ground arith

done_left : (j : Job) → j.position < length j.script → left j ≡ 0 → done j ≡ true
unfolding done
done_left j h e = ground arith

within_after :
    (j : Job) (at : ℕ)
    → j.position < length j.script
    → done j ≡ false
    → (advanced at j).position < length j.script
unfolding done
within_after j at h d = ground arith

catch_up_loop-IsCaughtUp :
    (rounds every now : ℕ) (j : Job)
    → j.position < length j.script
    → left j ≤ rounds
    → IsCaughtUp every now (catch_up_loop rounds every now j)
unfolding catch_up_loop
catch_up_loop-IsCaughtUp zero every now j h l = let d = done_left j h (omega arith) in ground arith
catch_up_loop-IsCaughtUp (suc rounds) every now j h l =
    elim (Bool-cases (not (done j) && leb every (now - j.stepped_at))) [
      | inl p ↦
          let at = j.stepped_at + every in
          let d : done j ≡ false = ground arith in
          let e = left_after j at h d in
          rw (p, catch_up_loop)
            (catch_up_loop-IsCaughtUp rounds every now (advanced at j) (within_after j at h d)
              (omega arith))
      | inr p ↦ rw (p, catch_up_loop) p
    ]

mul_next : (n k : ℕ) → (n + 1) * k ≡ n * k + k
mul_next n k = grind arith

-- With time for all the steps that are left, the loop gets to the end.
catch_up_loop_done :
    (rounds every now : ℕ) (j : Job)
    → j.position < length j.script
    → left j ≤ rounds
    → j.stepped_at + left j * every ≤ now
    → done (catch_up_loop rounds every now j) ≡ true
unfolding catch_up_loop
catch_up_loop_done zero every now j h l t = done_left j h (omega arith)
catch_up_loop_done (suc rounds) every now j h l t = elim (Bool-cases (done j)) [
  | inl d ↦
      let due : (not (done j) && leb every (now - j.stepped_at)) ≡ false = ground arith in
      rw (due, catch_up_loop) d
  | inr d ↦
      let e = left_after j (j.stepped_at + every) h d in
      let span =
        ap (λ n. n * every) (sym e) ∙ mul_next (left (advanced (j.stepped_at + every) j)) every in
      let room : every ≤ now - j.stepped_at = omega arith in
      let due : (not (done j) && leb every (now - j.stepped_at)) ≡ true = ground arith in
      rw (due, catch_up_loop)
        (catch_up_loop_done rounds every now (advanced (j.stepped_at + every) j)
          (within_after j (j.stepped_at + every) h d) (omega arith) (omega arith))
]

-- The loop of catchUp ends by its own test: as many rounds as the script has steps are enough for a
-- job that stands in its script, so that after it the job is done, or its next step is not due.
pub catch_up-IsCaughtUp :
    (every now : ℕ) (j : Job)
    → 0 < every
    → j.position < length j.script
    → IsCaughtUp every now (catch_up every now j)
unfolding catch_up
catch_up-IsCaughtUp every now j p h =
    ground (arith, catch_up_loop-IsCaughtUp (length j.script) every now j h (omega arith))

catch_up_done :
    (every now : ℕ) (j : Job)
    → 0 < every
    → j.position < length j.script
    → j.stepped_at + left j * every ≤ now
    → done (catch_up every now j) ≡ true
unfolding catch_up
catch_up_done every now j p h t =
    ground (arith, catch_up_loop_done (length j.script) every now j h (omega arith) t)

-- A job gets to its end by itself: on a fixture that steps jobs, reading it when the time for the
-- steps that it has left has passed finds it done.
pub get_job_done :
    (now : ℕ) (id : Bytes) (h : Host) (j : Job)
    → 0 < h.step_every
    → h.jobs id ≡ some j
    → j.position < length j.script
    → j.stepped_at + left j * h.step_every ≤ now
    → (k : Job) × ((get_job now id h).0.jobs id ≡ some k)
      × (done k ≡ true)
      × ((get_job now id h).1 ≡ answer_entry k)
unfolding get_job
get_job_done now id h j p e i t =
    let k = catch_up h.step_every now j in
    (k, ground arith, catch_up_done h.step_every now j p i t, ground arith)
