-- ===== src/Appliance/HostFixture/Once.antt =====
-- How the journal of the fixture changes: a job is started once, and every change has a higher
-- generation (internal/appliance/hostfixture/jobs.go).
use loxilb_oam.Prelude.{
  ℕ, zero, suc, ◌+◌, ◌<◌, ◌≤◌, ◌≡◌, ◌≢◌, ◌⊎◌, refl, sym, ap, ◌∙◌, true, Option, none, some, is_some,
  List, [], ◌∷◌, Bytes, ◌==◌, length, is_empty, All, arith, Bool-cases, Option-cases, inl, inr,
  if◌then◌else◌,
}
use loxilb_oam.Appliance.Host.{HostJobRequest}
use loxilb_oam.Appliance.HostAuth.{Crypto}
use loxilb_oam.Appliance.HostFixture.{Job, done, advanced, catch_up_loop, catch_up}
use loxilb_oam.Appliance.HostFixture.Serving.{
  Host, put_job, new_job, start, submit_new, submit_known, submitted, submit_job, get_job,
  cancel_job, cancel_caught_up, advance, advance_found, forget, Event, submitting, getting,
  cancelling, advancing, forgetting, choosing, pacing, serve,
}

-- A job as it is, or of a higher generation.
abbrev pub Later : Job → Job → Type 0
Later j k = (k ≡ j) ⊎ (j.generation < k.generation)

catch_up_loop-le :
    (rounds every now : ℕ) (j : Job) → j.generation ≤ (catch_up_loop rounds every now j).generation
unfolding catch_up_loop
catch_up_loop-le zero every now j = omega arith
catch_up_loop-le (suc rounds) every now j =
    ground (arith, catch_up_loop-le rounds every now (advanced (j.stepped_at + every) j))

catch_up_loop-Later : (rounds every now : ℕ) (j : Job) → Later j (catch_up_loop rounds every now j)
unfolding catch_up_loop
catch_up_loop-Later zero every now j = inl refl
catch_up_loop-Later (suc rounds) every now j =
    ground (arith, catch_up_loop-le rounds every now (advanced (j.stepped_at + every) j))

catch_up-Later : (every now : ℕ) (j : Job) → Later j (catch_up every now j)
unfolding catch_up
catch_up-Later every now j = ground (arith, catch_up_loop-Later (length j.script) every now j)

-- What becomes of an operation in the journal, and of the count of its executions: nothing; its job
-- gets a higher generation; or there was none, and one is started.
pub data Moves (o : Option Job) (n : ℕ) (o' : Option Job) (n' : ℕ) : Type 0 where
  kept : o' ≡ o → n' ≡ n → Moves o n o' n'
  moved :
      (j k : Job)
      → o ≡ some j
      → o' ≡ some k
      → j.generation < k.generation
      → n' ≡ n
      → Moves o n o' n'
  begun : (k : Job) → o ≡ none → o' ≡ some k → n' ≡ n + 1 → Moves o n o' n'

equal : (a b : Bytes) → (a == b) ≡ true → a ≡ b
equal a b p = ground arith

module _ (id : Bytes) where
  abbrev pub Steps : Host → Host → Type 0
  Steps h h' = Moves (h.jobs id) (h.executions id) (h'.jobs id) (h'.executions id)

  later-Moves : (j k : Job) (o : Option Job) (n : ℕ) → o ≡ some j → Later j k → Moves o n (some k) n
  later-Moves j k o n e (inl same) = Moves.kept (ap some same ∙ sym e) refl
  later-Moves j k o n e (inr up) = Moves.moved j k e refl up refl

  -- An entry is replaced by a later one, under this identifier or another.
  put-Steps :
      (key : Bytes) (j k : Job) (h : Host)
      → h.jobs key ≡ some j
      → Later j k
      → Steps h (put_job k key h)
  put-Steps key j k h e l = elim (Bool-cases (id == key)) [
    | inl p ↦
        rw p (later-Moves j k (h.jobs id) (h.executions id) (ap h.jobs (equal id key p) ∙ e) l)
    | inr p ↦ rw p (Moves.kept refl refl)
  ]

  moves_to : (h a b : Host) → b ≡ a → Steps h b → Steps h a
  moves_to h a b e m = rw (← e) m

  start-Steps :
      (now : ℕ) (req : HostJobRequest) (h : Host)
      → h.jobs req.operation_id ≡ none
      → Steps h (start now req h).0
  unfolding start
  start-Steps now req h e = elim (Bool-cases (id == req.operation_id)) [
    | inl p ↦
        Moves.begun (new_job h now req) (ap h.jobs (equal id req.operation_id p) ∙ e) (ground arith)
          (ground arith)
    | inr p ↦ Moves.kept (ground arith) (ground arith)
  ]

  module _ (c : Crypto) (now : ℕ) where
    submit_new_cases :
        (req : HostJobRequest) (h : Host)
        → ((submit_new c now req h).0 ≡ h) ⊎ ((submit_new c now req h).0 ≡ (start now req h).0)
    unfolding submit_new
    submit_new_cases req h = ground arith

    submit_known-Steps :
        (req : HostJobRequest) (o : Option Job) (h : Host)
        → h.jobs req.operation_id ≡ o
        → Steps h (submit_known c now req o h).0
    submit_known-Steps req none h e = elim (submit_new_cases req h) [
      | inl same ↦ Moves.kept (ap (λ x. x.jobs id) same) (ap (λ x. x.executions id) same)
      | inr new ↦ moves_to h _ (start now req h).0 (sym new) (start-Steps now req h e)
    ]
    submit_known-Steps req (some j) h e =
        put-Steps req.operation_id j _ h e (catch_up-Later h.step_every now j)

    submit_job-Steps : (req : Option HostJobRequest) (h : Host) → Steps h (submit_job c now req h).0
    unfolding submit_job
    submit_job-Steps none h = Moves.kept refl refl
    submit_job-Steps (some req) h = elim (Bool-cases (is_empty req.operation_id)) [
      | inl p ↦ moves_to h (submit_job c now (some req) h).0 h (ground arith) (Moves.kept refl refl)
      | inr p ↦
          moves_to h (submit_job c now (some req) h).0
            (submit_known c now req (h.jobs req.operation_id) (submitted req h)).0 (ground arith)
            (submit_known-Steps req (h.jobs req.operation_id) (submitted req h) refl)
    ]

    get_job-Steps : (key : Bytes) (h : Host) → Steps h (get_job now key h).0
    unfolding get_job
    get_job-Steps key h = elim (Option-cases (h.jobs key)) [
      | inl e ↦ moves_to h (get_job now key h).0 h (ground arith) (Moves.kept refl refl)
      | inr (j, e) ↦
          moves_to h (get_job now key h).0 (put_job (catch_up h.step_every now j) key h)
            (ground arith) (put-Steps key j _ h e (catch_up-Later h.step_every now j))
    ]

    -- What a cancellation leaves of a job that has caught up.
    abbrev stopped : Job → Job
    stopped j = record j { cancelled = true; generation = j.generation + 1 }

    cancel_cases :
        (key : Bytes) (j : Job) (h : Host)
        → ((cancel_caught_up key j h).0 ≡ put_job j key h)
          ⊎ ((cancel_caught_up key j h).0 ≡ put_job (stopped j) key h)
    cancel_cases key j h = ground arith

    stopped-Later : (j k : Job) → Later j k → Later j (stopped k)
    stopped-Later j k l = ground arith

    cancel_found-Steps :
        (key : Bytes) (j k : Job) (h : Host)
        → h.jobs key ≡ some j
        → Later j k
        → Steps h (cancel_caught_up key k h).0
    cancel_found-Steps key j k h e l = elim (cancel_cases key k h) [
      | inl p ↦ moves_to h _ (put_job k key h) (sym p) (put-Steps key j k h e l)
      | inr p ↦
          moves_to h _ (put_job (stopped k) key h) (sym p)
            (put-Steps key j (stopped k) h e (stopped-Later j k l))
    ]

    cancel_job-Steps : (key : Bytes) (h : Host) → Steps h (cancel_job now key h).0
    unfolding cancel_job
    cancel_job-Steps key h = elim (Option-cases (h.jobs key)) [
      | inl e ↦ moves_to h (cancel_job now key h).0 h (ground arith) (Moves.kept refl refl)
      | inr (j, e) ↦
          moves_to h (cancel_job now key h).0
            (cancel_caught_up key (catch_up h.step_every now j) h).0 (ground arith)
            (cancel_found-Steps key j _ h e (catch_up-Later h.step_every now j))
    ]

    advance_found-Steps :
        (key : Bytes) (o : Option Job) (h : Host)
        → h.jobs key ≡ o
        → Steps h (advance_found now key o h).0
    advance_found-Steps key none h e = Moves.kept refl refl
    advance_found-Steps key (some j) h e = elim (Bool-cases (done j)) [
      | inl p ↦
          moves_to h (advance_found now key (some j) h).0 h (ground arith) (Moves.kept refl refl)
      | inr p ↦
          moves_to h (advance_found now key (some j) h).0 (put_job (advanced now j) key h)
            (ground arith) (put-Steps key j _ h e (inr (omega arith)))
    ]

    -- Unless the operation is forgotten, whatever is asked of the fixture keeps its entry and the
    -- count of its executions, or gives the entry a higher generation and keeps the count, or starts
    -- a job for it where there was none, and counts one more.
    pub serve-Moves :
        (event : Event) (h : Host)
        → event ≢ forgetting id
        → Moves
            (h.jobs id)
            (h.executions id)
            ((serve c now event h).jobs id)
            ((serve c now event h).executions id)
    unfolding serve advance forget
    serve-Moves (submitting req) h n = submit_job-Steps req h
    serve-Moves (getting key) h n = get_job-Steps key h
    serve-Moves (cancelling key) h n = cancel_job-Steps key h
    serve-Moves (advancing key) h n = advance_found-Steps key (h.jobs key) h refl
    serve-Moves (forgetting key) h n = Moves.kept (ground arith) refl
    serve-Moves (choosing outcome) h n = Moves.kept refl refl
    serve-Moves (pacing every) h n = Moves.kept refl refl

-- A call, and when it is made.
pub record Request : Type 0 where
  pub event : Event
  pub at : ℕ

unfoldable pub serve_all : Crypto → List Request → Host → Host
unfolding serve
serve_all c [] h = h
serve_all c (r ∷ rs) h = serve_all c rs (serve c r.at r.event h)

-- One execution for an operation that has an entry, and none for another.
abbrev Counted : Option Job → ℕ → Type 0
Counted o n = n ≡ (if is_some o then 1 else 0)

Counted-Moves : (o o' : Option Job) (n n' : ℕ) → Counted o n → Moves o n o' n' → Counted o' n'
Counted-Moves o o' n n' k (Moves.kept e f) = ground arith
Counted-Moves o o' n n' k (Moves.moved j j' e f l g) = ground arith
Counted-Moves o o' n n' k (Moves.begun j e f g) = ground arith

serve_all-Counted :
    (c : Crypto) (id : Bytes) (rs : List Request) (h : Host)
    → All (λ r. r.event ≢ forgetting id) rs
    → Counted (h.jobs id) (h.executions id)
    → Counted ((serve_all c rs h).jobs id) ((serve_all c rs h).executions id)
unfolding serve_all
serve_all-Counted c id [] h a k = k
serve_all-Counted c id (r ∷ rs) h (n, a) k =
    serve_all-Counted c id rs _ a (Counted-Moves _ _ _ _ k (serve-Moves id c r.at r.event h n))

at_most : (o : Option Job) (n : ℕ) → Counted o n → n ≤ 1
at_most none n k = omega arith
at_most (some j) n k = omega arith

-- However often an operation is submitted, cancelled, read or advanced, and whatever else is asked,
-- a fixture that has neither an entry nor an execution of it executes it at most once, unless it
-- is told to forget it.
pub executed_once :
    (c : Crypto) (id : Bytes) (rs : List Request) (h : Host)
    → All (λ r. r.event ≢ forgetting id) rs
    → h.jobs id ≡ none
    → h.executions id ≡ 0
    → (serve_all c rs h).executions id ≤ 1
executed_once c id rs h a e f =
    let k = serve_all-Counted c id rs h a (ground arith) in
    at_most ((serve_all c rs h).jobs id) ((serve_all c rs h).executions id) k
