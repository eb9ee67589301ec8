-- ===== src/Appliance/HostFixture/Plans.antt =====
-- The plans of the fixture and what it says it can do (internal/appliance/hostfixture/fixture.go).
use loxilb_oam.Prelude.{
  ℕ, ◌+◌, ◌≡◌, refl, ap, ◌∙◌, true, false, not, ◌||◌, Option, none, some, List, [], ◌∷◌, map, Bytes,
  bytes, ◌==◌, is_empty, arith, if◌then◌else◌,
}
use loxilb_oam.Appliance.Operation.{OperationType, OperationState, Plan, valid_type, action}
use loxilb_oam.Appliance.Host.{HostPlanRequest, HostPlan, HostJobRequest, HostJob}
use loxilb_oam.Appliance.Capabilities.{all_actions, HostCapabilities, host_unsupported}
use loxilb_oam.Appliance.HostAuth.{Crypto}
use loxilb_oam.Appliance.HostFixture.{
  Outcome, step, script, entry, entry_at, current, get_elem?, past, point,
}
use loxilb_oam.Appliance.HostFixture.Serving.{
  Host, answer, fixture_installation_id, fake_digest, plan_hash, new_job, start, submit_new,
  submit_job, submitted,
}

abbrev pub ref_missing : Bytes
ref_missing = bytes "missing"

abbrev fixture_release_digest : Bytes
fixture_release_digest =
    bytes "sha256:0000000000000000000000000000000000000000000000000000000000000000"

pub data PlanReply : Type 0 where
  planned : HostPlan → PlanReply
  refused : Bytes → PlanReply
  unreadable : PlanReply

abbrev no_effect : Plan
no_effect = record {
  irreversible_after_phase = [];
  current_release_digest = fixture_release_digest;
  target_release_digest = [];
  archive_digest = [];
  compatibility = bytes "compatible";
  affected_resources = [];
}

abbrev everything : List Bytes
everything = bytes "oam-database" ∷ bytes "gateway-config" ∷ bytes "host-config" ∷ []

unfoldable pub plan_of : Crypto → OperationType → HostPlanRequest → Plan
unfolding fake_digest
plan_of c OperationType.backup req = record no_effect { affected_resources = everything }
plan_of c OperationType.restore req = record no_effect {
  archive_digest = fake_digest c (bytes "archive" ∷ req.archive_ref ∷ []);
  irreversible_after_phase = bytes "stop-services";
  affected_resources =
      bytes "oam-database" ∷ bytes "gateway-config" ∷ bytes "host-config" ∷ bytes "sessions" ∷ [];
}
plan_of c OperationType.update req = record no_effect {
  target_release_digest = fake_digest c (bytes "release" ∷ req.target_release_ref ∷ []);
  irreversible_after_phase = bytes "switch-slot";
  affected_resources = bytes "release-slot" ∷ bytes "oam-database" ∷ [];
}
plan_of c OperationType.rollback req = record no_effect {
  target_release_digest = fake_digest c (bytes "release" ∷ bytes "previous" ∷ []);
  irreversible_after_phase = bytes "switch-slot";
  affected_resources = bytes "release-slot" ∷ bytes "oam-database" ∷ [];
}
plan_of c OperationType.reset req = record no_effect {
  irreversible_after_phase = bytes "wipe-state";
  affected_resources =
      bytes "oam-database"
      ∷ bytes "gateway-config"
      ∷ bytes "host-config"
      ∷ bytes "sessions"
      ∷ bytes "backups"
      ∷ [];
}
plan_of c (OperationType.unknown s) req = no_effect

abbrev pub plan_for : Crypto → HostPlanRequest → HostPlan
plan_for c req = record {
  plan_hash = plan_hash c req.type req.archive_ref req.target_release_ref;
  installation_id = fixture_installation_id;
  model = bytes "fixture";
  fixture = true;
  plan = plan_of c req.type req;
}

unfoldable pub plan : Crypto → Option HostPlanRequest → Host → PlanReply
unfolding plan_of plan_hash
plan c none h = unreadable
plan c (some req) h =
    if not (valid_type req.type) || not (h.available (action req.type))
    then refused (bytes "HOST_UNSUPPORTED")
    else if req.archive_ref == ref_missing
    then refused (bytes "ARCHIVE_NOT_FOUND")
    else if req.target_release_ref == ref_missing
    then refused (bytes "RELEASE_NOT_FOUND")
    else planned (plan_for c req)

-- What the handler of capabilities writes, for the contract versions that it is set to speak.
unfoldable pub capabilities : List Bytes → ℕ → Host → HostCapabilities
capabilities versions now h = record {
  contract_versions = versions;
  fixture = true;
  actions =
      map
        (λ a. record {
          action = a;
          available = h.available a;
          reason = if h.available a then none else some host_unsupported;
        })
        all_actions;
  observed_at = now;
}

-- The request to carry out a plan.
abbrev pub job_for : Bytes → HostPlanRequest → HostPlan → HostJobRequest
job_for id req p = record {
  operation_id = id;
  type = req.type;
  installation_id = p.installation_id;
  plan_hash = p.plan_hash;
  archive_ref = req.archive_ref;
  target_release_ref = req.target_release_ref;
}

accepted :
    (c : Crypto) (now : ℕ) (id : Bytes) (req : HostPlanRequest) (p : HostPlan) (h h' : Host)
    → plan c (some req) h ≡ planned p
    → h'.available ≡ h.available
    → submit_new c now (job_for id req p) h' ≡ start now (job_for id req p) h'
unfolding plan submit_new
accepted c now id req p h h' e a =
    let same : h'.available (action req.type) ≡ h.available (action req.type) =
      ap (λ f. f (action req.type)) a in
    ground arith

past_first :
    (p : Bytes) (o : Outcome) → get_elem? (past p o).0 0 ≡ some (step OperationState.queued [])
past_first [] o = refl
past_first (c ∷ p) o = refl

script_first :
    (t : OperationType) (o : Outcome)
    → get_elem? (script t o).0 0 ≡ some (step OperationState.queued [])
unfolding script
script_first t Outcome.fail = refl
script_first t Outcome.recovery = past_first (point t) Outcome.recovery
script_first t Outcome.succeed = past_first (point t) Outcome.succeed
script_first t (Outcome.other x) = past_first (point t) (Outcome.other x)

new_entry :
    (h : Host) (now : ℕ) (req : HostJobRequest)
    → entry (new_job h now req)
      ≡ some (entry_at (new_job h now req) (step OperationState.queued []))
unfolding entry current
new_entry h now req = let f = script_first req.type h.outcome in ground arith

started_answer :
    (h : Host) (now : ℕ) (req : HostJobRequest)
    → (start now req h).1 ≡ answer (entry_at (new_job h now req) (step OperationState.queued []))
unfolding start
started_answer h now req = let e = new_entry h now req in ground arith

started_count :
    (h : Host) (now : ℕ) (req : HostJobRequest)
    → (start now req h).0.executions req.operation_id ≡ h.executions req.operation_id + 1
unfolding start
started_count h now req = ground arith

submitted_anew :
    (c : Crypto) (now : ℕ) (req : HostJobRequest) (h : Host)
    → is_empty req.operation_id ≡ false
    → h.jobs req.operation_id ≡ none
    → submit_job c now (some req) h ≡ submit_new c now req (submitted req h)
unfolding submit_job
submitted_anew c now req h i n = ground arith

-- What was planned can be submitted: if the fixture planned a request, and still offers the same
-- operations, it starts a job for the plan under an identifier that is not empty and that its journal
-- does not have; the answer is a queued entry of that operation, of the first generation, and one
-- more execution is counted.
pub plan-submit_job :
    (c : Crypto) (now : ℕ) (id : Bytes) (req : HostPlanRequest) (p : HostPlan) (h h' : Host)
    → plan c (some req) h ≡ planned p
    → h'.available ≡ h.available
    → is_empty id ≡ false
    → h'.jobs id ≡ none
    → (e : HostJob) × ((submit_job c now (some (job_for id req p)) h').1 ≡ answer e)
      × (e.operation_id ≡ id)
      × (e.state ≡ OperationState.queued)
      × (e.generation ≡ 1)
      × ((submit_job c now (some (job_for id req p)) h').0.executions id ≡ h'.executions id + 1)
plan-submit_job c now id req p h h' planning offers i n =
    let job = job_for id req p in
    let same =
      submitted_anew c now job h' i n
      ∙ accepted c now id req p h (submitted job h') planning offers in
    (
      entry_at (new_job (submitted job h') now job) (step OperationState.queued []),
      ap (λ x. x.1) same ∙ started_answer (submitted job h') now job,
      refl,
      refl,
      refl,
      ap (λ x. x.0.executions id) same ∙ started_count (submitted job h') now job,
    )
