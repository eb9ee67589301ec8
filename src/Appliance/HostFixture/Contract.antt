-- ===== src/Appliance/HostFixture/Contract.antt =====
-- The fixture keeps its side of the contract: the client of internal/appliance/host.go takes every
-- entry of its journal (internal/appliance/hostfixture/jobs.go).
use loxilb_oam.Prelude.{
  ℕ, zero, suc, ◌+◌, ◌-◌, ◌<◌, ◌≡◌, refl, ap, ◌∙◌, true, false, not, ◌&&◌, some, List, [], ◌∷◌,
  Bytes, length, leb, all, ok, arith, Bool-cases, inl, inr,
}
use loxilb_oam.Appliance.Operation.{host_owned}
use loxilb_oam.Appliance.Host.{HostJob, check_job}
use loxilb_oam.Appliance.HostFixture.{
  Step, Job, get_elem?, current_if, current, done, entry, entry_at, advanced, catch_up_loop,
  catch_up,
}

-- An entry of the journal under its operation: it stands in its script, of states that are the
-- host's.
pub record IsSound (id : Bytes) (j : Job) : Type 0 where
  pub named : j.request.operation_id ≡ id
  pub inside : j.position < length j.script
  pub owned : all (λ s. host_owned s.state) j.script ≡ true
  pub started : 0 < j.generation

pub advanced-IsSound :
    (id : Bytes) (at : ℕ) (j : Job) → IsSound id j → done j ≡ false → IsSound id (advanced at j)
unfolding done
advanced-IsSound id at j s d = ground arith

catch_up_loop-IsSound :
    (rounds every now : ℕ) (id : Bytes) (j : Job)
    → IsSound id j
    → IsSound id (catch_up_loop rounds every now j)
unfolding catch_up_loop
catch_up_loop-IsSound zero every now id j s = s
catch_up_loop-IsSound (suc rounds) every now id j s =
    elim (Bool-cases (not (done j) && leb every (now - j.stepped_at))) [
      | inl p ↦
          rw (p, catch_up_loop)
            (catch_up_loop-IsSound rounds every now id _
              (advanced-IsSound id (j.stepped_at + every) j s (ground arith)))
      | inr p ↦ rw (p, catch_up_loop) s
    ]

pub catch_up-IsSound :
    (every now : ℕ) (id : Bytes) (j : Job) → IsSound id j → IsSound id (catch_up every now j)
unfolding catch_up
catch_up-IsSound every now id j s =
    ground (arith, catch_up_loop-IsSound (length j.script) every now id j s)

owned_at :
    (ss : List Step) (i : ℕ)
    → i < length ss
    → all (λ s. host_owned s.state) ss ≡ true
    → (s : Step) × (get_elem? ss i ≡ some s) × (host_owned s.state ≡ true)
owned_at [] i h a = absurd (omega arith)
owned_at (s ∷ ss) zero h a = (s, refl, ground arith)
owned_at (s ∷ ss) (suc i) h a = owned_at ss i (omega arith) (ground arith)

current-IsSound :
    (id : Bytes) (j : Job)
    → IsSound id j
    → (s : Step) × (current j ≡ some s) × (host_owned s.state ≡ true)
unfolding current
current-IsSound id j s = elim (Bool-cases j.cancelled) [
  | inl c ↦ (_, ap (λ b. current_if b j) c, unfold host_owned in refl)
  | inr c ↦
      let (at, p, o) = owned_at j.script j.position s.inside s.owned in
      (at, ap (λ b. current_if b j) c ∙ p, o)
]

entry_lem : (j : Job) (s : Step) → current j ≡ some s → entry j ≡ some (entry_at j s)
unfolding entry
entry_lem j s e = ground arith

entry_at-IsSound :
    (id : Bytes) (j : Job) (s : Step)
    → IsSound id j
    → host_owned s.state ≡ true
    → check_job (entry_at j s) id ≡ ok (entry_at j s)
unfolding check_job
entry_at-IsSound id j s k o = ground arith

-- The entry of a sound job can be given, and the client takes it.
pub entry-IsSound :
    (id : Bytes) (j : Job)
    → IsSound id j
    → (e : HostJob) × (entry j ≡ some e) × (check_job e id ≡ ok e)
entry-IsSound id j s =
    let (at, p, o) = current-IsSound id j s in
    (entry_at j at, entry_lem j at p, entry_at-IsSound id j at s o)
