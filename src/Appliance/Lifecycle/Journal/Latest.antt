-- ===== src/Appliance/Lifecycle/Journal/Latest.antt =====
-- Following the host journal (internal/appliance/lifecycle.go, applyJob): what a row shows after
-- entries that come repeated, late or in any order.
use loxilb_oam.Prelude.{
  ℕ, ◌≡◌, ap, ◌∙◌, Bool, ◌&&◌, not, List, [], ◌∷◌, Bytes, arith, ltb, Bool-cases, inl, inr,
  if◌then◌else◌,
}
use Prim.Native.Nat.{max}
use loxilb_oam.Appliance.Operation.{OperationState, terminal}
use loxilb_oam.Appliance.Host.{HostJob}
use loxilb_oam.Appliance.Store.Row.{Row}
use loxilb_oam.Appliance.Store.Statements.{touch}
use loxilb_oam.Appliance.Lifecycle.Journal.{follow, is_newer, stored_code, stored_origin}

-- What a row shows of the journal.
pub record Shown : Type 0 where
  pub state : OperationState
  pub phase : Bytes
  pub generation : ℕ
  pub cancellable : Bool
  pub error_code : Bytes
  pub error_origin : Bytes

abbrev pub shown : Row → Shown
shown r = record {
  state = r.state;
  phase = r.phase;
  generation = r.host_generation;
  cancellable = r.cancellable;
  error_code = r.error_code;
  error_origin = r.error_origin;
}

-- What a row that follows an entry shows.
abbrev pub entry_shown : HostJob → Shown
entry_shown job = record {
  state = job.state;
  phase = job.phase;
  generation = job.generation;
  cancellable = job.cancellable && not (terminal job.state);
  error_code = stored_code job.error_code;
  error_origin = stored_origin job.error_code;
}

-- The row after the update of applyJob.
abbrev pub absorb : Bytes → HostJob → ℕ → Row → Row
absorb id job now r = if is_newer id job now r then touch now (follow job now r) else r

shown-absorb :
    (id : Bytes) (job : HostJob) (now : ℕ) (r : Row)
    → r.id ≡ id
    → shown (absorb id job now r)
      ≡ (if ltb r.host_generation job.generation then entry_shown job else shown r)
unfolding follow
shown-absorb id job now r e = ground arith

id-absorb : (id : Bytes) (job : HostJob) (now : ℕ) (r : Row) → (absorb id job now r).id ≡ r.id
unfolding follow
id-absorb id job now r = ground arith

-- A row takes in answers one after the other, each at its time: the journal's entries of the
-- generations `gs`.
abbrev pub absorb_all : Bytes → (ℕ → HostJob) → List (ℕ × ℕ) → Row → Row
absorb_all id journal [] r = r
absorb_all id journal ((g, now) ∷ gs) r = absorb_all id journal gs (absorb id (journal g) now r)

abbrev pub latest : List (ℕ × ℕ) → ℕ
latest [] = 0
latest ((g, now) ∷ gs) = max g (latest gs)

generation-shown :
    (journal : ℕ → HostJob) (g : ℕ) (r s : Row)
    → (journal g).generation ≡ g
    → shown s ≡ (if ltb r.host_generation g then entry_shown (journal g) else shown r)
    → s.host_generation ≡ (if ltb r.host_generation g then g else r.host_generation)
generation-shown journal g r s e q = elim (Bool-cases (ltb r.host_generation g)) [
  | inl y ↦ ap (λ x. x.generation) q ∙ (ground arith)
  | inr n ↦ ap (λ x. x.generation) q ∙ (ground arith)
]

max_lem : (g h : ℕ) → max g h ≡ (if ltb g h then h else g)
max_lem g h = grind arith

keep_latest {ℓ} :
    {A : Type ℓ} (f : ℕ → A) (x : A) (n g h k m : ℕ)
    → k ≡ (if ltb n g then g else n)
    → m ≡ (if ltb g h then h else g)
    → (if ltb k h then f h else if ltb n g then f g else x) ≡ (if ltb n m then f m else x)
keep_latest f x n g h k m e q = ground arith

-- Answers about one operation that name journal entries of any generations, in any order and any
-- number of times, applied one after the other to its row, leave it showing the entry of the
-- highest generation among them (state, phase, generation, cancellability and error), or what it
-- showed before if no generation is above the row's.
pub absorb_all-latest :
    (id : Bytes) (journal : ℕ → HostJob)
    → ((g : ℕ) → (journal g).generation ≡ g)
    → (gs : List (ℕ × ℕ)) (r : Row) → r.id ≡ id
    → shown (absorb_all id journal gs r)
      ≡ (if ltb r.host_generation (latest gs) then entry_shown (journal (latest gs)) else shown r)
absorb_all-latest id journal named [] r e = ground arith
absorb_all-latest id journal named ((g, now) ∷ gs) r e =
    let s : Row = absorb id (journal g) now r in
    let q : shown s ≡ (if ltb r.host_generation g then entry_shown (journal g) else shown r) =
      shown-absorb id (journal g) now r e
      ∙ ap (λ x. if ltb r.host_generation x then entry_shown (journal g) else shown r) (named g) in
    let k = generation-shown journal g r s (named g) q in
    let rest = absorb_all-latest id journal named gs s (id-absorb id (journal g) now r ∙ e) in
    rest
    ∙ ap (λ x. if ltb s.host_generation (latest gs) then entry_shown (journal (latest gs)) else x) q
    ∙ keep_latest (λ x. entry_shown (journal x)) (shown r) r.host_generation g (latest gs)
        s.host_generation (max g (latest gs)) k (max_lem g (latest gs))
