-- ===== src/Appliance/Evolution.antt =====
-- What the appliance package may do to its tables: the guarantee that every operation of
-- internal/appliance gives, whatever fails, and asks of other sessions.
pub mod Rules
pub mod Statements
pub mod Journal
pub mod Submission
pub mod Following
pub mod Planning
pub mod Calls
use loxilb_oam.Prelude.{
  ℕ, ◌≤◌, ◌<◌, ◌≡◌, ◌≢◌, refl, sym, ◌∙◌, ◌⊎◌, inl, inr, Bool, true, false, Option, none, some,
  is_some, List, [], ◌∷◌, ◌++◌, Bytes, arith, All,
}
use mathlib.Core.List.{Memᴰ, append_assoc, append-nil}
use loxilb_oam.Appliance.Operation.{
  OperationState, OperationType, PlanRequest, terminal, host_owned,
}
use loxilb_oam.Appliance.Store.Row.{Row, ChallengeRow, AuditRow, Db, has_conflict}
use loxilb_oam.Appliance.Store.World.{Error, Turn, World, M}

-- A change of one row. What was planned never changes; the journal generation never falls; a
-- submission is not taken back; a terminal state
-- is left only for a newer entry of the journal.
pub record Legal (r q : Row) : Type 0 where
  pub same_id : q.id ≡ r.id
  pub same_type : q.type ≡ r.type
  pub same_installation : q.installation_id ≡ r.installation_id
  pub same_owner : q.actor_user_id ≡ r.actor_user_id
  pub same_key : q.idempotency_key ≡ r.idempotency_key
  pub same_request : q.request ≡ r.request
  pub same_request_hash : q.request_hash ≡ r.request_hash
  pub same_plan : q.plan ≡ r.plan
  pub same_plan_hash : q.plan_hash ≡ r.plan_hash
  pub same_expiry : q.plan_expires_at ≡ r.plan_expires_at
  pub generation : r.host_generation ≤ q.host_generation
  pub submitted : is_some r.submitted_at ≡ true → is_some q.submitted_at ≡ true
  pub settled :
      terminal r.state ≡ true → (q.state ≡ r.state) ⊎ (r.host_generation < q.host_generation)

pub Legal-refl : (r : Row) → Legal r r
Legal-refl r = ground arith

pub Legal-trans : {r q s : Row} → Legal r q → Legal q s → Legal r s
Legal-trans {r} {q} {s} a b = ground arith

-- Rows change legally and none is deleted; new ones come behind.
abbrev pub Grown : List Row → List Row → Type 0
Grown [] new = Unit
Grown (r ∷ rs) [] = ⊥
Grown (r ∷ rs) (q ∷ qs) = Legal r q × Grown rs qs

pub Grown-refl : (rs : List Row) → Grown rs rs
Grown-refl [] = tt
Grown-refl (r ∷ rs) = (Legal-refl r, Grown-refl rs)

pub Grown-trans : (a b c : List Row) → Grown a b → Grown b c → Grown a c
Grown-trans [] b c g h = tt
Grown-trans (r ∷ a) [] c g h = absurd g
Grown-trans (r ∷ a) (q ∷ b) [] g h = absurd h
Grown-trans (r ∷ a) (q ∷ b) (s ∷ c) g h = (Legal-trans g.0 h.0, Grown-trans a b c g.1 h.1)

pub Grown-append : (rs new : List Row) → Grown rs (rs ++ new)
Grown-append [] new = tt
Grown-append (r ∷ rs) new = (Legal-refl r, Grown-append rs new)

-- A challenge that was used stays, used.
abbrev pub KeepsUsed : List ChallengeRow → List ChallengeRow → Type 0
KeepsUsed old new = (c : ChallengeRow) → is_some c.consumed_at ≡ true → Memᴰ c old → Memᴰ c new

-- The audit trail is only appended to.
abbrev pub Extends : List AuditRow → List AuditRow → Type 0
Extends old new = (rest : List AuditRow) × (new ≡ old ++ rest)

pub record Evolves (a b : Db) : Type 0 where
  pub rows : Grown a.operations b.operations
  pub one_active : has_conflict a.operations ≡ false → has_conflict b.operations ≡ false
  pub used : KeepsUsed a.challenges b.challenges
  pub trail : Extends a.audits b.audits

pub Evolves-refl : (a : Db) → Evolves a a
Evolves-refl a = record {
  rows = Grown-refl a.operations;
  one_active = λ h. h;
  used = λ c u m. m;
  trail = ([], sym (append-nil a.audits));
}

Extends-trans : (a b c : List AuditRow) → Extends a b → Extends b c → Extends a c
Extends-trans a b c (r, p) (s, q) = (r ++ s, q ∙ (rw p (append_assoc a r s)))

pub Evolves-trans : {a b c : Db} → Evolves a b → Evolves b c → Evolves a c
Evolves-trans {a} {b} {c} g h = record {
  rows = Grown-trans a.operations b.operations c.operations g.rows h.rows;
  one_active = λ p. h.one_active (g.one_active p);
  used = λ k u m. h.used k u (g.used k u m);
  trail = Extends-trans a.audits b.audits c.audits g.trail h.trail;
}

-- Other sessions give the same guarantee.
abbrev pub Fair : List Turn → Type 0
Fair ts = All (λ t. (d : Db) → Evolves d (t.others d)) ts

-- An action that, among fair sessions, changes the tables only so, whatever its result is.
pub record Guarded {ℓ} {A : Type ℓ} (m : M A) : Type ℓ where
  pub evolves : (w : World) → Fair w.turns → Evolves w.db (m w).1.db
  pub fair : (w : World) → Fair w.turns → Fair (m w).1.turns
