-- ===== src/Appliance/Capabilities/Sound.antt =====
-- What the capability report (internal/appliance/service.go) may claim.
use loxilb_oam.Prelude.{
  ◌≡◌, ◌↔◌, refl, sym, ap, ◌∙◌, inl, inr, Bool-cases, Bool, true, false, Option, none, some, List,
  [], ◌∷◌, map, any, All, Result, ok, arith,
}
use mathlib.Core.Option
use loxilb_oam.Appliance.Contract.{Action, destructive}
use loxilb_oam.Appliance.Operation.{OperationState, active, ◌is◌}
use loxilb_oam.Appliance.Host.{HostError}
use loxilb_oam.Appliance.Store.Row.{Row, find_row}
use loxilb_oam.Appliance.Store.World.{World}
use loxilb_oam.Appliance.Planning.Replay.{Quiet, query-Quiet}
use loxilb_oam.Appliance.Capabilities.{
  UnavailableReason, recovery_required, operation_in_progress, all_actions, HostActionState,
  HostCapabilities, ActionCapability, blanket_reason, by_action, host_actions, occupying_state,
  occupied_reason, judge, action_entry, occupied, capabilities,
}

-- What an entry may claim: it has a reason exactly if it is not available; what is available is
-- supported, and the host lists it as available.
pub record Sound (host : Result HostError HostCapabilities) (permitted : Action → Bool)
    (e : ActionCapability) : Type 0 where
  pub reasoned : (e.available ≡ true) ↔ (e.unavailable_reason ≡ none)
  pub supported : e.available ≡ true → e.supported ≡ true
  pub listed :
      e.available ≡ true
      → (s : HostActionState) × (by_action e.action (host_actions host) ≡ some s)
        × (s.available ≡ true)
  pub serving : e.available ≡ true → blanket_reason host ≡ none
  pub asked : e.permitted ≡ permitted e.action
  pub guarded : e.requires_reauthentication ≡ destructive e.action

abbrev blank : (Action → Bool) → Action → ActionCapability
blank permitted a = record {
  action = a;
  supported = false;
  available = false;
  unavailable_reason = none;
  permitted = permitted a;
  requires_reauthentication = destructive a;
}

module _ (permitted : Action → Bool) (a : Action) (blanket busy : Option UnavailableReason)
    (state : Option HostActionState) where
  abbrev judged : ActionCapability
  judged = judge blanket busy state (blank permitted a)

  judge-reasoned : (judged.available ≡ true) ↔ (judged.unavailable_reason ≡ none)
  judge-reasoned = ground arith

  judge-supported : judged.available ≡ true → judged.supported ≡ true
  judge-supported h = ground arith

  judge-listed :
      judged.available ≡ true → (s : HostActionState) × (state ≡ some s) × (s.available ≡ true)
  judge-listed h = ground arith

  judge-serving : judged.available ≡ true → blanket ≡ none
  judge-serving h = ground arith

  judge-kept :
      (judged.permitted ≡ permitted a)
      × (judged.requires_reauthentication ≡ destructive a)
      × (judged.action ≡ a)
  judge-kept = ground arith

  judge-occupied :
      (reason : UnavailableReason)
      → busy ≡ some reason
      → judged.available ≡ true
      → judged.action ≡ Action.diagnostics
  judge-occupied reason e h = ground arith

judge-blanket :
    (permitted : Action → Bool) (a : Action) (reason : UnavailableReason)
    (busy : Option UnavailableReason) (state : Option HostActionState)
    → (judge (some reason) busy state (blank permitted a)).available ≡ true
    → (judge (some reason) busy state (blank permitted a)).action ≡ Action.diagnostics
judge-blanket permitted a reason busy state h = ground arith

All-map {ℓ κ} :
    {A : Type ℓ} {B : Type κ} (P : B → Type 0) (f : A → B) (xs : List A)
    → ((a : A) → P (f a))
    → All P (map f xs)
All-map P f [] h = tt
All-map P f (x ∷ xs) h = (h x, All-map P f xs h)

entry-Sound :
    (host : Result HostError HostCapabilities) (permitted : Action → Bool)
    (busy : Option UnavailableReason) (a : Action)
    → Sound host permitted (action_entry permitted (blanket_reason host) busy (host_actions host) a)
unfolding action_entry
entry-Sound host permitted busy a =
    let b = blanket_reason host in
    let s = by_action a (host_actions host) in
    let (p, g, k) = judge-kept permitted a b busy s in
    record {
      reasoned = judge-reasoned permitted a b busy s;
      supported = judge-supported permitted a b busy s;
      listed = λ h. rw k (judge-listed permitted a b busy s h);
      serving = judge-serving permitted a b busy s;
      asked = p ∙ ap permitted (sym k);
      guarded = g ∙ ap destructive (sym k);
    }

-- Every entry of a report is sound, whatever the host answered and whether or not the tables could
-- be read: it gives a reason exactly if the action is not available; an available action is
-- supported, listed as available by the host (in the last entry that the host has for it), and the
-- host answered in the contract version that OAM speaks; and whether the caller may ask for it and
-- must reauthenticate does not depend on the host.
pub capabilities-Sound :
    (host : Result HostError HostCapabilities) (permitted : Action → Bool) (w : World)
    → All (Sound host permitted) (capabilities host permitted w).0.actions
unfolding capabilities
capabilities-Sound host permitted w =
    All-map (Sound host permitted) _ all_actions
      (entry-Sound host permitted (occupied (blanket_reason host) w).0)

found_active :
    (rows : List Row)
    → any (λ r. active r.state) rows ≡ true
    → (r : Row) × (find_row (λ r. active r.state) rows ≡ some r)
unfolding find_row
found_active [] h = absurd (ground arith)
found_active (r ∷ rows) h = elim (Bool-cases (active r.state)) [
  | inl y ↦ (r, rw y)
  | inr n ↦ (let (q, e) = found_active rows (ground arith) in (q, rw n e))
]

first_state :
    (o p : Option Row) (r : Row)
    → p ≡ some r
    → (s : OperationState) × ((elim o [
      | some q ↦ some q.state
      | none ↦ Option.map (λ q. q.state) p
    ])
        ≡ some s)
first_state (some q) p r e = (q.state, refl)
first_state none p r e = (r.state, ap (Option.map (λ q. q.state)) e)

occupying_by_active :
    (rows : List Row)
    → any (λ r. active r.state) rows ≡ true
    → (s : OperationState) × (occupying_state rows ≡ some s)
unfolding occupying_state
occupying_by_active rows h =
    let (r, e) = found_active rows h in
    first_state (find_row (λ r. r.state is OperationState.recovery_required) rows)
      (find_row (λ r. active r.state) rows) r e

reason_of_state :
    (s : OperationState)
    → (reason : UnavailableReason) × (occupied_reason (ok (some s)) ≡ some reason)
unfolding occupied_reason
reason_of_state s = elim (Bool-cases (s is OperationState.recovery_required)) [
  | inl y ↦ (recovery_required, rw y)
  | inr n ↦ (operation_in_progress, rw n)
]

occupied_by_active :
    (rows : List Row)
    → any (λ r. active r.state) rows ≡ true
    → (reason : UnavailableReason) × (occupied_reason (ok (occupying_state rows)) ≡ some reason)
occupied_by_active rows h =
    let (s, e) = occupying_by_active rows h in
    let (reason, q) = reason_of_state s in (reason, rw e q)

occupied-Quiet :
    (w : World)
    → Quiet w
    → occupied none w ≡ (occupied_reason (ok (occupying_state w.db.operations)), w)
unfolding occupied
occupied-Quiet w q =
    ap (λ x. (occupied_reason x.0, x.1)) (query-Quiet (λ now db. occupying_state db.operations) w q)

diagnostics_or_blanket :
    (host : Result HostError HostCapabilities) (permitted : Action → Bool) (w : World)
    (b : Option UnavailableReason) (a : Action)
    → Quiet w
    → any (λ r. active r.state) w.db.operations ≡ true
    → (action_entry permitted b (occupied b w).0 (host_actions host) a).available ≡ true
    → (action_entry permitted b (occupied b w).0 (host_actions host) a).action ≡ Action.diagnostics
unfolding action_entry
diagnostics_or_blanket host permitted w (some reason) a q h =
    judge-blanket permitted a reason (occupied (some reason) w).0 (by_action a (host_actions host))
diagnostics_or_blanket host permitted w none a q h =
    let (reason, e) = occupied_by_active w.db.operations h in
    judge-occupied permitted a none (occupied none w).0 (by_action a (host_actions host)) reason
      (ap (λ x. x.0) (occupied-Quiet w q) ∙ e)

-- While some operation is active, nothing but diagnostics is reported as available. With no failing
-- statement and no other session.
pub capabilities-occupied :
    (host : Result HostError HostCapabilities) (permitted : Action → Bool) (w : World)
    → Quiet w
    → any (λ r. active r.state) w.db.operations ≡ true
    → All
        (λ e. e.available ≡ true → e.action ≡ Action.diagnostics)
        (capabilities host permitted w).0.actions
unfolding capabilities
capabilities-occupied host permitted w q h =
    All-map (λ (e : ActionCapability). e.available ≡ true → e.action ≡ Action.diagnostics)
      (action_entry permitted (blanket_reason host) (occupied (blanket_reason host) w).0
        (host_actions host))
      all_actions (λ a. diagnostics_or_blanket host permitted w (blanket_reason host) a q h)
