-- ===== src/Appliance/Planning/Replay.antt =====
-- Planning with a key that was used before, and what a caller is shown
-- (internal/appliance/operation_service.go).
use loxilb_oam.Prelude.{
  ◌≡◌, refl, sym, ap, ◌∙◌, Bool, true, false, ◌&&◌, Option, none, some, [], Bytes, ◌==◌, Result, ok,
  err, arith, ◌=ℕ◌, if◌then◌else◌,
}
use mathlib.Core.Option
use loxilb_oam.Appliance.Contract.{schema_version}
use loxilb_oam.Appliance.Operation.{Operation, PlanRequest, action, redact}
use loxilb_oam.Appliance.Request.{validate, valid_idempotency_key}
use loxilb_oam.Appliance.Store.Row.{Row, find_row}
use loxilb_oam.Appliance.Store.World.{
  Error, idempotency_key_reused, World, M, idle, statement, pure, ◌>>=◌, continue,
}
use loxilb_oam.Appliance.Store.Statements.{query, exec_operations, scan_operation, operation_by_key}
use loxilb_oam.Appliance.Caller.{Caller, Digest, request_hash}
use loxilb_oam.Appliance.Planning.{
  expire_plans, same_request, plan_or_replay, plan_operation, get_operation, visible_to,
}

-- No other session, no failing statement.
abbrev pub Quiet : World → Type 0
Quiet w = (w.connection ≡ idle) × (w.turns ≡ []) × (w.faults ≡ [])

pub statement-Quiet : (w : World) → Quiet w → statement w ≡ (ok tt, w)
unfolding statement
statement-Quiet w (c, t, f) = ground arith

pub expire_plans-Quiet : (w : World) → Quiet w → Quiet (expire_plans w).1
unfolding expire_plans exec_operations statement
expire_plans-Quiet w (c, t, f) = ground arith

pub query-Quiet {ℓ} :
    {A : Type ℓ} (f : _ → _ → A) (w : World) → Quiet w → query f w ≡ (ok (f w.now w.db), w)
unfolding query
query-Quiet f w q = ap (continue (λ _ v. (ok (f v.now v.db), v))) (statement-Quiet w q)

abbrev pub has_key : Caller → Bytes → Row → Bool
has_key c key r = r.actor_user_id =ℕ c.user_id && r.idempotency_key == key

by_key-Quiet :
    (c : Caller) (key : Bytes) (w : World) (r : Row)
    → Quiet w
    → find_row (has_key c key) w.db.operations ≡ some r
    → operation_by_key c.user_id key w ≡ (ok (some (scan_operation r)), w)
unfolding operation_by_key
by_key-Quiet c key w r q e = query-Quiet _ w q ∙ ap (λ o. (ok (Option.map scan_operation o), w)) e

-- What the checks of PlanOperation let through.
pub record Plannable (c : Caller) (key : Bytes) (req : PlanRequest) : Type 0 where
  pub key_ok : valid_idempotency_key key ≡ true
  pub schema_ok : (req.request_schema == schema_version) ≡ true
  pub request_ok : validate req ≡ ok tt
  pub permitted : c.permitted (action req.request_type) ≡ true

after_checks :
    (d : Digest) (id : Option Bytes) (c : Caller) (key request_id : Bytes) (req : PlanRequest)
    (w : World)
    → Plannable c key req
    → plan_operation d id c key request_id req w
      ≡ continue
          (λ existing. plan_or_replay d id c key request_id req existing)
          (continue (λ _. operation_by_key c.user_id key) (expire_plans w))
unfolding plan_operation
after_checks d id c key request_id req w p = ground arith

replayed :
    (d : Digest) (op : Operation) (req : PlanRequest) (w : World)
    → same_request d op req w ≡ (
      if op.request_hash == request_hash d req then ok (op, false) else err idempotency_key_reused,
      w,
    )
replayed d op req w = ground arith

-- A request that repeats a key of the same user: if it is acceptable, permitted, and some row of
-- the user has the key once due plans are expired, the answer is that row's operation, not created
-- anew, where the request has the same hash, and the error for a reused key where it has not; the
-- host adapter is not asked, and nothing but the expiry is written. With no fault and no other
-- session.
pub plan_operation-replay :
    (d : Digest) (id : Option Bytes) (c : Caller) (key request_id : Bytes) (req : PlanRequest)
    (w : World) (r : Row)
    → Quiet w
    → Plannable c key req
    → (expire_plans w).0 ≡ ok tt
    → find_row (has_key c key) (expire_plans w).1.db.operations ≡ some r
    → plan_operation d id c key request_id req w ≡ (
      if r.request_hash == request_hash d req
          then ok (scan_operation r, false)
          else err idempotency_key_reused,
      (expire_plans w).1,
    )
unfolding plan_or_replay scan_operation
plan_operation-replay d id c key request_id req w r q p e found =
    let next : Option Operation → M (Operation × Bool) =
      λ existing. plan_or_replay d id c key request_id req existing in
    after_checks d id c key request_id req w p
    ∙ ap
        (λ x.
          continue next (continue (λ _. operation_by_key c.user_id key) (x, (expire_plans w).1)))
        e
    ∙ ap (continue next) (by_key-Quiet c key (expire_plans w).1 r (expire_plans-Quiet w q) found)
    ∙ replayed d (scan_operation r) req (expire_plans w).1

pub visible_to-redacted :
    (c : Caller) (op shown : Operation)
    → visible_to op c ≡ shown
    → c.permitted (action shown.type) ≡ false
    → (shown.plan_hash ≡ []) × (shown.plan ≡ none) × (shown.note ≡ []) × (shown.redacted ≡ true)
unfolding visible_to redact
visible_to-redacted c op shown e h = ground arith

-- Every result of an action is such.
pub record Ensures {ℓ} {A : Type ℓ} (Q : A → Type 0) (m : M A) : Type ℓ where
  pub ensures : (w : World) (a : A) → (m w).0 ≡ ok a → Q a

module _ {ℓ κ} {A : Type ℓ} {B : Type κ} (Q : B → Type 0) where
  continue-Ensures :
      (f : A → M B)
      → ((a : A) → Ensures Q (f a))
      → (r : Result Error A) (w : World) (b : B) → (continue f (r, w)).0 ≡ ok b
      → Q b
  continue-Ensures f h (ok a) w b e = (h a).ensures w b e
  continue-Ensures f h (err x) w b e = absurd (ground arith)

  pub Ensures-bind : (m : M A) (f : A → M B) → ((a : A) → Ensures Q (f a)) → Ensures Q (m >>= f)
  Ensures-bind m f h = record {
    ensures = λ w b e. let (r, v) = m w in continue-Ensures f h r v b e;
  }

ok-injective {ℓ} : {A : Type ℓ} {a b : A} → ◌≡◌ {A = Result Error A} (ok a) (ok b) → a ≡ b
ok-injective p = ground arith

pub Ensures-pure {ℓ} : {A : Type ℓ} (Q : A → Type 0) (a : A) → Q a → Ensures Q (pure a)
Ensures-pure Q a q = record { ensures = λ w b e. rw (sym (ok-injective e)) q }

-- What a caller is shown of an operation.
abbrev pub Visible : Caller → Operation → Type 0
Visible c o =
    c.permitted (action o.type) ≡ false
    → (o.plan_hash ≡ []) × (o.plan ≡ none) × (o.note ≡ []) × (o.redacted ≡ true)

shown-Ensures : (c : Caller) (op : Operation) → Ensures (Visible c) (pure (visible_to op c))
shown-Ensures c op =
    Ensures-pure (Visible c) (visible_to op c) (visible_to-redacted c op (visible_to op c) refl)

get_operation-Ensures : (c : Caller) (id : Bytes) → Ensures (Visible c) (get_operation c id)
unfolding get_operation
get_operation-Ensures c id = search (Ensures-bind, shown-Ensures) depth 12

-- A caller who may not run an operation never sees its plan: whatever else happens, an operation
-- that reading returns to them has no plan hash, plan or note, and is marked as redacted.
pub get_operation-redacted :
    (c : Caller) (id : Bytes) (w : World) (op : Operation)
    → (get_operation c id w).0 ≡ ok op
    → c.permitted (action op.type) ≡ false
    → (op.plan_hash ≡ []) × (op.plan ≡ none) × (op.note ≡ []) × (op.redacted ≡ true)
get_operation-redacted c id w op h n = (get_operation-Ensures c id).ensures w op h n
