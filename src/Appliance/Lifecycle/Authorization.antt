-- ===== src/Appliance/Lifecycle/Authorization.antt =====
-- internal/appliance/lifecycle.go: Authorize and the use of its challenge.
pub mod OneUse
pub mod Steps
pub mod Issue
use loxilb_oam.Prelude.{
  ℕ, ◌+◌, Bool, ◌&&◌, not, Option, none, some, Bytes, Result, err, ◌==◌, ltb, leb, is_empty,
  is_some, ◌=ℕ◌, if◌then◌else◌,
}
use Prim.Native.Nat.{min}
use loxilb_oam.Appliance.Contract.{destructive}
use loxilb_oam.Appliance.Operation.{OperationState, Operation, action, challenge_ttl}
use loxilb_oam.Appliance.Request.{valid_operation_id}
use loxilb_oam.Appliance.Store.Row.{Row, ChallengeRow, AuditEvent, find_row}
use loxilb_oam.Appliance.Store.World.{
  Error, database, active_conflict, authorization_not_required, session_unbound, plan_expired,
  challenge_mismatch, challenge_consumed, challenge_expired, World, M, pure, raise, refuse_if,
  transaction, ◌>>=◌, ◌>>◌,
}
use loxilb_oam.Appliance.Store.Statements.{
  query, exec_operations, exec_challenges, delete_challenges, insert_challenge, write_audit, audit,
}
use loxilb_oam.Appliance.Caller.{Caller, Digest, entry, by}
use loxilb_oam.Appliance.Planning.{is_open}
use loxilb_oam.Appliance.Lifecycle.Journal.{load, expired_or, raise_conflict}

-- What Authorize returns, once.
pub record Challenge : Type 0 where
  pub challenge : Bytes
  pub expires_at : ℕ
  pub operation_id : Bytes
  pub plan_hash : Bytes

unfoldable pub authorizable : Caller → Bytes → M Operation
authorizable caller id = do
  op ← load caller id
  refuse_if (not (destructive (action op.type))) authorization_not_required
  refuse_if (is_empty caller.session_id) session_unbound
  refuse_if (not (is_open op.state)) (expired_or op)
  pure op

-- CanAuthorize
unfoldable pub can_authorize : Caller → Bytes → M (Unit {0})
can_authorize caller id = do _ ← authorizable caller id; pure tt

-- `INSERT … SELECT … FROM appliance_operations WHERE id = $5`: of the stored row, not of the one
-- that was loaded.
abbrev pub challenge_row : Digest → Caller → Bytes → Row → ℕ → ChallengeRow
challenge_row d caller value r now = record {
  challenge_hash = d.sha256_hex value;
  operation_id = r.id;
  actor_user_id = caller.user_id;
  session_id = caller.session_id;
  plan_hash = r.plan_hash;
  installation_id = r.installation_id;
  type = r.type;
  expires_at = min (now + challenge_ttl) r.plan_expires_at;
  consumed_at = none;
}

abbrev pub insert_for : Digest → Caller → Bytes → Option Row → M ChallengeRow
insert_for d caller value none = raise database
insert_for d caller value (some r) = insert_challenge (challenge_row d caller value r)

-- One statement: the row is read and the challenge written.
unfoldable pub insert_challenge_for : Digest → Caller → Bytes → Bytes → M ChallengeRow
insert_challenge_for d caller value id w =
    insert_for d caller value (find_row (λ r. r.id == id) w.db.operations) w

-- The transaction of Authorize.
unfoldable pub authorize_tx : Digest → Caller → Operation → Bytes → M ChallengeRow
authorize_tx d caller op value = do
  n ←
      exec_operations (λ now r. r.id == op.id && is_open r.state && ltb now r.plan_expires_at)
        (λ now r. record r { state = OperationState.awaiting_authorization })
  refuse_if (not (n =ℕ 1)) plan_expired
  delete_challenges (λ c. c.operation_id == op.id && not (is_some c.consumed_at))
  c ← insert_challenge_for d caller value op.id
  write_audit (
      by caller (record (entry op.id AuditEvent.authorize) {
        old_state = some op.state;
        new_state = some OperationState.awaiting_authorization;
        type = some op.type;
        plan_hash = op.plan_hash;
      }))
  pure c

-- The one-active index refusing a transition becomes the error that names the blocker.
abbrev pub or_conflict {ℓ} :
    {A : Type ℓ} → Operation → Result Error A × World → Result Error A × World
or_conflict op (err active_conflict, w) = raise_conflict op w
or_conflict op (r, w) = (r, w)

-- Authorize after its checks, with the random value that it draws; `none` if that fails.
unfoldable pub issue : Digest → Caller → Operation → Option Bytes → M Challenge
issue d caller op none = raise database
issue d caller op (some value) = do
  c ← λ w. or_conflict op (transaction (authorize_tx d caller op value) w)
  pure (record {
    challenge = value;
    expires_at = c.expires_at;
    operation_id = op.id;
    plan_hash = op.plan_hash;
  })

unfoldable pub authorize : Digest → Caller → Bytes → Option Bytes → M Challenge
authorize d caller id value = do op ← authorizable caller id; issue d caller op value

-- AuthorizationDenied
unfoldable pub authorization_denied : Caller → Bytes → Bytes → M (Unit {0})
authorization_denied caller id reason =
    if not (valid_operation_id id)
    then pure tt
    else audit (by caller (record (entry id AuditEvent.authorize_denied) { reason = reason }))

-- The row that authorizes exactly this request.
abbrev pub is_bound : Digest → Operation → Caller → Bytes → ChallengeRow → Bool
is_bound d op caller value c =
    c.challenge_hash == d.sha256_hex value
    && c.operation_id == op.id
    && c.actor_user_id =ℕ caller.user_id
    && c.session_id == caller.session_id
    && c.plan_hash == op.plan_hash
    && c.installation_id == op.installation_id

abbrev pub is_usable : Digest → Operation → Caller → Bytes → ℕ → ChallengeRow → Bool
is_usable d op caller value now c =
    is_bound d op caller value c && not (is_some c.consumed_at) && ltb now c.expires_at

-- Why a challenge was refused.
abbrev pub refusal_of : ℕ → Option ChallengeRow → Error
refusal_of now none = challenge_mismatch
refusal_of now (some c) =
    if is_some c.consumed_at
    then challenge_consumed
    else if leb c.expires_at now
    then challenge_expired
    else challenge_consumed

unfoldable pub after_use : Digest → Operation → Caller → Bytes → ℕ → M (Unit {0})
after_use d op caller value n =
    if n =ℕ 1
    then pure tt
    else query (λ now db. refusal_of now (find_row (is_bound d op caller value) db.challenges))
      >>= raise

-- consumeChallenge
unfoldable pub consume_challenge : Digest → Operation → Caller → Bytes → M (Unit {0})
consume_challenge d op caller value = do
  n ← exec_challenges (is_usable d op caller value) (λ now c. record c { consumed_at = some now })
  after_use d op caller value n
