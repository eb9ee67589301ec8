-- ===== src/Appliance/Evolution/Submission.antt =====
-- The guarantee of authorizing, delivering and submitting an operation.
use loxilb_oam.Prelude.{
  ℕ, ◌≡◌, true, false, ◌&&◌, Option, none, some, Bytes, ◌==◌, ltb, Result, ok, err, arith,
  Bool-cases, inl, inr, ◌=ℕ◌,
}
use loxilb_oam.Appliance.Operation.{OperationState, Operation, terminal, ◌is◌}
use loxilb_oam.Appliance.Host.{HostError, rejected, HostJob}
use loxilb_oam.Appliance.Store.Row.{Row}
use loxilb_oam.Appliance.Store.World.{Error, active_conflict, World, M}
use loxilb_oam.Appliance.Store.Statements.{touch}
use loxilb_oam.Appliance.Caller.{Caller, Digest}
use loxilb_oam.Appliance.Planning.{is_open}
use loxilb_oam.Appliance.Lifecycle.Authorization
use loxilb_oam.Appliance.Lifecycle.Authorization.{
  authorizable, insert_for, insert_challenge_for, authorize_tx, or_conflict, issue,
  authorization_denied, after_use, consume_challenge,
}
use loxilb_oam.Appliance.Lifecycle.Submission
use loxilb_oam.Appliance.Lifecycle.Submission.{
  record_submission, submit_to_host, undelivered, deliver, deliver_found, if_undelivered,
  expected_state, submittable, consume_if_destructive, submit_tx, after_submit_tx, challenge_code,
  submit_new,
}
use loxilb_oam.Appliance.Evolution.{Legal, Evolves-trans, Guarded}
use loxilb_oam.Appliance.Evolution.Rules.{
  Guarded-pure, Guarded-raise, Guarded-ignore, Guarded-if, Guarded-refuse_if, Guarded-bind,
  Guarded-transaction,
}
use loxilb_oam.Appliance.Evolution.Statements.{
  Guarded-bind_query, Guarded-exec_operations, Guarded-exec_challenges, Guarded-delete_challenges,
  Guarded-insert_challenge, Guarded-audit,
}
use loxilb_oam.Appliance.Evolution.Journal.{
  guards, load-Guarded, reload-Guarded, raise_conflict-Guarded, ask_host-Guarded, apply_job-Guarded,
  finish-Guarded, mark_unreachable-Guarded,
}

record_submission-Guarded :
    (op : Operation) (r : Result HostError HostJob)
    → terminal op.state ≡ false
    → Guarded (record_submission op r)
record_submission-Guarded op (ok job) h = apply_job-Guarded op job
record_submission-Guarded op (err (rejected x)) h = finish-Guarded op _ _ _ _ h
record_submission-Guarded op (err _) h = mark_unreachable-Guarded op

submit_to_host-Guarded : (op : Operation) → terminal op.state ≡ false → Guarded (submit_to_host op)
unfolding submit_to_host
submit_to_host-Guarded op h =
    Guarded-bind _ _ (ask_host-Guarded _ _) (λ r. record_submission-Guarded op r h)

-- An operation that has not been delivered is QUEUED, so it is not finished.
pub queued_running : (s : OperationState) → (s is OperationState.queued) ≡ true → terminal s ≡ false
unfolding terminal
queued_running s h = ground arith

deliver_found-Guarded : (o : Option Operation) → Guarded (deliver_found (if_undelivered o))
deliver_found-Guarded none = Guarded-pure tt
deliver_found-Guarded (some op) = elim (Bool-cases (op.state is OperationState.queued)) [
  | inr n ↦ rw n (Guarded-pure tt)
  | inl q ↦ elim (Bool-cases (op.host_generation =ℕ 0)) [
    | inr n ↦ rw (q, n) (Guarded-pure tt)
    | inl z ↦ rw (q, z) (submit_to_host-Guarded op (queued_running op.state q))
  ]
]

pub deliver-Guarded : (id : Bytes) → Guarded (deliver id)
unfolding deliver undelivered
deliver-Guarded id =
    Guarded-ignore _
      (Guarded-transaction _ (Guarded-bind_query _ _ (λ now d. deliver_found-Guarded _)))

consume-Guarded :
    (d : Digest) (op : Operation) (c : Caller) (value : Bytes)
    → Guarded (consume_challenge d op c value)
unfolding consume_challenge
consume-Guarded d op c value =
    Guarded-bind _ _ (Guarded-exec_challenges _ _ (λ now x h. ground arith))
      (λ n. unfold after_use in search guards depth 8)

consume_if-Guarded :
    (d : Digest) (c : Caller) (op : Operation) (challenge : Bytes)
    → Guarded (consume_if_destructive d c op challenge)
unfolding consume_if_destructive
consume_if-Guarded d c op challenge =
    Guarded-if _ _ _ (consume-Guarded d op c challenge) (Guarded-pure tt)

submit-Legal :
    (op : Operation) (now : ℕ) (r : Row)
    → (r.id == op.id && r.state is expected_state op && ltb now r.plan_expires_at) ≡ true
    → Legal r (touch now (record r { state = OperationState.queued; submitted_at = some now }))
unfolding terminal
submit-Legal op now r h = ground arith

authorize-Legal :
    (op : Operation) (now : ℕ) (r : Row)
    → (r.id == op.id && is_open r.state && ltb now r.plan_expires_at) ≡ true
    → Legal r (touch now (record r { state = OperationState.awaiting_authorization }))
unfolding terminal
authorize-Legal op now r h = ground arith

submit_tx-Guarded :
    (d : Digest) (c : Caller) (op : Operation) (challenge : Bytes)
    → Guarded (submit_tx d c op challenge)
unfolding submit_tx
submit_tx-Guarded d c op challenge = Guarded-bind _ _ (consume_if-Guarded d c op challenge) λ u.
    Guarded-bind _ _ (Guarded-exec_operations _ _ (submit-Legal op)) λ n. search guards depth 10

insert_for-Guarded :
    (d : Digest) (c : Caller) (value : Bytes) (o : Option Row) → Guarded (insert_for d c value o)
insert_for-Guarded d c value none = Guarded-raise _
insert_for-Guarded d c value (some r) = Guarded-insert_challenge _

insert_challenge_for-Guarded :
    (d : Digest) (c : Caller) (value id : Bytes) → Guarded (insert_challenge_for d c value id)
unfolding insert_challenge_for
insert_challenge_for-Guarded d c value id = record {
  evolves = λ w f. (insert_for-Guarded d c value _).evolves w f;
  fair = λ w f. (insert_for-Guarded d c value _).fair w f;
}

authorize_tx-Guarded :
    (d : Digest) (c : Caller) (op : Operation) (value : Bytes) → Guarded (authorize_tx d c op value)
unfolding authorize_tx
authorize_tx-Guarded d c op value =
    Guarded-bind _ _ (Guarded-exec_operations _ _ (authorize-Legal op)) λ n.
      Guarded-bind _ _ (Guarded-refuse_if _ _) λ u.
        Guarded-bind _ _ (Guarded-delete_challenges _ (λ x h. ground arith))
          λ v. search (guards, insert_challenge_for-Guarded) depth 10

-- What follows a transaction by its result.
module _ {ℓ} {A : Type ℓ} (m : M A) (after : Result Error A × World → Result Error A × World) where
  Guarded-after :
      Guarded m → ((r : Result Error A) → Guarded (λ w. after (r, w))) → Guarded (λ w. after (m w))
  Guarded-after g h = record {
    evolves =
        λ w f. let (r, v) = m w in Evolves-trans (g.evolves w f) ((h r).evolves v (g.fair w f));
    fair = λ w f. let (r, v) = m w in (h r).fair v (g.fair w f);
  }

or_conflict-Guarded {ℓ} :
    {A : Type ℓ} (op : Operation) (r : Result Error A) → Guarded (λ w. or_conflict op (r, w))
or_conflict-Guarded op (err active_conflict) = raise_conflict-Guarded op
or_conflict-Guarded op (err _) = Guarded-raise _
or_conflict-Guarded op (ok a) = Guarded-pure a

issue-Guarded :
    (d : Digest) (c : Caller) (op : Operation) (v : Option Bytes) → Guarded (issue d c op v)
unfolding issue
issue-Guarded d c op none = Guarded-raise _
issue-Guarded d c op (some value) =
    Guarded-bind _ _
      (Guarded-after _ (or_conflict op) (Guarded-transaction _ (authorize_tx-Guarded d c op value))
        (or_conflict-Guarded op))
      λ x. Guarded-pure _

pub authorize-Guarded :
    (d : Digest) (c : Caller) (id : Bytes) (v : Option Bytes)
    → Guarded (Authorization.authorize d c id v)
unfolding Authorization.authorize authorizable
authorize-Guarded d c id v = search (guards, load-Guarded, issue-Guarded) depth 16

pub denied-Guarded : (c : Caller) (id reason : Bytes) → Guarded (authorization_denied c id reason)
unfolding authorization_denied
denied-Guarded c id reason = search guards depth 8

deny-Guarded : (c : Caller) (op : Operation) (o : Option Bytes) → Guarded (Submission.deny c op o)
deny-Guarded c op none = Guarded-pure tt
deny-Guarded c op (some code) = Guarded-audit _

after_submit_tx-Guarded :
    (c : Caller) (op : Operation) (r : Result Error (Unit {0}))
    → Guarded (λ w. after_submit_tx c op (r, w))
after_submit_tx-Guarded c op (ok u) = Guarded-pure tt
after_submit_tx-Guarded c op (err active_conflict) = raise_conflict-Guarded op
after_submit_tx-Guarded c op (err e) = record {
  evolves = λ w f. (deny-Guarded c op (challenge_code e)).evolves w f;
  fair = λ w f. (deny-Guarded c op (challenge_code e)).fair w f;
}

submittable-Guarded :
    (c : Caller) (op : Operation) (challenge : Bytes) → Guarded (submittable c op challenge)
unfolding submittable
submittable-Guarded c op challenge = search guards depth 16

submit_new-Guarded :
    (d : Digest) (c : Caller) (op : Operation) (challenge : Bytes)
    → Guarded (submit_new d c op challenge)
unfolding submit_new
submit_new-Guarded d c op challenge = Guarded-bind _ _ (submittable-Guarded c op challenge) λ v.
    Guarded-bind _ _
      (Guarded-after _ (after_submit_tx c op)
        (Guarded-transaction _ (submit_tx-Guarded d c op challenge)) (after_submit_tx-Guarded c op))
      λ x. Guarded-bind _ _ (deliver-Guarded op.id) (λ y. reload-Guarded op.id)

pub submit-Guarded :
    (d : Digest) (c : Caller) (id plan_hash challenge : Bytes)
    → Guarded (Submission.submit d c id plan_hash challenge)
unfolding Submission.submit
submit-Guarded d c id plan_hash challenge =
    search (guards, load-Guarded, submit_new-Guarded) depth 14
