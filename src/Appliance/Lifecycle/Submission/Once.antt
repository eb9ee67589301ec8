-- ===== src/Appliance/Lifecycle/Submission/Once.antt =====
-- What a submission needs and what it leaves (internal/appliance/lifecycle.go, Submit and deliver).
use loxilb_oam.Prelude.{ℕ, ◌≡◌, ap, ◌∙◌, sym, Bool, true, ◌&&◌, some, Bytes, ◌==◌, ok, arith, ltb}
use loxilb_oam.Appliance.Contract.{destructive}
use loxilb_oam.Appliance.Operation.{Operation, OperationState, action, ◌is◌}
use loxilb_oam.Appliance.Store.Row.{Row, update_rows, count_rows}
use loxilb_oam.Appliance.Store.World.{World, open_tx, statement}
use loxilb_oam.Appliance.Store.Statements.{exec_operations, touch, write_audit}
use loxilb_oam.Appliance.Caller.{Caller, Digest}
use loxilb_oam.Appliance.Lifecycle.Authorization.{is_usable, consume_challenge}
use loxilb_oam.Appliance.Lifecycle.Authorization.OneUse.{
  consume_challenge-count, consume_challenge-keeps,
}
use loxilb_oam.Appliance.Lifecycle.Submission.{submit_tx, consume_if_destructive, expected_state}

-- The update of the transaction.
abbrev pub is_due : Operation → ℕ → Row → Bool
is_due op now r = r.id == op.id && r.state is expected_state op && ltb now r.plan_expires_at

abbrev pub queue : ℕ → Row → Row
queue now r = record r { state = OperationState.queued; submitted_at = some now }

module _ (d : Digest) (caller : Caller) (op : Operation) (challenge : Bytes) where
  after_consumption :
      (w : World)
      → (submit_tx d caller op challenge w).0 ≡ ok tt
      → (consume_if_destructive d caller op challenge w).0 ≡ ok tt
  unfolding submit_tx
  after_consumption w h = ground arith

  queued_rows :
      (w : World)
      → (submit_tx d caller op challenge w).0 ≡ ok tt
      → (consume_if_destructive d caller op challenge w).1.connection ≡ open_tx
      → (let v = (consume_if_destructive d caller op challenge w).1 in
          (count_rows (is_due op v.now) v.db.operations ≡ 1)
          × ((submit_tx d caller op challenge w).1.db.operations
              ≡ update_rows (is_due op v.now) (λ r. touch v.now (queue v.now r)) v.db.operations))
  unfolding submit_tx exec_operations statement write_audit
  queued_rows w h c = ground arith

  consumed :
      (w : World)
      → destructive (action op.type) ≡ true
      → consume_if_destructive d caller op challenge w ≡ consume_challenge d op caller challenge w
  unfolding consume_if_destructive
  consumed w t = ground arith

  -- A destructive operation is submitted only on an authorization: if the transaction of Submit
  -- goes through, exactly one challenge was bound to the value, operation, user, session, plan and
  -- installation, unused and not expired; exactly one row was due, and that row alone is queued.
  pub submit_tx-authorized :
      (w : World)
      → destructive (action op.type) ≡ true
      → w.connection ≡ open_tx
      → (submit_tx d caller op challenge w).0 ≡ ok tt
      → (count_rows (is_usable d op caller challenge w.now) w.db.challenges ≡ 1)
        × (count_rows (is_due op w.now) w.db.operations ≡ 1)
        × ((submit_tx d caller op challenge w).1.db.operations
            ≡ update_rows (is_due op w.now) (λ r. touch w.now (queue w.now r)) w.db.operations)
  submit_tx-authorized w t c h =
      let e = consumed w t in
      let used = sym (ap (λ x. x.0) e) ∙ after_consumption w h in
      let (rows, now, conn) = consume_challenge-keeps d op caller challenge w used c in
      let (due, result) = queued_rows w h (ap (λ x. x.1.connection) e ∙ conn) in
      let now' = ap (λ x. x.1.now) e ∙ now in
      let rows' = ap (λ x. x.1.db.operations) e ∙ rows in
      (
        consume_challenge-count d op caller challenge w used c,
        sym (ap (λ n. count_rows (is_due op n) w.db.operations) now')
            ∙ sym (
                ap
                  (λ x.
                    count_rows (is_due op (consume_if_destructive d caller op challenge w).1.now) x)
                  rows')
            ∙ due,
        result
            ∙ ap
                (λ x.
                  update_rows (is_due op (consume_if_destructive d caller op challenge w).1.now)
                    (λ r.
                      touch (consume_if_destructive d caller op challenge w).1.now
                        (queue (consume_if_destructive d caller op challenge w).1.now r))
                    x)
                rows'
            ∙ ap (λ n. update_rows (is_due op n) (λ r. touch n (queue n r)) w.db.operations) now',
      )
