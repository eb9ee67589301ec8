-- ===== src/Appliance/Lifecycle/Authorization/Issue.antt =====
-- The challenge that an authorization issues (internal/appliance/lifecycle.go, Authorize).
use loxilb_oam.Prelude.{
  ℕ, ◌+◌, ◌≤◌, ◌<◌, ◌≡◌, refl, ap, ◌∙◌, sym, Bool, true, false, ◌&&◌, not, some, List, [], ◌∷◌,
  ◌++◌, Bytes, ◌==◌, ok, arith, ltb, ◌=ℕ◌,
}
use loxilb_oam.Appliance.Operation.{Operation, OperationState, challenge_ttl}
use loxilb_oam.Appliance.Store.Row.{Row, ChallengeRow, AuditEvent, count_rows, find_row}
use loxilb_oam.Appliance.Store.World.{
  plan_expired, World, M, open_tx, pure, refuse_if, ◌>>◌, statement, ◌>>=◌,
}
use loxilb_oam.Appliance.Store.Statements.{
  touch, exec_operations, remove_rows, delete_challenges, write_audit,
}
use loxilb_oam.Appliance.Caller.{Caller, Digest, entry, by}
use loxilb_oam.Appliance.Planning.{is_open}
use loxilb_oam.Appliance.Lifecycle.Authorization.{authorize_tx, insert_challenge_for}
use loxilb_oam.Appliance.Lifecycle.Authorization.Steps.{
  is_live, IsFor, found_open, none_after, one_more, found-selected, insert_for-IsFor, updated,
  deleted, bind_inv,
}

module _ (d : Digest) (caller : Caller) (op : Operation) (value : Bytes) where
  -- What Authorize does after its update, after its delete, and after its insert.
  abbrev record_it : ChallengeRow → M ChallengeRow
  record_it c = do
    write_audit (
        by caller (record (entry op.id AuditEvent.authorize) {
          old_state = some op.state;
          new_state = some OperationState.awaiting_authorization;
          type = some op.type;
          plan_hash = op.plan_hash;
        }))
    pure c

  abbrev insert_it : Unit {0} → M ChallengeRow
  insert_it _ = insert_challenge_for d caller value op.id >>= record_it

  abbrev delete_old : Unit {0} → M ChallengeRow
  delete_old _ = delete_challenges (is_live op.id) >>= insert_it

  abbrev go_on : ℕ → M ChallengeRow
  go_on n = refuse_if (not (n =ℕ 1)) plan_expired >>= delete_old

  -- The outcome, from a time on.
  abbrev One : ℕ → List ChallengeRow → ChallengeRow → World → Type 0
  One now kept c v =
      (v.db.challenges ≡ kept ++ c ∷ [])
      × (count_rows (is_live op.id) v.db.challenges ≡ 1)
      × (is_live op.id c ≡ true)
      × IsFor d caller value c
      × (now < c.expires_at)
      × (c.expires_at ≤ now + challenge_ttl)

  -- The plan of the row that is found has not expired.
  abbrev Planned : World → Type 0
  Planned w =
      (r : Row) → find_row (λ r. r.id == op.id) w.db.operations ≡ some r → w.now < r.plan_expires_at

  record_it-keeps :
      (c b : ChallengeRow) (w : World)
      → w.connection ≡ open_tx
      → (record_it c w).0 ≡ ok b
      → (b ≡ c) × ((record_it c w).1.db.challenges ≡ w.db.challenges)
  unfolding write_audit statement
  record_it-keeps c b w o h = ground arith

  insert_it-One :
      (w : World) (c : ChallengeRow)
      → w.connection ≡ open_tx
      → count_rows (is_live op.id) w.db.challenges ≡ 0
      → Planned w
      → (insert_it tt w).0 ≡ ok c
      → One w.now w.db.challenges c (insert_it tt w).1
  unfolding insert_challenge_for
  insert_it-One w c o z t h =
      let m = insert_challenge_for d caller value op.id in
      let (b, e, q) = bind_inv m record_it w c h in
      let (live, bound, alive, own, added, still) =
        insert_for-IsFor d caller value op.id (find_row (λ r. r.id == op.id) w.db.operations) w b
          (found-selected op.id w.db.operations) t o e in
      let (same, kept) = record_it-keeps b c (m w).1 still (sym (ap (λ x. x.0) q) ∙ h) in
      (
        ap (λ x. x.1.db.challenges) q
            ∙ kept
            ∙ added
            ∙ ap (λ x. w.db.challenges ++ x ∷ []) (sym same),
        ap (λ x. count_rows (is_live op.id) x.1.db.challenges) q
            ∙ ap (count_rows (is_live op.id)) (kept ∙ added)
            ∙ one_more op.id w.db.challenges b z live,
        ap (is_live op.id) same ∙ live,
        rw same own,
        rw same alive,
        rw same bound,
      )

  delete_old-One :
      (w : World) (c : ChallengeRow)
      → w.connection ≡ open_tx
      → Planned w
      → (delete_old tt w).0 ≡ ok c
      → One w.now (remove_rows (is_live op.id) w.db.challenges) c (delete_old tt w).1
  delete_old-One w c o t h =
      let m = delete_challenges (is_live op.id) in
      let (u, e, q) = bind_inv m insert_it w c h in
      let (still, now, rows, gone) = deleted (is_live op.id) w u o e in
      let one =
        insert_it-One (m w).1 c still
          (ap (count_rows (is_live op.id)) gone ∙ none_after op.id w.db.challenges)
          (rw (rows, now) t) (sym (ap (λ x. x.0) q) ∙ h) in
      rw q (rw (now, gone) at one)

  checked-One :
      (test : Bool) (w : World) (c : ChallengeRow)
      → w.connection ≡ open_tx
      → (test ≡ false → Planned w)
      → ((refuse_if test plan_expired >>= delete_old) w).0 ≡ ok c
      → One w.now
          (remove_rows (is_live op.id) w.db.challenges)
          c
          ((refuse_if test plan_expired >>= delete_old) w).1
  checked-One true w c o t h = absurd (ground arith)
  checked-One false w c o t h = delete_old-One w c o (t refl) h

  go_on-One :
      (n : ℕ) (w : World) (c : ChallengeRow)
      → w.connection ≡ open_tx
      → (n ≡ 1 → Planned w)
      → (go_on n w).0 ≡ ok c
      → One w.now (remove_rows (is_live op.id) w.db.challenges) c (go_on n w).1
  go_on-One n w c o t h = checked-One (not (n =ℕ 1)) w c o (λ e. t (ground arith)) h

  -- For an operation whose ID one row has at most: an authorization that goes through stores the
  -- challenge that it returns. After it the table has the challenges that it had, less the unused
  -- ones of the operation, and that one, which is thus the only unused one of the operation. It is
  -- for the hash of the value that was drawn, for the caller and for its session, has not expired,
  -- and expires within the time that a challenge may live.
  pub authorize_tx-one_live :
      (w : World) (c : ChallengeRow)
      → w.connection ≡ open_tx
      → count_rows (λ r. r.id == op.id) w.db.operations ≤ 1
      → (authorize_tx d caller op value w).0 ≡ ok c
      → ((authorize_tx d caller op value w).1.db.challenges
          ≡ remove_rows (is_live op.id) w.db.challenges ++ c ∷ [])
        × (count_rows (is_live op.id) (authorize_tx d caller op value w).1.db.challenges ≡ 1)
        × (is_live op.id c ≡ true)
        × (c.challenge_hash ≡ d.sha256_hex value)
        × (c.actor_user_id ≡ caller.user_id)
        × (c.session_id ≡ caller.session_id)
        × (w.now < c.expires_at)
        × (c.expires_at ≤ w.now + challenge_ttl)
  unfolding authorize_tx
  authorize_tx-one_live w c o u h =
      let m =
        exec_operations (λ now r. r.id == op.id && is_open r.state && ltb now r.plan_expires_at)
          (λ now r. record r { state = OperationState.awaiting_authorization }) in
      let (n, e, q) = bind_inv m go_on w c h in
      let (still, now, same, rows, count) = updated _ _ w n o e in
      let (stored, one, live, own, alive, bound) =
        go_on-One n (m w).1 c still
          (λ one.
            rw (rows, now)
              (λ r f.
                found_open op.id w.now
                  (λ r. touch w.now (record r { state = OperationState.awaiting_authorization }))
                  (λ r. refl) (λ r. refl) w.db.operations r u (sym count ∙ one) f))
          (sym (ap (λ x. x.0) q) ∙ h) in
      (
        ap (λ x. x.1.db.challenges) q
            ∙ stored
            ∙ ap (λ cs. remove_rows (is_live op.id) cs ++ c ∷ []) same,
        ap (λ x. count_rows (is_live op.id) x.1.db.challenges) q ∙ one,
        live,
        own.0,
        own.1,
        own.2,
        rw now at alive,
        rw now at bound,
      )
