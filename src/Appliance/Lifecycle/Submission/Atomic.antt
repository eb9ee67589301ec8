-- ===== src/Appliance/Lifecycle/Submission/Atomic.antt =====
-- Submit as one transaction (internal/appliance/lifecycle.go, Submit): all of it or nothing.
use loxilb_oam.Prelude.{
  ℕ, ◌≡◌, refl, ap, ◌∙◌, sym, ◌⊎◌, inl, inr, Bool, true, false, some, List, [], ◌∷◌, Bytes, Result,
  ok, err, arith,
}
use loxilb_oam.Appliance.Contract.{destructive}
use loxilb_oam.Appliance.Operation.{Operation, action}
use loxilb_oam.Appliance.Store.Row.{Db, ChallengeRow, update_rows, count_rows}
use loxilb_oam.Appliance.Store.World.{
  Error, database, World, M, Connection, idle, open_tx, failed_tx, statement, transaction, run_tx,
  end_tx, commit_result,
}
use loxilb_oam.Appliance.Store.Statements.{exec_operations, touch, write_audit}
use loxilb_oam.Appliance.Caller.{Caller, Digest}
use loxilb_oam.Appliance.Lifecycle.Authorization.{is_usable, consume_challenge}
use loxilb_oam.Appliance.Lifecycle.Authorization.OneUse.{
  now-statement, db-statement, consume_challenge-rows, consume_challenge-keeps,
}
use loxilb_oam.Appliance.Lifecycle.Submission.{submit_tx, consume_if_destructive}
use loxilb_oam.Appliance.Lifecycle.Submission.Once.{is_due, queue, submit_tx-authorized}

-- Nothing of it is left, and an error is returned.
abbrev Undone {ℓ} : {A : Type ℓ} → Db → Result Error A × World → Type ℓ
Undone saved r = (e : Error) × (r.0 ≡ err e) × (r.1.db ≡ saved)

commit_result_cases :
    {A : Type 0} (saved : Db) (a : A) (c : Connection) (fs : List Bool) (w : World)
    → (((commit_result saved a c fs w).0 ≡ ok a) × ((commit_result saved a c fs w).1.db ≡ w.db))
      ⊎ Undone saved (commit_result saved a c fs w)
commit_result_cases saved a failed_tx fs w = inr (database, refl, refl)
commit_result_cases saved a idle [] w = inl (refl, refl)
commit_result_cases saved a idle (false ∷ fs) w = inl (refl, refl)
commit_result_cases saved a idle (true ∷ fs) w = inr (database, refl, refl)
commit_result_cases saved a open_tx [] w = inl (refl, refl)
commit_result_cases saved a open_tx (false ∷ fs) w = inl (refl, refl)
commit_result_cases saved a open_tx (true ∷ fs) w = inr (database, refl, refl)

end_tx_cases :
    {A : Type 0} (saved : Db) (r : Result Error A × World)
    → ((a : A) × (r.0 ≡ ok a) × ((end_tx saved r).0 ≡ ok a) × ((end_tx saved r).1.db ≡ r.1.db))
      ⊎ Undone saved (end_tx saved r)
end_tx_cases saved (err e, w) = inr (e, refl, refl)
end_tx_cases saved (ok a, w) = elim (commit_result_cases saved a w.connection w.faults w) [
  | inl (o, d) ↦ inl (a, refl, o, d)
  | inr u ↦ inr u
]

-- What a transaction does with its statements.
transaction_cases :
    {A : Type 0} (m : M A) (w : World)
    → (let begun : World = record (statement w).1 { connection = open_tx } in
        (a : A) × ((m begun).0 ≡ ok a)
        × ((transaction m w).0 ≡ ok a)
        × ((transaction m w).1.db ≡ (m begun).1.db))
      ⊎ Undone (statement w).1.db (transaction m w)
unfolding transaction
transaction_cases m w = begun_cases (statement w)
  where
    begun_cases :
        (s : Result Error (Unit {0}) × World)
        → (let begun : World = record s.1 { connection = open_tx } in
            (a : _) × ((m begun).0 ≡ ok a)
            × ((run_tx m s).0 ≡ ok a)
            × ((run_tx m s).1.db ≡ (m begun).1.db))
          ⊎ Undone s.1.db (run_tx m s)
    begun_cases (err e, v) = inr (e, refl, refl)
    begun_cases (ok u, v) = end_tx_cases v.db (m (record v { connection = open_tx }))

module _ (d : Digest) (caller : Caller) (op : Operation) (challenge : Bytes) where
  abbrev consume : ℕ → ChallengeRow → ChallengeRow
  consume now c = record c { consumed_at = some now }

  rest_keeps :
      (w : World)
      → (submit_tx d caller op challenge w).0 ≡ ok tt
      → (consume_if_destructive d caller op challenge w).1.connection ≡ open_tx
      → (submit_tx d caller op challenge w).1.db.challenges
        ≡ (consume_if_destructive d caller op challenge w).1.db.challenges
  unfolding submit_tx exec_operations statement write_audit
  rest_keeps w h c = ground arith

  if_destructive :
      (w : World)
      → destructive (action op.type) ≡ true
      → consume_if_destructive d caller op challenge w ≡ consume_challenge d op caller challenge w
  unfolding consume_if_destructive
  if_destructive w t = ground arith

  consumption_first :
      (w : World)
      → (submit_tx d caller op challenge w).0 ≡ ok tt
      → (consume_if_destructive d caller op challenge w).0 ≡ ok tt
  unfolding submit_tx
  consumption_first w h = ground arith

  submit_tx-consume :
      (w : World)
      → destructive (action op.type) ≡ true
      → w.connection ≡ open_tx
      → (submit_tx d caller op challenge w).0 ≡ ok tt
      → (submit_tx d caller op challenge w).1.db.challenges
        ≡ update_rows (is_usable d op caller challenge w.now) (consume w.now) w.db.challenges
  submit_tx-consume w t c h =
      let e = if_destructive w t in
      let used = sym (ap (λ x. x.0) e) ∙ consumption_first w h in
      let (_, _, conn) = consume_challenge-keeps d op caller challenge w used c in
      rest_keeps w h (ap (λ x. x.1.connection) e ∙ conn)
      ∙ ap (λ x. x.1.db.challenges) e
      ∙ consume_challenge-rows d op caller challenge w used
      ∙ ap
          (λ n.
            update_rows (is_usable d op caller challenge n) (consume n)
              (statement w).1.db.challenges)
          (now-statement w c)
      ∙ ap (λ x. update_rows (is_usable d op caller challenge w.now) (consume w.now) x.challenges)
          (db-statement w c)

  -- The submission of a destructive operation is all or nothing, whatever statement of it fails.
  -- Either its transaction goes through: then one challenge authorized it in the tables that it
  -- began with, which is now consumed, and one row was due, which is now queued, and no other
  -- challenge or operation is changed. Or it returns an error, and the tables are as it found them.
  pub submit_tx-atomic :
      (w : World)
      → destructive (action op.type) ≡ true
      → (let b : World = (statement w).1 in
          let r = transaction (submit_tx d caller op challenge) w in
          ((r.0 ≡ ok tt)
            × (count_rows (is_usable d op caller challenge b.now) b.db.challenges ≡ 1)
            × (r.1.db.challenges
                ≡ update_rows
                    (is_usable d op caller challenge b.now)
                    (λ c. record c { consumed_at = some b.now })
                    b.db.challenges)
            × (count_rows (is_due op b.now) b.db.operations ≡ 1)
            × (r.1.db.operations
                ≡ update_rows (is_due op b.now) (λ r. touch b.now (queue b.now r)) b.db.operations))
          ⊎ ((e : Error) × (r.0 ≡ err e) × (r.1.db ≡ b.db)))
  submit_tx-atomic w t = elim (transaction_cases (submit_tx d caller op challenge) w) [
    | inr u ↦ inr u
    | inl (u, h, o, same) ↦
        let begun : World = record (statement w).1 { connection = open_tx } in
        let (one, due, moved) = submit_tx-authorized d caller op challenge begun t refl h in
        inl (
          o,
          one,
          ap (λ x. x.challenges) same ∙ submit_tx-consume begun t refl h,
          due,
          ap (λ x. x.operations) same ∙ moved,
        )
  ]
