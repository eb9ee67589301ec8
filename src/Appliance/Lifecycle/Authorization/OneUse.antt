-- ===== src/Appliance/Lifecycle/Authorization/OneUse.antt =====
-- The use of a challenge (internal/appliance/lifecycle.go, consumeChallenge).
use loxilb_oam.Prelude.{
  ℕ, ◌≤◌, ◌≡◌, ◌≢◌, refl, ap, ◌∙◌, sym, Bool, false, some, List, [], ◌∷◌, Bytes, Result, ok, err,
  arith, if◌then◌else◌,
}
use loxilb_oam.Appliance.Operation.{Operation}
use loxilb_oam.Appliance.Store.Row.{ChallengeRow, update_rows, count_rows}
use loxilb_oam.Appliance.Store.World.{Error, World, open_tx, statement, continue}
use loxilb_oam.Appliance.Store.Statements.{query, exec_challenges}
use loxilb_oam.Appliance.Caller.{Caller, Digest}
use loxilb_oam.Appliance.Lifecycle.Authorization.{is_usable, after_use, consume_challenge}

pub now-statement : (v : World) → v.connection ≡ open_tx → (statement v).1.now ≡ v.now
unfolding statement
now-statement v c = ground arith

pub db-statement : (v : World) → v.connection ≡ open_tx → (statement v).1.db ≡ v.db
unfolding statement
db-statement v c = ground arith

module _ (d : Digest) (op : Operation) (caller : Caller) (value : Bytes) where
  abbrev usable : ℕ → ChallengeRow → Bool
  usable now c = is_usable d op caller value now c

  abbrev consume : ℕ → ChallengeRow → ChallengeRow
  consume now c = record c { consumed_at = some now }

  later_unusable :
      (now later : ℕ) (c : ChallengeRow)
      → now ≤ later
      → usable later (if usable now c then consume now c else c) ≡ false
  later_unusable now later c l = ground arith

  none_left :
      (now later : ℕ) (cs : List ChallengeRow)
      → now ≤ later
      → count_rows (usable later) (update_rows (usable now) (consume now) cs) ≡ 0
  unfolding count_rows update_rows
  none_left now later [] l = refl
  none_left now later (c ∷ cs) l =
      let rest = none_left now later cs l in let this = later_unusable now later c l in ground arith

  after_use-refuses : (n : ℕ) (v : World) → n ≢ 1 → (after_use d op caller value n v).0 ≢ ok tt
  unfolding after_use query
  after_use-refuses n v h = λ p. ground arith

  pub consume_challenge-rows :
      (w : World)
      → (consume_challenge d op caller value w).0 ≡ ok tt
      → (consume_challenge d op caller value w).1.db.challenges
        ≡ update_rows
            (usable (statement w).1.now)
            (consume (statement w).1.now)
            (statement w).1.db.challenges
  unfolding consume_challenge exec_challenges after_use query
  consume_challenge-rows w h = ground arith

  use_up : World → Result Error ℕ × World
  use_up w = (
    ok (count_rows (usable w.now) w.db.challenges),
    record w {
      db = record w.db { challenges = update_rows (usable w.now) (consume w.now) w.db.challenges };
    },
  )

  consume_challenge-zero_after :
      (r : Result Error (Unit {0}) × World)
      → count_rows (usable r.1.now) r.1.db.challenges ≡ 0
      → (continue (after_use d op caller value) (continue (λ _ w. use_up w) r)).0 ≢ ok tt
  unfolding use_up
  consume_challenge-zero_after (err e, v) z = λ p. ground arith
  consume_challenge-zero_after (ok u, v) z =
      after_use-refuses (count_rows (usable v.now) v.db.challenges) (use_up v).1 (λ e. omega arith)

  consume_challenge-zero :
      (v : World)
      → count_rows (usable (statement v).1.now) (statement v).1.db.challenges ≡ 0
      → (consume_challenge d op caller value v).0 ≢ ok tt
  unfolding consume_challenge exec_challenges use_up
  consume_challenge-zero v z = consume_challenge-zero_after (statement v) z

  -- At most one use of a challenge succeeds: after a use that did, no later use of the same value
  -- for the same operation and caller does, in a transaction that finds the challenges as the
  -- first use left them.
  pub consume_challenge-once :
      (w v : World)
      → (consume_challenge d op caller value w).0 ≡ ok tt
      → v.connection ≡ open_tx
      → v.db.challenges ≡ (consume_challenge d op caller value w).1.db.challenges
      → (statement w).1.now ≤ v.now
      → (consume_challenge d op caller value v).0 ≢ ok tt
  consume_challenge-once w v h c same later = consume_challenge-zero v (
      ap (λ n. count_rows (usable n) (statement v).1.db.challenges) (now-statement v c)
      ∙ ap (λ x. count_rows (usable v.now) x.challenges) (db-statement v c)
      ∙ ap (λ x. count_rows (usable v.now) x) (same ∙ consume_challenge-rows w h)
      ∙ none_left (statement w).1.now v.now (statement w).1.db.challenges later)

  pub consume_challenge-count :
      (w : World)
      → (consume_challenge d op caller value w).0 ≡ ok tt
      → w.connection ≡ open_tx
      → count_rows (is_usable d op caller value w.now) w.db.challenges ≡ 1
  unfolding consume_challenge exec_challenges after_use query
  consume_challenge-count w h c =
      sym (ap (λ x. count_rows (usable w.now) x.challenges) (db-statement w c))
      ∙ sym (ap (λ n. count_rows (usable n) (statement w).1.db.challenges) (now-statement w c))
      ∙ (ground arith)

  -- The use of a challenge leaves the operations, the time and the transaction as they are.
  pub consume_challenge-keeps :
      (w : World)
      → (consume_challenge d op caller value w).0 ≡ ok tt
      → w.connection ≡ open_tx
      → ((consume_challenge d op caller value w).1.db.operations ≡ w.db.operations)
        × ((consume_challenge d op caller value w).1.now ≡ w.now)
        × ((consume_challenge d op caller value w).1.connection ≡ open_tx)
  unfolding consume_challenge exec_challenges after_use query statement
  consume_challenge-keeps w h c = ground arith
