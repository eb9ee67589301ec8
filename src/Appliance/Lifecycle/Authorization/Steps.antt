-- ===== src/Appliance/Lifecycle/Authorization/Steps.antt =====
-- The statements of an authorization, one by one (internal/appliance/lifecycle.go, Authorize).
use loxilb_oam.Prelude.{
  ℕ, ◌+◌, ◌≤◌, ◌<◌, ◌≡◌, refl, ap, ◌∙◌, Bool, true, ◌&&◌, not, Option, none, some, List, [], ◌∷◌,
  ◌++◌, Bytes, ◌==◌, Result, ok, err, arith, ltb, is_some,
}
use loxilb_oam.Appliance.Operation.{challenge_ttl}
use loxilb_oam.Appliance.Store.Row.{Row, ChallengeRow, count_rows, find_row, update_rows}
use loxilb_oam.Appliance.Store.World.{Error, World, M, open_tx, statement, ◌>>=◌, continue}
use loxilb_oam.Appliance.Store.Statements.{
  touch, exec_operations, remove_rows, delete_challenges, insert_challenge,
}
use loxilb_oam.Appliance.Caller.{Caller, Digest}
use loxilb_oam.Appliance.Planning.{is_open}
use loxilb_oam.Appliance.Lifecycle.Authorization.{insert_for, challenge_row}

-- A challenge of the operation that has not been used.
abbrev pub is_live : Bytes → ChallengeRow → Bool
is_live id c = c.operation_id == id && not (is_some c.consumed_at)

pub none_after :
    (id : Bytes) (cs : List ChallengeRow)
    → count_rows (is_live id) (remove_rows (is_live id) cs) ≡ 0
unfolding count_rows
none_after id [] = refl
none_after id (c ∷ cs) = let rest = none_after id cs in ground arith

pub one_more :
    (id : Bytes) (cs : List ChallengeRow) (c : ChallengeRow)
    → count_rows (is_live id) cs ≡ 0
    → is_live id c ≡ true
    → count_rows (is_live id) (cs ++ c ∷ []) ≡ 1
unfolding count_rows
one_more id [] c z l = ground arith
one_more id (x ∷ cs) c z l = let rest = one_more id cs c in ground arith

pub found-selected :
    (id : Bytes) (rows : List Row) (r : Row) → find_row (λ q. q.id == id) rows ≡ some r → r.id ≡ id
unfolding find_row
found-selected id [] r e = absurd (ground arith)
found-selected id (q ∷ rows) r e = let rest = found-selected id rows r in ground arith

-- The insert: what is returned is what was added.
inserted :
    (make : ℕ → ChallengeRow) (w : World) (c : ChallengeRow)
    → w.connection ≡ open_tx
    → (insert_challenge make w).0 ≡ ok c
    → (c ≡ make w.now)
      × ((insert_challenge make w).1.db.challenges ≡ w.db.challenges ++ c ∷ [])
      × ((insert_challenge make w).1.connection ≡ open_tx)
unfolding insert_challenge statement
inserted make w c o h = ground arith

row_live :
    (d : Digest) (caller : Caller) (value id : Bytes) (r : Row) (now : ℕ)
    → r.id ≡ id
    → is_live id (challenge_row d caller value r now) ≡ true
row_live d caller value id r now e = ground arith

row_bound :
    (d : Digest) (caller : Caller) (value : Bytes) (r : Row) (now : ℕ)
    → (challenge_row d caller value r now).expires_at ≤ now + challenge_ttl
row_bound d caller value r now = grind arith

row_unexpired :
    (d : Digest) (caller : Caller) (value : Bytes) (r : Row) (now : ℕ)
    → now < r.plan_expires_at
    → now < (challenge_row d caller value r now).expires_at
row_unexpired d caller value r now h = grind arith

-- A challenge for a value, of a caller.
abbrev pub IsFor : Digest → Caller → Bytes → ChallengeRow → Type 0
IsFor d caller value c =
    (c.challenge_hash ≡ d.sha256_hex value)
    × (c.actor_user_id ≡ caller.user_id)
    × (c.session_id ≡ caller.session_id)

row-IsFor :
    (d : Digest) (caller : Caller) (value : Bytes) (r : Row) (now : ℕ)
    → IsFor d caller value (challenge_row d caller value r now)
row-IsFor d caller value r now = (refl, refl, refl)

pub insert_for-IsFor :
    (d : Digest) (caller : Caller) (value id : Bytes) (o : Option Row) (w : World)
    (c : ChallengeRow)
    → ((r : Row) → o ≡ some r → r.id ≡ id)
    → ((r : Row) → o ≡ some r → w.now < r.plan_expires_at)
    → w.connection ≡ open_tx
    → (insert_for d caller value o w).0 ≡ ok c
    → (is_live id c ≡ true)
      × (c.expires_at ≤ w.now + challenge_ttl)
      × (w.now < c.expires_at)
      × IsFor d caller value c
      × ((insert_for d caller value o w).1.db.challenges ≡ w.db.challenges ++ c ∷ [])
      × ((insert_for d caller value o w).1.connection ≡ open_tx)
insert_for-IsFor d caller value id none w c h t o e = absurd (ground arith)
insert_for-IsFor d caller value id (some r) w c h t o e =
    let (made, added, still) = inserted (challenge_row d caller value r) w c o e in
    let same = h r refl in
    (
      ap (is_live id) made ∙ row_live d caller value id r w.now same,
      rw made (row_bound d caller value r w.now),
      rw made (row_unexpired d caller value r w.now (t r refl)),
      rw made (row-IsFor d caller value r w.now),
      added,
      still,
    )

-- The statements around it, in a transaction.
pub updated :
    (sel : ℕ → Row → Bool) (f : ℕ → Row → Row) (w : World) (n : ℕ)
    → w.connection ≡ open_tx
    → (exec_operations sel f w).0 ≡ ok n
    → ((exec_operations sel f w).1.connection ≡ open_tx)
      × ((exec_operations sel f w).1.now ≡ w.now)
      × ((exec_operations sel f w).1.db.challenges ≡ w.db.challenges)
      × ((exec_operations sel f w).1.db.operations
          ≡ update_rows (sel w.now) (λ r. touch w.now (f w.now r)) w.db.operations)
      × (n ≡ count_rows (sel w.now) w.db.operations)
unfolding exec_operations statement
updated sel f w n o h = ground arith

pub deleted :
    (sel : ChallengeRow → Bool) (w : World) (u : Unit {0})
    → w.connection ≡ open_tx
    → (delete_challenges sel w).0 ≡ ok u
    → ((delete_challenges sel w).1.connection ≡ open_tx)
      × ((delete_challenges sel w).1.now ≡ w.now)
      × ((delete_challenges sel w).1.db.operations ≡ w.db.operations)
      × ((delete_challenges sel w).1.db.challenges ≡ remove_rows sel w.db.challenges)
unfolding delete_challenges statement
deleted sel w u o h = ground arith

-- What a sequence has gone through, if it came to a result.
pub bind_inv {ℓ κ} :
    {A : Type ℓ} {B : Type κ} (m : M A) (f : A → M B) (w : World) (b : B)
    → ((m >>= f) w).0 ≡ ok b
    → (a : A) × ((m w).0 ≡ ok a) × ((m >>= f) w ≡ f a (m w).1)
bind_inv m f w b h = let (r, v) = m w in go r v h
  where
    go :
        (r : Result Error _) (v : World)
        → (continue f (r, v)).0 ≡ ok b
        → (a : _) × (r ≡ ok a) × (continue f (r, v) ≡ f a v)
    go (ok a) v e = (a, refl, refl)
    go (err x) v e = absurd (ground arith)

-- The condition under which Authorize moves a row on.
abbrev pub is_open_row : Bytes → ℕ → Row → Bool
is_open_row id now r = r.id == id && is_open r.state && ltb now r.plan_expires_at

no_row :
    (id : Bytes) (now : ℕ) (rows : List Row)
    → count_rows (λ r. r.id == id) rows ≡ 0
    → count_rows (is_open_row id now) rows ≡ 0
unfolding count_rows
no_row id now [] z = refl
no_row id now (r ∷ rows) z = let rest = no_row id now rows in ground arith

-- With one row of an ID, the row that is found is the row that was moved on: its plan has not expired.
pub found_open :
    (id : Bytes) (now : ℕ) (f : Row → Row)
    → ((r : Row) → (f r).plan_expires_at ≡ r.plan_expires_at)
    → ((r : Row) → (f r).id ≡ r.id)
    → (rows : List Row) (r : Row) → count_rows (λ q. q.id == id) rows ≤ 1
    → count_rows (is_open_row id now) rows ≡ 1
    → find_row (λ q. q.id == id) (update_rows (is_open_row id now) f rows) ≡ some r
    → now < r.plan_expires_at
unfolding count_rows find_row update_rows
found_open id now f fe fi [] r u o e = absurd (omega arith)
found_open id now f fe fi (q ∷ rows) r u o e =
    let none_else = no_row id now rows in
    let rest = found_open id now f fe fi rows r in let t = fe q in let s = fi q in ground arith
