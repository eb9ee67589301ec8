-- ===== src/Users/Lockout/Blocks.antt =====
-- What a failed login locks out, and for how long (RecordFailedLogin of
-- internal/services/user_service.go).
use loxilb_oam.Prelude.{
  ℕ, zero, suc, ◌+◌, ◌-◌, ◌*◌, ◌^◌, ◌≤◌, ◌<◌, ◌≡◌, refl, sym, ap, ◌∙◌, Bool, true, false, Option,
  some, List, [], ◌∷◌, Bytes, ◌==◌, ltb, arith, Bool-cases, ◌⊎◌, inl, inr, any, ok, err,
  if◌then◌else◌,
}
use loxilb_oam.Users.{LoginAttempt, Db, World, quiet, database, statement, query, exec}
use loxilb_oam.Users.Lockout.{
  max_failed_login_attempts, login_lockout_base, login_lockout_max, doubled, lockout, find_attempt,
  get_login_attempt, is_stale, is_before, is_login_blocked, upsert_attempt, block_time, Outcome,
  returning, store_attempts, record_after, record_failed_login,
}

-- The first lockout is a minute, the later ones double, up to 15 minutes.
lockout_table :
    (lockout 6 ≡ 60)
    × (lockout 7 ≡ 120)
    × (lockout 8 ≡ 240)
    × (lockout 9 ≡ 480)
    × (lockout 10 ≡ 900)
unfolding lockout
lockout_table = (refl, refl, refl, refl, refl)

abbrev pub capped : ℕ → ℕ
capped d = if ltb login_lockout_max d then login_lockout_max else d

pow_next : (n : ℕ) → 2 ^ suc n ≡ 2 * 2 ^ n
pow_next n = omega arith

pow_positive : (n : ℕ) → 0 < 2 ^ n
pow_positive zero = omega arith
pow_positive (suc n) = omega (arith, pow_next n, pow_positive n)

-- A product with a positive number is no smaller.
le_mul : (d k : ℕ) → 0 < k → d ≤ d * k
le_mul d k h = grind arith

twice_mul : (d k : ℕ) → d * 2 * k ≡ d * (2 * k)
twice_mul d k = grind arith

both_capped : (d e : ℕ) → login_lockout_max ≤ d → d ≤ e → capped d ≡ capped e
both_capped d e h l = ground arith

capped-doubled : (n d : ℕ) → capped (doubled n d) ≡ capped (d * 2 ^ n)
unfolding doubled
capped-doubled zero d = let e : d ≡ d * 2 ^ 0 = omega arith in ap capped e
capped-doubled (suc n) d = elim (Bool-cases (ltb d login_lockout_max)) [
  | inl p ↦
      rw (p, doubled)
        (capped-doubled n (d * 2)
          ∙ ap capped (twice_mul d (2 ^ n) ∙ ap (λ k. d * k) (sym (pow_next n))))
  | inr p ↦
      let big = le_mul d (2 ^ suc n) (pow_positive (suc n)) in
      rw (p, doubled) (both_capped d (d * 2 ^ suc n) (ground arith) big)
]

-- The lockout after more failures than are allowed: a minute, doubled for every failure beyond the
-- first of them, and 15 minutes at most.
lockout_lem :
    (failed : ℕ)
    → max_failed_login_attempts < failed
    → lockout failed ≡ capped (login_lockout_base * 2 ^ (failed - max_failed_login_attempts - 1))
unfolding lockout
lockout_lem failed h = capped-doubled (failed - max_failed_login_attempts - 1) login_lockout_base

==_refl : (s : Bytes) → (s == s) ≡ true
==_refl s = ground arith

find-upsert_attempt :
    (username client_ip : Bytes) (now : ℕ) (until : Option ℕ) (rows : List LoginAttempt)
    → (let a = find_attempt username client_ip (upsert_attempt username client_ip now until rows) in
        (a.failed_count ≡ (find_attempt username client_ip rows).failed_count + 1)
        × (a.blocked_until ≡ until)
        × (a.last_failed_at ≡ some now))
unfolding find_attempt upsert_attempt
find-upsert_attempt username client_ip now until [] =
    ground (arith, ==_refl username, ==_refl client_ip)
find-upsert_attempt username client_ip now until (a ∷ rows) =
    ground (arith, find-upsert_attempt username client_ip now until rows)

block_time_lem :
    (now failed : ℕ)
    → max_failed_login_attempts < failed
    → block_time now failed ≡ some (now + lockout failed)
block_time_lem now failed h = ground arith

-- The time until which a login is blocked that has failed at `now`, and so many times before.
abbrev pub lockout_end : ℕ → ℕ → ℕ
lockout_end now failed =
    now + capped (login_lockout_base * 2 ^ (failed - max_failed_login_attempts))

block_time-lockout_end :
    (now failed : ℕ)
    → max_failed_login_attempts ≤ failed
    → block_time now (failed + 1) ≡ some (lockout_end now failed)
block_time-lockout_end now failed m =
    let n : failed + 1 - max_failed_login_attempts - 1 ≡ failed - max_failed_login_attempts =
      omega arith in
    block_time_lem now (failed + 1) (omega arith)
    ∙ ap (λ k. some (now + k))
        (lockout_lem (failed + 1) (omega arith) ∙ ap (λ k. capped (login_lockout_base * 2 ^ k)) n)

module _ (username client_ip : Bytes) (now : ℕ) where
  abbrev here : World → LoginAttempt
  here w = find_attempt username client_ip w.db.attempts

  abbrev upserted : World → List LoginAttempt
  upserted w =
      upsert_attempt username client_ip now (block_time now ((here w).failed_count + 1))
        w.db.attempts

  -- Either all of it went well, or a statement failed and nothing is stored.
  abbrev Recorded : World → Outcome × World → Type 0
  Recorded w r =
      ((r.0 ≡ (ok tt, block_time now ((here w).failed_count + 1))) × (r.1.db.attempts ≡ upserted w))
      ⊎ ((r.0.0 ≡ err database) × (r.1.db ≡ w.db) × (any (λ b. b) w.faults ≡ true))

  in_time :
      (a : LoginAttempt) (w : World)
      → is_stale now a.last_failed_at ≡ false
      → record_after username client_ip now a w ≡ (
          let until = block_time now (a.failed_count + 1) in
          returning until (store_attempts (upsert_attempt username client_ip now until) w))
  in_time a w s = rw s refl

  record_failed_login-Recorded :
      (fs : List Bool) (w : World)
      → is_stale now (here w).last_failed_at ≡ false
      → (let v : World = record w { faults = fs } in
          Recorded v (record_failed_login username client_ip now v))
  unfolding record_failed_login get_login_attempt query exec statement
  record_failed_login-Recorded [] w s =
      let e = in_time (here w) (record w { faults = [] }) s in
      inl (ap (λ x. x.0) e, ap (λ x. x.1.db.attempts) e)
  record_failed_login-Recorded (true ∷ fs) w s = inr (refl, refl, refl)
  record_failed_login-Recorded (false ∷ []) w s =
      let e = in_time (here w) (record w { faults = [] }) s in
      inl (ap (λ x. x.0) e, ap (λ x. x.1.db.attempts) e)
  record_failed_login-Recorded (false ∷ true ∷ fs) w s =
      let e = in_time (here w) (record w { faults = true ∷ fs }) s in
      inr (ap (λ x. x.0.0) e, ap (λ x. x.1.db) e, refl)
  record_failed_login-Recorded (false ∷ false ∷ fs) w s =
      let e = in_time (here w) (record w { faults = false ∷ fs }) s in
      inl (ap (λ x. x.0) e, ap (λ x. x.1.db.attempts) e)

  blocked_at :
      (t : ℕ) (db : Db)
      → (is_login_blocked username client_ip t (quiet db t)).0
        ≡ ok (is_before t (find_attempt username client_ip db.attempts).blocked_until)
  unfolding is_login_blocked get_login_attempt query statement
  blocked_at t db = refl

  -- A failed login that comes after five or more, within the window of the last. If no statement
  -- fails, it locks the name and the address out for a minute, doubled for every failure beyond the
  -- sixth, and at most 15 minutes: the time returned is that far off, a later check whose query does
  -- not fail finds the login blocked at any time before it and no longer from then on, and the
  -- failure is counted. If a statement fails, it returns the error and changes nothing.
  pub record_failed_login_blocks :
      (t failed : ℕ) (w : World)
      → is_stale now (find_attempt username client_ip w.db.attempts).last_failed_at ≡ false
      → (find_attempt username client_ip w.db.attempts).failed_count ≡ failed
      → max_failed_login_attempts ≤ failed
      → (let r = record_failed_login username client_ip now w in
          ((r.0 ≡ (ok tt, some (lockout_end now failed)))
            × ((is_login_blocked username client_ip t (quiet r.1.db t)).0
                ≡ ok (ltb t (lockout_end now failed)))
            × ((find_attempt username client_ip r.1.db.attempts).failed_count ≡ failed + 1))
          ⊎ ((r.0.0 ≡ err database) × (r.1.db ≡ w.db) × (any (λ b. b) w.faults ≡ true)))
  record_failed_login_blocks t failed w s f m =
      let time = block_time now ((here w).failed_count + 1) in
      let (count, until, at) = find-upsert_attempt username client_ip now time w.db.attempts in
      let due : time ≡ some (lockout_end now failed) =
        ap (λ n. block_time now (n + 1)) f ∙ block_time-lockout_end now failed m in
      elim (record_failed_login-Recorded w.faults w s) [
        | inr failure ↦ inr failure
        | inl (done, rows) ↦ inl (
          done ∙ ap (λ u. (ok tt, u)) due,
          blocked_at t (record_failed_login username client_ip now w).1.db
              ∙ ap (λ x. ok (is_before t (find_attempt username client_ip x).blocked_until)) rows
              ∙ ap (λ u. ok (is_before t u)) (until ∙ due),
          ap (λ x. (find_attempt username client_ip x).failed_count) rows
              ∙ count
              ∙ ap (λ k. k + 1) f,
        )
      ]
