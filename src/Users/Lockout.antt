-- ===== src/Users/Lockout.antt =====
-- Failed logins and how long they lock out (internal/services/user_service.go): GetLoginAttempt,
-- IsLoginBlocked, RecordFailedLogin and ClearLoginAttempts. Durations are seconds.
pub mod Blocks
use loxilb_oam.Prelude.{
  ℕ, zero, suc, ◌+◌, ◌-◌, ◌*◌, ◌^◌, ◌≤◌, ◌<◌, ◌≡◌, refl, sym, ap, ◌∙◌, Bool, true, false, ◌&&◌,
  Option, none, some, List, [], ◌∷◌, Bytes, ◌==◌, ltb, arith, Bool-cases, ◌⊎◌, inl, inr, any,
  Result, ok, err, if◌then◌else◌,
}
use loxilb_oam.Users.{
  LoginAttempt, Db, World, quiet, Error, database, M, ◌>>=◌, pure, statement, query, exec,
}

abbrev pub max_failed_login_attempts : ℕ
max_failed_login_attempts = 5

abbrev pub login_lockout_base : ℕ
login_lockout_base = 60

abbrev pub login_lockout_max : ℕ
login_lockout_max = 900

abbrev pub login_attempt_window : ℕ
login_attempt_window = 600

-- The loop that doubles, with its counter above 1 as the rounds left.
unfoldable pub doubled : ℕ → ℕ → ℕ
doubled zero duration = duration
doubled (suc rounds) duration = elim (ltb duration login_lockout_max) [
  | true ↦ doubled rounds (duration * 2)
  | false ↦ duration
]

-- The lockout for a number of failures above the limit.
unfoldable pub lockout : ℕ → ℕ
unfolding doubled
lockout failed =
    let duration = doubled (failed - max_failed_login_attempts - 1) login_lockout_base in
    if ltb login_lockout_max duration then login_lockout_max else duration

abbrev pub is_of : Bytes → Bytes → LoginAttempt → Bool
is_of username client_ip a = a.username == username && a.client_ip == client_ip

abbrev pub no_attempt : LoginAttempt
no_attempt = record {
  username = [];
  client_ip = [];
  failed_count = 0;
  last_failed_at = none;
  blocked_until = none;
}

-- SelectLoginAttemptQuery; no row is not an error.
unfoldable pub find_attempt : Bytes → Bytes → List LoginAttempt → LoginAttempt
find_attempt username client_ip [] = no_attempt
find_attempt username client_ip (a ∷ rows) =
    if is_of username client_ip a then a else find_attempt username client_ip rows

unfoldable pub get_login_attempt : Bytes → Bytes → M LoginAttempt
unfolding find_attempt query
get_login_attempt username client_ip =
    query (λ clock db. find_attempt username client_ip db.attempts)

-- Whether the failure before is older than the window.
abbrev pub is_stale : ℕ → Option ℕ → Bool
is_stale now none = false
is_stale now (some t) = ltb login_attempt_window (now - t)

abbrev pub is_before : ℕ → Option ℕ → Bool
is_before now none = false
is_before now (some t) = ltb now t

-- IsLoginBlocked, but for the time that remains. `now` is the caller's clock.
unfoldable pub is_login_blocked : Bytes → Bytes → ℕ → M Bool
unfolding get_login_attempt
is_login_blocked username client_ip now = do
  attempt ← get_login_attempt username client_ip
  pure (is_before now attempt.blocked_until)

abbrev pub restarted : ℕ → LoginAttempt → LoginAttempt
restarted now a = record a { failed_count = 1; last_failed_at = some now; blocked_until = none }

unfoldable pub reset_attempt : Bytes → Bytes → ℕ → List LoginAttempt → List LoginAttempt
reset_attempt username client_ip now [] = []
reset_attempt username client_ip now (a ∷ rows) =
    (if is_of username client_ip a then restarted now a else a)
    ∷ reset_attempt username client_ip now rows

-- INSERT, or on the row that is there the count goes up.
unfoldable pub upsert_attempt : Bytes → Bytes → ℕ → Option ℕ → List LoginAttempt → List LoginAttempt
upsert_attempt username client_ip now until [] =
    record {
      username = username;
      client_ip = client_ip;
      failed_count = 1;
      last_failed_at = some now;
      blocked_until = until;
    }
    ∷ []
upsert_attempt username client_ip now until (a ∷ rows) =
    if is_of username client_ip a
    then record a {
      failed_count = a.failed_count + 1;
      last_failed_at = some now;
      blocked_until = until;
    }
      ∷ rows
    else a ∷ upsert_attempt username client_ip now until rows

abbrev pub block_time : ℕ → ℕ → Option ℕ
block_time now failed =
    if ltb max_failed_login_attempts failed then some (now + lockout failed) else none

-- What RecordFailedLogin returns: an error or none, and the time until which the login is blocked,
-- which is set before the statement that stores it.
abbrev pub Outcome : Type 0
Outcome = Result Error (Unit {0}) × Option ℕ

abbrev pub returning : Option ℕ → Result Error (Unit {0}) × World → Outcome × World
returning until (r, w) = ((r, until), w)

abbrev pub store_attempts : (List LoginAttempt → List LoginAttempt) → M (Unit {0})
store_attempts f = exec (λ db. ok (record db { attempts = f db.attempts }))

abbrev pub record_after : Bytes → Bytes → ℕ → LoginAttempt → World → Outcome × World
record_after username client_ip now attempt w =
    if is_stale now attempt.last_failed_at
    then returning none (store_attempts (reset_attempt username client_ip now) w)
    else (let until = block_time now (attempt.failed_count + 1) in
        returning until (store_attempts (upsert_attempt username client_ip now until) w))

abbrev pub record_read : Bytes → Bytes → ℕ → Result Error LoginAttempt × World → Outcome × World
record_read username client_ip now (err e, w) = ((err e, none), w)
record_read username client_ip now (ok attempt, w) = record_after username client_ip now attempt w

unfoldable pub record_failed_login : Bytes → Bytes → ℕ → World → Outcome × World
unfolding get_login_attempt lockout exec reset_attempt upsert_attempt
record_failed_login username client_ip now w =
    record_read username client_ip now (get_login_attempt username client_ip w)

unfoldable pub without_attempts : Bytes → Bytes → List LoginAttempt → List LoginAttempt
without_attempts username client_ip [] = []
without_attempts username client_ip (a ∷ rows) =
    let rest = without_attempts username client_ip rows in
    if is_of username client_ip a then rest else a ∷ rest

unfoldable pub clear_login_attempts : Bytes → Bytes → M (Unit {0})
unfolding exec without_attempts
clear_login_attempts username client_ip = store_attempts (without_attempts username client_ip)
