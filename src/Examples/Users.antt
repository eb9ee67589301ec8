-- ===== src/Examples/Users.antt =====
-- One administrator and one viewer (internal/services/user_service.go).
use loxilb_oam.Prelude.{
  ◌+◌, ◌<◌, ◌≤◌, ◌≡◌, ◌≢◌, ◌↔◌, refl, ap, true, false, none, some, [], ◌∷◌, bytes, length, any, leb,
  ltb, ◌&&◌, ok, err, List, Bool, Bytes, ◌⊎◌, ◌++◌, arith, Bytes-discrete,
}
use loxilb_oam.Rbac.{role_admin, role_viewer}
use loxilb_oam.Users.{
  User, World, LoginAttempt, database, quiet, query, exec, statement, count_users, owned_by,
}
use loxilb_oam.Users.Rules.{
  has_repeats, repeats, Unicode, NoTriple, counts_lower, counts_number, counts_special,
  check_password, check_password_iff,
}
use loxilb_oam.Users.Accounts.{Hashing, has_id, Updates, update_user, store_changes, delete_user}
use loxilb_oam.Users.Admins.{admins}
use loxilb_oam.Users.Sessions.{last_admin_kept, update_user_revokes}
use loxilb_oam.Users.Lockout.{
  is_stale, find_attempt, get_login_attempt, is_login_blocked, record_failed_login, doubled,
  lockout, upsert_attempt,
}
use loxilb_oam.Users.Lockout.Blocks.{lockout_end, record_failed_login_blocks}
use loxilb_oam.Strings.Utf8.{runes}

-- The classes of ASCII, where a rune is a byte.
abbrev ascii : Unicode
ascii = record {
  decode = λ s. s;
  is_upper = λ c. leb 65 c && leb c 90;
  is_lower = λ c. leb 97 c && leb c 122;
  is_number = λ c. leb 48 c && leb c 57;
  is_special = λ c. leb 33 c && leb c 47;
}

-- A hash that keeps the password.
abbrev plain : Hashing
plain = record { hash = λ password salt. password; verify = λ password stored. some false }

abbrev root : User
root = record {
  id = 1;
  username = bytes "root";
  email = [];
  password = bytes "Old-pass1";
  role = role_admin;
}

abbrev guest : User
guest = record {
  id = 2;
  username = bytes "guest";
  email = [];
  password = bytes "Old-pass2";
  role = role_viewer;
}

abbrev world : World
world = record {
  db = record {
    users = root ∷ guest ∷ [];
    tokens = record { value = bytes "t"; owner = bytes "1"; expires_at = 90 } ∷ [];
    attempts = [];
    next_id = 3;
  };
  now = 7;
  faults = [];
}

abbrev new_password : Updates
new_password = record {
  username = none;
  email = none;
  role = none;
  password = some (bytes "New-pass3");
}

one_root : count_users (has_id 1) world.db.users ≤ 1
unfolding count_users
one_root = omega arith

one_admin : 0 < admins world.db.users
unfolding count_users Bytes-discrete
one_admin = omega arith

last_admin_kept_example :
    (0 < admins (update_user ascii plain [] true 1 new_password world).1.db.users)
    × (0 < admins (delete_user 1 world).1.db.users)
last_admin_kept_example =
    last_admin_kept ascii plain [] true 1 new_password world one_root one_admin

accepted : (update_user ascii plain [] true 1 new_password world).0 ≡ ok tt
unfolding update_user store_changes Bytes-discrete
accepted = refl

update_user_revokes_example :
    any (owned_by 1) (update_user ascii plain [] true 1 new_password world).1.db.tokens ≡ false
update_user_revokes_example =
    update_user_revokes ascii plain [] true 1 new_password world refl accepted

check_password_iff_example : (check_password ascii (bytes "root") (bytes "New-pass3") ≡ ok tt) ↔ (
    (9 ≤ length (bytes "New-pass3"))
    × (bytes "New-pass3" ≢ bytes "root")
    × NoTriple (bytes "New-pass3")
    × (any ascii.is_upper (bytes "New-pass3") ≡ true)
    × (any (counts_lower ascii) (bytes "New-pass3") ≡ true)
    × (any (counts_number ascii) (bytes "New-pass3") ≡ true)
    × (any (counts_special ascii) (bytes "New-pass3") ≡ true))
check_password_iff_example = check_password_iff ascii (bytes "root") (bytes "New-pass3")

-- Text in UTF-8, with the classes of ASCII.
abbrev utf8 : Unicode
utf8 = record ascii { decode = λ s. elim (runes s) [ none ↦ [] | some rs ↦ rs ] }

-- The letters e, u and a with marks, of two bytes each, after four of ASCII.
abbrev seven_characters : Bytes
seven_characters = bytes "Aa1!" ++ 195 ∷ 169 ∷ 195 ∷ 188 ∷ 195 ∷ 164 ∷ []

-- Seven characters pass, which are ten bytes, and so do consecutive ones.
lenient :
    (check_password utf8 (bytes "root") seven_characters ≡ ok tt)
    × (length (utf8.decode seven_characters) ≡ 7)
    × (check_password ascii (bytes "root") (bytes "Abcdef123!") ≡ ok tt)
unfolding check_password has_repeats repeats runes Bytes-discrete
lenient = (refl, refl, refl)

abbrev attempt : LoginAttempt
attempt = record {
  username = bytes "root";
  client_ip = bytes "::1";
  failed_count = 6;
  last_failed_at = some 100;
  blocked_until = some 160;
}

-- The query goes through, the update fails.
abbrev attempted : List Bool → World
attempted faults = record {
  db = record { users = []; tokens = []; attempts = attempt ∷ []; next_id = 1 };
  now = 170;
  faults = faults;
}

seventh : find_attempt (bytes "root") (bytes "::1") (attempt ∷ []) ≡ attempt
unfolding find_attempt Bytes-discrete
seventh = refl

in_window :
    is_stale 170 (find_attempt (bytes "root") (bytes "::1") (attempt ∷ [])).last_failed_at ≡ false
unfolding find_attempt Bytes-discrete
in_window = refl

record_failed_login_blocks_example :
    let r = record_failed_login (bytes "root") (bytes "::1") 170 (attempted []) in
    ((r.0 ≡ (ok tt, some (lockout_end 170 6)))
      × ((is_login_blocked (bytes "root") (bytes "::1") 200 (quiet r.1.db 200)).0
          ≡ ok (ltb 200 (lockout_end 170 6)))
      × ((find_attempt (bytes "root") (bytes "::1") r.1.db.attempts).failed_count ≡ 6 + 1))
    ⊎ ((r.0.0 ≡ err database)
        × (r.1.db ≡ (attempted []).db)
        × (any (λ b. b) (attempted []).faults ≡ true))
record_failed_login_blocks_example =
    record_failed_login_blocks (bytes "root") (bytes "::1") 170 200 6 (attempted []) in_window
      (ap (λ a. a.failed_count) seventh) (omega arith)

-- Two minutes for the seventh; and the time is returned too where the update fails.
two_minutes :
    ((record_failed_login (bytes "root") (bytes "::1") 170 (attempted [])).0 ≡ (ok tt, some 290))
    × (record_failed_login (bytes "root") (bytes "::1") 170 (attempted (false ∷ true ∷ []))
        ≡ ((err database, some 290), attempted []))
unfolding record_failed_login get_login_attempt find_attempt query exec statement lockout doubled
    upsert_attempt Bytes-discrete
two_minutes = (refl, refl)
