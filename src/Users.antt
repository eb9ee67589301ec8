-- ===== src/Users.antt =====
-- Users, their passwords and their sessions (internal/services/user_service.go): the tables, and the
-- statements on them.
pub mod Rules
pub mod Accounts
pub mod Passwords
pub mod Login
pub mod Effects
pub mod Admins
pub mod Sessions
pub mod Lockout
use mathlib.Core.Option
use loxilb_oam.Prelude.{
  ℕ, ◌+◌, Bool, true, false, not, ◌&&◌, Option, none, some, List, [], ◌∷◌, map, Bytes, ◌==◌, any,
  ltb, ◌=ℕ◌, Result, ok, err, if◌then◌else◌,
}
use loxilb_oam.Strings.Decimal.{format_int}

-- A user, less the time of creation, which nothing here reads.
pub record User : Type 0 where
  pub id : ℕ
  pub username : Bytes
  pub email : Bytes
  -- The stored hash.
  pub password : Bytes
  pub role : Bytes

-- A row of api_tokens. The owner is the text of a user's identifier.
pub record Token : Type 0 where
  pub value : Bytes
  pub owner : Bytes
  pub expires_at : ℕ

-- A row of login_attempts, less its identifier and the times of its creation and its update. The
-- zero time of Go, as in the attempt that stands for no row, is `none`.
pub record LoginAttempt : Type 0 where
  pub username : Bytes
  pub client_ip : Bytes
  pub failed_count : ℕ
  pub last_failed_at : Option ℕ
  pub blocked_until : Option ℕ

pub record Db : Type 0 where
  pub users : List User
  pub tokens : List Token
  pub attempts : List LoginAttempt
  -- The next identifier of the sequence.
  pub next_id : ℕ

pub data PasswordError : Type 0 where
  too_short same_as_username repeated no_upper no_lower no_number no_special same_as_previous :
      PasswordError

pub data Error : Type 0 where
  database user_not_found invalid_role no_fields username_exists last_admin invalid_password
        system :
      Error
  weak : PasswordError → Error

-- A request: the tables, the clock, and which statements to come fail.
pub record World : Type 0 where
  pub db : Db
  pub now : ℕ
  pub faults : List Bool

-- Nothing fails.
abbrev pub quiet : Db → ℕ → World
quiet db now = record { db = db; now = now; faults = [] }

abbrev pub M : Type 0 → Type 0
M A = World → Result Error A × World

abbrev pub continue : {A B : Type 0} → (A → M B) → Result Error A × World → Result Error B × World
continue f (ok a, w) = f a w
continue f (err e, w) = (err e, w)

infixl 5 ◌>>=◌ ◌>>◌
abbrev pub ◌>>=◌ : {A B : Type 0} → M A → (A → M B) → M B
◌>>=◌ m f w = continue f (m w)

abbrev pub ◌>>◌ : {B : Type 0} → M (Unit {0}) → M B → M B
m >> k = m >>= λ _. k

abbrev pub pure : {A : Type 0} → A → M A
pure a w = (ok a, w)

abbrev pub lift : {A : Type 0} → Result Error A → M A
lift r w = (r, w)

abbrev pub refuse_if : Bool → Error → M (Unit {0})
refuse_if test e = if test then lift (err e) else pure tt

abbrev pub try_statement : List Bool → World → Result Error (Unit {0}) × World
try_statement [] w = (ok tt, w)
try_statement (false ∷ fs) w = (ok tt, record w { faults = fs })
try_statement (true ∷ fs) w = (err database, record w { faults = fs })

-- What every statement does first.
unfoldable pub statement : M (Unit {0})
statement w = try_statement w.faults w

unfoldable pub query : {A : Type 0} → (ℕ → Db → A) → M A
unfolding statement
query f = statement >>= λ _ w. (ok (f w.now w.db), w)

abbrev pub stored : Result Error Db → World → Result Error (Unit {0}) × World
stored (ok db) w = (ok tt, record w { db = db })
stored (err e) w = (err e, w)

unfoldable pub exec : (Db → Result Error Db) → M (Unit {0})
unfolding statement
exec f = statement >>= λ _ w. stored (f w.db) w

abbrev pub roll_back : {A : Type 0} → Db → Result Error A × World → Result Error A × World
roll_back saved (ok a, w) = (ok a, w)
roll_back saved (err e, w) = (err e, record w { db = saved })

abbrev pub committed : {A : Type 0} → M A → M A
committed m = m >>= λ a. statement >> pure a

-- Begin, the statements and the commit; whatever fails, nothing of it stays.
unfoldable pub transaction : {A : Type 0} → M A → M A
unfolding statement
transaction m = statement >>= λ _ w. roll_back w.db (committed m w)

unfoldable pub find_user : (User → Bool) → List User → Option User
find_user p [] = none
find_user p (u ∷ us) = if p u then some u else find_user p us

unfoldable pub count_users : (User → Bool) → List User → ℕ
count_users p [] = 0
count_users p (u ∷ us) = (if p u then 1 else 0) + count_users p us

unfoldable pub update_users : (User → Bool) → (User → User) → List User → List User
update_users p f [] = []
update_users p f (u ∷ us) = (if p u then f u else u) ∷ update_users p f us

unfoldable pub delete_users : (User → Bool) → List User → List User
delete_users p [] = []
delete_users p (u ∷ us) = let rest = delete_users p us in if p u then rest else u ∷ rest

unfoldable pub delete_tokens : (Token → Bool) → List Token → List Token
delete_tokens p [] = []
delete_tokens p (t ∷ ts) = let rest = delete_tokens p ts in if p t then rest else t ∷ rest

-- DELETE FROM api_tokens WHERE user_id = $1
abbrev pub owned_by : ℕ → Token → Bool
owned_by id t = t.owner == format_int id

-- The JOIN and the test of ValidateTokenQuery.
abbrev pub is_live : Bytes → ℕ → Db → Token → Bool
is_live value now db t =
    t.value == value && ltb now t.expires_at && any (λ u. t.owner == format_int u.id) db.users
