-- ===== src/Migrate/Session.antt =====
-- The database as internal/migrate/migrate.go sees it, and its statements. The advisory lock keeps
-- other migration runs out, and migrations do not touch schema_migrations themselves.
use mathlib.Core.Option
use loxilb_oam.Prelude.{
  ℕ, Bool, true, false, Option, none, some, List, [], ◌∷◌, Bytes, Result, ok, err, ltb, ◌=ℕ◌,
  if◌then◌else◌,
}
use loxilb_oam.Migrate.{Mode, Error, database}

-- What PostgreSQL does with the rest of the schema: the effect of a migration's statements, if they
-- succeed, and whether there is a table `users`.
pub record Engine (S : Type 0) : Type 0 where
  pub execute : Bytes → S → Option S
  pub has_users : S → Bool

-- A row of schema_migrations.
pub record Row : Type 0 where
  pub version : ℕ
  pub name : Bytes
  pub checksum : Bytes
  pub adopted : Bool
  pub applied_at : ℕ

-- `history` is the table schema_migrations in the order of its primary key, if there is one.
pub record Database (S : Type 0) : Type 0 where
  pub history : Option (List Row)
  pub schema : S

pub record Status : Type 0 where
  pub mode : Mode
  pub version : ℕ
  pub latest : ℕ
  pub applied : List ℕ
  pub adopted : Bool

-- A run: the database, its clock, which statements to come fail, and the status so far.
pub record Session (S : Type 0) : Type 0 where
  pub db : Database S
  pub now : ℕ
  pub faults : List Bool
  pub status : Status

abbrev pub M : Type 0 → Type 0 → Type 0
M S A = Session S → Result Error A × Session S

pub data Table : Type 0 where
  schema_migrations users : Table

-- INSERT, refused for a version that is there.
unfoldable pub insert_row : Row → List Row → Option (List Row)
insert_row r [] = some (r ∷ [])
insert_row r (x ∷ xs) =
    if ltb r.version x.version
    then some (r ∷ x ∷ xs)
    else if r.version =ℕ x.version
    then none
    else Option.map (λ l. x ∷ l) (insert_row r xs)

module _ {S : Type 0} where
  abbrev pub continue :
      {A B : Type 0} → (A → M S B) → Result Error A × Session S → Result Error B × Session S
  continue f (ok a, s) = f a s
  continue f (err e, s) = (err e, s)

  infixl 5 ◌>>=◌ ◌>>◌
  abbrev pub ◌>>=◌ : {A B : Type 0} → M S A → (A → M S B) → M S B
  ◌>>=◌ m f s = continue f (m s)

  abbrev pub ◌>>◌ : {B : Type 0} → M S (Unit {0}) → M S B → M S B
  m >> k = m >>= λ _. k

  abbrev pub pure : {A : Type 0} → A → M S A
  pure a s = (ok a, s)

  abbrev pub lift : {A : Type 0} → Result Error A → M S A
  lift r s = (r, s)

  abbrev pub set_status : (Status → Status) → M S (Unit {0})
  set_status f s = (ok tt, record s { status = f s.status })

  abbrev try_statement : List Bool → Session S → Result Error (Unit {0}) × Session S
  try_statement [] s = (ok tt, s)
  try_statement (false ∷ fs) s = (ok tt, record s { faults = fs })
  try_statement (true ∷ fs) s = (err database, record s { faults = fs })

  -- What every call of the database does first.
  unfoldable pub statement : M S (Unit {0})
  statement s = try_statement s.faults s

  -- A change of the database that may be refused.
  abbrev store : Option (Database S) → Session S → Result Error (Unit {0}) × Session S
  store none s = (err database, s)
  store (some db) s = (ok tt, record s { db = db })

  unfoldable pub exec : (ℕ → Database S → Option (Database S)) → M S (Unit {0})
  exec change = do statement; (λ s. store (change s.now s.db) s)

  unfoldable pub query : {A : Type 0} → (Database S → Option A) → M S A
  query f = do statement; (λ s. elim (f s.db) [ none ↦ (err database, s) | some a ↦ (ok a, s) ])

  abbrev roll_back :
      {A : Type 0} → Database S → Result Error A × Session S → Result Error A × Session S
  roll_back saved (ok a, s) = (ok a, s)
  roll_back saved (err e, s) = (err e, record s { db = saved })

  abbrev committed : {A : Type 0} → M S A → M S A
  committed m = m >>= λ a. statement >> pure a

  abbrev begun : {A : Type 0} → M S A → Unit {0} → M S A
  begun m _ s = roll_back s.db (committed m s)

  -- Begin, the statements and the commit. Whatever fails, the commit included, nothing is kept.
  unfoldable pub transaction : {A : Type 0} → M S A → M S A
  transaction m = statement >>= begun m

  abbrev pub insert_history : Row → Database S → Option (Database S)
  insert_history r db =
      Option.bind db.history
        λ rows. Option.map (λ l. record db { history = some l }) (insert_row r rows)
