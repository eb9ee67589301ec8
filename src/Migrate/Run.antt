-- ===== src/Migrate/Run.antt =====
-- Run of internal/migrate/migrate.go: apply, check and the version that is recorded.
pub mod Applying
pub mod Preparing
pub mod Outcome
pub mod Fresh
pub mod Checking
use mathlib.Core.Option
use loxilb_oam.Prelude.{
  ℕ, Bool, true, false, Option, none, some, List, [], ◌∷◌, ◌++◌, map, ok, err, is_empty, is_some,
}
use loxilb_oam.Migrate.{
  Mode, Migration, Error, no_migrations, unknown_mode, not_initialized, pending_migrations,
  database, Applied, key, last_version, pending,
}
use loxilb_oam.Migrate.Session.{
  Engine, Row, Database, Status, Session, M, Table, schema_migrations, users, continue, ◌>>=◌, ◌>>◌,
  pure, lift, set_status, statement, exec, query, transaction, insert_history,
}

-- The columns that pending reads.
abbrev pub applied_of : Row → Applied
applied_of r = record { version = r.version; checksum = r.checksum }

-- The record of a migration: `adopted` for a schema that was there before.
abbrev pub row_of : Bool → ℕ → Migration → Row
row_of adopted now m = record {
  version = m.version;
  name = m.name;
  checksum = m.checksum;
  adopted = adopted;
  applied_at = now;
}

-- The version of the last record.
abbrev pub recorded_version : List Applied → ℕ → ℕ
recorded_version [] v = v
recorded_version (a ∷ history) v = recorded_version history a.version

abbrev pub last_row : Row → List Row → Row
last_row r [] = r
last_row r (x ∷ rows) = last_row x rows

abbrev newest : List Row → Option Row
newest [] = none
newest (r ∷ rows) = some (last_row r rows)

module _ {S : Type 0} where
  abbrev pub created : Database S → Database S
  created db = record db { history = elim db.history [ none ↦ some [] | some rows ↦ some rows ] }

  unfoldable pub read_history : M S (List Applied)
  unfolding query
  read_history = query (λ db. Option.map (map applied_of) db.history)

  unfoldable pub history_if : Bool → M S (List Applied)
  history_if true = read_history
  history_if false = pure []

module _ {S : Type 0} (engine : Engine S) where
  abbrev pub exists_in : Table → Database S → Bool
  exists_in schema_migrations db = is_some db.history
  exists_in users db = engine.has_users db.schema

  unfoldable pub table_exists : Table → M S Bool
  unfolding query
  table_exists table = query (λ db. some (exists_in table db))

  abbrev pub execute_sql : Migration → Database S → Option (Database S)
  execute_sql m db =
      Option.map (λ schema. record db { schema = schema }) (engine.execute m.sql db.schema)

  unfoldable pub apply_one : Migration → M S (Unit {0})
  unfolding exec transaction
  apply_one m =
      transaction do
        exec (λ now db. execute_sql m db)
        exec (λ now db. insert_history (row_of false now m) db)

  -- The loop over what is pending.
  unfoldable pub apply_all : List Migration → M S (Unit {0})
  apply_all [] = pure tt
  apply_all (m ∷ todo) = do
    apply_one m
    set_status (λ t. record t { version = m.version; applied = t.applied ++ (m.version ∷ []) })
    apply_all todo

  abbrev pub adopt : Migration → Bool → M S (List Applied)
  adopt base false = pure []
  adopt base true = do
    exec (λ now db. insert_history (row_of true now base) db)
    set_status (λ t. record t { adopted = true })
    pure (key base ∷ [])

  -- An untracked schema is recorded as the baseline.
  unfoldable pub adopt_baseline : Migration → List Applied → M S (List Applied)
  unfolding exec table_exists
  adopt_baseline base [] = do has_baseline ← table_exists users; adopt base has_baseline
  adopt_baseline base (a ∷ history) = pure (a ∷ history)

  -- What comes before the loop: connect, lock, make the table, read it, adopt, and judge.
  unfoldable pub prepare : Migration → List Migration → M S (List Migration)
  unfolding statement exec read_history
  prepare base later = do
    statement
    statement
    exec (λ now db. some (created db))
    history ← read_history
    history' ← adopt_baseline base history
    todo ← lift (pending history' (base ∷ later))
    set_status (λ t. record t { version = recorded_version history' t.version })
    pure todo

  unfoldable pub apply : Migration → List Migration → M S (Unit {0})
  apply base later = do todo ← prepare base later; apply_all todo

  -- A schema with no record counts as the baseline.
  abbrev pub assume : Migration → Bool → M S (List Applied)
  assume base true = pure (key base ∷ [])
  assume base false = lift (err not_initialized)

  unfoldable pub assume_baseline : Migration → List Applied → M S (List Applied)
  unfolding table_exists
  assume_baseline base [] = do has_baseline ← table_exists users; assume base has_baseline
  assume_baseline base (a ∷ history) = pure (a ∷ history)

  abbrev pub none_left : List Migration → M S (Unit {0})
  none_left [] = pure tt
  none_left (m ∷ todo) = lift (err pending_migrations)

  unfoldable pub check : Migration → List Migration → M S (Unit {0})
  unfolding table_exists
  check base later = do
    tracked ← table_exists schema_migrations
    history ← history_if tracked
    history' ← assume_baseline base history
    todo ← lift (pending history' (base ∷ later))
    set_status (λ t. record t { version = recorded_version history' t.version })
    none_left todo

  abbrev pub run_mode : Mode → Migration → List Migration → M S (Unit {0})
  run_mode Mode.off base later = pure tt
  run_mode Mode.check base later = check base later
  run_mode Mode.auto base later = apply base later
  run_mode (Mode.unknown name) base later = lift (err unknown_mode)

  -- The status is that of a new run: it is returned with the error, as it stands.
  abbrev pub new_status : Mode → ℕ → Status
  new_status mode latest = record {
    mode = mode;
    version = 0;
    latest = latest;
    applied = [];
    adopted = false;
  }

  unfoldable pub run : List Migration → Mode → M S (Unit {0})
  run [] mode = do set_status (λ t. new_status (Mode.unknown []) 0); lift (err no_migrations)
  run (base ∷ later) mode = do
    set_status (λ t. new_status mode (last_version base later))
    run_mode mode base later

  abbrev pub newest_if : Bool → M S (Option Row)
  newest_if false = pure none
  newest_if true = query (λ db. Option.map newest db.history)

  unfoldable pub current : M S (Option Row)
  unfolding table_exists query
  current = do tracked ← table_exists schema_migrations; newest_if tracked
