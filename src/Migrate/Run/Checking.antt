-- ===== src/Migrate/Run/Checking.antt =====
-- What internal/migrate/migrate.go leaves alone: a check, and a run when everything is applied.
use mathlib.Core.Option
use loxilb_oam.Prelude.{
  ℕ, ◌≡◌, ◌≢◌, refl, ◌∙◌, sym, Bool, true, false, Option, some, List, [], ◌∷◌, map, ok, err, arith,
  Option-cases, inl, inr,
}
use mathlib.Core.List.{append-nil}
use loxilb_oam.Migrate.{Mode, Migration, Applied, key, pending, IsContiguous}
use loxilb_oam.Migrate.Pending.{pending-eq-ok}
use loxilb_oam.Migrate.Session.{
  Engine, Row, users, schema_migrations, Database, Session, M, statement, exec, query, continue,
  ◌>>=◌, ◌>>◌, lift, set_status,
}
use loxilb_oam.Migrate.Run.{
  applied_of, exists_in, read_history, history_if, recorded_version, table_exists, assume,
  assume_baseline, none_left, check, apply_all, adopt_baseline, prepare, apply, run,
}
use loxilb_oam.Migrate.Run.Preparing.{Read}

module _ {S : Type 0} where
  -- An action that leaves the database alone, in any session.
  pub record Reading {A : Type 0} (m : M S A) : Type 0 where
    pub same : (s : Session S) → (m s).1.db ≡ s.db

  module _ {A B : Type 0} (m : M S A) (f : A → M S B) (g : Reading m)
      (h : (a : A) → Reading (f a)) where
    continue_same : (r : _) (s : Session S) → (continue f (r, s)).1.db ≡ s.db
    continue_same (ok a) s = (h a).same s
    continue_same (err e) s = refl

    Reading-bind : Reading (m >>= f)
    Reading-bind = record { same = λ s. continue_same (m s).0 (m s).1 ∙ g.same s }

module _ {S : Type 0} (engine : Engine S) where
  query-Reading : {A : Type 0} (f : Database S → Option A) → Reading (query f)
  unfolding query statement
  query-Reading f = record { same = λ s. ground arith }

  assume-Reading : (base : Migration) (has : Bool) → Reading (assume engine base has)
  assume-Reading base true = record { same = λ s. refl }
  assume-Reading base false = record { same = λ s. refl }

  table_exists-Reading : (t : _) → Reading (table_exists engine t)
  unfolding table_exists
  table_exists-Reading t = query-Reading (λ db. some (exists_in engine t db))

  history_if-Reading : (b : Bool) → Reading (history_if {S = S} b)
  unfolding history_if read_history
  history_if-Reading true =
      query-Reading (λ (db : Database S). Option.map (map applied_of) db.history)
  history_if-Reading false = record { same = λ s. refl }

  assume_baseline-Reading :
      (base : Migration) (history : List Applied) → Reading (assume_baseline engine base history)
  unfolding assume_baseline
  assume_baseline-Reading base [] =
      Reading-bind _ _ (table_exists-Reading users) (assume-Reading base)
  assume_baseline-Reading base (a ∷ history) = record { same = λ s. refl }

  abbrev judge_check : Migration → List Migration → List Applied → M S (Unit {0})
  judge_check base later history = lift (pending history (base ∷ later)) >>= λ todo.
      set_status (λ t. record t { version = recorded_version history t.version })
      >> none_left engine todo

  none_left-Reading : (todo : List Migration) → Reading (none_left engine todo)
  none_left-Reading [] = record { same = λ s. refl }
  none_left-Reading (m ∷ todo) = record { same = λ s. refl }

  judged-Reading :
      (base : Migration) (later : List Migration) (history : List Applied)
      → Reading (judge_check base later history)
  judged-Reading base later history =
      Reading-bind (lift (pending history (base ∷ later))) _ (record { same = λ s. refl })
        λ todo. record { same = λ s. (none_left-Reading todo).same _ }

  check-Reading : (base : Migration) (later : List Migration) → Reading (check engine base later)
  unfolding check
  check-Reading base later = Reading-bind _ _ (table_exists-Reading schema_migrations) λ tracked.
      Reading-bind _ _ (history_if-Reading tracked) λ history.
        Reading-bind _ _ (assume_baseline-Reading base history)
          λ history'. judged-Reading base later history'

  -- A check writes nothing, whatever it finds and whatever fails; nor does a run in mode off, or in
  -- a mode that is not known.
  pub run_same :
      (ms : List Migration) (mode : Mode) (s : Session S)
      → mode ≢ Mode.auto
      → (run engine ms mode s).1.db ≡ s.db
  unfolding run
  run_same [] mode s n = refl
  run_same (base ∷ later) Mode.auto s n = absurd (n refl)
  run_same (base ∷ later) Mode.check s n = (check-Reading base later).same _
  run_same (base ∷ later) Mode.off s n = refl
  run_same (base ∷ later) (Mode.unknown x) s n = refl

  settled_rows :
      (base : Migration) (later : List Migration) (s : Session S) (rows : List Row)
      → s.faults ≡ []
      → s.db.history ≡ some rows
      → map applied_of rows ≡ map key (base ∷ later)
      → pending (map key (base ∷ later)) (base ∷ later) ≡ ok []
      → (let (x, t) = apply engine base later s in
          (x ≡ ok tt) × (t.db ≡ s.db) × (t.status.applied ≡ s.status.applied))
        × (let (x, t) = check engine base later s in (x ≡ ok tt) × (t.db ≡ s.db))
  unfolding apply prepare statement exec read_history adopt_baseline apply_all check table_exists
      history_if assume_baseline
  settled_rows base later s [] f h e p = absurd (ground arith)
  settled_rows base later s (r ∷ rows) f h e p = (ground arith, ground arith)

  -- Once every migration is recorded, a run in mode auto and a check, of which no statement fails,
  -- both succeed and leave the database as it is, and the run applies nothing.
  pub run_settled :
      (v : ℕ) (base : Migration) (later : List Migration) (s : Session S)
      → IsContiguous v (base ∷ later)
      → s.faults ≡ []
      → Read (map key (base ∷ later)) s.db
      → (let (x, t) = run engine (base ∷ later) Mode.auto s in
          (x ≡ ok tt) × (t.db ≡ s.db) × (t.status.applied ≡ []))
        × (let (x, t) = run engine (base ∷ later) Mode.check s in (x ≡ ok tt) × (t.db ≡ s.db))
  unfolding run
  run_settled v base later s c f r =
      let judged =
        (pending-eq-ok v base later c (map key (base ∷ later)) []).1
          (base ∷ later, sym (append-nil _), refl) in
      elim (Option-cases s.db.history) [
        | inl n ↦ absurd (ground arith)
        | inr (rows, h) ↦
            let e : map applied_of rows ≡ map key (base ∷ later) = ground arith in
            (
              (settled_rows base later _ rows f h e judged).0,
              (settled_rows base later _ rows f h e judged).1,
            )
      ]
