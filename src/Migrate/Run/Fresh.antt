-- ===== src/Migrate/Run/Fresh.antt =====
-- A run of internal/migrate/migrate.go on an empty database gets to its end.
use mathlib.Core.Option
use loxilb_oam.Prelude.{ℕ, ◌≡◌, refl, sym, false, none, some, List, [], ◌∷◌, ok, arith}
use loxilb_oam.Migrate.{Mode, Migration, IsContiguous, pending}
use loxilb_oam.Migrate.Pending.{pending-eq-ok}
use loxilb_oam.Migrate.Session.{Engine, Database, Session, statement, exec, transaction}
use loxilb_oam.Migrate.Run.{
  created, read_history, table_exists, adopt_baseline, apply_one, apply_all, prepare, apply, run,
}
use loxilb_oam.Migrate.Run.Applying.{applied_one, Applies}

module _ {S : Type 0} (engine : Engine S) where
  apply_one_done :
      (m : Migration) (s : Session S) (e : Database S)
      → s.faults ≡ []
      → applied_one engine s.now m s.db ≡ some e
      → apply_one engine m s ≡ (ok tt, record s { db = e })
  unfolding apply_one statement exec transaction Option.bind
  apply_one_done m s e f h = ground arith

  apply_all_done :
      (todo : List Migration) (s : Session S) (e : Database S)
      → s.faults ≡ []
      → Applies engine s.now todo s.db e
      → ((apply_all engine todo s).0 ≡ ok tt) × ((apply_all engine todo s).1.db ≡ e)
  unfolding apply_all
  apply_all_done [] s e f h = (refl, sym h)
  apply_all_done (m ∷ todo) s e f (d, p, q) =
      rw (apply_one_done m s d f p) (apply_all_done todo _ e f q)

  prepare_fresh :
      (base : Migration) (later : List Migration) (s : Session S)
      → s.faults ≡ []
      → s.db.history ≡ none
      → engine.has_users s.db.schema ≡ false
      → pending [] (base ∷ later) ≡ ok (base ∷ later)
      → prepare engine base later s ≡ (ok (base ∷ later), record s { db = created s.db })
  unfolding prepare statement exec read_history adopt_baseline table_exists
  prepare_fresh base later s f n u p = ground arith

  apply_fresh :
      (base : Migration) (later : List Migration) (s : Session S) (e : Database S)
      → s.faults ≡ []
      → s.db.history ≡ none
      → engine.has_users s.db.schema ≡ false
      → pending [] (base ∷ later) ≡ ok (base ∷ later)
      → Applies engine s.now (base ∷ later) (created s.db) e
      → (let (r, t) = apply engine base later s in (r ≡ ok tt) × (t.db ≡ e))
  unfolding apply
  apply_fresh base later s e f n u p h =
      rw (prepare_fresh base later s f n u p)
        (apply_all_done (base ∷ later) (record s { db = created s.db }) e f h)

  -- On an empty database, if no statement fails and the scripts of all the migrations can be run in
  -- turn, a run in mode auto succeeds and leaves just what they make.
  pub run_fresh :
      (v : ℕ) (base : Migration) (later : List Migration) (s : Session S) (e : Database S)
      → IsContiguous v (base ∷ later)
      → s.faults ≡ []
      → s.db.history ≡ none
      → engine.has_users s.db.schema ≡ false
      → Applies engine s.now (base ∷ later) (created s.db) e
      → (let (r, t) = run engine (base ∷ later) Mode.auto s in (r ≡ ok tt) × (t.db ≡ e))
  unfolding run
  run_fresh v base later s e c f n u h =
      let p = (pending-eq-ok v base later c [] (base ∷ later)).1 ([], refl, refl) in
      apply_fresh base later _ e f n u p h
