-- ===== src/Migrate/Run/Applying.antt =====
-- What a run of internal/migrate/migrate.go leaves in the database, whichever statement fails.
use mathlib.Core.Option
use mathlib.Core.List.{append-nil, append_assoc}
use loxilb_oam.Prelude.{
  Result, sym, ap, ◌∙◌, ℕ, ◌≡◌, refl, false, Option, some, List, [], ◌∷◌, ◌++◌, map, ok, err, arith,
}
use loxilb_oam.Migrate.{Migration, Error}
use loxilb_oam.Migrate.Session.{Engine, Database, Session, statement, insert_history}
use loxilb_oam.Migrate.Run.{row_of, execute_sql, apply_one, apply_all}

module _ {S : Type 0} (engine : Engine S) where
  -- The script of a migration and its record, together.
  abbrev pub applied_one : ℕ → Migration → Database S → Option (Database S)
  applied_one now m db = Option.bind (execute_sql engine m db) (insert_history (row_of false now m))

  -- Migrations applied in turn, each to what the one before it left.
  abbrev pub Applies : ℕ → List Migration → Database S → Database S → Type 0
  Applies now [] d e = e ≡ d
  Applies now (m ∷ ms) d f = (e : Database S) × (applied_one now m d ≡ some e) × Applies now ms e f

  -- What stays, whatever comes of a call.
  abbrev Same : Session S → Session S → Type 0
  Same s t = (t.now ≡ s.now) × (t.status ≡ s.status)

  apply_one_ok :
      (m : Migration) (s : Session S)
      → (apply_one engine m s).0 ≡ ok tt
      → applied_one s.now m s.db ≡ some (apply_one engine m s).1.db
  unfolding apply_one statement Option.bind
  apply_one_ok m s h = ground arith

  apply_one_err :
      (m : Migration) (s : Session S) (e : _)
      → (apply_one engine m s).0 ≡ err e
      → (apply_one engine m s).1.db ≡ s.db
  unfolding apply_one statement
  apply_one_err m s e h = ground arith

  apply_one-Same : (m : Migration) (s : Session S) → Same s (apply_one engine m s).1
  unfolding apply_one statement
  apply_one-Same m s = ground arith

  abbrev noted : Migration → Session S → Session S
  noted m s = record s {
    status = record s.status {
      version = m.version;
      applied = s.status.applied ++ (m.version ∷ []);
    };
  }

  -- What follows a migration: the rest of the loop, or its error.
  abbrev after :
      Migration
      → List Migration
      → Result Error (Unit {0}) × Session S
      → Result Error (Unit {0}) × Session S
  after m todo (ok u, s) = apply_all engine todo (noted m s)
  after m todo (err e, s) = (err e, s)

  apply_all-after :
      (m : Migration) (todo : List Migration) (s : Session S)
      → apply_all engine (m ∷ todo) s ≡ after m todo (apply_one engine m s)
  unfolding apply_all
  apply_all-after m todo s = ground arith

  -- What the loop did before it ended: some of the migrations in turn, and all if it did not fail.
  abbrev pub Progress : List Migration → Session S → Result Error (Unit {0}) × Session S → Type 0
  Progress todo s (r, t) =
      (done : List Migration) × (rest : List Migration) × (todo ≡ done ++ rest)
      × Applies s.now done s.db t.db
      × (t.status.applied ≡ s.status.applied ++ map (λ m. m.version) done)
      × (r ≡ ok tt → rest ≡ [])

  pub at_now :
      (n n' : ℕ)
      → n ≡ n'
      → (ms : List Migration) (d e : Database S) → Applies n ms d e
      → Applies n' ms d e
  at_now n n' p ms d e h = rw (← p) h

  after-Progress :
      (m : Migration) (todo : List Migration) (s : Session S) (r : _) (t : Session S)
      → apply_one engine m s ≡ (r, t)
      → ((u : Session S) → Progress todo u (apply_all engine todo u))
      → Progress (m ∷ todo) s (after m todo (r, t))
  after-Progress m todo s (err x) t e ih = (
    [],
    m ∷ todo,
    refl,
    sym (ap (λ v. v.1.db) e) ∙ apply_one_err m s x (ap (λ v. v.0) e),
    sym (ap (λ v. v.1.status.applied) e)
        ∙ ap (λ v. v.applied) (apply_one-Same m s).1
        ∙ sym (append-nil _),
    λ h. cc,
  )
  after-Progress m todo s (ok u) t e ih =
      let (done, rest, p, q, a, f) = ih (noted m t) in
      let now : t.now ≡ s.now = sym (ap (λ v. v.1.now) e) ∙ (apply_one-Same m s).0 in
      let applied : t.status.applied ≡ s.status.applied =
        sym (ap (λ v. v.1.status.applied) e) ∙ ap (λ v. v.applied) (apply_one-Same m s).1 in
      (
        m ∷ done,
        rest,
        ap (λ l. m ∷ l) p,
        (
          t.db,
          apply_one_ok m s (ap (λ v. v.0) e) ∙ ap (λ v. some v.1.db) e,
          at_now t.now s.now now done t.db _ q,
        ),
        a
            ∙ ap (λ l. (l ++ (m.version ∷ [])) ++ map (λ x. x.version) done) applied
            ∙ append_assoc s.status.applied (m.version ∷ []) (map (λ x. x.version) done),
        f,
      )

  pub apply_all-Progress :
      (todo : List Migration) (s : Session S) → Progress todo s (apply_all engine todo s)
  unfolding apply_all
  apply_all-Progress [] s = ([], [], refl, refl, sym (append-nil _), λ h. refl)
  apply_all-Progress (m ∷ todo) s = rw (apply_all-after m todo s) (
      after-Progress m todo s (apply_one engine m s).0 (apply_one engine m s).1 refl
        (apply_all-Progress todo))
