-- ===== src/Migrate/Run/Outcome.antt =====
-- What a run of internal/migrate/migrate.go in mode auto comes to.
use mathlib.Core.Option
use mathlib.Core.List.{append-nil, append_assoc}
use loxilb_oam.Prelude.{
  ℕ, ◌+◌, ◌≡◌, ◌⊎◌, inl, inr, refl, sym, ap, ◌∙◌, false, Option, none, some, List, [], ◌∷◌, ◌++◌,
  map, Result, ok, err, arith, length, Option-cases,
}
use loxilb_oam.Migrate.{Mode, Migration, Error, Applied, key, IsContiguous}
use loxilb_oam.Migrate.Pending.{pending-eq-ok}
use loxilb_oam.Migrate.Session.{
  Engine, Row, Database, Session, insert_row, insert_history, continue,
}
use loxilb_oam.Migrate.Run.{applied_of, row_of, apply_all, prepare, apply, run}
use loxilb_oam.Migrate.Run.Applying.{applied_one, Applies, at_now, apply_all-Progress}
use loxilb_oam.Migrate.Run.Preparing.{Started, Ready, Failed, Read, prepare-Triple}

version_at :
    (v : ℕ) (m : Migration) (pre rest : List Migration)
    → IsContiguous v (pre ++ (m ∷ rest))
    → m.version ≡ v + length pre
version_at v m [] rest (s, c) = omega arith
version_at v m (p ∷ pre) rest (s, c) = omega (arith, version_at (v + 1) m pre rest c)

map_tail :
    (x : Row) (a : Applied) (o : Option (List Row)) (l : List Applied)
    → applied_of x ≡ a
    → Option.map (map applied_of) o ≡ some l
    → Option.map (map applied_of) (Option.map (λ r. x ∷ r) o) ≡ some (a ∷ l)
map_tail x a none l e h = cc
map_tail x a (some r) l e h = ground arith

-- A record after the others in version goes to the end.
inserted_last :
    (v now : ℕ) (m : Migration) (rows : List Row) (pre rest : List Migration)
    → map applied_of rows ≡ map key pre
    → IsContiguous v (pre ++ (m ∷ rest))
    → Option.map (map applied_of) (insert_row (row_of false now m) rows)
      ≡ some (map key (pre ++ (m ∷ [])))
unfolding insert_row
inserted_last v now m [] [] rest e c = refl
inserted_last v now m [] (p ∷ pre) rest e c = absurd (ground arith)
inserted_last v now m (r ∷ rows) [] rest e c = absurd (ground arith)
inserted_last v now m (r ∷ rows) (p ∷ pre) rest e (s, c) =
    let ih = inserted_last (v + 1) now m rows pre rest (ground arith) c in
    let at = version_at (v + 1) m pre rest c in
    let tail = map_tail r (key p) (insert_row (row_of false now m) rows) _ (ground arith) ih in
    ground arith

insert_history-Read :
    {S : Type 0} (d e : Database S) (o : Option S) (rows : List Row) (r : Row) (l : List Applied)
    → d.history ≡ some rows
    → Option.map (map applied_of) (insert_row r rows) ≡ some l
    → Option.bind (Option.map (λ schema. record d { schema = schema }) o) (insert_history r)
      ≡ some e
    → Read l e
unfolding Option.bind
insert_history-Read d e none rows r l q i h = absurd (ground arith)
insert_history-Read d e (some schema) rows r l q i h = ground arith

module _ {S : Type 0} (engine : Engine S) where
  applied_one-Read :
      (v now : ℕ) (m : Migration) (pre rest : List Migration) (d e : Database S)
      → Read (map key pre) d
      → IsContiguous v (pre ++ (m ∷ rest))
      → applied_one engine now m d ≡ some e
      → Read (map key (pre ++ (m ∷ []))) e
  unfolding Option.bind
  applied_one-Read v now m pre rest d e r c h = elim (Option-cases d.history) [
    | inl n ↦ absurd (ground arith)
    | inr (rows, q) ↦
        let i = inserted_last v now m rows pre rest (ground arith) c in
        insert_history-Read d e (engine.execute m.sql d.schema) rows _ _ q i h
  ]

  Applies-Read :
      (v now : ℕ) (done pre rest : List Migration) (d e : Database S)
      → Read (map key pre) d
      → IsContiguous v (pre ++ (done ++ rest))
      → Applies engine now done d e
      → Read (map key (pre ++ done)) e
  Applies-Read v now [] pre rest d e r c h = rw (append-nil pre) (rw h r)
  Applies-Read v now (m ∷ done) pre rest d e r c (f, p, q) =
      rw (← (append_assoc pre (m ∷ []) done)) (
        Applies-Read v now done (pre ++ (m ∷ [])) rest f e
          (applied_one-Read v now m pre (done ++ rest) d f r c p)
          (rw (append_assoc pre (m ∷ []) (done ++ rest)) c) q)

  ended :
      (left : List Migration) (r : Result Error (Unit {0}))
      → (r ≡ ok tt → left ≡ [])
      → (left ≡ []) ⊎ ((e : Error) × (r ≡ err e))
  ended left (ok u) h = inl (h refl)
  ended left (err e) h = inr (e, refl)

  finished :
      (left : List Migration) (r : Result Error (Unit {0}))
      → (left ≡ []) ⊎ ((e : Error) × (r ≡ err e))
      → r ≡ ok tt
      → left ≡ []
  finished left r (inl e) h = e
  finished left r (inr (x, e)) h = absurd (ground arith)

  -- A run that ends before its loop: it has applied nothing, and the table is as it was, or made,
  -- or has the record of a schema that was there.
  pub record Stopped (base : Migration) (later : List Migration) (s : Session S)
      (r : Result Error (Unit {0})) (t : Session S) : Type 0 where
    pub error : Error
    pub failed : r ≡ err error
    pub is_start : Started engine base later s t.db
    pub unreported : t.status.applied ≡ []

  -- A run that comes to its loop: of the migrations, some were recorded before, the next ones are
  -- applied, each with its record, and the others are left, none if the run succeeds.
  pub record Ran (base : Migration) (later : List Migration) (s : Session S)
      (r : Result Error (Unit {0})) (t : Session S) : Type 0 where
    pub before : List Migration
    pub done : List Migration
    pub left : List Migration
    pub start : Database S
    pub is_start : Started engine base later s start
    pub whole : base ∷ later ≡ before ++ (done ++ left)
    pub was_recorded : Read (map key before) start
    pub scripts : Applies engine s.now done start t.db
    pub is_recorded : Read (map key (before ++ done)) t.db
    pub reported : t.status.applied ≡ map (λ m. m.version) done
    pub complete : (left ≡ []) ⊎ ((e : Error) × (r ≡ err e))

  module _ (v : ℕ) (base : Migration) (later : List Migration) (c : IsContiguous v (base ∷ later))
      (s : Session S) (fresh : s.status.applied ≡ []) where
    looped :
        (todo : List Migration) (t : Session S)
        → Ready engine base later s todo t
        → Ran base later s (apply_all engine todo t).0 (apply_all engine todo t).1
    looped todo t ((now, applied), start, (history, read, judged)) =
        let (before, p, q) = (pending-eq-ok v base later c history todo).0 judged in
        let (done, left, o, scripts, reported, complete) = apply_all-Progress engine todo t in
        let whole : base ∷ later ≡ before ++ (done ++ left) = p ∙ ap (λ l. before ++ l) o in
        let scripts' =
          at_now engine t.now s.now now done t.db (apply_all engine todo t).1.db scripts in
        record {
          before = before;
          done = done;
          left = left;
          start = t.db;
          is_start = start;
          whole = whole;
          was_recorded = read ∙ ap some q;
          scripts = scripts';
          is_recorded =
              Applies-Read v s.now done before left t.db _ (read ∙ ap some q) (rw (← whole) c)
                scripts';
          reported = reported ∙ ap (λ l. l ++ map (λ m. m.version) done) (applied ∙ fresh);
          complete = ended left (apply_all engine todo t).0 complete;
        }

    after_prepare :
        (r : Result Error (List Migration)) (t : Session S)
        → ((todo : List Migration) → r ≡ ok todo → Ready engine base later s todo t)
        → ((e : Error) → r ≡ err e → Failed engine base later s t)
        → (let (x, u) = continue (apply_all engine) (r, t) in
            Stopped base later s x u ⊎ Ran base later s x u)
    after_prepare (err e) t q f = inl (record {
      error = e;
      failed = refl;
      is_start = (f e refl).1;
      unreported = (f e refl).0.1 ∙ fresh;
    })
    after_prepare (ok todo) t q f = inr (looped todo t (q todo refl))

    apply_lem :
        let (x, u) = apply engine base later s in Stopped base later s x u ⊎ Ran base later s x u
    unfolding apply
    apply_lem =
        let k = prepare-Triple engine base later s in
        after_prepare (prepare engine base later s).0 (prepare engine base later s).1
          (k.returns s ((refl, refl), refl)) (k.fails s ((refl, refl), refl))

module _ {S : Type 0} (engine : Engine S) (v : ℕ) (base : Migration) (later : List Migration)
    (c : IsContiguous v (base ∷ later)) (s : Session S) where
  -- Whichever statement of a run in mode auto fails, for migrations whose versions run on without
  -- a gap: either it fails before it applies anything, and the table of records is as it was, or
  -- made, or records the baseline of a schema that was there; or the database has the scripts of the
  -- next migrations run in turn, each with its record, the records are those of the migrations up to
  -- there, the status names the versions applied, and if the run succeeds no migration is left.
  pub run-Ran :
      let (r, t) = run engine (base ∷ later) Mode.auto s in
      Stopped engine base later s r t ⊎ Ran engine base later s r t
  unfolding run
  run-Ran = elim (apply_lem engine v base later c _ refl) [
    | inl x ↦ inl (record {
      error = x.error;
      failed = x.failed;
      is_start = x.is_start;
      unreported = x.unreported;
    })
    | inr x ↦ inr (record {
      before = x.before;
      done = x.done;
      left = x.left;
      start = x.start;
      is_start = x.is_start;
      whole = x.whole;
      was_recorded = x.was_recorded;
      scripts = x.scripts;
      is_recorded = x.is_recorded;
      reported = x.reported;
      complete = x.complete;
    })
  ]

  -- After a run in mode auto that succeeds, the table records every migration, in order, with its
  -- checksum.
  pub run_recorded :
      (run engine (base ∷ later) Mode.auto s).0 ≡ ok tt
      → Read (map key (base ∷ later)) (run engine (base ∷ later) Mode.auto s).1.db
  run_recorded e = elim run-Ran [
    | inl x ↦ absurd (let f = x.failed in cc)
    | inr x ↦
        let all =
          x.whole
          ∙ ap (λ l. x.before ++ (x.done ++ l)) (finished engine x.left _ x.complete e)
          ∙ ap (λ l. x.before ++ l) (append-nil x.done) in
        x.is_recorded ∙ ap (λ l. some (map key l)) (sym all)
  ]
