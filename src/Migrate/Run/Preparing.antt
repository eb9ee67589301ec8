-- ===== src/Migrate/Run/Preparing.antt =====
-- What apply of internal/migrate/migrate.go does to the database before its loop: nothing, the
-- empty table of records, or the record of a schema that was there before.
use mathlib.Core.Option
use loxilb_oam.Prelude.{
  ◌≡◌, ◌⊎◌, ◌∙◌, refl, Bool, true, false, Option, none, some, List, [], ◌∷◌, map, Result, ok, err,
  arith,
}
use loxilb_oam.Migrate.{Migration, Error, Applied, pending}
use loxilb_oam.Migrate.Session.{
  Engine, Row, Database, Session, M, users, statement, exec, continue, ◌>>=◌, ◌>>◌, set_status,
  lift, pure, insert_row,
}
use loxilb_oam.Migrate.Run.{
  applied_of, row_of, created, read_history, table_exists, adopt, adopt_baseline, prepare,
  recorded_version,
}

-- From `P`, a call that returns leaves `Q`, and one that fails leaves `E`.
pub record Triple {S : Type 0} {A : Type 0} (P : Session S → Type 0) (m : M S A)
    (Q : A → Session S → Type 0) (E : Session S → Type 0) : Type 0 where
  pub returns : (s : Session S) → P s → (a : A) → (m s).0 ≡ ok a → Q a (m s).1
  pub fails : (s : Session S) → P s → (e : Error) → (m s).0 ≡ err e → E (m s).1

module _ {S A B : Type 0} (P : Session S → Type 0) (Q : A → Session S → Type 0)
    (R : B → Session S → Type 0) (E : Session S → Type 0) (f : A → M S B)
    (h : (a : A) → Triple (Q a) (f a) R E) where
  continue_returns :
      (r : Result Error A) (t : Session S)
      → ((a : A) → r ≡ ok a → Q a t)
      → (b : B) → (continue f (r, t)).0 ≡ ok b
      → R b (continue f (r, t)).1
  continue_returns (ok a) t q b e = (h a).returns t (q a refl) b e
  continue_returns (err x) t q b e = cc

  continue_fails :
      (r : Result Error A) (t : Session S)
      → ((a : A) → r ≡ ok a → Q a t)
      → ((e : Error) → r ≡ err e → E t)
      → (x : Error) → (continue f (r, t)).0 ≡ err x
      → E (continue f (r, t)).1
  continue_fails (ok a) t q p x e = (h a).fails t (q a refl) x e
  continue_fails (err y) t q p x e = p y refl

  pub Triple-bind : (m : M S A) → Triple P m Q E → Triple P (m >>= f) R E
  Triple-bind m k = record {
    returns = λ s p. continue_returns (m s).0 (m s).1 (k.returns s p);
    fails = λ s p. continue_fails (m s).0 (m s).1 (k.returns s p) (k.fails s p);
  }

no_rows : (h : Option (List Row)) → Option.map (map applied_of) h ≡ some [] → h ≡ some []
no_rows none e = cc
no_rows (some []) e = refl
no_rows (some (r ∷ rows)) e = absurd (ground arith)

-- What pending reads of the table.
abbrev pub Read : {S : Type 0} → List Applied → Database S → Type 0
Read history d = Option.map (map applied_of) d.history ≡ some history

module _ {S : Type 0} (engine : Engine S) (base : Migration) (later : List Migration)
    (start : Session S) where
  -- What the table holds before the loop, if it was not left alone.
  abbrev pub Started : Database S → Type 0
  Started d =
      (d ≡ start.db)
      ⊎ (d ≡ created start.db)
      ⊎ (((created start.db).history ≡ some [])
          × (engine.has_users start.db.schema ≡ true)
          × (d ≡ record start.db { history = some (row_of true start.now base ∷ []) }))

  abbrev pub Kept : Session S → Type 0
  Kept t = (t.now ≡ start.now) × (t.status.applied ≡ start.status.applied)

  abbrev pub Failed : Session S → Type 0
  Failed t = Kept t × Started t.db

  abbrev Untouched : Session S → Type 0
  Untouched t = Kept t × (t.db ≡ start.db)

  abbrev Created : Session S → Type 0
  Created t = Kept t × (t.db ≡ created start.db)

  abbrev Adopted : List Applied → Session S → Type 0
  Adopted history t = Kept t × Started t.db × Read history t.db

  abbrev pub Ready : List Migration → Session S → Type 0
  Ready todo t =
      Kept t
      × Started t.db
      × ((history : List Applied) × Read history t.db × (pending history (base ∷ later) ≡ ok todo))

  statement-Triple : Triple Untouched statement (λ _. Untouched) Failed
  unfolding statement
  statement-Triple = record { returns = λ s p a e. ground arith; fails = λ s p x e. ground arith }

  create-Triple : Triple Untouched (exec (λ now db. some (created db))) (λ _. Created) Failed
  unfolding statement exec
  create-Triple = record { returns = λ s p a e. ground arith; fails = λ s p x e. ground arith }

  abbrev Reading : List Applied → Session S → Type 0
  Reading history t = Created t × Read history t.db

  read-Triple : Triple Created read_history Reading Failed
  unfolding statement read_history
  read-Triple = record { returns = λ s p a e. ground arith; fails = λ s p x e. ground arith }

  abbrev Probed : Bool → Session S → Type 0
  Probed has t = Reading [] t × (engine.has_users start.db.schema ≡ has)

  exists-Triple : Triple (Reading []) (table_exists engine users) Probed Failed
  unfolding statement table_exists
  exists-Triple = record { returns = λ s p a e. ground arith; fails = λ s p x e. ground arith }

  adopt-Triple : (has : Bool) → Triple (Probed has) (adopt engine base has) Adopted Failed
  unfolding statement exec Option.bind insert_row
  adopt-Triple true = record {
    returns = λ s p a e. let q = no_rows s.db.history p.0.1 in ground arith;
    fails = λ s p x e. let q = no_rows s.db.history p.0.1 in ground arith;
  }
  adopt-Triple false = record { returns = λ s p a e. ground arith; fails = λ s p x e. ground arith }

  adopt_baseline-Triple :
      (history : List Applied)
      → Triple (Reading history) (adopt_baseline engine base history) Adopted Failed
  unfolding adopt_baseline
  adopt_baseline-Triple [] =
      Triple-bind (Reading []) Probed Adopted Failed (adopt engine base) adopt-Triple
        (table_exists engine users) exists-Triple
  adopt_baseline-Triple (x ∷ history) = record {
    returns = λ s p a e. ground arith;
    fails = λ s p x e. cc;
  }

  abbrev Judged : List Applied → List Migration → Session S → Type 0
  Judged history todo t = Adopted history t × (pending history (base ∷ later) ≡ ok todo)

  judge-Triple :
      (history : List Applied)
      → Triple (Adopted history) (lift (pending history (base ∷ later))) (Judged history) Failed
  judge-Triple history = record {
    returns = λ s p a e. ground arith;
    fails = λ s p x e. ground arith;
  }

  abbrev note : List Applied → M S (Unit {0})
  note history = set_status (λ t. record t { version = recorded_version history t.version })

  note-Triple :
      (history : List Applied) (todo : List Migration)
      → Triple (Judged history todo) (note history >> pure todo) Ready Failed
  note-Triple history todo = record {
    returns = λ s p a e. (p.0.0, p.0.1, (history, p.0.2, p.1 ∙ e));
    fails = λ s p x e. ground arith;
  }

  read_and_judge-Triple :
      Triple Created
        (read_history >>= λ h. adopt_baseline engine base h >>= λ h'.
          lift (pending h' (base ∷ later)) >>= λ todo. note h' >> pure todo)
        Ready
        Failed
  read_and_judge-Triple =
      Triple-bind Created Reading Ready Failed _
        (λ h.
          Triple-bind (Reading h) Adopted Ready Failed _
            (λ h'.
              Triple-bind (Adopted h') (Judged h') Ready Failed _ (λ todo. note-Triple h' todo) _
                (judge-Triple h'))
            _ (adopt_baseline-Triple h))
        _ read-Triple

  pub prepare-Triple : Triple Untouched (prepare engine base later) Ready Failed
  unfolding prepare
  prepare-Triple =
      Triple-bind Untouched (λ _. Untouched) Ready Failed _
        (λ _.
          Triple-bind Untouched (λ _. Untouched) Ready Failed _
            (λ _.
              Triple-bind Untouched (λ _. Created) Ready Failed _ (λ _. read_and_judge-Triple) _
                create-Triple)
            _ statement-Triple)
        _ statement-Triple
