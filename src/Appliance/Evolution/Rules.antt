-- ===== src/Appliance/Evolution/Rules.antt =====
-- One rule for each way to build an action of the appliance package: the guarantee of the parts is
-- the guarantee of the whole.
use loxilb_oam.Prelude.{
  ◌≡◌, refl, Bool, true, false, List, [], ◌∷◌, Result, ok, err, arith, if◌then◌else◌,
}
use loxilb_oam.Appliance.Store.Row.{Db}
use loxilb_oam.Appliance.Store.World.{
  Error, Turn, Connection, idle, open_tx, failed_tx, World, M, pure, raise, refuse_if, ignore,
  statement, begin_statement, try_statement, take_turn, transaction, run_tx, end_tx, commit_result,
  continue, ◌>>=◌,
}
use loxilb_oam.Appliance.Evolution.{Evolves, Evolves-refl, Evolves-trans, Fair, Guarded}

-- An action that leaves the tables and the sessions as they are.
pub Guarded-same {ℓ} :
    {A : Type ℓ} (m : M A)
    → ((w : World) → (m w).1.db ≡ w.db)
    → ((w : World) → (m w).1.turns ≡ w.turns)
    → Guarded m
Guarded-same m d t = record {
  evolves = λ w f. rw (d w) (Evolves-refl w.db);
  fair = λ w f. rw (t w) f;
}

module _ {ℓ} {A : Type ℓ} where
  pub Guarded-pure : (a : A) → Guarded (pure a)
  Guarded-pure a = record { evolves = λ w f. Evolves-refl w.db; fair = λ w f. f }

  pub Guarded-raise : (e : Error) → Guarded (raise {A = A} e)
  Guarded-raise e = record { evolves = λ w f. Evolves-refl w.db; fair = λ w f. f }

  pub Guarded-ignore : (m : M A) → Guarded m → Guarded (ignore m)
  unfolding ignore
  Guarded-ignore m g = record { evolves = g.evolves; fair = g.fair }

  pub Guarded-if : (b : Bool) (m n : M A) → Guarded m → Guarded n → Guarded (if b then m else n)
  Guarded-if true m n g h = g
  Guarded-if false m n g h = h

pub Guarded-refuse_if : (b : Bool) (e : Error) → Guarded (refuse_if b e)
Guarded-refuse_if b e = Guarded-if b (raise e) (pure tt) (Guarded-raise e) (Guarded-pure tt)

module _ {ℓ κ} {A : Type ℓ} {B : Type κ} where
  continue-Evolves :
      (f : A → M B)
      → ((a : A) → Guarded (f a))
      → (r : Result Error A) (w : World) → Fair w.turns
      → Evolves w.db (continue f (r, w)).1.db × Fair (continue f (r, w)).1.turns
  continue-Evolves f g (ok a) w h = ((g a).evolves w h, (g a).fair w h)
  continue-Evolves f g (err e) w h = (Evolves-refl w.db, h)

  pub Guarded-bind :
      (m : M A) (f : A → M B) → Guarded m → ((a : A) → Guarded (f a)) → Guarded (m >>= f)
  Guarded-bind m f g h = record {
    evolves = λ w t.
        let (r, w') = m w in
        Evolves-trans (g.evolves w t) (continue-Evolves f h r w' (g.fair w t)).0;
    fair = λ w t. let (r, w') = m w in (continue-Evolves f h r w' (g.fair w t)).1;
  }

try_statement-same :
    (fs : List Bool) (w : World)
    → ((try_statement fs w).1.db ≡ w.db) × ((try_statement fs w).1.turns ≡ w.turns)
try_statement-same fs w = ground arith

take_turn-Evolves :
    (ts : List Turn) (w : World)
    → w.turns ≡ ts
    → Fair ts
    → Evolves w.db (take_turn ts w).db × Fair (take_turn ts w).turns
take_turn-Evolves [] w e f = (Evolves-refl w.db, rw e f)
take_turn-Evolves (t ∷ ts) w e f = (f.0 w.db, f.1)

begin-Evolves :
    (c : Connection) (w : World)
    → Fair w.turns
    → Evolves w.db (begin_statement c w).1.db × Fair (begin_statement c w).1.turns
begin-Evolves idle w f =
    let w' = take_turn w.turns w in
    let (d, t) = try_statement-same w'.faults w' in
    let (e, g) = take_turn-Evolves w.turns w refl f in (rw d e, rw t g)
begin-Evolves open_tx w f =
    let (d, t) = try_statement-same w.faults w in (rw d (Evolves-refl w.db), rw t f)
begin-Evolves failed_tx w f = (Evolves-refl w.db, f)

pub Guarded-statement : Guarded statement
unfolding statement
Guarded-statement = record {
  evolves = λ w f. (begin-Evolves w.connection w f).0;
  fair = λ w f. (begin-Evolves w.connection w f).1;
}

module _ {ℓ} {A : Type ℓ} where
  commit-Evolves :
      (saved : Db) (a : A) (c : Connection) (fs : List Bool) (w : World)
      → Evolves saved w.db
      → Fair w.turns
      → Evolves saved (commit_result saved a c fs w).1.db
        × Fair (commit_result saved a c fs w).1.turns
  commit-Evolves saved a failed_tx fs w e f = (Evolves-refl saved, f)
  commit-Evolves saved a idle [] w e f = (e, f)
  commit-Evolves saved a idle (false ∷ fs) w e f = (e, f)
  commit-Evolves saved a idle (true ∷ fs) w e f = (Evolves-refl saved, f)
  commit-Evolves saved a open_tx [] w e f = (e, f)
  commit-Evolves saved a open_tx (false ∷ fs) w e f = (e, f)
  commit-Evolves saved a open_tx (true ∷ fs) w e f = (Evolves-refl saved, f)

  end_tx-Evolves :
      (saved : Db) (r : Result Error A) (w : World)
      → Evolves saved w.db
      → Fair w.turns
      → Evolves saved (end_tx saved (r, w)).1.db × Fair (end_tx saved (r, w)).1.turns
  end_tx-Evolves saved (ok a) w e f = commit-Evolves saved a w.connection w.faults w e f
  end_tx-Evolves saved (err x) w e f = (Evolves-refl saved, f)

  run_tx-Evolves :
      (m : M A)
      → Guarded m
      → (r : Result Error (Unit {0})) (w : World) → Fair w.turns
      → Evolves w.db (run_tx m (r, w)).1.db × Fair (run_tx m (r, w)).1.turns
  run_tx-Evolves m g (ok u) w f =
      let w' : World = record w { connection = open_tx } in
      let (r, v) = m w' in end_tx-Evolves w.db r v (g.evolves w' f) (g.fair w' f)
  run_tx-Evolves m g (err e) w f = (Evolves-refl w.db, f)

  -- A transaction gives the guarantee of its body, committed or rolled back.
  pub Guarded-transaction : (m : M A) → Guarded m → Guarded (transaction m)
  unfolding transaction
  Guarded-transaction m g = record {
    evolves = λ w f.
        let (r, v) = statement w in
        Evolves-trans (Guarded-statement.evolves w f)
          (run_tx-Evolves m g r v (Guarded-statement.fair w f)).0;
    fair =
        λ w f. let (r, v) = statement w in (run_tx-Evolves m g r v (Guarded-statement.fair w f)).1;
  }
