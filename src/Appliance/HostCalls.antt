-- ===== src/Appliance/HostCalls.antt =====
-- What an operation of internal/appliance may ask the host adapter: a rule for each way to build
-- an action.
pub mod Discipline
pub mod Delivery
use loxilb_oam.Prelude.{
  ℕ, ◌≡◌, refl, sym, ap, ◌∙◌, Bool, true, false, List, [], ◌∷◌, ◌++◌, Result, ok, err, arith, All,
  if◌then◌else◌,
}
use mathlib.Core.List.{append_assoc}
use loxilb_oam.Appliance.Store.Row.{Row, ChallengeRow, AuditRow, Db}
use loxilb_oam.Appliance.Store.World.{
  Error, HostCall, Turn, Connection, idle, open_tx, failed_tx, World, M, pure, raise, refuse_if,
  ignore, statement, begin_statement, try_statement, take_turn, transaction, run_tx, end_tx,
  commit_result, continue, ◌>>=◌,
}
use loxilb_oam.Appliance.Store.Statements.{
  query, exec_operations, write_operations, write_audit, audit,
}

-- The calls `new` are `old` and others before them that fit.
abbrev pub Asked : (HostCall → Type 0) → List HostCall → List HostCall → Type 0
Asked P old new = (cs : List HostCall) × (new ≡ cs ++ old) × All P cs

-- Every call that an action makes fits, in any world.
pub record Asking {ℓ} {A : Type ℓ} (P : HostCall → Type 0) (m : M A) : Type ℓ where
  pub asks : (w : World) → Asked P w.calls (m w).1.calls

module _ (P : HostCall → Type 0) where
  pub All-append : (xs ys : List HostCall) → All P xs → All P ys → All P (xs ++ ys)
  All-append [] ys a b = b
  All-append (x ∷ xs) ys a b = (a.0, All-append xs ys a.1 b)

  pub Asked-trans : (a b c : List HostCall) → Asked P a b → Asked P b c → Asked P a c
  Asked-trans a b c (cs, p, f) (ds, q, g) =
      (ds ++ cs, q ∙ ap (λ x. ds ++ x) p ∙ sym (append_assoc ds cs a), All-append ds cs g f)

  pub Asking-same {ℓ} :
      {A : Type ℓ} (m : M A) → ((w : World) → (m w).1.calls ≡ w.calls) → Asking P m
  Asking-same m h = record { asks = λ w. ([], h w, tt) }

  module _ {ℓ} {A : Type ℓ} where
    pub Asking-pure : (a : A) → Asking P (pure a)
    Asking-pure a = Asking-same _ (λ w. refl)

    pub Asking-raise : (e : Error) → Asking P (raise {A = A} e)
    Asking-raise e = Asking-same _ (λ w. refl)

    pub Asking-ignore : (m : M A) → Asking P m → Asking P (ignore m)
    unfolding ignore
    Asking-ignore m g = record { asks = g.asks }

    pub Asking-if : (b : Bool) (m n : M A) → Asking P m → Asking P n → Asking P (if b then m else n)
    Asking-if true m n g h = g
    Asking-if false m n g h = h

  pub Asking-refuse_if : (b : Bool) (e : Error) → Asking P (refuse_if b e)
  Asking-refuse_if b e = Asking-if b (raise e) (pure tt) (Asking-raise e) (Asking-pure tt)

  module _ {ℓ κ} {A : Type ℓ} {B : Type κ} where
    continue-asks :
        (f : A → M B)
        → ((a : A) → Asking P (f a))
        → (r : Result Error A) (w : World) → Asked P w.calls (continue f (r, w)).1.calls
    continue-asks f g (ok a) w = (g a).asks w
    continue-asks f g (err e) w = ([], refl, tt)

    pub Asking-bind :
        (m : M A) (f : A → M B) → Asking P m → ((a : A) → Asking P (f a)) → Asking P (m >>= f)
    Asking-bind m f g h = record {
      asks = λ w.
          let (r, w') = m w in
          Asked-trans w.calls w'.calls (continue f (r, w')).1.calls (g.asks w)
            (continue-asks f h r w');
    }

  begin-calls : (c : Connection) (w : World) → (begin_statement c w).1.calls ≡ w.calls
  begin-calls c w = ground arith

  pub Asking-statement : Asking P statement
  unfolding statement
  Asking-statement = Asking-same _ (λ w. begin-calls w.connection w)

  commit-calls {ℓ} :
      {A : Type ℓ} (saved : Db) (a : A) (c : Connection) (fs : List Bool) (w : World)
      → (commit_result saved a c fs w).1.calls ≡ w.calls
  commit-calls saved a c fs w = ground arith

  module _ {ℓ} {A : Type ℓ} where
    end_tx-calls :
        (saved : Db) (r : Result Error A) (w : World) → (end_tx saved (r, w)).1.calls ≡ w.calls
    end_tx-calls saved (ok a) w = commit-calls saved a w.connection w.faults w
    end_tx-calls saved (err e) w = refl

    pub run_tx-Asked :
        (m : M A) (u : Unit {0}) (w : World)
        → Asked P w.calls (m (record w { connection = open_tx })).1.calls
        → Asked P w.calls (run_tx m (ok u, w)).1.calls
    run_tx-Asked m u w (cs, p, f) =
        let (r, v) = m (record w { connection = open_tx }) in (cs, end_tx-calls w.db r v ∙ p, f)

    run_tx-asks :
        (m : M A)
        → Asking P m
        → (r : Result Error (Unit {0})) (w : World) → Asked P w.calls (run_tx m (r, w)).1.calls
    run_tx-asks m g (ok u) w = run_tx-Asked m u w (g.asks (record w { connection = open_tx }))
    run_tx-asks m g (err e) w = ([], refl, tt)

    -- What a transaction asks is not taken back when it is rolled back.
    pub Asking-transaction : (m : M A) → Asking P m → Asking P (transaction m)
    unfolding transaction
    Asking-transaction m g = record {
      asks = λ w.
          let (r, v) = statement w in
          Asked-trans w.calls v.calls (run_tx m (r, v)).1.calls (Asking-statement.asks w)
            (run_tx-asks m g r v);
    }

  pub Asking-query {ℓ} : {A : Type ℓ} (f : ℕ → Db → A) → Asking P (query f)
  unfolding query
  Asking-query f = Asking-bind _ _ Asking-statement (λ u. Asking-same _ (λ w. refl))

  write-calls :
      (sel : ℕ → Row → Bool) (f : ℕ → Row → Row) (w : World)
      → (write_operations sel f w).1.calls ≡ w.calls
  write-calls sel f w = ground arith

  pub Asking-exec_operations :
      (sel : ℕ → Row → Bool) (f : ℕ → Row → Row) → Asking P (exec_operations sel f)
  unfolding exec_operations
  Asking-exec_operations sel f =
      Asking-bind _ _ Asking-statement
        (λ u. Asking-same (write_operations sel f) (write-calls sel f))

  pub Asking-write_audit : (e : AuditRow) → Asking P (write_audit e)
  unfolding write_audit
  Asking-write_audit e = Asking-bind _ _ Asking-statement (λ u. Asking-same _ (λ w. refl))

  pub Asking-audit : (e : AuditRow) → Asking P (audit e)
  unfolding audit
  Asking-audit e = Asking-ignore _ (Asking-write_audit e)
