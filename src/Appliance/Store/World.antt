-- ===== src/Appliance/Store/World.antt =====
-- The world of a request, and the actions on it. What a call wrote before it failed stays written,
-- except inside a transaction.
use loxilb_oam.Prelude.{
  ℕ, ◌+◌, Bool, true, false, Option, List, [], ◌∷◌, Bytes, Result, ok, err, if◌then◌else◌,
}
use loxilb_oam.Appliance.Host.{
  HostError, HostPlanRequest, HostPlan, HostJobRequest, HostJob, Response,
}
use loxilb_oam.Appliance.Request.{RequestError}
use loxilb_oam.Appliance.Operation.{OperationState}
use loxilb_oam.Appliance.Store.Row.{Db}

-- The errors of the package. `database` is any failure of a statement but the one-active index's.
pub data Error : Type 0 where
  database active_conflict : Error
  idempotency_key schema_mismatch permission_denied idempotency_key_reused : Error
  operation_not_found invalid_filter vanished : Error
  operation_state : Option OperationState → Error
  plan_expired plan_stale authorization_not_required session_unbound challenge_required : Error
  challenge_mismatch challenge_consumed challenge_expired not_cancellable : Error
  invalid_request : RequestError → Error
  conflict : Bytes → Error
  host : HostError → Error

pub data HostCall : Type 0 where
  plan_call : HostPlanRequest → HostCall
  submit_call : HostJobRequest → HostCall
  job_call : Bytes → HostCall
  cancel_call : Bytes → HostCall

-- What happens before a statement outside a transaction, or before a transaction: time passes, and
-- other sessions commit.
pub record Turn : Type 0 where
  pub elapsed : ℕ
  pub others : Db → Db

-- The connection: no transaction, a transaction, one in which a statement has failed.
pub data Connection : Type 0 where
  idle open_tx failed_tx : Connection

pub record World : Type 0 where
  pub db : Db
  pub now : ℕ
  pub connection : Connection
  pub turns : List Turn
  -- Whether each statement to come fails; none fails after the end.
  pub faults : List Bool
  -- The host adapter: whether there is one, what it will answer, and what it was asked.
  pub configured : Bool
  pub job_answers : List (Response HostJob)
  pub plan_answers : List (Response HostPlan)
  pub calls : List HostCall

abbrev pub M {ℓ} : Type ℓ → Type ℓ
M A = World → Result Error A × World

-- What follows a result.
abbrev pub continue {ℓ κ} :
    {A : Type ℓ} {B : Type κ} → (A → M B) → Result Error A × World → Result Error B × World
continue f (ok a, w) = f a w
continue f (err e, w) = (err e, w)

module _ {ℓ} {A : Type ℓ} where
  abbrev pub pure : A → M A
  pure a w = (ok a, w)

  abbrev pub raise : Error → M A
  raise e w = (err e, w)

  -- `if test { return e }`
  abbrev pub lift : Result Error A → M A
  lift r w = (r, w)

infixl 5 ◌>>=◌ ◌>>◌
abbrev pub ◌>>=◌ {ℓ κ} : {A : Type ℓ} {B : Type κ} → M A → (A → M B) → M B
◌>>=◌ m f w = continue f (m w)

abbrev pub ◌>>◌ {ℓ} : {B : Type ℓ} → M (Unit {0}) → M B → M B
m >> k = m >>= λ _. k

abbrev pub refuse_if : Bool → Error → M (Unit {0})
refuse_if test e = if test then raise e else pure tt

-- A failed call whose error is only logged.
unfoldable pub ignore {ℓ} : {A : Type ℓ} → M A → M (Unit {0})
ignore m w = (ok tt, (m w).1)

abbrev pub take_turn : List Turn → World → World
take_turn [] w = w
take_turn (t ∷ ts) w = record w { turns = ts; now = w.now + t.elapsed; db = t.others w.db }

abbrev pub after_failure : Connection → Connection
after_failure idle = idle
after_failure _ = failed_tx

abbrev pub try_statement : List Bool → World → Result Error (Unit {0}) × World
try_statement [] w = (ok tt, w)
try_statement (false ∷ fs) w = (ok tt, record w { faults = fs })
try_statement (true ∷ fs) w =
    (err database, record w { faults = fs; connection = after_failure w.connection })

-- What every statement does first. In a failed transaction it fails; outside one, others go first.
abbrev pub begin_statement : Connection → World → Result Error (Unit {0}) × World
begin_statement idle w = let w' = take_turn w.turns w in try_statement w'.faults w'
begin_statement open_tx w = try_statement w.faults w
begin_statement failed_tx w = (err database, w)

unfoldable pub statement : M (Unit {0})
statement w = begin_statement w.connection w

abbrev pub roll_back : Db → World → World
roll_back saved w = record w { db = saved; connection = idle }

-- A commit that fails has committed nothing.
abbrev pub commit_result {ℓ} :
    {A : Type ℓ} → Db → A → Connection → List Bool → World → Result Error A × World
commit_result saved a failed_tx fs w = (err database, roll_back saved w)
commit_result saved a _ [] w = (ok a, record w { connection = idle })
commit_result saved a _ (false ∷ fs) w = (ok a, record w { connection = idle; faults = fs })
commit_result saved a _ (true ∷ fs) w = (err database, roll_back saved (record w { faults = fs }))

abbrev pub end_tx {ℓ} : {A : Type ℓ} → Db → Result Error A × World → Result Error A × World
end_tx saved (ok a, w) = commit_result saved a w.connection w.faults w
end_tx saved (err e, w) = (err e, roll_back saved w)

abbrev pub run_tx {ℓ} :
    {A : Type ℓ} → M A → Result Error (Unit {0}) × World → Result Error A × World
run_tx m (err e, w) = (err e, w)
run_tx m (ok _, w) = end_tx w.db (m (record w { connection = open_tx }))

-- BeginTx, the statements, and Commit; or Rollback on the first error.
unfoldable pub transaction {ℓ} : {A : Type ℓ} → M A → M A
transaction m w = run_tx m (statement w)
