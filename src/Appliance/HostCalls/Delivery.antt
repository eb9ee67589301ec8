-- ===== src/Appliance/HostCalls/Delivery.antt =====
-- What a delivery asks the host adapter (internal/appliance/lifecycle.go, deliver).
use loxilb_oam.Prelude.{
  ◌≡◌, refl, sym, ap, Option, none, some, List, [], Bytes, ◌==◌, Result, ok, err, arith,
}
use mathlib.Core.Option
use loxilb_oam.Appliance.Operation.{OperationState, Operation}
use loxilb_oam.Appliance.Store.Row.{Row, find_row}
use loxilb_oam.Appliance.Store.World.{
  Error, HostCall, ignore, submit_call, World, open_tx, statement, ◌>>=◌, continue, transaction,
  run_tx,
}
use loxilb_oam.Appliance.Store.Statements.{query, scan_operation}
use loxilb_oam.Appliance.Lifecycle.Submission.{
  job_request, if_undelivered, undelivered, deliver_found, deliver,
}
use loxilb_oam.Appliance.Lifecycle.Authorization.OneUse.{db-statement}
use loxilb_oam.Appliance.HostCalls.{Asked, Asked-trans, run_tx-Asked, Asking-statement}
use loxilb_oam.Appliance.HostCalls.Discipline.{deliver_found-Asking}

-- The operation that the rows hold under an ID.
abbrev pub held : Bytes → List Row → Option Operation
held id rows = Option.map scan_operation (find_row (λ r. r.id == id) rows)

abbrev deliverable : Bytes → List Row → Option Operation
deliverable id rows = if_undelivered (held id rows)

-- The call that hands over an operation that the rows hold, QUEUED and not reported on.
abbrev pub Delivery : Bytes → List Row → HostCall → Type 0
Delivery id rows call =
    (op : Operation) × (held id rows ≡ some op)
    × (op.state ≡ OperationState.queued)
    × (op.host_generation ≡ 0)
    × (call ≡ submit_call (job_request op))

if_undelivered_inv :
    (o : Option Operation) (op : Operation)
    → if_undelivered o ≡ some op
    → (o ≡ some op) × (op.state ≡ OperationState.queued) × (op.host_generation ≡ 0)
if_undelivered_inv none op e = absurd (ground arith)
if_undelivered_inv (some x) op e = ground arith

delivers :
    (id : Bytes) (rows found : List Row) (op : Operation)
    → found ≡ rows
    → deliverable id found ≡ some op
    → Delivery id rows (submit_call (job_request op))
delivers id rows found op same e =
    let (h, q, z) = if_undelivered_inv (held id found) op e in (op, rw (sym same) h, q, z, refl)

read_and_deliver :
    (id : Bytes) (rows : List Row) (r : Result Error (Unit {0})) (u : World)
    → u.db.operations ≡ rows
    → Asked
        (Delivery id rows)
        u.calls
        (continue deliver_found
          (continue (λ _ w. (ok (deliverable id w.db.operations), w)) (r, u))).1.calls
read_and_deliver id rows (err e) u same = ([], refl, tt)
read_and_deliver id rows (ok x) u same =
    (deliver_found-Asking (Delivery id rows) (deliverable id u.db.operations)
        (λ op e. delivers id rows u.db.operations op same e)).asks
      u

after_begin :
    (id : Bytes) (v : World)
    → v.connection ≡ open_tx
    → Asked (Delivery id v.db.operations) v.calls ((undelivered id >>= deliver_found) v).1.calls
unfolding undelivered query
after_begin id v c =
    let P = Delivery id v.db.operations in
    let same = ap (λ x. x.operations) (db-statement v c) in
    let (r, u) = statement v in
    Asked-trans P v.calls u.calls
      (continue deliver_found
        (continue (λ _ w. (ok (deliverable id w.db.operations), w)) (r, u))).1.calls
      ((Asking-statement P).asks v) (read_and_deliver id v.db.operations r u same)

in-Delivery :
    (id : Bytes) (r : Result Error (Unit {0})) (v : World)
    → Asked
        (Delivery id v.db.operations)
        v.calls
        (run_tx (undelivered id >>= deliver_found) (r, v)).1.calls
in-Delivery id (err e) v = ([], refl, tt)
in-Delivery id (ok u) v =
    run_tx-Asked (Delivery id v.db.operations) (undelivered id >>= deliver_found) u v
      (after_begin id (record v { connection = open_tx }) refl)

-- A delivery asks the host adapter for nothing but to run the job of an operation that it finds
-- under its ID in the tables its transaction begins with, QUEUED and never reported on by the host
-- (generation 0), with the plan that was stored.
pub deliver-Asked :
    (id : Bytes) (w : World)
    → Asked (Delivery id (statement w).1.db.operations) w.calls (deliver id w).1.calls
unfolding deliver ignore transaction
deliver-Asked id w =
    let P = Delivery id (statement w).1.db.operations in
    let (r, v) = statement w in
    Asked-trans P w.calls v.calls (run_tx (undelivered id >>= deliver_found) (r, v)).1.calls
      ((Asking-statement P).asks w) (in-Delivery id r v)
