-- ===== src/Appliance/Evolution/Planning.antt =====
-- The guarantee of planning and reading an operation.
use loxilb_oam.Prelude.{refl, Bool, true, false, Option, none, some, Bytes, Result, ok, err, arith}
use loxilb_oam.Appliance.Operation.{Operation, PlanRequest, active}
use loxilb_oam.Appliance.Host.{HostPlanRequest, HostPlan}
use loxilb_oam.Appliance.Request.{RequestError}
use loxilb_oam.Appliance.Caller.{Caller, Digest}
use loxilb_oam.Appliance.Planning.{
  host_plan, insert_planned, same_request, found_or_vanished, after_insert, create_planned,
  planned_row, plan_or_replay, validated, plan_operation, get_operation,
}
use loxilb_oam.Appliance.Evolution.{Guarded}
use loxilb_oam.Appliance.Evolution.Rules.{
  Guarded-same, Guarded-pure, Guarded-raise, Guarded-if, Guarded-bind,
}
use loxilb_oam.Appliance.Evolution.Statements.{Guarded-insert_operation, Guarded-audit}
use loxilb_oam.Appliance.Evolution.Journal.{
  guards, expire_plans-Guarded, operation_by_id-Guarded, operation_by_key-Guarded,
  found_or_missing-Guarded,
}

host_plan-Guarded : (req : HostPlanRequest) → Guarded (host_plan req)
unfolding host_plan
host_plan-Guarded req = Guarded-same _ (λ w. ground arith) (λ w. ground arith)

found_or_vanished-Guarded : (o : Option Operation) → Guarded (found_or_vanished o)
found_or_vanished-Guarded none = Guarded-raise _
found_or_vanished-Guarded (some op) = Guarded-pure op

same_request-Guarded :
    (d : Digest) (op : Operation) (req : PlanRequest) → Guarded (same_request d op req)
same_request-Guarded d op req = Guarded-if _ _ _ (Guarded-raise _) (Guarded-pure _)

after_insert-Guarded :
    (d : Digest) (id : Bytes) (c : Caller) (key : Bytes) (req : PlanRequest) (b : Bool)
    → Guarded (after_insert d id c key req b)
unfolding after_insert
after_insert-Guarded d id c key req false =
    Guarded-bind _ _ (operation_by_key-Guarded c.user_id key)
      λ o. Guarded-bind _ _ (found_or_vanished-Guarded o) (λ op. same_request-Guarded d op req)
after_insert-Guarded d id c key req true = Guarded-bind _ _ (operation_by_id-Guarded id) λ o.
    Guarded-bind _ _ (found_or_vanished-Guarded o)
      λ op. Guarded-bind _ _ (Guarded-audit _) (λ u. Guarded-pure _)

insert_planned-Guarded :
    (d : Digest) (id : Bytes) (c : Caller) (key request_id : Bytes) (req : PlanRequest)
    (p : HostPlan)
    → Guarded (insert_planned d id c key request_id req p)
unfolding insert_planned active
insert_planned-Guarded d id c key request_id req p =
    Guarded-insert_operation (planned_row d id c key request_id req p) (λ now. refl)

create_planned-Guarded :
    (d : Digest) (id : Option Bytes) (c : Caller) (key request_id : Bytes) (req : PlanRequest)
    → Guarded (create_planned d id c key request_id req)
unfolding create_planned
create_planned-Guarded d none c key request_id req = Guarded-raise _
create_planned-Guarded d (some id) c key request_id req =
    Guarded-bind _ _ (host_plan-Guarded _) λ p.
      Guarded-bind _ _ (insert_planned-Guarded d id c key request_id req p)
        (after_insert-Guarded d id c key req)

plan_or_replay-Guarded :
    (d : Digest) (id : Option Bytes) (c : Caller) (key request_id : Bytes) (req : PlanRequest)
    (o : Option Operation)
    → Guarded (plan_or_replay d id c key request_id req o)
unfolding plan_or_replay
plan_or_replay-Guarded d id c key request_id req (some op) = same_request-Guarded d op req
plan_or_replay-Guarded d id c key request_id req none =
    create_planned-Guarded d id c key request_id req

validated-Guarded : (r : Result RequestError (Unit {0})) → Guarded (validated r)
validated-Guarded (ok u) = Guarded-pure tt
validated-Guarded (err e) = Guarded-raise _

pub plan_operation-Guarded :
    (d : Digest) (id : Option Bytes) (c : Caller) (key request_id : Bytes) (req : PlanRequest)
    → Guarded (plan_operation d id c key request_id req)
unfolding plan_operation
plan_operation-Guarded d id c key request_id req =
    search
      (
        guards, validated-Guarded, expire_plans-Guarded, operation_by_key-Guarded,
        plan_or_replay-Guarded,
      )
      depth 20

pub get_operation-Guarded : (c : Caller) (id : Bytes) → Guarded (get_operation c id)
unfolding get_operation
get_operation-Guarded c id =
    search (guards, expire_plans-Guarded, operation_by_id-Guarded, found_or_missing-Guarded) depth
      14
