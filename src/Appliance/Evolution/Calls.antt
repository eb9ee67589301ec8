-- ===== src/Appliance/Evolution/Calls.antt =====
-- Every operation of internal/appliance gives the guarantee, and so does any sequence of them.
use loxilb_oam.Prelude.{Option, List, [], ◌∷◌, Bytes}
use loxilb_oam.Appliance.Operation.{PlanRequest}
use loxilb_oam.Appliance.Store.World.{idle, World, M, ignore}
use loxilb_oam.Appliance.Caller.{Caller, Digest}
use loxilb_oam.Appliance.Planning.{plan_operation, get_operation}
use loxilb_oam.Appliance.Lifecycle.Authorization
use loxilb_oam.Appliance.Lifecycle.Authorization.{
  authorizable, insert_for, insert_challenge_for, authorize_tx, or_conflict, issue,
  authorization_denied, after_use, consume_challenge,
}
use loxilb_oam.Appliance.Lifecycle.Submission
use loxilb_oam.Appliance.Lifecycle.Submission.{
  record_submission, submit_to_host, undelivered, deliver, deliver_found, if_undelivered,
  expected_state, submittable, consume_if_destructive, submit_tx, after_submit_tx, challenge_code,
  submit_new,
}
use loxilb_oam.Appliance.Lifecycle.Reconciler
use loxilb_oam.Appliance.Lifecycle.Reconciler.{
  not_in_journal, follow_journal, reconcile_operation, reconcile_all, reconcile_read,
  reconcile_active,
}
use loxilb_oam.Appliance.Lifecycle.Cancellation
use loxilb_oam.Appliance.Lifecycle.Cancellation.{
  cancel_answer, cancel_found, cancel_undelivered, cancel_open, submitted_answer, cancel_submitted,
  cancel_loaded,
}
use loxilb_oam.Appliance.Evolution.{Evolves, Evolves-refl, Evolves-trans, Fair, Guarded}
use loxilb_oam.Appliance.Evolution.Rules.{Guarded-ignore}
use loxilb_oam.Appliance.Evolution.Submission.{authorize-Guarded, denied-Guarded, submit-Guarded}
use loxilb_oam.Appliance.Evolution.Following.{
  reconcile-Guarded, reconcile_active-Guarded, cancel-Guarded,
}
use loxilb_oam.Appliance.Evolution.Planning.{plan_operation-Guarded, get_operation-Guarded}

-- A request to the service, or a round of its reconciler. An ID or a challenge that could not be
-- drawn is `none`.
pub data Call : Type 0 where
  plan : Option Bytes → Caller → Bytes → Bytes → PlanRequest → Call
  get : Caller → Bytes → Call
  authorize : Caller → Bytes → Option Bytes → Call
  deny : Caller → Bytes → Bytes → Call
  submit : Caller → Bytes → Bytes → Bytes → Call
  reconcile : Caller → Bytes → Call
  reconcile_round : Call
  cancel : Caller → Bytes → Call

pub run_call : Digest → Call → M (Unit {0})
run_call d (Call.plan id c key request_id req) = ignore (plan_operation d id c key request_id req)
run_call d (Call.get c id) = ignore (get_operation c id)
run_call d (Call.authorize c id value) = ignore (Authorization.authorize d c id value)
run_call d (Call.deny c id reason) = authorization_denied c id reason
run_call d (Call.submit c id plan_hash challenge) =
    ignore (Submission.submit d c id plan_hash challenge)
run_call d (Call.reconcile c id) = ignore (Reconciler.reconcile c id)
run_call d Call.reconcile_round = reconcile_active
run_call d (Call.cancel c id) = ignore (Cancellation.cancel c id)

-- Each call begins on a connection of its own.
pub serve : Digest → List Call → World → World
serve d [] w = w
serve d (c ∷ cs) w = serve d cs (run_call d c (record w { connection = idle })).1

run_call-Guarded : (d : Digest) (c : Call) → Guarded (run_call d c)
unfolding run_call
run_call-Guarded d (Call.plan id c key request_id req) =
    Guarded-ignore _ (plan_operation-Guarded d id c key request_id req)
run_call-Guarded d (Call.get c id) = Guarded-ignore _ (get_operation-Guarded c id)
run_call-Guarded d (Call.authorize c id value) = Guarded-ignore _ (authorize-Guarded d c id value)
run_call-Guarded d (Call.deny c id reason) = denied-Guarded c id reason
run_call-Guarded d (Call.submit c id plan_hash challenge) =
    Guarded-ignore _ (submit-Guarded d c id plan_hash challenge)
run_call-Guarded d (Call.reconcile c id) = Guarded-ignore _ (reconcile-Guarded c id)
run_call-Guarded d Call.reconcile_round = reconcile_active-Guarded
run_call-Guarded d (Call.cancel c id) = Guarded-ignore _ (cancel-Guarded c id)

-- Any sequence of requests and reconciler rounds, on any answers of the host adapter and with any
-- failures of statements and commits, among other sessions that give the same guarantee, leaves the
-- tables evolved: no operation is deleted and each changes legally (what was planned stays, the
-- journal generation does not fall, a submission stays, a terminal state is left only for a newer
-- generation); no installation has two active operations if none had two before; used challenges
-- stay as they are; and the audit trail is only appended to.
pub serve-Evolves :
    (d : Digest) (cs : List Call) (w : World) → Fair w.turns → Evolves w.db (serve d cs w).db
unfolding serve
serve-Evolves d [] w f = Evolves-refl w.db
serve-Evolves d (c ∷ cs) w f =
    let w' : World = record w { connection = idle } in
    Evolves-trans ((run_call-Guarded d c).evolves w' f)
      (serve-Evolves d cs (run_call d c w').1 ((run_call-Guarded d c).fair w' f))
