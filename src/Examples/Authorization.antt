-- ===== src/Examples/Authorization.antt =====
-- Authorizing a restore that waits, once more (internal/appliance/lifecycle.go, Authorize).
use loxilb_oam.Prelude.{
  arith, ◌+◌, ◌≤◌, ◌<◌, ◌≡◌, ◌==◌, refl, true, [], ◌∷◌, ◌++◌, bytes, Bytes-discrete, ok,
}
use loxilb_oam.Appliance.Operation.{OperationState-discrete, challenge_ttl}
use loxilb_oam.Appliance.Store.Row.{ChallengeRow, has_conflict, update_rows, find_row, count_rows}
use loxilb_oam.Appliance.Store.World.{World, statement}
use loxilb_oam.Appliance.Store.Statements.{
  remove_rows, scan_operation, exec_operations, delete_challenges, insert_challenge, write_audit,
}
use loxilb_oam.Appliance.Lifecycle.Authorization.{challenge_row, insert_challenge_for, authorize_tx}
use loxilb_oam.Appliance.Lifecycle.Authorization.Steps.{is_live}
use loxilb_oam.Appliance.Lifecycle.Authorization.Issue.{authorize_tx-one_live}
use loxilb_oam.Examples.Data.{plain, admin, waiting, ticket, world, in_tx}

abbrev again : World
again = in_tx (world waiting (ticket ∷ []))

abbrev reissued : ChallengeRow
reissued = challenge_row plain admin (bytes "fresh") waiting 200

issued : (authorize_tx plain admin (scan_operation waiting) (bytes "fresh") again).0 ≡ ok reissued
unfolding authorize_tx exec_operations delete_challenges insert_challenge_for insert_challenge
    write_audit statement has_conflict update_rows count_rows find_row scan_operation Bytes-discrete
    OperationState-discrete
issued = refl

one_row : count_rows (λ r. r.id == waiting.id) again.db.operations ≤ 1
unfolding count_rows Bytes-discrete
one_row = omega arith

authorize_tx-one_live_example :
    let w = (authorize_tx plain admin (scan_operation waiting) (bytes "fresh") again).1 in
    (w.db.challenges ≡ remove_rows (is_live waiting.id) again.db.challenges ++ reissued ∷ [])
    × (count_rows (is_live waiting.id) w.db.challenges ≡ 1)
    × (is_live waiting.id reissued ≡ true)
    × (reissued.challenge_hash ≡ plain.sha256_hex (bytes "fresh"))
    × (reissued.actor_user_id ≡ admin.user_id)
    × (reissued.session_id ≡ admin.session_id)
    × (200 < reissued.expires_at)
    × (reissued.expires_at ≤ 200 + challenge_ttl)
unfolding scan_operation
authorize_tx-one_live_example =
    authorize_tx-one_live plain admin (scan_operation waiting) (bytes "fresh") again reissued refl
      one_row issued
