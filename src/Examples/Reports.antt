-- ===== src/Examples/Reports.antt =====
-- The capability report and a page of operations (internal/appliance).
use loxilb_oam.Prelude.{
  Result, ◌≡◌, refl, true, false, none, some, [], ◌∷◌, map, Bytes-discrete, ok,
}
use loxilb_oam.Appliance.Contract.{Action, schema_version}
use loxilb_oam.Appliance.Operation.{active, OperationType, OperationState-discrete, valid_type}
use loxilb_oam.Appliance.Store.Row.{has_conflict, update_rows, find_row, count_rows}
use loxilb_oam.Appliance.Store.World.{statement}
use loxilb_oam.Appliance.Store.Statements.{scan_operation, query, exec_operations}
use loxilb_oam.Appliance.Planning.{expire_plans, visible_to}
use loxilb_oam.Appliance.Host.{HostError}
use loxilb_oam.Appliance.Operation.{OperationType-discrete}
use loxilb_oam.Appliance.Capabilities.{
  HostCapabilities, all_actions, Action-discrete, blanket_reason, by_action, occupying_state,
  occupied_reason, action_entry, occupied, capabilities,
}
use loxilb_oam.Appliance.Capabilities.Sound.{Sound, capabilities-Sound, capabilities-occupied}
use loxilb_oam.Appliance.Listing.{
  ListFilter, OperationList, list_rows, page, list_page, list_operations,
}
use loxilb_oam.Appliance.Listing.Page.{IsPage, list_operations-IsPage}
use loxilb_oam.Prelude.{any, All, sort_by, insert_sorted}
use loxilb_oam.Examples.Data.{viewer, waiting, reader}

-- A host that can do everything.
abbrev able : Result HostError HostCapabilities
able = ok (record {
  contract_versions = schema_version ∷ [];
  fixture = false;
  actions = map (λ a. record { action = a; available = true; reason = none }) all_actions;
  observed_at = 190;
})

capabilities-Sound_example :
    All (Sound able (λ a. true)) (capabilities able (λ a. true) reader).0.actions
capabilities-Sound_example = capabilities-Sound able (λ a. true) reader

occupied_by_waiting : any (λ r. active r.state) reader.db.operations ≡ true
unfolding active
occupied_by_waiting = refl

capabilities-occupied_example :
    All
      (λ e. e.available ≡ true → e.action ≡ Action.diagnostics)
      (capabilities able (λ a. true) reader).0.actions
capabilities-occupied_example =
    capabilities-occupied able (λ a. true) reader (refl, refl, refl) occupied_by_waiting

-- With no operation, all six are available; with one that waits, only diagnostics.
available_counts :
    (map (λ e. e.available) (capabilities able (λ a. true) reader).0.actions
      ≡ false ∷ false ∷ false ∷ false ∷ false ∷ true ∷ [])
    × (map
          (λ e. e.available)
          (capabilities able
            (λ a. true)
            (record reader { db = record reader.db { operations = [] } })).0.actions
        ≡ true ∷ true ∷ true ∷ true ∷ true ∷ true ∷ [])
unfolding capabilities blanket_reason occupied query statement occupying_state occupied_reason
    action_entry by_action Action-discrete find_row active OperationState-discrete Bytes-discrete
available_counts = (refl, refl)

abbrev filter : ListFilter
filter = record { state = none; type = some OperationType.restore; cursor = []; limit = 0 }

abbrev first_page : OperationList
first_page = record { items = visible_to (scan_operation waiting) viewer ∷ []; next_cursor = [] }

listed : (list_operations viewer filter reader).0 ≡ ok first_page
unfolding list_operations list_page list_rows page valid_type expire_plans exec_operations statement
    has_conflict update_rows count_rows query sort_by insert_sorted OperationType-discrete
    OperationState-discrete Bytes-discrete
listed = refl

list_operations-IsPage_example : IsPage 100 viewer first_page
list_operations-IsPage_example = list_operations-IsPage viewer filter reader first_page listed
