-- ===== src/Appliance/Listing.antt =====
-- internal/appliance/operation_service.go and operation_store.go: a page of the operations.
pub mod Page
use loxilb_oam.Prelude.{
  ℕ, suc, Bool, true, false, ◌&&◌, ◌||◌, not, Option, none, some, List, [], ◌∷◌, map, Bytes, length,
  ltb, take, sort_by, bytes_leb, is_empty, ◌=ℕ◌, if◌then◌else◌, ◌==◌,
}
use loxilb_oam.Appliance.Operation.{
  OperationType, OperationType-discrete, OperationState, Operation, valid_type, valid_state, ◌is◌,
}
use loxilb_oam.Appliance.Request.{valid_operation_id}
use loxilb_oam.Appliance.Store.Row.{Row}
use loxilb_oam.Appliance.Store.World.{invalid_filter, M, pure, refuse_if, ◌>>=◌, ◌>>◌}
use loxilb_oam.Appliance.Store.Statements.{query, scan_operation}
use loxilb_oam.Appliance.Caller.{Caller}
use loxilb_oam.Appliance.Planning.{expire_plans, visible_to}
use loxilb_oam.Appliance.Lifecycle.Reconciler.{keep_rows}

abbrev pub default_list_limit : ℕ
default_list_limit = 20

abbrev pub max_list_limit : ℕ
max_list_limit = 100

-- `none` is the empty string. A limit below 0 is refused as one above the maximum is, so a
-- negative one is not told apart from those.
pub record ListFilter : Type 0 where
  pub state : Option OperationState
  pub type : Option OperationType
  pub cursor : Bytes
  pub limit : ℕ

pub record OperationList : Type 0 where
  pub items : List Operation
  pub next_cursor : Bytes

abbrev pub fits_state : Option OperationState → Row → Bool
fits_state none r = true
fits_state (some s) r = r.state is s

abbrev pub fits_type : Option OperationType → Row → Bool
fits_type none r = true
fits_type (some t) r = elim (OperationType-discrete r.type t) [ yes p ↦ true | no p ↦ false ]

-- The WHERE of the query; an ID below the cursor is one that the cursor is neither below nor at.
abbrev pub fits : ListFilter → Row → Bool
fits f r =
    fits_state f.state r
    && fits_type f.type r
    && (is_empty f.cursor || not (bytes_leb f.cursor r.id))

-- ORDER BY id DESC.
abbrev pub newest_first : Row → Row → Bool
newest_first r q = bytes_leb q.id r.id

-- listOperations: up to limit + 1 rows.
unfoldable pub list_rows : ListFilter → M (List Operation)
list_rows f = query λ now db.
    map scan_operation
      (take (suc f.limit) (sort_by newest_first (keep_rows (fits f) db.operations)))

-- The ID of the last operation of a page.
unfoldable pub last_id : List Operation → Bytes
last_id [] = []
last_id (op ∷ []) = op.id
last_id (op ∷ ops) = last_id ops

-- The page that the rows make, for a limit and a caller.
unfoldable pub page : ℕ → Caller → List Operation → OperationList
page limit caller ops =
    let shown = take limit ops in
    record {
      items = map (λ op. visible_to op caller) shown;
      next_cursor = if ltb limit (length ops) then last_id shown else [];
    }

abbrev pub is_bad_state : Option OperationState → Bool
is_bad_state none = false
is_bad_state (some s) = not (valid_state s)

abbrev pub is_bad_type : Option OperationType → Bool
is_bad_type none = false
is_bad_type (some t) = not (valid_type t)

abbrev pub limit_or_default : ListFilter → ListFilter
limit_or_default f = if f.limit =ℕ 0 then record f { limit = default_list_limit } else f

-- ListOperations, below its checks of the state, the type and the cursor.
unfoldable pub list_page : Caller → ListFilter → M OperationList
list_page caller f = do
  refuse_if (ltb f.limit 1 || ltb max_list_limit f.limit) invalid_filter
  expire_plans
  ops ← list_rows f
  pure (page f.limit caller ops)

unfoldable pub list_operations : Caller → ListFilter → M OperationList
list_operations caller f = do
  refuse_if (is_bad_state f.state) invalid_filter
  refuse_if (is_bad_type f.type) invalid_filter
  refuse_if (not (is_empty f.cursor) && not (valid_operation_id f.cursor)) invalid_filter
  list_page caller (limit_or_default f)
