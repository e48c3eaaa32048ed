-- ===== src/WorkOrder/Creation.antt =====
-- `ensureWorkOrderFromApprovedQuote` (workOrders/application/services/workOrderCreation.service.ts)
-- over the rows of the organization.
use bom_trato_api.Prelude.{◌==◌, Option, none, some, List, ◌∷◌, EntityId, find}
use bom_trato_api.Prelude.Result.{Result, ok, ◌>>=◌}
use bom_trato_api.Prelude.Text.{Text}
use bom_trato_api.Prelude.Date.{Date}
use bom_trato_api.Quote.Types.{QuoteProps}
use bom_trato_api.WorkOrder.Types.{WorkOrderError, WorkOrderProps, WorkOrderDetails}
use bom_trato_api.WorkOrder.Entity.{create, update, assign}
use bom_trato_api.WorkOrder.Store.{Orders}

pub record EnsureWorkOrderParams : Type 0 where
  pub quote : QuoteProps
  pub created_by_id : EntityId
  pub assigned_to_id : Option EntityId
  pub service_address : Option Text
  pub fresh_id : EntityId
  pub item_ids : List EntityId
  pub now : Date

-- `{ serviceAddress }`
abbrev pub address_details : Text → WorkOrderDetails
address_details address = record {
  title = none;
  instructions = none;
  service_address = some (some address);
}

unfoldable pub with_address : Option Text → WorkOrderProps → Result WorkOrderError WorkOrderProps
with_address none order = ok order
with_address (some address) order = update (address_details address) order

unfoldable pub with_assignee :
    Option EntityId → WorkOrderProps → Result WorkOrderError WorkOrderProps
with_assignee none order = ok order
with_assignee (some user) order = assign (some user) order

unfoldable pub new_order : EnsureWorkOrderParams → Result WorkOrderError WorkOrderProps
new_order p = do
  order ←
      create
        (record {
          id = p.fresh_id;
          organization_id = p.quote.organization_id;
          user_id = p.created_by_id;
          quote = p.quote;
          item_ids = p.item_ids;
        })
        p.now
  placed ← with_address p.service_address order
  with_assignee p.assigned_to_id placed

unfoldable pub find_by_quote_id : EntityId → Orders → Option WorkOrderProps
find_by_quote_id quote_id rows = find (λ row. row.quote_id == quote_id) rows

unfoldable pub ensure_or_create :
    Option WorkOrderProps
    → EnsureWorkOrderParams
    → Orders
    → Result WorkOrderError (WorkOrderProps × Orders)
ensure_or_create (some existing) p rows = ok (existing, rows)
ensure_or_create none p rows = do order ← new_order p; ok (order, order ∷ rows)

unfoldable pub ensure_work_order :
    EnsureWorkOrderParams → Orders → Result WorkOrderError (WorkOrderProps × Orders)
ensure_work_order p rows = ensure_or_create (find_by_quote_id p.quote.id rows) p rows
