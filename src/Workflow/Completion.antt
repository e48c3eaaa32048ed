-- ===== src/Workflow/Completion.antt =====
-- `CompleteWorkOrderUseCase` (workOrders/application/useCases/completeWorkOrder.useCase.ts) inside
-- the `mutate` of `WorkOrderApplicationService`, over the tables of an organization. The request
-- for a review that may follow is not modelled.
use bom_trato_api.Prelude.{ℕ, ◌*◌, EntityId, Num}
use bom_trato_api.Prelude.Result.{Result, ok, or_throw, rethrow, ◌>>=◌, ◌>>◌}
use bom_trato_api.Prelude.Date.{Date, add_ms}
use bom_trato_api.Organization.Access.{AccessContext, assert_can_operate}
use bom_trato_api.Quote.Types.{QuoteProps}
use bom_trato_api.Quote.Store.{find_quote}
use bom_trato_api.WorkOrder.Types.{quote_not_found, work_order_not_found, WorkOrderProps}
use bom_trato_api.WorkOrder.Entity.{assert_version, record_change, complete, schedule_to_check}
use bom_trato_api.WorkOrder.Store.{find_by_id, check_conflict, save}
use bom_trato_api.WorkOrder.Service.{denied}
use bom_trato_api.Receivable.Repository.{Repository}
use bom_trato_api.Receivable.Automation.{AutomatedReceivableParams, ensure_final_receivable}
use bom_trato_api.Workflow.Approval.{
  WorkflowError, work_order_error, receivable_error, Tables, source_of,
}

-- The request, the default days until a receivable is due, a fresh identifier and the clock.
pub record CompletionParams : Type 0 where
  pub user_id : EntityId
  pub work_order_id : EntityId
  pub version : Num
  pub due_days : ℕ
  pub receivable_id : EntityId
  pub now : Date

-- `dueAt.setUTCDate(dueAt.getUTCDate() + dueDays)`: a day of UTC has 86400000 ms.
abbrev pub due_at : CompletionParams → Date
due_at p = add_ms p.now (p.due_days * 86400000)

abbrev pub final_params : CompletionParams → QuoteProps → WorkOrderProps → AutomatedReceivableParams
final_params p q order = record {
  organization_id = order.organization_id;
  user_id = p.user_id;
  source = source_of order;
  quote = q;
  fresh_id = p.receivable_id;
  now = p.now;
}

module _ {S : Type 0} (repo : Repository S) where
  -- From the loaded order to the saved one.
  unfoldable pub complete_loaded :
      CompletionParams
      → WorkOrderProps
      → Tables S
      → Result WorkflowError (WorkOrderProps × Tables S)
  complete_loaded p previous t = do
    rethrow work_order_error (assert_version p.version previous)
    order ← rethrow work_order_error (complete p.now previous)
    quote ← rethrow work_order_error (or_throw (find_quote order.quote_id t.quotes) quote_not_found)
    (view, receivables) ←
        rethrow receivable_error
          (ensure_final_receivable repo (final_params p quote order) (due_at p) t.receivables)
    slot ← rethrow work_order_error (schedule_to_check previous order)
    rethrow work_order_error (check_conflict slot t.orders)
    changed ← rethrow work_order_error (record_change p.user_id p.now order)
    orders ← rethrow work_order_error (save changed p.version t.orders)
    ok (changed, record t { orders = orders; receivables = receivables })

  unfoldable pub complete_work_order :
      AccessContext → CompletionParams → Tables S → Result WorkflowError (WorkOrderProps × Tables S)
  complete_work_order access p t = do
    rethrow work_order_error (assert_can_operate access denied)
    previous ←
        rethrow work_order_error
          (or_throw (find_by_id p.work_order_id t.orders) work_order_not_found)
    complete_loaded p previous t
