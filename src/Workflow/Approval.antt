-- ===== src/Workflow/Approval.antt =====
-- `ApproveQuoteUseCase` (quotes/application/useCases/approveQuote.useCase.ts) with the `mutate` of
-- `QuoteApplicationService` around it, over the tables of an organization.
pub use bom_trato_api.Quote.Service.{quote_denied}
use bom_trato_api.Prelude.{Option, some, List, EntityId, Num}
use bom_trato_api.Prelude.Result.{Result, ok, or_throw, rethrow, ◌>>=◌, ◌>>◌}
use bom_trato_api.Prelude.Text.{Text}
use bom_trato_api.Prelude.Date.{Date}
use bom_trato_api.Organization.Access.{AccessContext, assert_can_operate}
use bom_trato_api.Quote.Types.{QuoteError, quote_not_found, QuoteProps}
use bom_trato_api.Quote.Entity.{assert_version, record_change, approve}
use bom_trato_api.Quote.Store.{find_quote, save_quote}
use bom_trato_api.WorkOrder.Types.{WorkOrderError, WorkOrderProps}
use bom_trato_api.WorkOrder.Store.{Orders}
use bom_trato_api.WorkOrder.Creation.{EnsureWorkOrderParams, ensure_work_order}
use bom_trato_api.Receivable.Types.{ReceivableError, ReceivableSource}
use bom_trato_api.Receivable.Repository.{Repository}
use bom_trato_api.Receivable.Automation.{AutomatedReceivableParams, ensure_initial_receivable}

-- The errors of the three classes that the use case may throw.
pub data WorkflowError : Type 0 where
  quote_error : QuoteError → WorkflowError
  work_order_error : WorkOrderError → WorkflowError
  receivable_error : ReceivableError → WorkflowError

pub record Tables (S : Type 0) : Type 0 where
  pub quotes : List QuoteProps
  pub orders : Orders
  pub receivables : S

-- The request, with what the transaction answers (the only assignable member, the default address
-- of the customer), the fresh identifiers and the clock.
pub record ApprovalParams : Type 0 where
  pub user_id : EntityId
  pub quote_id : EntityId
  pub version : Num
  pub assigned_to_id : Option EntityId
  pub service_address : Option Text
  pub order_id : EntityId
  pub item_ids : List EntityId
  pub receivable_id : EntityId
  pub now : Date

-- A work order as the source of a receivable.
abbrev pub source_of : WorkOrderProps → ReceivableSource
source_of w = record {
  id = w.id;
  organization_id = w.organization_id;
  customer_id = w.customer_id;
  customer_name = w.customer_name;
  title = w.title;
  currency = w.currency;
  total_in_cents = w.total_in_cents;
  status = w.status;
}

abbrev pub order_params : ApprovalParams → QuoteProps → EnsureWorkOrderParams
order_params p q = record {
  quote = q;
  created_by_id = p.user_id;
  assigned_to_id = p.assigned_to_id;
  service_address = p.service_address;
  fresh_id = p.order_id;
  item_ids = p.item_ids;
  now = p.now;
}

abbrev pub receivable_params :
    ApprovalParams → QuoteProps → WorkOrderProps → AutomatedReceivableParams
receivable_params p q order = record {
  organization_id = q.organization_id;
  user_id = p.user_id;
  source = source_of order;
  quote = q;
  fresh_id = p.receivable_id;
  now = p.now;
}

module _ {S : Type 0} (repo : Repository S) where
  -- What follows `quote.approve(now)` in the callback.
  unfoldable pub start_work :
      ApprovalParams → QuoteProps → Tables S → Result WorkflowError (Tables S)
  start_work p q t = do
    (order, orders) ← rethrow work_order_error (ensure_work_order (order_params p q) t.orders)
    (view, receivables) ←
        rethrow receivable_error
          (ensure_initial_receivable repo (receivable_params p q order) t.receivables)
    ok (record t { orders = orders; receivables = receivables })

  -- From the loaded quote to the saved one.
  unfoldable pub approve_loaded :
      ApprovalParams → QuoteProps → Tables S → Result WorkflowError (QuoteProps × Tables S)
  approve_loaded p q t = do
    rethrow quote_error (assert_version p.version q)
    approved ← rethrow quote_error (approve p.now q)
    started ← start_work p approved t
    changed ← rethrow quote_error (record_change (some p.user_id) p.now approved)
    quotes ← rethrow quote_error (save_quote changed p.version started.quotes)
    ok (changed, record started { quotes = quotes })

  unfoldable pub approve_quote :
      AccessContext → ApprovalParams → Tables S → Result WorkflowError (QuoteProps × Tables S)
  approve_quote access p t = do
    rethrow quote_error (assert_can_operate access quote_denied)
    q ← rethrow quote_error (or_throw (find_quote p.quote_id t.quotes) quote_not_found)
    approve_loaded p q t
