-- ===== src/Workflow/Tests.antt =====
-- The approval of a quote and the completion of its order on concrete data.
use bom_trato_api.Prelude.{◌+◌, Option, ◌≡◌, refl, true, false, some, [], ◌∷◌, nat, arith}
use bom_trato_api.Prelude.Result.{ok}
use bom_trato_api.Prelude.Text.{is_space, trim, trim_start, trim_end}
use bom_trato_api.Prelude.Date.{at}
use bom_trato_api.Organization.Access.{AccessContext, assert_can_operate, assert_verified_member}
use bom_trato_api.Quote.Store.{find_quote, distinct_ids}
use bom_trato_api.Quote.Saved.{Stores}
use bom_trato_api.WorkOrder.Saved
use bom_trato_api.Quote.Samples.{
  title, sent_quote, sent_quote-IsValid, approved_quote, approved_quote-IsValid,
}
use bom_trato_api.WorkOrder.Creation.{find_by_quote_id}
use bom_trato_api.Receivable.ListStore.{Store, list_repository}
use bom_trato_api.Workflow.Approval.{quote_denied, Tables, ApprovalParams, approve_quote}
use bom_trato_api.Workflow.Started.{
  approved_by, approved_at, Approvable, Started, approve_quote-Started,
}
use bom_trato_api.WorkOrder.Types.{WorkOrderProps, in_progress}
use bom_trato_api.WorkOrder.Entity.{created}
use bom_trato_api.WorkOrder.Service.{denied}
use bom_trato_api.Receivable.Types.{ReceivableView}
use bom_trato_api.Receivable.Charge.{Charge, initial_charge}
use bom_trato_api.Receivable.Automation.{ensure_final_receivable}
use bom_trato_api.Receivable.Charges.{amount_of}
use bom_trato_api.Receivable.Billed.{billed}
use bom_trato_api.Workflow.Completion.{CompletionParams, due_at, final_params, complete_work_order}
use bom_trato_api.Workflow.Completed.{
  completed_at, completed_by, Completable, complete_work_order-total,
}

abbrev access : AccessContext
access = record {
  is_member = true;
  verified = true;
  has_subscription_access = true;
  billing_needs_reconciliation = false;
}

abbrev params : ApprovalParams
params = record {
  user_id = 5;
  quote_id = 1;
  version = nat 4;
  assigned_to_id = some 6;
  service_address = some title;
  order_id = 9;
  item_ids = 70 ∷ [];
  receivable_id = 41;
  now = at 20;
}

abbrev tables : Tables Store
tables = record {
  quotes = sent_quote ∷ [];
  orders = [];
  receivables = record { rows = []; paid = [] };
}

may_operate : assert_can_operate access quote_denied ≡ ok tt
unfolding assert_can_operate assert_verified_member
may_operate = refl

approvable : Approvable list_repository params sent_quote tables
unfolding find_quote distinct_ids find_by_quote_id trim trim_start trim_end is_space
approvable = record {
  valid = sent_quote-IsValid;
  offered_now = (refl, tt);
  currency_brl = refl;
  found = refl;
  same_version = refl;
  counted = omega arith;
  distinct = refl;
  fresh_items = refl;
  address_fits = omega arith;
  clock = refl;
  no_order = refl;
  no_receivable = λ kind. refl;
  accepts = λ p now r _ _ _ _ _ _ _ _. (record { rows = r ∷ []; paid = [] }, refl);
}

approve_quote-Started_example :
    (t' : Tables Store) × (approve_quote list_repository access params tables
      ≡ ok (approved_by params sent_quote, t'))
    × Stores (approved_by params sent_quote) (sent_quote ∷ []) t'.quotes
    × Started list_repository params (approved_at params sent_quote) tables t'
approve_quote-Started_example =
    approve_quote-Started list_repository access params sent_quote tables may_operate approvable

-- An order in progress for the approved quote.
started_order : WorkOrderProps
unfolding created
started_order =
    record (created
      (record {
        id = 9;
        organization_id = 2;
        user_id = 5;
        quote = approved_quote;
        item_ids = 70 ∷ [];
      })
      (at 20)) {
        assigned_to_id = some 6;
        service_address = some title;
        status = in_progress;
        started_at = some (at 30);
      }

abbrev completion : CompletionParams
completion = record {
  user_id = 6;
  work_order_id = 9;
  version = nat 1;
  due_days = 7;
  receivable_id = 42;
  now = at 50;
}

abbrev tables_started : Tables Store
tables_started = record {
  quotes = approved_quote ∷ [];
  orders = started_order ∷ [];
  receivables = record { rows = []; paid = [] };
}

may_complete : assert_can_operate access denied ≡ ok tt
unfolding assert_can_operate assert_verified_member
may_complete = refl

completable : Completable list_repository completion approved_quote started_order tables_started
unfolding started_order created find_quote
completable = record {
  valid = approved_quote-IsValid;
  accepted = refl;
  quote_found = refl;
  order_found = refl;
  started = refl;
  same_total = refl;
  currency_brl = refl;
  same_version = refl;
  counted = omega arith;
  clock = refl;
  due = refl;
  unbilled = λ c e. refl;
  accepts = λ p now r _ _ _ _ _ _ _ _. (record { rows = r ∷ []; paid = [] }, refl);
}

complete_work_order-total_example :
    (first : Option Charge) × (t' : Tables Store) × (v : Option ReceivableView)
    × (complete_work_order list_repository access completion tables_started
        ≡ ok (completed_by completion started_order, t'))
    × Saved.Stores (completed_by completion started_order) tables_started.orders t'.orders
    × (ensure_final_receivable list_repository
          (final_params completion approved_quote (completed_at completion started_order))
          (due_at completion)
          tables_started.receivables
        ≡ ok (v, t'.receivables))
    × (initial_charge approved_quote ≡ ok first)
    × (amount_of first + billed v ≡ 15000)
complete_work_order-total_example =
    complete_work_order-total list_repository access completion approved_quote started_order
      tables_started may_complete completable
