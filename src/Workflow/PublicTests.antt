-- ===== src/Workflow/PublicTests.antt =====
-- The calls through the public link on concrete data.
use bom_trato_api.Prelude.{
  ◌+◌, ◌≡◌, ◌≢◌, refl, true, false, none, some, [], ◌∷◌, nat, arith, update_where,
}
use bom_trato_api.Prelude.Result.{ok}
use bom_trato_api.Prelude.Text.{codes, text_eq, is_space, trim, trim_start, trim_end}
use bom_trato_api.Prelude.Date.{at}
use bom_trato_api.Organization.Access.{AccessContext, assert_can_operate, assert_verified_member}
use bom_trato_api.Quote.Types.{approved}
use bom_trato_api.Quote.Share.{QuoteShareProps, approve_it, assert_readable, request_change}
use bom_trato_api.Quote.Store.{find_quote, distinct_ids}
use bom_trato_api.Quote.Saved.{Stores}
use bom_trato_api.Quote.Samples.{title, sent_quote, sent_quote-IsValid}
use bom_trato_api.WorkOrder.Creation.{find_by_quote_id}
use bom_trato_api.Receivable.ListStore.{Store, list_repository}
use bom_trato_api.Workflow.Approval.{quote_denied, Tables, approve_quote}
use bom_trato_api.Workflow.Started.{approved_by, approved_at, Approvable, Started}
use bom_trato_api.Workflow.PublicDecision.{
  PublicTables, DecideParams, find_share, is_undecided, decided_row, owner_params, public_decide,
  public_load, DecisionResult,
}
use bom_trato_api.Workflow.PublicRequest.{
  ChangeParams, save_change_request, save_if_requested, public_request_change,
}
use bom_trato_api.Workflow.PublicRefusal.{public_request_change-stops}
use bom_trato_api.Workflow.PublicApproval.{
  approved_through, decided_share, Decidable, public_decide-approve_quote,
}

abbrev access : AccessContext
access = record {
  is_member = true;
  verified = true;
  has_subscription_access = true;
  billing_needs_reconciliation = false;
}

may_operate : assert_can_operate access quote_denied ≡ ok tt
unfolding assert_can_operate assert_verified_member
may_operate = refl

abbrev share : QuoteShareProps
share = record {
  id = 80;
  organization_id = 2;
  quote_id = 1;
  quote_version = 4;
  token_hash = codes "c0ffee";
  created_by_id = 5;
  created_at = at 12;
  expires_at = at 900;
  revoked_at = none;
  decision = none;
  decided_at = none;
  decided_version = none;
  change_requested_at = none;
  change_request_message = none;
}

abbrev params : DecideParams
params = record {
  token_hash = codes "c0ffee";
  version = nat 4;
  decision = approve_it;
  owner_id = some 5;
  assigned_to_id = some 6;
  service_address = some title;
  order_id = 9;
  item_ids = 70 ∷ [];
  receivable_id = 41;
  loaded_at = at 20;
  decided_at = at 21;
  started_at = at 22;
}

abbrev tables : PublicTables Store
tables = record {
  company = record {
    quotes = sent_quote ∷ [];
    orders = [];
    receivables = record { rows = []; paid = [] };
  };
  shares = share ∷ [];
}

approvable : Approvable list_repository (owner_params params 5 sent_quote) sent_quote tables.company
unfolding find_quote distinct_ids find_by_quote_id trim trim_start trim_end is_space
approvable = record {
  valid = sent_quote-IsValid;
  offered_now = (refl, tt);
  currency_brl = refl;
  found = refl;
  same_version = refl;
  counted = omega arith;
  distinct = refl;
  fresh_items = refl;
  address_fits = omega arith;
  clock = refl;
  no_order = refl;
  no_receivable = λ kind. refl;
  accepts = λ p now r _ _ _ _ _ _ _ _. (record { rows = r ∷ []; paid = [] }, refl);
}

decidable : Decidable list_repository params 5 sent_quote share tables
unfolding find_share text_eq find_quote assert_readable
decidable = record {
  wants = refl;
  has_owner = refl;
  share_found = refl;
  quote_found = refl;
  readable = refl;
  readable_then = refl;
  shared_version = refl;
  unrevoked = refl;
  undecided = refl;
  no_request = refl;
  unexpired = tt;
  work = approvable;
}

public_decide-approve_quote_example :
    (t' : PublicTables Store) × (m : Tables Store) × (public_decide list_repository params tables
      ≡ ok (record { status = approved; decided_at = at 21; version = sent_quote.version + 1 }, t'))
    × (t'.shares
        ≡ update_where
            (is_undecided 80)
            (decided_row (decided_share params sent_quote share))
            (share ∷ []))
    × Stores (approved_through params sent_quote) (sent_quote ∷ []) t'.company.quotes
    × (approve_quote list_repository access (owner_params params 5 sent_quote) tables.company
        ≡ ok (approved_by (owner_params params 5 sent_quote) sent_quote, m))
    × (t'.company.orders ≡ m.orders)
    × (t'.company.receivables ≡ m.receivables)
    × Started list_repository
        (owner_params params 5 sent_quote)
        (approved_at (owner_params params 5 sent_quote) sent_quote)
        tables.company
        m
public_decide-approve_quote_example =
    public_decide-approve_quote list_repository access params 5 sent_quote share tables may_operate
      decidable

abbrev request : ChangeParams
request = record {
  token_hash = codes "c0ffee";
  version = nat 4;
  message = codes "fewer rooms";
  owner_id = some 5;
  loaded_at = at 20;
  requested_at = at 21;
}

abbrev asked_tables : PublicTables Store
asked_tables = record tables {
  shares =
      record share {
        change_requested_at = some (at 21);
        change_request_message = some (codes "fewer rooms");
      }
      ∷ [];
}

asks_it : public_request_change request tables ≡ ok (at 21, asked_tables)
unfolding public_request_change public_load find_share text_eq find_quote assert_readable
    request_change save_if_requested save_change_request is_undecided trim trim_start trim_end
    is_space
asks_it = refl

abbrev no_answer : DecisionResult
no_answer = record { status = approved; decided_at = at 30; version = 5 }

public_request_change-stops_example :
    (tables.company ≡ tables.company)
    × (public_decide list_repository params asked_tables ≢ ok (no_answer, asked_tables))
public_request_change-stops_example =
    public_request_change-stops list_repository request params tables asked_tables (at 21)
      (no_answer, asked_tables) asks_it refl
