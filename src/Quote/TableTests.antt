-- ===== src/Quote/TableTests.antt =====
-- The table of quotes on concrete data.
use bom_trato_api.Prelude.{◌≡◌, refl, true, false, none, some, [], ◌∷◌, nat}
use bom_trato_api.Prelude.Result.{ok, err}
use bom_trato_api.Prelude.Text.{codes, text_eq, trim, trim_start, trim_end, is_space}
use bom_trato_api.Prelude.Date.{at}
use bom_trato_api.Organization.Access.{AccessContext, assert_can_operate, assert_verified_member}
use bom_trato_api.Customer.{CustomerProps}
use bom_trato_api.Quote.Types.{QuoteProps, QuoteItemProps, ServiceUnit, customer_archived}
use bom_trato_api.Quote.Item.{create_item, is_quantity, quantity_in_thousandths, item_total}
use bom_trato_api.Quote.Entity.{
  create, blank_quote, update, assert_draft, totals, no_details, given_or, trimmed, trimmed_length,
  bad_validity, normalize_down_payment_percentage, add_item, set_items, assert_version,
  record_change,
}
use bom_trato_api.Quote.Store.{
  find_quote, save_quote, is_expected_quote, saved_quote, written_quote, distinct_ids,
}
use bom_trato_api.Quote.Service.{
  CatalogService, AddQuoteItemInput, CreateQuoteInput, create_params, create_quote, find_customer,
  ChangeQuoteParams, add_to_it, send_it, change_quote, mutate_quote, load_quote, operation, add,
  send, quote_item, catalog_item,
}
use bom_trato_api.Quote.Table.{AreValid}
use bom_trato_api.Receivable.ListStore.{list_repository}
use bom_trato_api.Workflow.QuoteTable.{changed, created, here, next, Reach-AreValid}

abbrev access : AccessContext
access = record {
  is_member = true;
  verified = true;
  has_subscription_access = true;
  billing_needs_reconciliation = false;
}

abbrev customer : CustomerProps
customer = record {
  id = 3;
  organization_id = 2;
  name = codes "Ana";
  email = none;
  phone = none;
  default_service_address = none;
  notes = none;
  archived_at = none;
  created_at = at 1;
  updated_at = at 1;
}

abbrev painting : CatalogService
painting = record {
  id = 8;
  name = codes "Painting";
  description = none;
  unit_of = ServiceUnit.hour;
  amount_in_cents = nat 5000;
  currency = codes "brl";
  archived_at = none;
}

abbrev input : CreateQuoteInput
input = record {
  id = 1;
  organization_id = 2;
  user_id = 5;
  customer_id = 3;
  title = codes "House";
  notes = none;
  valid_until = none;
  payment_condition = none;
  down_payment_percentage = none;
}

abbrev quote : QuoteProps
quote = record (blank_quote (create_params input customer) (at 10)) { title = codes "House" }

makes_it : create_quote (customer ∷ []) [] access input (at 10) [] ≡ ok (quote, quote ∷ [])
unfolding create_quote find_customer assert_can_operate assert_verified_member create update
    assert_draft totals no_details given_or trimmed trimmed_length bad_validity
    normalize_down_payment_percentage trim trim_start trim_end is_space
makes_it = refl

abbrev two_hours : AddQuoteItemInput
two_hours = record { catalog_service_id = some 8; quantity = codes "2"; custom = none }

abbrev item : QuoteItemProps
item = record {
  id = 70;
  catalog_service_id = some 8;
  name = codes "Painting";
  description = none;
  unit_of = ServiceUnit.hour;
  quantity_in_thousandths = 2000;
  unit_amount_in_cents = 5000;
  total_in_cents = 10000;
  position = 0;
}

abbrev change : ChangeQuoteParams
change = record { user_id = 6; quote_id = 1; version = nat 1; now = at 20 }

abbrev larger : QuoteProps
larger = record quote {
  items = item ∷ [];
  subtotal_in_cents = 10000;
  total_in_cents = 10000;
  version = 2;
  updated_by_id = some 6;
  updated_at = at 20;
}

adds_it :
    change_quote (customer ∷ []) (painting ∷ []) access change (add_to_it 70 two_hours) (quote ∷ [])
    ≡ ok (larger, larger ∷ [])
unfolding change_quote mutate_quote load_quote find_quote operation add quote_item catalog_item
    create_item is_quantity quantity_in_thousandths item_total assert_can_operate
    assert_verified_member assert_version record_change add_item assert_draft set_items totals
    save_quote is_expected_quote saved_quote written_quote distinct_ids text_eq trim trim_start
    trim_end is_space
adds_it = refl

-- The customer has been archived since.
archived_test :
    change_quote
      (record customer { archived_at = some (at 15) } ∷ [])
      []
      access
      change
      send_it
      (quote ∷ [])
    ≡ err customer_archived
unfolding change_quote mutate_quote load_quote find_quote operation send find_customer
    assert_can_operate assert_verified_member assert_version
archived_test = refl

none_yet : AreValid []
none_yet = record { each = λ q m. elim m [ ] }

Reach-AreValid_example : AreValid (larger ∷ [])
Reach-AreValid_example = Reach-AreValid list_repository none_yet (
    next (next here (created (customer ∷ []) [] access input (at 10) quote makes_it)) (
      changed (customer ∷ []) (painting ∷ []) access change (add_to_it 70 two_hours) larger
        adds_it))
