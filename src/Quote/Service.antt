-- ===== src/Quote/Service.antt =====
-- `QuoteApplicationService` (quotes/application/services) and the use cases that change one quote
-- (quotes/application/useCases), over the rows of the table of an organization. The histories are
-- left out.
use bom_trato_api.Prelude.{◌==◌, not, Option, none, some, List, ◌∷◌, EntityId, Num, find, is_some}
use bom_trato_api.Prelude.Result.{Result, ok, or_throw, throw_if, ◌>>=◌, ◌>>◌}
use bom_trato_api.Prelude.Text.{Text, text_eq}
use bom_trato_api.Prelude.Date.{Date}
use bom_trato_api.Organization.Access.{AccessContext, AccessDenial, assert_can_operate}
use bom_trato_api.Customer.{CustomerProps}
use bom_trato_api.Quote.Types.{
  ServiceUnit, PaymentCondition, QuoteError, quote_not_found, customer_not_found, customer_archived,
  catalog_service_not_found, catalog_service_archived, invalid_quote_item, invalid_quote_amount,
  QuoteItemProps, QuoteDetails, QuoteProps, brl,
}
use bom_trato_api.Quote.Item.{create_item}
use bom_trato_api.Quote.Entity.{
  assert_version, record_change, mark_sent, cancel, decline, update, add_item, replace_item,
  remove_item, CreateQuoteParams, create,
}
use bom_trato_api.Quote.Store.{find_quote, save_quote}

-- Errors of the policy with the codes of `QuoteError`.
abbrev pub quote_denied : AccessDenial → QuoteError
quote_denied AccessDenial.member_required = QuoteError.member_required
quote_denied AccessDenial.verified_user_required = QuoteError.verified_user_required
quote_denied AccessDenial.billing_reconciliation_required =
    QuoteError.billing_reconciliation_required
quote_denied AccessDenial.subscription_required = QuoteError.subscription_required

pub record ChangeQuoteParams : Type 0 where
  pub user_id : EntityId
  pub quote_id : EntityId
  pub version : Num
  pub now : Date

unfoldable pub load_quote : EntityId → List QuoteProps → Result QuoteError QuoteProps
load_quote id rows = or_throw (find_quote id rows) quote_not_found

-- `mutate`: `operation` changes the quote. The answer is the quote.
unfoldable pub mutate_quote :
    AccessContext
    → ChangeQuoteParams
    → (QuoteProps → Result QuoteError QuoteProps)
    → List QuoteProps
    → Result QuoteError (QuoteProps × List QuoteProps)
mutate_quote access p operation rows = do
  assert_can_operate access quote_denied
  q ← load_quote p.quote_id rows
  assert_version p.version q
  q' ← operation q
  changed ← record_change (some p.user_id) p.now q'
  rows' ← save_quote changed p.version rows
  ok (changed, rows')

-- `customer`: one that is there and not archived.
unfoldable pub find_customer : EntityId → List CustomerProps → Result QuoteError CustomerProps
find_customer id customers = do
  c ← or_throw (find (λ (row : CustomerProps). row.id == id) customers) customer_not_found
  throw_if (is_some c.archived_at) customer_archived
  ok c

pub record CatalogService : Type 0 where
  pub id : EntityId
  pub name : Text
  pub description : Option Text
  pub unit_of : ServiceUnit
  pub amount_in_cents : Num
  pub currency : Text
  pub archived_at : Option Date

pub record CustomItem : Type 0 where
  pub name : Text
  pub description : Option (Option Text)
  pub unit_of : ServiceUnit
  pub unit_amount_in_cents : Num

pub record AddQuoteItemInput : Type 0 where
  pub catalog_service_id : Option EntityId
  pub quantity : Text
  pub custom : Option CustomItem

unfoldable pub catalog_item :
    EntityId → Text → EntityId → List CatalogService → Result QuoteError QuoteItemProps
catalog_item id quantity service_id services = do
  s ←
      or_throw (find (λ (row : CatalogService). row.id == service_id) services)
        catalog_service_not_found
  throw_if (is_some s.archived_at) catalog_service_archived
  throw_if (not (text_eq s.currency brl)) invalid_quote_amount
  create_item id
      (record {
        name = s.name;
        description = some s.description;
        unit_of = s.unit_of;
        quantity = quantity;
        unit_amount_in_cents = s.amount_in_cents;
      })
      (some s.id)

-- `item`: of the catalog or described by hand, one of the two.
unfoldable pub quote_item :
    EntityId → AddQuoteItemInput → List CatalogService → Result QuoteError QuoteItemProps
quote_item id input services = elim input.catalog_service_id [
  | some service_id ↦ (do
    throw_if (is_some input.custom) invalid_quote_item
    catalog_item id input.quantity service_id services)
  | none ↦ (do
    c ← or_throw input.custom invalid_quote_item
    create_item id
        (record {
          name = c.name;
          description = c.description;
          unit_of = c.unit_of;
          quantity = input.quantity;
          unit_amount_in_cents = c.unit_amount_in_cents;
        })
        none)
]

-- What the use cases that change a quote do inside `mutate`.
pub data QuoteChange : Type 0 where
  send_it cancel_it decline_it : QuoteChange
  update_it : QuoteDetails → QuoteChange
  add_to_it : EntityId → AddQuoteItemInput → QuoteChange
  replace_in_it : EntityId → AddQuoteItemInput → QuoteChange
  remove_from_it : EntityId → QuoteChange

pub record CreateQuoteInput : Type 0 where
  pub id : EntityId
  pub organization_id : EntityId
  pub user_id : EntityId
  pub customer_id : EntityId
  pub title : Text
  pub notes : Option (Option Text)
  pub valid_until : Option (Option Date)
  pub payment_condition : Option PaymentCondition
  pub down_payment_percentage : Option (Option Num)

abbrev pub create_params : CreateQuoteInput → CustomerProps → CreateQuoteParams
create_params input c = record {
  id = input.id;
  organization_id = input.organization_id;
  user_id = input.user_id;
  customer_id = c.id;
  customer_name = c.name;
  customer_email = c.email;
  customer_phone = c.phone;
  title = input.title;
  notes = input.notes;
  valid_until = input.valid_until;
  payment_condition = input.payment_condition;
  down_payment_percentage = input.down_payment_percentage;
}

module _ (customers : List CustomerProps) (services : List CatalogService) where
  unfoldable pub send : Date → QuoteProps → Result QuoteError QuoteProps
  send now q = do c ← find_customer q.customer_id customers; mark_sent now q

  unfoldable pub add : EntityId → AddQuoteItemInput → QuoteProps → Result QuoteError QuoteProps
  add id input q = do item ← quote_item id input services; add_item item q

  unfoldable pub replace : EntityId → AddQuoteItemInput → QuoteProps → Result QuoteError QuoteProps
  replace id input q = do item ← quote_item id input services; replace_item id item q

  unfoldable pub operation : QuoteChange → Date → QuoteProps → Result QuoteError QuoteProps
  operation send_it now = send now
  operation cancel_it now = cancel now
  operation decline_it now = decline now
  operation (update_it details) now = update details now
  operation (add_to_it id input) now = add id input
  operation (replace_in_it id input) now = replace id input
  operation (remove_from_it id) now = remove_item id

  unfoldable pub change_quote :
      AccessContext
      → ChangeQuoteParams
      → QuoteChange
      → List QuoteProps
      → Result QuoteError (QuoteProps × List QuoteProps)
  change_quote access p change rows = mutate_quote access p (operation change p.now) rows

  unfoldable pub create_quote :
      AccessContext
      → CreateQuoteInput
      → Date
      → List QuoteProps
      → Result QuoteError (QuoteProps × List QuoteProps)
  create_quote access input now rows = do
    assert_can_operate access quote_denied
    c ← find_customer input.customer_id customers
    q ← create (create_params input c) now
    ok (q, q ∷ rows)
