-- ===== src/Lead/Conversion.antt =====
-- `ConvertLeadUseCase` (leads/application/useCases) over the tables of an organization: the lead
-- becomes a quote for a customer, who is found by an address or a number, or is new.
use bom_trato_api.Prelude.{
  if◌then◌else◌, ◌==◌, Bool, false, ◌||◌, Option, none, some, List, [], ◌∷◌, ◌++◌, EntityId, Num,
  any, find, keep, is_some, take, or_else,
}
use bom_trato_api.Prelude.Result.{Result, ok, err, rethrow, throw_if, ◌>>=◌, ◌>>◌}
use bom_trato_api.Prelude.Text.{Text, codes, text_eq}
use bom_trato_api.Prelude.Date.{Date}
use bom_trato_api.Organization.Access.{AccessContext, assert_can_operate}
use bom_trato_api.Quote.Types.{ServiceUnit, QuoteError, QuoteProps, QuoteItemDetails, brl}
use bom_trato_api.Quote.Item.{create_item}
use bom_trato_api.Quote.Entity.{CreateQuoteParams, create, add_item}
use bom_trato_api.Customer.{
  CustomerError, customer_email_already_exists, CustomerProps, CustomerDetails, create_customer,
}
use bom_trato_api.Lead.Entity.{
  LeadError, invalid_lead_transition, lead_customer_conflict, lead_customer_archived, LeadProps,
  is_closed, convert,
}
use bom_trato_api.Lead.Intake.{lead_denied, load_lead, save_lead}

-- What the use case throws.
pub data ConversionError : Type 0 where
  lead_error : LeadError → ConversionError
  customer_error : CustomerError → ConversionError
  quote_error : QuoteError → ConversionError

-- A service of the catalog that is not archived.
pub record CatalogServiceSource : Type 0 where
  pub id : EntityId
  pub name : Text
  pub description : Option Text
  pub unit_of : ServiceUnit
  pub amount_in_cents : Num
  pub currency : Text

-- The customers and the services are those of the organization, the leads those of all.
pub record LeadTables : Type 0 where
  pub leads : List LeadProps
  pub customers : List CustomerProps
  pub quotes : List QuoteProps
  pub services : List CatalogServiceSource

-- The request, with the fresh identifiers and the three readings of the clock.
pub record ConvertParams : Type 0 where
  pub organization_id : EntityId
  pub user_id : EntityId
  pub lead_id : EntityId
  pub customer_id : EntityId
  pub quote_id : EntityId
  pub item_id : EntityId
  pub customer_at : Date
  pub quote_at : Date
  pub converted_at : Date

abbrev pub same_text : Option Text → Option Text → Bool
same_text (some a) (some b) = text_eq a b
same_text _ _ = false

-- `OR` of the conditions on the address and the number that the lead has.
unfoldable pub has_contact : Option Text → Option Text → CustomerProps → Bool
has_contact email phone c = same_text c.email email || same_text c.phone phone

-- `take: 2`
unfoldable pub find_customers_by_contact :
    Option Text → Option Text → List CustomerProps → List CustomerProps
find_customers_by_contact email phone rows = take 2 (keep (has_contact email phone) rows)

-- The insertion, with the unique keys of the table.
unfoldable pub insert_customer :
    CustomerProps → List CustomerProps → Result CustomerError (List CustomerProps)
insert_customer c rows = do
  throw_if (any (λ row. row.id == c.id || same_text row.email c.email) rows)
      customer_email_already_exists
  ok (c ∷ rows)

-- `Solicitação recebida pela vitrine.\n\n${state.message}`
abbrev pub lead_notes : LeadProps → Text
lead_notes l = codes "Solicitação recebida pela vitrine." ++ 10 ∷ 10 ∷ l.message

abbrev pub customer_details : LeadProps → CustomerDetails
customer_details l = record {
  name = l.name;
  email = l.email;
  phone = l.phone;
  default_service_address = none;
  notes = some (lead_notes l);
}

-- The customer of the lead, with the customers afterwards, by those who have its contact.
unfoldable pub customer_of :
    (Text → Text)
    → ConvertParams
    → LeadProps
    → List CustomerProps
    → List CustomerProps
    → Result ConversionError (CustomerProps × List CustomerProps)
customer_of lower p l [] rows = do
  c ←
      rethrow customer_error
        (create_customer lower p.customer_id p.organization_id (customer_details l) p.customer_at)
  rows' ← rethrow customer_error (insert_customer c rows)
  ok (c, rows')
customer_of lower p l (c ∷ []) rows = do
  throw_if (is_some c.archived_at) (lead_error lead_customer_archived)
  ok (c, rows)
customer_of lower p l (c ∷ d ∷ more) rows = err (lead_error lead_customer_conflict)

abbrev pub quote_params : ConvertParams → LeadProps → CustomerProps → CreateQuoteParams
quote_params p l c = record {
  id = p.quote_id;
  organization_id = p.organization_id;
  user_id = p.user_id;
  customer_id = c.id;
  customer_name = c.name;
  customer_email = c.email;
  customer_phone = c.phone;
  title = or_else l.requested_service_name (codes "Solicitação de " ++ l.name);
  notes = some (some l.message);
  valid_until = some none;
  payment_condition = none;
  down_payment_percentage = none;
}

-- The service that was asked for, if the catalog still has it, in the currency of quotes.
abbrev pub in_brl : CatalogServiceSource → Option CatalogServiceSource
in_brl s = if text_eq s.currency brl then some s else none

abbrev pub quoted_service : LeadProps → List CatalogServiceSource → Option CatalogServiceSource
quoted_service l services = elim l.catalog_service_id [
  | none ↦ none
  | some id ↦ (elim (find (λ (service : CatalogServiceSource). service.id == id) services) [
    | none ↦ none
    | some s ↦ in_brl s
  ])
]

abbrev pub service_details : CatalogServiceSource → QuoteItemDetails
service_details s = record {
  name = s.name;
  description = some s.description;
  unit_of = s.unit_of;
  quantity = codes "1";
  unit_amount_in_cents = s.amount_in_cents;
}

unfoldable pub add_service :
    EntityId → Option CatalogServiceSource → QuoteProps → Result QuoteError QuoteProps
add_service item_id none q = ok q
add_service item_id (some s) q = do
  item ← create_item item_id (service_details s) (some s.id)
  add_item item q

unfoldable pub quote_of :
    ConvertParams
    → LeadProps
    → CustomerProps
    → List CatalogServiceSource
    → Result QuoteError QuoteProps
quote_of p l c services = do
  q ← create (quote_params p l c) p.quote_at
  add_service p.item_id (quoted_service l services) q

-- What follows once the lead is loaded.
unfoldable pub convert_loaded :
    (Text → Text)
    → ConvertParams
    → LeadProps
    → LeadTables
    → Result ConversionError (LeadProps × LeadTables)
convert_loaded lower p l t = do
  throw_if (is_closed l.status) (lead_error invalid_lead_transition)
  (c, customers) ←
      customer_of lower p l (find_customers_by_contact l.email l.phone t.customers) t.customers
  q ← rethrow quote_error (quote_of p l c t.services)
  l' ← rethrow lead_error (convert c.id q.id p.converted_at l)
  leads ← rethrow lead_error (save_lead p.organization_id l' t.leads)
  ok (l', record t { leads = leads; customers = customers; quotes = q ∷ t.quotes })

-- The answer is the lead; it names the customer and the quote.
unfoldable pub convert_lead :
    (Text → Text)
    → AccessContext
    → ConvertParams
    → LeadTables
    → Result ConversionError (LeadProps × LeadTables)
convert_lead lower access p t = do
  rethrow lead_error (assert_can_operate access lead_denied)
  l ← rethrow lead_error (load_lead p.organization_id p.lead_id t.leads)
  convert_loaded lower p l t
