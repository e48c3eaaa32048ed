-- ===== src/Lead/Entity.antt =====
-- `class Lead` (leads/domain/entities/lead.entity.ts) and its errors. A method that changes the
-- lead returns the new properties or what it throws.
use bom_trato_api.Prelude.{
  Bool, true, false, not, ◌&&◌, ◌||◌, Option, none, some, ltb, length, EntityId, is_some,
  if◌then◌else◌,
}
use bom_trato_api.Prelude.Result.{Result, ok, ◌>>=◌, ◌>>◌, throw_if}
use bom_trato_api.Prelude.Text.{Text, trim}
use bom_trato_api.Prelude.Date.{Date}
use bom_trato_api.Contact.Email.{optional_email, bad_email}
use bom_trato_api.Contact.Phone.{phone_input, bad_phone, normal_phone}
use bom_trato_api.Customer.{trimmed}

pub data LeadStatus : Type 0 where
  new contacted converted archived : LeadStatus

pub data LeadError : Type 0 where
  organization_not_found member_required verified_user_required : LeadError
  subscription_required billing_reconciliation_required lead_not_found : LeadError
  public_profile_not_found public_service_not_found invalid_lead_name : LeadError
  invalid_lead_email invalid_lead_phone invalid_lead_message : LeadError
  lead_contact_required invalid_lead_transition lead_request_conflict : LeadError
  lead_customer_archived lead_customer_conflict leads_busy : LeadError

pub record LeadProps : Type 0 where
  pub id : EntityId
  pub request_key : EntityId
  pub organization_id : EntityId
  pub public_business_profile_id : EntityId
  pub catalog_service_id : Option EntityId
  pub requested_service_name : Option Text
  pub name : Text
  pub email : Option Text
  pub phone : Option Text
  pub message : Text
  pub status : LeadStatus
  pub converted_customer_id : Option EntityId
  pub converted_quote_id : Option EntityId
  pub contacted_at : Option Date
  pub converted_at : Option Date
  pub archived_at : Option Date
  pub created_at : Date
  pub updated_at : Date

pub record LeadDetails : Type 0 where
  pub name : Text
  pub email : Option Text
  pub phone : Option Text
  pub message : Text

unfoldable pub normalize_lead : (Text → Text) → LeadDetails → Result LeadError LeadDetails
normalize_lead lower d = do
  let name = trim d.name
  let email = optional_email lower d.email
  let phone = phone_input d.phone
  let message = trim d.message
  throw_if (ltb (length name) 2 || ltb 100 (length name)) invalid_lead_name
  throw_if (bad_email email) invalid_lead_email
  throw_if (bad_phone phone) invalid_lead_phone
  throw_if (not (is_some email) && not (is_some (normal_phone phone))) lead_contact_required
  throw_if (ltb (length message) 10 || ltb 2000 (length message)) invalid_lead_message
  ok (record { name = name; email = email; phone = normal_phone phone; message = message })

pub record CreateLeadParams : Type 0 where
  pub id : EntityId
  pub request_key : EntityId
  pub organization_id : EntityId
  pub public_business_profile_id : EntityId
  pub catalog_service_id : Option EntityId
  pub requested_service_name : Option Text
  pub details : LeadDetails

unfoldable pub create_lead : (Text → Text) → CreateLeadParams → Date → Result LeadError LeadProps
create_lead lower p now = do
  d ← normalize_lead lower p.details
  ok (record {
    id = p.id;
    request_key = p.request_key;
    organization_id = p.organization_id;
    public_business_profile_id = p.public_business_profile_id;
    catalog_service_id = p.catalog_service_id;
    requested_service_name = trimmed p.requested_service_name;
    name = d.name;
    email = d.email;
    phone = d.phone;
    message = d.message;
    status = new;
    converted_customer_id = none;
    converted_quote_id = none;
    contacted_at = none;
    converted_at = none;
    archived_at = none;
    created_at = now;
    updated_at = now;
  })

abbrev pub is_closed : LeadStatus → Bool
is_closed converted = true
is_closed archived = true
is_closed _ = false

abbrev pub is_contacted : LeadStatus → Bool
is_contacted contacted = true
is_contacted _ = false

abbrev pub is_converted : LeadStatus → Bool
is_converted converted = true
is_converted _ = false

abbrev pub is_archived : LeadStatus → Bool
is_archived archived = true
is_archived _ = false

unfoldable pub mark_contacted : Date → LeadProps → Result LeadError LeadProps
mark_contacted now l = do
  throw_if (is_closed l.status) invalid_lead_transition
  (if is_contacted l.status
      then ok l
      else ok (record l { status = contacted; contacted_at = some now; updated_at = now }))

unfoldable pub convert : EntityId → EntityId → Date → LeadProps → Result LeadError LeadProps
convert customer_id quote_id now l = do
  throw_if (is_closed l.status) invalid_lead_transition
  ok (record l {
    status = converted;
    converted_customer_id = some customer_id;
    converted_quote_id = some quote_id;
    converted_at = some now;
    updated_at = now;
  })

unfoldable pub archive : Date → LeadProps → Result LeadError LeadProps
archive now l = do
  throw_if (is_converted l.status) invalid_lead_transition
  (if is_archived l.status
      then ok l
      else ok (record l { status = archived; archived_at = some now; updated_at = now }))
