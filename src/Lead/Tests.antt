-- ===== src/Lead/Tests.antt =====
-- Leads on concrete data.
use bom_trato_api.Prelude.{◌≡◌, ◌≢◌, refl, true, false, none, some, [], ◌∷◌, ◌∷◌}
use bom_trato_api.Prelude.Result.{ok}
use bom_trato_api.Prelude.Text.{Text, codes, trim, trim_start, trim_end, is_space, trim_twice}
use bom_trato_api.Prelude.Date.{at}
use bom_trato_api.Contact.Email.{
  normalize_email, optional_email, bad_email, is_address, is_address_tail, is_domain, is_plain,
  has_point,
}
use bom_trato_api.Contact.Phone.{
  normalize_brazilian_phone, national, is_valid_brazilian_phone, is_phone_text, is_phone_char,
  is_national_number, is_mobile, is_landline, phone_input, bad_phone, normal_phone,
}
use bom_trato_api.Contact.Normal.{IsLower}
use bom_trato_api.Organization.Access.{AccessContext, assert_can_operate, assert_verified_member}
use bom_trato_api.Lead.Entity.{
  LeadProps, LeadDetails, CreateLeadParams, new, create_lead, normalize_lead,
}
use bom_trato_api.Lead.Intake.{
  lead_denied, RequestParams, create_public_lead, save_new, insert_lead,
}
use bom_trato_api.Lead.Conversion.{LeadTables, ConvertParams, convert_lead}
use bom_trato_api.Lead.Normal.{IsNormal, create_lead-IsNormal}
use bom_trato_api.Lead.Converted.{Convertible, Converted, converted_lead, convert_lead-total}
use bom_trato_api.Lead.Again.{create_public_lead-again, convert_lead-once}

-- The lower case of a text without capitals.
abbrev lower : Text → Text
lower s = s

lower-IsLower : IsLower lower
lower-IsLower = record { twice = λ s. refl; clean = λ s. trim_twice s }

abbrev phone : Text
phone = codes "+55 (11) 98765-4321"

phone_test : normalize_brazilian_phone phone ≡ codes "11987654321"
unfolding normalize_brazilian_phone national
phone_test = refl

valid_test : is_valid_brazilian_phone phone ≡ true
unfolding is_valid_brazilian_phone is_phone_text is_phone_char is_national_number is_mobile
    normalize_brazilian_phone national is_space trim trim_start trim_end
valid_test = refl

landline_test : is_valid_brazilian_phone (codes "(11) 9876-5432") ≡ false
unfolding is_valid_brazilian_phone is_phone_text is_phone_char is_national_number is_landline
    normalize_brazilian_phone national is_space trim trim_start trim_end
landline_test = refl

address_test :
    (is_address (codes "ana@casa.com.br") ≡ true)
    × (is_address (codes "ana@casa") ≡ false)
    × (is_address (codes "ana@.com") ≡ false)
    × (is_address (codes "ana@@casa.com") ≡ false)
unfolding is_address is_address_tail is_domain is_plain has_point is_space
address_test = (refl, refl, refl, refl)

abbrev details : LeadDetails
details = record {
  name = codes " Ana ";
  email = some (codes "ana@casa.com");
  phone = some phone;
  message = codes "Paint the house";
}

abbrev request : RequestParams
request = record {
  id = 30;
  request_key = 31;
  catalog_service_id = none;
  details = details;
  organization_id = 2;
  public_business_profile_id = 3;
  offered = [];
  now = at 50;
}

abbrev lead : LeadProps
lead = record {
  id = 30;
  request_key = 31;
  organization_id = 2;
  public_business_profile_id = 3;
  catalog_service_id = none;
  requested_service_name = none;
  name = codes "Ana";
  email = some (codes "ana@casa.com");
  phone = some (codes "11987654321");
  message = codes "Paint the house";
  status = new;
  converted_customer_id = none;
  converted_quote_id = none;
  contacted_at = none;
  converted_at = none;
  archived_at = none;
  created_at = at 50;
  updated_at = at 50;
}

abbrev lead_request : CreateLeadParams
lead_request = record {
  id = 30;
  request_key = 31;
  organization_id = 2;
  public_business_profile_id = 3;
  catalog_service_id = none;
  requested_service_name = none;
  details = details;
}

makes_lead : create_lead lower lead_request (at 50) ≡ ok lead
unfolding create_lead normalize_lead optional_email normalize_email bad_email is_address
    is_address_tail is_domain is_plain has_point phone_input bad_phone normal_phone
    is_valid_brazilian_phone is_phone_text is_phone_char is_national_number is_mobile
    normalize_brazilian_phone national is_space trim trim_start trim_end
makes_lead = refl

lead-IsNormal : IsNormal lower lead
lead-IsNormal = create_lead-IsNormal lower lead_request (at 50) lead lower-IsLower makes_lead

create_lead-IsNormal_example : IsNormal lower lead
create_lead-IsNormal_example =
    create_lead-IsNormal lower lead_request (at 50) lead lower-IsLower makes_lead

asks : create_public_lead lower request [] ≡ ok ((30, at 50), lead ∷ [])
unfolding create_public_lead save_new insert_lead create_lead normalize_lead optional_email
    normalize_email bad_email is_address is_address_tail is_domain is_plain has_point phone_input
    bad_phone normal_phone is_valid_brazilian_phone is_phone_text is_phone_char is_national_number
    is_mobile normalize_brazilian_phone national is_space trim trim_start trim_end
asks = refl

abbrev later : RequestParams
later = record request { id = 40; now = at 60 }

asks_again : create_public_lead lower later (lead ∷ []) ≡ ok ((30, at 50), lead ∷ [])
unfolding create_public_lead save_new insert_lead create_lead normalize_lead optional_email
    normalize_email bad_email is_address is_address_tail is_domain is_plain has_point phone_input
    bad_phone normal_phone is_valid_brazilian_phone is_phone_text is_phone_char is_national_number
    is_mobile normalize_brazilian_phone national is_space trim trim_start trim_end
asks_again = refl

create_public_lead-again_example : (lead ∷ [] ≡ lead ∷ []) × (lead.id ≡ lead.id) × (at 50 ≡ at 50)
create_public_lead-again_example =
    create_public_lead-again lower request later [] (lead ∷ []) (lead ∷ []) 30 30 (at 50) (at 50)
      asks refl asks_again

abbrev access : AccessContext
access = record {
  is_member = true;
  verified = true;
  has_subscription_access = true;
  billing_needs_reconciliation = false;
}

may_operate : assert_can_operate access lead_denied ≡ ok tt
unfolding assert_can_operate assert_verified_member
may_operate = refl

abbrev params : ConvertParams
params = record {
  organization_id = 2;
  user_id = 5;
  lead_id = 30;
  customer_id = 60;
  quote_id = 61;
  item_id = 62;
  customer_at = at 70;
  quote_at = at 71;
  converted_at = at 72;
}

abbrev tables : LeadTables
tables = record { leads = lead ∷ []; customers = []; quotes = []; services = [] }

convertible : Convertible lower access params lead tables
convertible = record {
  may_operate = may_operate;
  found = refl;
  normal = lead-IsNormal;
  still_open = refl;
  titled = tt;
  no_contact = refl;
  fresh = refl;
  no_service = refl;
}

convert_lead-total_example :
    (t' : LeadTables) × (convert_lead lower access params tables
      ≡ ok (converted_lead params lead, t'))
    × Converted params lead tables t'
convert_lead-total_example = convert_lead-total lower access params lead tables convertible

abbrev converted_tables : LeadTables
converted_tables = (convert_lead-total lower access params lead tables convertible).0

convert_lead-once_example :
    convert_lead lower access params converted_tables
    ≢ ok (converted_lead params lead, converted_tables)
convert_lead-once_example =
    convert_lead-once lower access access params params tables converted_tables
      (converted_lead params lead) (converted_lead params lead, converted_tables)
      (convert_lead-total lower access params lead tables convertible).1 refl refl
