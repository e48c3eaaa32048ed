-- ===== src/Customer.antt =====
-- `class Customer` (customers/domain/entities/customer.entity.ts) and its errors. `lower` is the
-- `toLowerCase` of strings; a detail that is `undefined` when a customer is created counts as
-- `null`.
use bom_trato_api.Prelude.{
  ℕ, Bool, false, not, ◌&&◌, ◌||◌, Option, none, some, ltb, length, EntityId, is_some,
  if◌then◌else◌,
}
use bom_trato_api.Prelude.Result.{Result, ok, ◌>>=◌, ◌>>◌, throw_if}
use bom_trato_api.Prelude.Text.{Text, trim, nonempty}
use bom_trato_api.Prelude.Date.{Date}
use bom_trato_api.Contact.Email.{optional_email, bad_email}
use bom_trato_api.Contact.Phone.{phone_input, bad_phone, normal_phone}

pub data CustomerError : Type 0 where
  organization_not_found member_required verified_user_required : CustomerError
  subscription_required billing_reconciliation_required customer_not_found : CustomerError
  customer_archived customer_email_already_exists invalid_customer_name : CustomerError
  invalid_customer_email invalid_customer_phone invalid_customer_address : CustomerError
  invalid_customer_notes empty_customer_update customers_busy : CustomerError
  customer_overview_value_out_of_range : CustomerError

pub record CustomerProps : Type 0 where
  pub id : EntityId
  pub organization_id : EntityId
  pub name : Text
  pub email : Option Text
  pub phone : Option Text
  pub default_service_address : Option Text
  pub notes : Option Text
  pub archived_at : Option Date
  pub created_at : Date
  pub updated_at : Date

pub record CustomerDetails : Type 0 where
  pub name : Text
  pub email : Option Text
  pub phone : Option Text
  pub default_service_address : Option Text
  pub notes : Option Text

-- A partial update: `none` is `undefined`, an inner `none` is `null`.
pub record CustomerUpdate : Type 0 where
  pub name : Option Text
  pub email : Option (Option Text)
  pub phone : Option (Option Text)
  pub default_service_address : Option (Option Text)
  pub notes : Option (Option Text)

-- `text?.trim() || null`
abbrev pub trimmed : Option Text → Option Text
trimmed none = none
trimmed (some s) = nonempty (trim s)

abbrev pub longer : ℕ → Option Text → Bool
longer n none = false
longer n (some s) = ltb n (length s)

unfoldable pub normalize_customer :
    (Text → Text) → CustomerDetails → Result CustomerError CustomerDetails
normalize_customer lower d = do
  let name = trim d.name
  let email = optional_email lower d.email
  let phone = phone_input d.phone
  throw_if (bad_phone phone) invalid_customer_phone
  let address = trimmed d.default_service_address
  let notes = trimmed d.notes
  throw_if (ltb (length name) 2 || ltb 100 (length name)) invalid_customer_name
  throw_if (bad_email email) invalid_customer_email
  throw_if (longer 500 address) invalid_customer_address
  throw_if (longer 5000 notes) invalid_customer_notes
  ok (record {
    name = name;
    email = email;
    phone = normal_phone phone;
    default_service_address = address;
    notes = notes;
  })

unfoldable pub create_customer :
    (Text → Text)
    → EntityId
    → EntityId
    → CustomerDetails
    → Date
    → Result CustomerError CustomerProps
create_customer lower id organization_id details now = do
  d ← normalize_customer lower details
  ok (record {
    id = id;
    organization_id = organization_id;
    name = d.name;
    email = d.email;
    phone = d.phone;
    default_service_address = d.default_service_address;
    notes = d.notes;
    archived_at = none;
    created_at = now;
    updated_at = now;
  })

abbrev pub given {ℓ} : {A : Type ℓ} → Option A → A → A
given none a = a
given (some b) a = b

abbrev pub updates_nothing : CustomerUpdate → Bool
updates_nothing u =
    not (is_some u.name)
    && not (is_some u.email)
    && not (is_some u.phone)
    && not (is_some u.default_service_address)
    && not (is_some u.notes)

unfoldable pub update_customer :
    (Text → Text) → CustomerUpdate → Date → CustomerProps → Result CustomerError CustomerProps
update_customer lower u now c = do
  throw_if (is_some c.archived_at) customer_archived
  throw_if (updates_nothing u) empty_customer_update
  d ← normalize_customer lower (record {
    name = given u.name c.name;
    email = given u.email c.email;
    phone = given u.phone c.phone;
    default_service_address = given u.default_service_address c.default_service_address;
    notes = given u.notes c.notes;
  })
  ok (record c {
    name = d.name;
    email = d.email;
    phone = d.phone;
    default_service_address = d.default_service_address;
    notes = d.notes;
    updated_at = now;
  })

unfoldable pub archive_customer : Date → CustomerProps → CustomerProps
archive_customer now c =
    if is_some c.archived_at then c else record c { archived_at = some now; updated_at = now }

unfoldable pub unarchive_customer : Date → CustomerProps → CustomerProps
unarchive_customer now c =
    if is_some c.archived_at then record c { archived_at = none; updated_at = now } else c
