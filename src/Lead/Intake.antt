-- ===== src/Lead/Intake.antt =====
-- The table of leads as `PrismaLeadRepository` (leads/infrastructure/repositories) reads and saves
-- it, the request of a visitor (`CreatePublicLeadUseCase`), and the changes by a member
-- (`MarkLeadContactedUseCase`, `ArchiveLeadUseCase`, `LeadApplicationService`). The notices to the
-- members are left out.
use bom_trato_api.Prelude.{
  ◌==◌, Bool, not, ◌&&◌, ◌||◌, Option, none, some, List, ◌∷◌, EntityId, any, find, is_some,
  if◌then◌else◌, update_where,
}
use bom_trato_api.Prelude.Result.{Result, ok, or_throw, throw_if, ◌>>=◌, ◌>>◌}
use bom_trato_api.Prelude.Text.{Text}
use bom_trato_api.Prelude.Date.{Date}
use bom_trato_api.Organization.Access.{AccessContext, AccessDenial, assert_can_operate}
use bom_trato_api.Lead.Entity.{
  LeadError, lead_not_found, public_service_not_found, lead_request_conflict, LeadProps,
  LeadDetails, CreateLeadParams, create_lead, mark_contacted, archive,
}

-- `createMany` with `skipDuplicates`, of one row: another row with its identifier or its request
-- stays instead.
unfoldable pub insert_lead : LeadProps → List LeadProps → List LeadProps
insert_lead l rows =
    if any (λ row. row.id == l.id || row.request_key == l.request_key) rows then rows else l ∷ rows

-- The rows are those of every organization. The lead that is kept, with the rows afterwards.
unfoldable pub save_new :
    EntityId → LeadProps → List LeadProps → Result LeadError (LeadProps × List LeadProps)
save_new organization l rows = do
  throw_if (not (l.organization_id == organization)) lead_not_found
  let rows' = insert_lead l rows
  saved ← or_throw (find (λ row. row.request_key == l.request_key) rows') lead_request_conflict
  throw_if (not (saved.organization_id == organization)) lead_request_conflict
  ok (saved, rows')

-- A service that the profile offers.
pub record OfferedService : Type 0 where
  pub id : EntityId
  pub name : Text

-- What is asked for, with what the transaction answers: the organization and the profile of the
-- address, and the services of the profile.
pub record RequestParams : Type 0 where
  pub id : EntityId
  pub request_key : EntityId
  pub catalog_service_id : Option EntityId
  pub details : LeadDetails
  pub organization_id : EntityId
  pub public_business_profile_id : EntityId
  pub offered : List OfferedService
  pub now : Date

abbrev pub requested_service : RequestParams → Option OfferedService
requested_service p = elim p.catalog_service_id [
  | none ↦ none
  | some id ↦ find (λ service. service.id == id) p.offered
]

abbrev pub service_id : Option OfferedService → Option EntityId
service_id none = none
service_id (some service) = some service.id

abbrev pub service_name : Option OfferedService → Option Text
service_name none = none
service_name (some service) = some service.name

abbrev pub lead_params : RequestParams → CreateLeadParams
lead_params p = record {
  id = p.id;
  request_key = p.request_key;
  organization_id = p.organization_id;
  public_business_profile_id = p.public_business_profile_id;
  catalog_service_id = service_id (requested_service p);
  requested_service_name = service_name (requested_service p);
  details = p.details;
}

-- The answer is the identifier of the lead and the time when it was made.
unfoldable pub create_public_lead :
    (Text → Text)
    → RequestParams
    → List LeadProps
    → Result LeadError ((EntityId × Date) × List LeadProps)
create_public_lead lower p rows = do
  throw_if (is_some p.catalog_service_id && not (is_some (requested_service p)))
      public_service_not_found
  l ← create_lead lower (lead_params p) p.now
  (saved, rows') ← save_new p.organization_id l rows
  ok ((saved.id, saved.created_at), rows')

-- Errors of the policy with the codes of `LeadError`.
abbrev pub lead_denied : AccessDenial → LeadError
lead_denied AccessDenial.member_required = LeadError.member_required
lead_denied AccessDenial.verified_user_required = LeadError.verified_user_required
lead_denied AccessDenial.billing_reconciliation_required = LeadError.billing_reconciliation_required
lead_denied AccessDenial.subscription_required = LeadError.subscription_required

-- `where: { id, organizationId }`
abbrev pub is_lead : EntityId → EntityId → LeadProps → Bool
is_lead organization id row = row.id == id && row.organization_id == organization

unfoldable pub load_lead : EntityId → EntityId → List LeadProps → Result LeadError LeadProps
load_lead organization id rows = or_throw (find (is_lead organization id) rows) lead_not_found

-- The columns that `save` writes.
abbrev pub written_lead : LeadProps → LeadProps → LeadProps
written_lead state row = record row {
  status = state.status;
  converted_customer_id = state.converted_customer_id;
  converted_quote_id = state.converted_quote_id;
  contacted_at = state.contacted_at;
  converted_at = state.converted_at;
  archived_at = state.archived_at;
  updated_at = state.updated_at;
}

unfoldable pub save_lead : EntityId → LeadProps → List LeadProps → Result LeadError (List LeadProps)
save_lead organization l rows = do
  throw_if (not (l.organization_id == organization)) lead_not_found
  throw_if (not (any (is_lead organization l.id) rows)) lead_not_found
  ok (update_where (is_lead organization l.id) (written_lead l) rows)

-- A change of a lead by a member: `run`, `load`, the method, `save`.
unfoldable pub change_lead :
    AccessContext
    → (LeadProps → Result LeadError LeadProps)
    → EntityId
    → EntityId
    → List LeadProps
    → Result LeadError (LeadProps × List LeadProps)
change_lead access method organization id rows = do
  assert_can_operate access lead_denied
  l ← load_lead organization id rows
  l' ← method l
  rows' ← save_lead organization l' rows
  ok (l', rows')

unfoldable pub mark_lead_contacted :
    AccessContext
    → Date
    → EntityId
    → EntityId
    → List LeadProps
    → Result LeadError (LeadProps × List LeadProps)
mark_lead_contacted access now = change_lead access (mark_contacted now)

unfoldable pub archive_lead :
    AccessContext
    → Date
    → EntityId
    → EntityId
    → List LeadProps
    → Result LeadError (LeadProps × List LeadProps)
archive_lead access now = change_lead access (archive now)
