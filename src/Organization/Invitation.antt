-- ===== src/Organization/Invitation.antt =====
-- `class OrganizationInvitation` (organizations/domain/entities/organizationInvitation.entity.ts).
-- A token's hash is a number that is only compared.
use bom_trato_api.Contact.Email.{normalize_email}
use bom_trato_api.Prelude.{
  ℕ, Bool, true, false, not, ◌&&◌, Option, none, some, EntityId, ◌==◌, if◌then◌else◌, same_id,
}
use bom_trato_api.Prelude.Result.{Result, ok, err, ◌>>◌, throw_if}
use bom_trato_api.Prelude.Text.{Text, text_eq}
use bom_trato_api.Prelude.Date.{Date, date_le, add_ms, shorter_than}
use bom_trato_api.Organization.Access.{
  TeamError, invitation_email_mismatch, invitation_not_found, invitation_expired, invitation_closed,
  invitation_rate_limited,
}

pub data InvitationStatus : Type 0 where
  pending accepted revoked expired : InvitationStatus

pub record InvitationProps : Type 0 where
  pub id : EntityId
  pub organization_id : EntityId
  pub email : Text
  pub invited_by_id : EntityId
  pub token_hash : EntityId
  pub status : InvitationStatus
  pub expires_at : Date
  pub last_sent_at : Date
  pub accepted_by_id : Option EntityId
  pub accepted_at : Option Date
  pub revoked_at : Option Date
  pub created_at : Date

pub record CreateInvitationParams : Type 0 where
  pub id : EntityId
  pub organization_id : EntityId
  pub email : Text
  pub invited_by_id : EntityId
  pub token_hash : EntityId
  pub now : Date

-- `48 * 60 * 60 * 1000`
abbrev pub lifetime : ℕ
lifetime = 172800000

unfoldable pub create : (Text → Text) → CreateInvitationParams → InvitationProps
create lower p = record {
  id = p.id;
  organization_id = p.organization_id;
  email = normalize_email lower p.email;
  invited_by_id = p.invited_by_id;
  token_hash = p.token_hash;
  status = pending;
  expires_at = add_ms p.now lifetime;
  last_sent_at = p.now;
  accepted_by_id = none;
  accepted_at = none;
  revoked_at = none;
  created_at = p.now;
}

abbrev pub is_pending : InvitationStatus → Bool
is_pending pending = true
is_pending _ = false

abbrev pub is_expired : InvitationStatus → Bool
is_expired expired = true
is_expired _ = false

abbrev pub is_accepted : InvitationStatus → Bool
is_accepted accepted = true
is_accepted _ = false

abbrev pub is_revoked : InvitationStatus → Bool
is_revoked revoked = true
is_revoked _ = false

unfoldable pub status_at : Date → InvitationProps → InvitationStatus
status_at now i = if is_pending i.status && date_le i.expires_at now then expired else i.status

unfoldable pub assert_recipient :
    (Text → Text) → Text → InvitationProps → Result TeamError (Unit {0})
assert_recipient lower email i =
    throw_if (not (text_eq i.email (normalize_email lower email))) invitation_email_mismatch

unfoldable pub assert_token : EntityId → InvitationProps → Result TeamError (Unit {0})
assert_token hash i = throw_if (not (i.token_hash == hash)) invitation_not_found

unfoldable pub assert_pending : Date → InvitationProps → Result TeamError (Unit {0})
assert_pending now i = do
  throw_if (is_expired (status_at now i)) invitation_expired
  throw_if (not (is_pending (status_at now i))) invitation_closed

unfoldable pub was_accepted_by : EntityId → InvitationProps → Bool
was_accepted_by user i = is_accepted i.status && same_id i.accepted_by_id (some user)

unfoldable pub expire : Date → InvitationProps → InvitationProps
expire now i = if is_expired (status_at now i) then record i { status = expired } else i

unfoldable pub resend :
    EntityId → EntityId → Date → InvitationProps → Result TeamError InvitationProps
resend hash user now i = do
  let status = status_at now i
  throw_if (not (is_pending status) && not (is_expired status)) invitation_closed
  throw_if (shorter_than i.last_sent_at now 60000) invitation_rate_limited
  ok (record i {
    token_hash = hash;
    invited_by_id = user;
    status = pending;
    last_sent_at = now;
    expires_at = add_ms now lifetime;
  })

unfoldable pub accept : EntityId → Date → InvitationProps → Result TeamError InvitationProps
unfolding assert_pending
accept user now i = do
  assert_pending now i
  ok (record i { status = accepted; accepted_by_id = some user; accepted_at = some now })

unfoldable pub revoke : Date → InvitationProps → Result TeamError InvitationProps
revoke now i =
    if is_revoked i.status
    then ok i
    else if is_accepted i.status
    then err invitation_closed
    else ok (record i { status = revoked; revoked_at = some now })
