-- ===== src/Organization/Tests.antt =====
-- Runs of the team and its invitations on concrete data, and the theorems applied to them.
use bom_trato_api.Prelude.{◌≡◌, refl, true, false, none, some}
use bom_trato_api.Prelude.Date.{at}
use bom_trato_api.Organization.Access.{owner, TeamContext}
use bom_trato_api.Organization.Invitation.{InvitationProps, pending, accepted, status_at, expire}
use bom_trato_api.Quote.Types.{brl}

abbrev context : TeamContext
context = record {
  owner_id = 1;
  actor_id = 1;
  actor_role = some owner;
  actor_disabled = false;
  actor_email_verified = true;
}

abbrev invitation : InvitationProps
invitation = record {
  id = 1;
  organization_id = 2;
  email = brl;
  invited_by_id = 3;
  token_hash = 4;
  status = pending;
  expires_at = at 1000;
  last_sent_at = at 10;
  accepted_by_id = none;
  accepted_at = none;
  revoked_at = none;
  created_at = at 10;
}

abbrev taken : InvitationProps
taken = record invitation { status = accepted; accepted_by_id = some 7; accepted_at = some (at 20) }

expire_it : expire (at 2000) taken ≡ taken
unfolding expire status_at
expire_it = refl
