-- ===== src/Organization/Access.antt =====
-- `OrganizationAccessPolicy` and `OrganizationTeamPolicy` (organizations/domain/policies).
use bom_trato_api.Prelude.{ℕ, Bool, true, false, not, ◌||◌, Option, none, some, leb, ◌==◌, EntityId}
use bom_trato_api.Prelude.Result.{Result, ◌>>◌, throw_if}

pub record AccessContext : Type 0 where
  pub is_member : Bool
  pub verified : Bool
  pub has_subscription_access : Bool
  pub billing_needs_reconciliation : Bool

pub data AccessDenial : Type 0 where
  member_required verified_user_required : AccessDenial
  billing_reconciliation_required subscription_required : AccessDenial

-- `error` makes the error of the caller's class from the code.
unfoldable pub assert_verified_member {ℓ} :
    {E : Type ℓ} → AccessContext → (AccessDenial → E) → Result E (Unit {0})
assert_verified_member c error = do
  throw_if (not c.is_member) (error member_required)
  throw_if (not c.verified) (error verified_user_required)

unfoldable pub assert_can_operate {ℓ} :
    {E : Type ℓ} → AccessContext → (AccessDenial → E) → Result E (Unit {0})
unfolding assert_verified_member
assert_can_operate c error = do
  assert_verified_member c error
  throw_if c.billing_needs_reconciliation (error billing_reconciliation_required)
  throw_if (not c.has_subscription_access) (error subscription_required)

pub data OrganizationRole : Type 0 where
  owner member : OrganizationRole

pub data TeamError : Type 0 where
  organization_not_found member_required owner_required verified_user_required : TeamError
  member_not_found owner_removal_forbidden already_member subscription_required : TeamError
  team_management_required member_limit_reached billing_reconciliation_required : TeamError
  invitation_not_found invitation_expired invitation_closed : TeamError
  invitation_already_pending invitation_email_mismatch : TeamError
  invitation_rate_limited team_busy : TeamError

pub record TeamContext : Type 0 where
  pub owner_id : EntityId
  pub actor_id : EntityId
  pub actor_role : Option OrganizationRole
  pub actor_disabled : Bool
  pub actor_email_verified : Bool

pub record TeamLimits : Type 0 where
  pub has_access : Bool
  pub team_management_enabled : Bool
  pub member_limit : ℕ

abbrev pub is_owner : Option OrganizationRole → Bool
is_owner (some owner) = true
is_owner _ = false

unfoldable pub assert_verified_actor : TeamContext → Result TeamError (Unit {0})
assert_verified_actor c =
    throw_if (c.actor_disabled || not c.actor_email_verified) TeamError.verified_user_required

unfoldable pub assert_owner : TeamContext → Result TeamError (Unit {0})
assert_owner c =
    throw_if (not (c.owner_id == c.actor_id) || not (is_owner c.actor_role)) owner_required

unfoldable pub assert_member : TeamContext → Result TeamError (Unit {0})
assert_member c =
    throw_if (elim c.actor_role [ none ↦ true | some _ ↦ false ]) TeamError.member_required

unfoldable pub assert_can_remove :
    TeamContext → EntityId → OrganizationRole → Result TeamError (Unit {0})
unfolding assert_owner
assert_can_remove c user role = do
  assert_owner c
  throw_if (user == c.owner_id || is_owner (some role)) owner_removal_forbidden

unfoldable pub assert_can_add : TeamLimits → ℕ → Result TeamError (Unit {0})
assert_can_add limits count = do
  throw_if (not limits.has_access) TeamError.subscription_required
  throw_if (not limits.team_management_enabled) team_management_required
  throw_if (leb limits.member_limit count) member_limit_reached
