-- ===== src/Organization/Team.antt =====
-- About who may remove members, `OrganizationTeamPolicy` in Organization/Access.
use bom_trato_api.Prelude.{◌≡◌, ◌≢◌, ◌↔◌, some, EntityId, arith}
use bom_trato_api.Prelude.Result.{ok}
use bom_trato_api.Organization.Access.{
  OrganizationRole, owner, TeamContext, assert_owner, assert_can_remove,
}

-- A member can be removed exactly by the actor who is the owner both by the organization and by
-- role, and neither the owner nor a member with the role of owner can be removed.
pub can_remove_iff :
    (c : TeamContext) (user : EntityId) (role : OrganizationRole)
    → (assert_can_remove c user role ≡ ok tt) ↔ (
        (c.actor_id ≡ c.owner_id)
        × (c.actor_role ≡ some owner)
        × (user ≢ c.owner_id)
        × (role ≢ owner))
unfolding assert_can_remove assert_owner
can_remove_iff c user role =
    (λ h. (ground arith, ground arith, λ e. ground arith, λ e. ground arith), λ h. ground arith)
