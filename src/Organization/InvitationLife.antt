-- ===== src/Organization/InvitationLife.antt =====
-- About the calls on an invitation, `OrganizationInvitation` in Organization/Invitation.
use bom_trato_api.Prelude.{◌≡◌, ◌⊎◌, ◌↔◌, inl, inr, refl, ◌∙◌, false, some, EntityId, arith}
use bom_trato_api.Prelude.Result.{ok}
use bom_trato_api.Prelude.Date.{Date, date_le}
use bom_trato_api.Organization.Invitation.{
  pending, accepted, revoked, InvitationProps, status_at, assert_pending, expire, resend, accept,
  revoke,
}

pub data Step (i i' : InvitationProps) : Type 0 where
  ran_out : (now : Date) → expire now i ≡ i' → Step i i'
  resent : (hash user : EntityId) (now : Date) → resend hash user now i ≡ ok i' → Step i i'
  was_accepted : (user : EntityId) (now : Date) → accept user now i ≡ ok i' → Step i i'
  was_revoked : (now : Date) → revoke now i ≡ ok i' → Step i i'

pub data Reach (i : InvitationProps) : InvitationProps → Type 0 where
  here : Reach i i
  next : {j k : InvitationProps} → Reach i j → Step j k → Reach i k

-- What a closed invitation keeps.
abbrev pub SameInvitation : InvitationProps → InvitationProps → Type 0
SameInvitation i i' =
    (i'.status ≡ i.status)
    × (i'.accepted_by_id ≡ i.accepted_by_id)
    × (i'.token_hash ≡ i.token_hash)
    × (i'.revoked_at ≡ i.revoked_at)

Step-closed :
    {i i' : InvitationProps}
    → (i.status ≡ accepted) ⊎ (i.status ≡ revoked)
    → Step i i'
    → SameInvitation i i'
unfolding expire resend accept revoke status_at assert_pending
Step-closed c (ran_out now h) = ground arith
Step-closed c (resent hash user now h) = ground arith
Step-closed c (was_accepted user now h) = ground arith
Step-closed c (was_revoked now h) = ground arith

-- An accepted or revoked invitation stays as it is, whatever is called afterwards: it is accepted
-- by at most one user, and a revoked one is never sent again or accepted.
pub Reach-closed_invitation :
    {i i' : InvitationProps}
    → (i.status ≡ accepted) ⊎ (i.status ≡ revoked)
    → Reach i i'
    → SameInvitation i i'
Reach-closed_invitation c here = (refl, refl, refl, refl)
Reach-closed_invitation {i} c (next {j} r s) =
    let a = Reach-closed_invitation c r in
    let c' : (j.status ≡ accepted) ⊎ (j.status ≡ revoked) = elim c [
      | inl x ↦ inl (a.0 ∙ x)
      | inr x ↦ inr (a.0 ∙ x)
    ] in
    let b = Step-closed c' s in (b.0 ∙ a.0, b.1 ∙ a.1, b.2 ∙ a.2, b.3 ∙ a.3)

-- An invitation can be accepted exactly while it is pending and not past its time.
pub accept_iff :
    (user : EntityId) (now : Date) (i : InvitationProps)
    → ((i' : InvitationProps) × (accept user now i ≡ ok i'))
      ↔ ((i.status ≡ pending) × (date_le i.expires_at now ≡ false))
unfolding accept status_at assert_pending
accept_iff user now i = (
  (λ (i', h). ground arith),
  λ h. (
    record i { status = accepted; accepted_by_id = some user; accepted_at = some now },
    ground arith,
  ),
)
