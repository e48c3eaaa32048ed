-- ===== src/Onboarding.antt =====
-- `OnboardingFlowPolicy` (onboarding/domain/policies/onboardingFlow.policy.ts): the step at which
-- a user is.
pub mod Tests
use bom_trato_api.Prelude.{
  ℕ, ◌<◌, ◌≡◌, ◌≢◌, ◌↔◌, refl, Bool, true, false, not, ◌&&◌, Option, none, some, List, [], ◌∷◌,
  EntityId, ltb, ◌==◌, length, keep, if◌then◌else◌, is_some, arith,
}
use bom_trato_api.Prelude.Date.{Date}
use bom_trato_api.Billing.Types.{SubscriptionStatus, active, SubscriptionProps}
use bom_trato_api.Billing.Subscription.{blocks_new_checkout, has_access_at}

pub data OnboardingStep : Type 0 where
  provisioning select_plan payment payment_pending billing_required : OnboardingStep
  billing_review create_business app contact_owner : OnboardingStep

pub data CheckoutAttemptStatus : Type 0 where
  pending complete expired : CheckoutAttemptStatus

pub record OnboardingSnapshot : Type 0 where
  pub organization_id : Option EntityId
  pub is_owner : Bool
  pub setup_completed_at : Option Date
  pub plan_price_id : Option EntityId
  pub price_available : Bool
  pub subscriptions : List SubscriptionProps
  pub checkout_status : Option CheckoutAttemptStatus

pub record OnboardingState : Type 0 where
  pub step : OnboardingStep
  pub organization_id : Option EntityId
  pub selected_plan_price_id : Option EntityId

unfoldable pub ongoing : List SubscriptionProps → List SubscriptionProps
ongoing subscriptions = keep (λ s. blocks_new_checkout s.status) subscriptions

abbrev pub is_active : SubscriptionStatus → Bool
is_active active = true
is_active _ = false

abbrev pub is_complete : Option CheckoutAttemptStatus → Bool
is_complete (some complete) = true
is_complete _ = false

-- No ongoing subscription.
unfoldable pub unsubscribed_step : OnboardingSnapshot → OnboardingStep
unsubscribed_step s =
    if not s.is_owner
    then contact_owner
    else if is_complete s.checkout_status && length s.subscriptions == 0
    then payment_pending
    else if s.price_available
    then payment
    else select_plan

-- One ongoing subscription.
unfoldable pub subscribed_step : OnboardingSnapshot → Date → SubscriptionProps → OnboardingStep
subscribed_step s now current =
    if has_access_at now current
    then (if is_some s.setup_completed_at then app else create_business)
    else if not s.is_owner
    then contact_owner
    else if is_active current.status && not (is_some current.paid_through)
    then payment_pending
    else billing_required

unfoldable pub step_of : OnboardingSnapshot → Date → List SubscriptionProps → OnboardingStep
step_of s now [] = unsubscribed_step s
step_of s now (current ∷ []) = subscribed_step s now current
step_of s now (current ∷ other ∷ rest) = if s.is_owner then billing_review else contact_owner

unfoldable pub resolve_step : Option EntityId → OnboardingSnapshot → Date → OnboardingStep
resolve_step none s now = provisioning
resolve_step (some id) s now = step_of s now (ongoing s.subscriptions)

unfoldable pub resolve : OnboardingSnapshot → Date → OnboardingState
resolve s now = record {
  step = resolve_step s.organization_id s now;
  organization_id = s.organization_id;
  selected_plan_price_id = s.plan_price_id;
}

step_of-app :
    (s : OnboardingSnapshot) (now : Date) (subscriptions : List SubscriptionProps)
    → (step_of s now subscriptions ≡ app) ↔ (
        (current : SubscriptionProps) × (subscriptions ≡ current ∷ [])
        × (has_access_at now current ≡ true)
        × (is_some s.setup_completed_at ≡ true))
unfolding step_of subscribed_step unsubscribed_step
step_of-app s now [] = (λ h. absurd (ground arith), λ (c, e, _, _). absurd (ground arith))
step_of-app s now (current ∷ []) =
    (λ h. (current, refl, ground arith, ground arith), λ (c, e, a, d). ground arith)
step_of-app s now (current ∷ other ∷ rest) =
    (λ h. absurd (ground arith), λ (c, e, _, _). absurd (ground arith))

resolve_step-app :
    (o : Option EntityId) (s : OnboardingSnapshot) (now : Date)
    → (resolve_step o s now ≡ app) ↔ (
        (is_some o ≡ true)
        × ((current : SubscriptionProps) × (ongoing s.subscriptions ≡ current ∷ [])
            × (has_access_at now current ≡ true)
            × (is_some s.setup_completed_at ≡ true)))
unfolding resolve_step
resolve_step-app none s now = (λ h. absurd (ground arith), λ (e, _). absurd (ground arith))
resolve_step-app (some id) s now =
    let i = step_of-app s now (ongoing s.subscriptions) in (λ h. (refl, i.0 h), λ (_, c). i.1 c)

-- A user reaches the application exactly when there is an organization with exactly one ongoing
-- subscription, that subscription gives access now, and the setup is completed.
pub resolve-app :
    (s : OnboardingSnapshot) (now : Date)
    → ((resolve s now).step ≡ app) ↔ (
        (is_some s.organization_id ≡ true)
        × ((current : SubscriptionProps) × (ongoing s.subscriptions ≡ current ∷ [])
            × (has_access_at now current ≡ true)
            × (is_some s.setup_completed_at ≡ true)))
unfolding resolve
resolve-app s now = resolve_step-app s.organization_id s now
