-- ===== src/Onboarding/Tests.antt =====
-- The step of a user on concrete data.
use bom_trato_api.Prelude.{◌≡◌, refl, true, false, none, some, [], ◌∷◌}
use bom_trato_api.Prelude.Date.{at}
use bom_trato_api.Billing.Types.{SubscriptionProps, active}
use bom_trato_api.Billing.Subscription.{blocks_new_checkout, has_access_at}
use bom_trato_api.Onboarding.{
  OnboardingSnapshot, app, ongoing, step_of, subscribed_step, resolve_step, resolve,
}

abbrev subscription : SubscriptionProps
subscription = record {
  id = 1;
  organization_id = 2;
  plan_price_id = 3;
  stripe_subscription_id = 4;
  status = active;
  current_period_start = at 10;
  current_period_end = at 100;
  paid_through = some (at 100);
  cancel_at_period_end = false;
  canceled_at = none;
  ended_at = none;
  stripe_created_at = at 10;
}

abbrev snapshot : OnboardingSnapshot
snapshot = record {
  organization_id = some 2;
  is_owner = true;
  setup_completed_at = some (at 20);
  plan_price_id = some 3;
  price_available = true;
  subscriptions = subscription ∷ [];
  checkout_status = none;
}

resolve-snapshot : (resolve snapshot (at 50)).step ≡ app
unfolding resolve resolve_step step_of subscribed_step ongoing blocks_new_checkout has_access_at
resolve-snapshot = refl
