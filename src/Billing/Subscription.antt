-- ===== src/Billing/Subscription.antt =====
-- `class Subscription` (billing/domain/entities/subscription.entity.ts).
use bom_trato_api.Prelude.{Bool, true, false, not, ◌&&◌, Option, none, some, is_some}
use bom_trato_api.Prelude.Result.{Result, throw_if}
use bom_trato_api.Prelude.Date.{Date, date_lt}
use bom_trato_api.Billing.Types.{
  BillingError, invalid_subscription_state, SubscriptionStatus, incomplete_expired, trialing,
  active, past_due, SubscriptionProps,
}

unfoldable pub blocks_new_checkout : SubscriptionStatus → Bool
blocks_new_checkout SubscriptionStatus.canceled = false
blocks_new_checkout incomplete_expired = false
blocks_new_checkout _ = true

abbrev pub is_served : SubscriptionStatus → Bool
is_served active = true
is_served past_due = true
is_served _ = false

abbrev pub paid_after : Option Date → Date → Bool
paid_after none now = false
paid_after (some limit) now = date_lt now limit

unfoldable pub has_access_at : Date → SubscriptionProps → Bool
has_access_at now s =
    is_served s.status && not (is_some s.ended_at) && paid_after s.paid_through now

abbrev pub is_cancelable : SubscriptionStatus → Bool
is_cancelable active = true
is_cancelable past_due = true
is_cancelable trialing = true
is_cancelable _ = false

unfoldable pub assert_can_change_cancellation : SubscriptionProps → Result BillingError (Unit {0})
assert_can_change_cancellation s =
    throw_if (not (is_cancelable s.status)) invalid_subscription_state
