-- ===== src/Billing/PaymentMethodUpdate.antt =====
-- `class PaymentMethodUpdate` (billing/domain/entities/paymentMethodUpdate.entity.ts).
use bom_trato_api.Prelude.{
  Bool, true, false, not, ◌&&◌, ◌||◌, Option, none, some, EntityId, ◌==◌, if◌then◌else◌, is_some,
  same_id,
}
use bom_trato_api.Prelude.Result.{Result, ok, err, ◌>>◌, throw_if}
use bom_trato_api.Prelude.Text.{Text}
use bom_trato_api.Prelude.Date.{Date, date_le, date_lt}
use bom_trato_api.Billing.Types.{
  BillingError, payment_method_update_not_found, invalid_payment_method_update,
  invalid_subscription_state, PaymentMethodUpdateStatus, pending, applied, PaymentMethodUpdateProps,
  PaymentSetupState, succeeded, PaymentSetupIdentity, SubscriptionStatus, active, trialing,
  past_due, unpaid, paused,
}

pub record CreatePaymentMethodUpdateParams : Type 0 where
  pub id : EntityId
  pub organization_id : EntityId
  pub requested_by_id : EntityId
  pub stripe_customer_id : EntityId
  pub stripe_subscription_id : EntityId
  pub consent_version : Text
  pub consent_accepted_at : Date
  pub expires_at : Date

unfoldable pub create : CreatePaymentMethodUpdateParams → PaymentMethodUpdateProps
create p = record {
  id = p.id;
  organization_id = p.organization_id;
  requested_by_id = p.requested_by_id;
  stripe_customer_id = p.stripe_customer_id;
  stripe_subscription_id = p.stripe_subscription_id;
  stripe_setup_intent_id = none;
  status = pending;
  consent_version = p.consent_version;
  consent_accepted_at = p.consent_accepted_at;
  expires_at = p.expires_at;
  created_at = p.consent_accepted_at;
}

abbrev pub can_update : SubscriptionStatus → Bool
can_update active = true
can_update trialing = true
can_update past_due = true
can_update unpaid = true
can_update paused = true
can_update _ = false

unfoldable pub assert_subscription_can_update : SubscriptionStatus → Result BillingError (Unit {0})
assert_subscription_can_update status =
    throw_if (not (can_update status)) invalid_subscription_state

abbrev pub is_pending : PaymentMethodUpdateStatus → Bool
is_pending pending = true
is_pending _ = false

abbrev pub same_update_status : PaymentMethodUpdateStatus → PaymentMethodUpdateStatus → Bool
same_update_status pending pending = true
same_update_status applied applied = true
same_update_status PaymentMethodUpdateStatus.canceled PaymentMethodUpdateStatus.canceled = true
same_update_status _ _ = false

unfoldable pub assert_owned_by :
    EntityId → PaymentMethodUpdateProps → Result BillingError (Unit {0})
assert_owned_by organization_id u =
    throw_if (not (u.organization_id == organization_id)) payment_method_update_not_found

unfoldable pub assert_customer :
    Option EntityId → PaymentMethodUpdateProps → Result BillingError (Unit {0})
assert_customer customer_id u =
    throw_if (not (same_id customer_id (some u.stripe_customer_id))) invalid_payment_method_update

unfoldable pub attach_setup :
    PaymentSetupIdentity → PaymentMethodUpdateProps → Result BillingError PaymentMethodUpdateProps
unfolding assert_customer
attach_setup s u = do
  assert_customer s.customer_id u
  throw_if
      (not (same_id s.update_id (some u.id))
        || is_some u.stripe_setup_intent_id && not (same_id u.stripe_setup_intent_id (some s.id)))
      invalid_payment_method_update
  ok (record u { stripe_setup_intent_id = some s.id })

-- Neither `processing`, `succeeded` nor `canceled`.
abbrev pub is_unfinished : PaymentSetupState → Bool
is_unfinished PaymentSetupState.processing = false
is_unfinished succeeded = false
is_unfinished PaymentSetupState.canceled = false
is_unfinished _ = true

unfoldable pub should_cancel_setup : PaymentSetupState → Date → PaymentMethodUpdateProps → Bool
should_cancel_setup state now u =
    is_pending u.status && date_le u.expires_at now && is_unfinished state

unfoldable pub can_confirm_setup : PaymentSetupState → Date → PaymentMethodUpdateProps → Bool
can_confirm_setup state now u =
    is_pending u.status && date_lt now u.expires_at && is_unfinished state

unfoldable pub finish :
    PaymentMethodUpdateStatus
    → PaymentMethodUpdateProps
    → Result BillingError PaymentMethodUpdateProps
finish status u =
    if same_update_status u.status status
    then ok u
    else if not (is_pending u.status)
    then err invalid_payment_method_update
    else ok (record u { status = status })

unfoldable pub mark_update_applied :
    PaymentMethodUpdateProps → Result BillingError PaymentMethodUpdateProps
unfolding finish
mark_update_applied = finish applied

unfoldable pub mark_update_canceled :
    PaymentMethodUpdateProps → Result BillingError PaymentMethodUpdateProps
unfolding finish
mark_update_canceled = finish PaymentMethodUpdateStatus.canceled
