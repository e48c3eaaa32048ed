-- ===== src/Billing/Types.antt =====
-- The data of billing (billing/domain/entities, the enums of prisma/schema.prisma) and the codes
-- of its errors. Times of Stripe are seconds, all others are dates.
use bom_trato_api.Prelude.{ℕ, Bool, Option, EntityId, Num}
use bom_trato_api.Prelude.Text.{Text}
use bom_trato_api.Prelude.Date.{Date}

pub data BillingError : Type 0 where
  organization_not_found owner_required email_not_verified plan_unavailable : BillingError
  price_mismatch subscription_exists subscription_not_found subscription_required : BillingError
  invalid_subscription_state checkout_in_progress checkout_expired billing_busy : BillingError
  billing_reconciliation_required billing_read_failed invalid_webhook : BillingError
  invalid_cursor multiple_subscriptions billing_portal_unavailable : BillingError
  billing_write_failed payment_method_update_not_found : BillingError
  invalid_payment_method_update plan_change_not_found plan_change_conflict : BillingError
  plan_change_same_price plan_change_quote_expired plan_change_unsupported : BillingError
  plan_member_limit : BillingError

pub data PlanChangeMode : Type 0 where
  immediate period_end : PlanChangeMode

pub data PlanChangeStatus : Type 0 where
  quoted processing pending_payment scheduled applied canceled expired : PlanChangeStatus

pub data BillingInterval : Type 0 where
  month year : BillingInterval

pub record PlanChangeProps : Type 0 where
  pub id : EntityId
  pub organization_id : EntityId
  pub requested_by_id : EntityId
  pub source_plan_price_id : EntityId
  pub target_plan_price_id : EntityId
  pub target_max_users : ℕ
  pub stripe_customer_id : EntityId
  pub stripe_subscription_id : EntityId
  pub stripe_item_id : EntityId
  pub source_stripe_price_id : EntityId
  pub target_stripe_price_id : EntityId
  pub mode : PlanChangeMode
  pub status : PlanChangeStatus
  pub currency : Text
  pub amount_due_now : ℕ
  pub target_amount_in_cents : ℕ
  pub target_interval : BillingInterval
  pub target_interval_count : ℕ
  pub period_start : ℕ
  pub period_end : ℕ
  pub proration_date : ℕ
  pub expires_at : Date
  pub started_at : Option Date
  pub stripe_invoice_id : Option EntityId
  pub stripe_schedule_id : Option EntityId

pub record CreatePlanChangeParams : Type 0 where
  pub id : EntityId
  pub organization_id : EntityId
  pub requested_by_id : EntityId
  pub source_plan_price_id : EntityId
  pub target_plan_price_id : EntityId
  pub target_max_users : Num
  pub stripe_customer_id : EntityId
  pub stripe_subscription_id : EntityId
  pub stripe_item_id : EntityId
  pub source_stripe_price_id : EntityId
  pub target_stripe_price_id : EntityId
  pub mode : PlanChangeMode
  pub currency : Text
  pub amount_due_now : Num
  pub target_amount_in_cents : Num
  pub target_interval : BillingInterval
  pub target_interval_count : Num
  pub period_start : ℕ
  pub period_end : ℕ
  pub proration_date : ℕ
  pub expires_at : Date

pub record PlanChangePrice : Type 0 where
  pub level : ℕ
  pub amount_in_cents : ℕ
  pub currency : Text
  pub interval : BillingInterval
  pub interval_count : ℕ

pub record PlanChangeReferences : Type 0 where
  pub stripe_invoice_id : Option EntityId
  pub stripe_schedule_id : Option EntityId

pub data PaymentMethodUpdateStatus : Type 0 where
  pending applied canceled : PaymentMethodUpdateStatus

pub record PaymentMethodUpdateProps : Type 0 where
  pub id : EntityId
  pub organization_id : EntityId
  pub requested_by_id : EntityId
  pub stripe_customer_id : EntityId
  pub stripe_subscription_id : EntityId
  pub stripe_setup_intent_id : Option EntityId
  pub status : PaymentMethodUpdateStatus
  pub consent_version : Text
  pub consent_accepted_at : Date
  pub expires_at : Date
  pub created_at : Date

pub data PaymentSetupState : Type 0 where
  requires_payment_method requires_confirmation requires_action : PaymentSetupState
  processing canceled succeeded : PaymentSetupState

pub record PaymentSetupIdentity : Type 0 where
  pub id : EntityId
  pub customer_id : Option EntityId
  pub update_id : Option EntityId

pub data SubscriptionStatus : Type 0 where
  incomplete incomplete_expired trialing active past_due : SubscriptionStatus
  canceled unpaid paused : SubscriptionStatus

pub record SubscriptionProps : Type 0 where
  pub id : EntityId
  pub organization_id : EntityId
  pub plan_price_id : EntityId
  pub stripe_subscription_id : EntityId
  pub status : SubscriptionStatus
  pub current_period_start : Date
  pub current_period_end : Date
  pub paid_through : Option Date
  pub cancel_at_period_end : Bool
  pub canceled_at : Option Date
  pub ended_at : Option Date
  pub stripe_created_at : Date
