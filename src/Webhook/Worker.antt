-- ===== src/Webhook/Worker.antt =====
-- `processEvent` of `BillingWebhookWorker` (billing/infrastructure/workers/billingWebhook.worker.ts).
-- What the use cases answer, and what the heartbeat has found at each point where it is looked at,
-- are parameters.
use bom_trato_api.Prelude.{
  Bool, false, Option, none, some, List, [], ◌∷◌, ◌==◌, if◌then◌else◌, EntityId, length, take, any,
}
use bom_trato_api.Prelude.Result.{Result, ok, err, ◌>>=◌, ◌>>◌, throw_if, or_throw}
use bom_trato_api.Prelude.Text.{Text, codes, text_eq}
use bom_trato_api.Prelude.Date.{Date}
use bom_trato_api.Billing.Types.{BillingError, billing_busy, billing_reconciliation_required}
use bom_trato_api.Webhook.Queue.{
  billing_code, webhook_processing_failed, WebhookEvent, WebhookOutcome, complete, defer, retry,
  settle_event,
}

-- What is thrown in the `try`.
pub data Thrown : Type 0 where
  billing : BillingError → Thrown
  other : Thrown

-- The local customer of a remote one, with the remote customer that it has now.
pub record LocalCustomer : Type 0 where
  pub organization_id : EntityId
  pub stripe_customer_id : Option EntityId

-- The use cases that the worker calls, with what each answers.
pub record Handlers : Type 0 where
  pub sync_catalog : Text → EntityId → Result Thrown (Unit {0})
  pub handle_deleted_customer : EntityId → Date → Result Thrown (Unit {0})
  pub customer_by_stripe_id : EntityId → Result Thrown (Option LocalCustomer)
  pub sync_payment_method_update : EntityId → EntityId → Result Thrown (Unit {0})
  pub sync_billing : EntityId → Option EntityId → Result Thrown (Unit {0})
  pub queue_billing_alert : EntityId → WebhookEvent → Result Thrown (Unit {0})
  pub reconcile_plan_change : EntityId → Result Thrown (Unit {0})

-- Whether `leaseLost` is set at the first, second and third call of `assertLease` and at the
-- fourth, in the `catch`, and after the last renewal has ended.
pub record Heartbeat : Type 0 where
  pub at_first : Bool
  pub at_second : Bool
  pub at_third : Bool
  pub at_fourth : Bool
  pub in_catch : Bool
  pub at_end : Bool

-- `text.startsWith(prefix)`
abbrev pub starts_with : Text → Text → Bool
starts_with text prefix = text_eq (take (length prefix) text) prefix

abbrev pub stripe_catalog_webhook_types : List Text
stripe_catalog_webhook_types =
    codes "product.created"
    ∷ codes "product.updated"
    ∷ codes "product.deleted"
    ∷ codes "price.created"
    ∷ codes "price.updated"
    ∷ codes "price.deleted"
    ∷ []

unfoldable pub is_stripe_catalog_webhook_type : Text → Bool
is_stripe_catalog_webhook_type kind = any (λ t. text_eq t kind) stripe_catalog_webhook_types

abbrev pub assert_lease : Bool → Result Thrown (Unit {0})
assert_lease lost = throw_if lost other

abbrev pub is_same_customer : Option EntityId → EntityId → Bool
is_same_customer none customer = false
is_same_customer (some c) customer = c == customer

module _ (handlers : Handlers) (beat : Heartbeat) where
  unfoldable pub sync_customer : LocalCustomer → WebhookEvent → Result Thrown (Unit {0})
  sync_customer customer event =
      if starts_with event.kind (codes "setup_intent.")
      then (do
        handlers.sync_payment_method_update customer.organization_id event.stripe_object_id
        assert_lease beat.at_second)
      else (do
        handlers.sync_billing customer.organization_id (
            if starts_with event.kind (codes "invoice.") then some event.stripe_object_id else none)
        assert_lease beat.at_second
        handlers.queue_billing_alert customer.organization_id event
        assert_lease beat.at_third
        handlers.reconcile_plan_change customer.organization_id
        assert_lease beat.at_fourth)

  unfoldable pub process_customer_event : WebhookEvent → Result Thrown (Unit {0})
  process_customer_event event = do
    stripe_customer ← or_throw event.stripe_customer_id (billing billing_reconciliation_required)
    found ← handlers.customer_by_stripe_id stripe_customer
    assert_lease beat.at_first
    customer ← or_throw found (billing billing_reconciliation_required)
    (if is_same_customer customer.stripe_customer_id stripe_customer
        then sync_customer customer event
        else ok tt)

  unfoldable pub process_deleted_customer : WebhookEvent → Result Thrown (Unit {0})
  process_deleted_customer event = do
    stripe_customer ← or_throw event.stripe_customer_id (billing billing_reconciliation_required)
    handlers.handle_deleted_customer stripe_customer event.received_at
    assert_lease beat.at_first

  -- The body of the `try`.
  unfoldable pub process_body : WebhookEvent → Result Thrown (Unit {0})
  process_body event =
      if is_stripe_catalog_webhook_type event.kind
      then (do handlers.sync_catalog event.kind event.stripe_object_id; assert_lease beat.at_first)
      else if text_eq event.kind (codes "customer.deleted")
      then process_deleted_customer event
      else process_customer_event event

  -- The `catch`.
  unfoldable pub outcome_of : Result Thrown (Unit {0}) → WebhookOutcome
  outcome_of (ok _) = complete
  outcome_of (err (billing billing_busy)) = if beat.in_catch then complete else defer
  outcome_of (err (billing e)) = if beat.in_catch then complete else retry (billing_code e)
  outcome_of (err other) = if beat.in_catch then complete else retry webhook_processing_failed

  -- Nothing is settled when the lease was lost; the statement of `settle_event` tells whether the
  -- event was settled.
  unfoldable pub process_event :
      WebhookEvent → EntityId → Date → List WebhookEvent → Bool × List WebhookEvent
  process_event event token now rows =
      if beat.at_end
      then (false, rows)
      else settle_event event.id token event.attempts (outcome_of (process_body event)) now rows
