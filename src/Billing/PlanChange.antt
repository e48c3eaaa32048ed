-- ===== src/Billing/PlanChange.antt =====
-- `class PlanChange` (billing/domain/entities/planChange.entity.ts).
use bom_trato_api.Prelude.{
  ℕ, Bool, true, false, not, ◌&&◌, ◌||◌, Option, none, some, List, [], ◌∷◌, EntityId, ltb, leb,
  ◌==◌, any, if◌then◌else◌, Num, is_integer, num_below, value,
}
use bom_trato_api.Prelude.Result.{Result, ok, err, ◌>>◌, throw_if}
use bom_trato_api.Prelude.Text.{text_eq}
use bom_trato_api.Prelude.Date.{Date, is_valid, date_le, from_seconds}
use bom_trato_api.Billing.Types.{
  BillingError, plan_change_not_found, plan_change_conflict, plan_change_same_price,
  plan_change_quote_expired, plan_change_unsupported, plan_member_limit, PlanChangeMode, immediate,
  period_end, PlanChangeStatus, quoted, processing, pending_payment, scheduled, applied, canceled,
  expired, BillingInterval, month, year, PlanChangeProps, CreatePlanChangeParams, PlanChangePrice,
  PlanChangeReferences,
}

unfoldable pub same_status : PlanChangeStatus → PlanChangeStatus → Bool
same_status quoted quoted = true
same_status processing processing = true
same_status pending_payment pending_payment = true
same_status scheduled scheduled = true
same_status applied applied = true
same_status canceled canceled = true
same_status expired expired = true
same_status _ _ = false

abbrev pub same_interval : BillingInterval → BillingInterval → Bool
same_interval month month = true
same_interval year year = true
same_interval _ _ = false

abbrev pub is_immediate : PlanChangeMode → Bool
is_immediate immediate = true
is_immediate period_end = false

-- `!Number.isInteger(x) || x < least`
abbrev pub not_integer_from : ℕ → Num → Bool
not_integer_from least x = not (is_integer x) || num_below x least

-- The state of a new change.
unfoldable pub created : CreatePlanChangeParams → PlanChangeProps
created p = record {
  id = p.id;
  organization_id = p.organization_id;
  requested_by_id = p.requested_by_id;
  source_plan_price_id = p.source_plan_price_id;
  target_plan_price_id = p.target_plan_price_id;
  target_max_users = value p.target_max_users;
  stripe_customer_id = p.stripe_customer_id;
  stripe_subscription_id = p.stripe_subscription_id;
  stripe_item_id = p.stripe_item_id;
  source_stripe_price_id = p.source_stripe_price_id;
  target_stripe_price_id = p.target_stripe_price_id;
  mode = p.mode;
  status = quoted;
  currency = p.currency;
  amount_due_now = value p.amount_due_now;
  target_amount_in_cents = value p.target_amount_in_cents;
  target_interval = p.target_interval;
  target_interval_count = value p.target_interval_count;
  period_start = p.period_start;
  period_end = p.period_end;
  proration_date = p.proration_date;
  expires_at = p.expires_at;
  started_at = none;
  stripe_invoice_id = none;
  stripe_schedule_id = none;
}

unfoldable pub create : CreatePlanChangeParams → Result BillingError PlanChangeProps
create p = do
  throw_if (p.source_plan_price_id == p.target_plan_price_id) plan_change_same_price
  throw_if
      (not_integer_from 1 p.target_max_users
        || not_integer_from 0 p.amount_due_now
        || not_integer_from 0 p.target_amount_in_cents
        || not_integer_from 1 p.target_interval_count)
      plan_change_unsupported
  throw_if
      (not (is_valid p.expires_at)
        || ltb p.proration_date p.period_start
        || leb p.period_end p.proration_date
        || date_le p.expires_at (from_seconds p.proration_date)
        || date_le (from_seconds p.period_end) p.expires_at)
      plan_change_quote_expired
  ok (created p)

unfoldable pub determine_mode :
    PlanChangePrice → PlanChangePrice → Result BillingError PlanChangeMode
determine_mode source target = do
  throw_if
      (leb source.level 0 || leb target.level 0 || not (text_eq source.currency target.currency))
      plan_change_unsupported
  let upgrade =
      same_interval source.interval target.interval
      && source.interval_count == target.interval_count
      && ltb source.level target.level
      && ltb source.amount_in_cents target.amount_in_cents
  ok (if upgrade then immediate else period_end)

unfoldable pub is_quoted : PlanChangeProps → Bool
unfolding same_status
is_quoted c = same_status c.status quoted

unfoldable pub is_processing : PlanChangeProps → Bool
unfolding same_status
is_processing c = same_status c.status processing

unfoldable pub is_terminal : PlanChangeProps → Bool
unfolding same_status
is_terminal c = any (λ s. same_status s c.status) (applied ∷ canceled ∷ expired ∷ [])

unfoldable pub blocks_another_change : PlanChangeProps → Bool
blocks_another_change c = not (is_quoted c) && not (is_terminal c)

unfoldable pub is_quote_expired : Date → PlanChangeProps → Bool
is_quote_expired now c = is_quoted c && date_le c.expires_at now

unfoldable pub assert_belongs_to : EntityId → PlanChangeProps → Result BillingError (Unit {0})
assert_belongs_to organization_id c =
    throw_if (not (c.organization_id == organization_id)) plan_change_not_found

unfoldable pub assert_fits_member_limit : ℕ → PlanChangeProps → Result BillingError (Unit {0})
assert_fits_member_limit members c = throw_if (ltb c.target_max_users members) plan_member_limit

unfoldable pub confirm : Date → PlanChangeProps → Result BillingError PlanChangeProps
confirm now c = do
  throw_if (not (is_quoted c)) plan_change_conflict
  throw_if (is_quote_expired now c) plan_change_quote_expired
  ok (record c { status = processing; started_at = some now })

unfoldable pub transition :
    PlanChangeStatus → List PlanChangeStatus → PlanChangeProps → Result BillingError PlanChangeProps
transition next allowed c =
    if same_status c.status next
    then ok c
    else if any (same_status c.status) allowed
    then ok (record c { status = next })
    else err plan_change_conflict

unfoldable pub mark_payment_pending : PlanChangeProps → Result BillingError PlanChangeProps
mark_payment_pending c = do
  throw_if (not (is_immediate c.mode)) plan_change_conflict
  transition pending_payment (processing ∷ []) c

unfoldable pub mark_scheduled : PlanChangeProps → Result BillingError PlanChangeProps
mark_scheduled c = do
  throw_if (is_immediate c.mode) plan_change_conflict
  transition scheduled (processing ∷ []) c

unfoldable pub mark_applied : PlanChangeProps → Result BillingError PlanChangeProps
mark_applied = transition applied (processing ∷ pending_payment ∷ scheduled ∷ [])

unfoldable pub mark_canceled : PlanChangeProps → Result BillingError PlanChangeProps
mark_canceled = transition canceled (quoted ∷ processing ∷ pending_payment ∷ scheduled ∷ [])

unfoldable pub mark_expired : PlanChangeProps → Result BillingError PlanChangeProps
mark_expired = transition expired (quoted ∷ processing ∷ pending_payment ∷ [])

unfoldable pub assert_can_request_cancellation :
    Date → PlanChangeProps → Result BillingError (Unit {0})
assert_can_request_cancellation now c =
    throw_if
      (is_terminal c
        || is_processing c
        || same_status c.status scheduled && date_le (from_seconds c.period_end) now)
      plan_change_conflict

-- `if (given !== null) current = given`
unfoldable pub given_or_kept : Option EntityId → Option EntityId → Option EntityId
given_or_kept none current = current
given_or_kept (some x) current = some x

unfoldable pub record_references : PlanChangeReferences → PlanChangeProps → PlanChangeProps
record_references r c = record c {
  stripe_invoice_id = given_or_kept r.stripe_invoice_id c.stripe_invoice_id;
  stripe_schedule_id = given_or_kept r.stripe_schedule_id c.stripe_schedule_id;
}
