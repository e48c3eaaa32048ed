-- ===== src/Billing/Tests.antt =====
-- Runs of the billing on concrete data, and the theorems applied to them.
use bom_trato_api.Prelude.{◌≡◌, ◌≢◌, refl, none, some, nat}
use bom_trato_api.Prelude.Result.{ok}
use bom_trato_api.Prelude.Date.{at, from_seconds}
use bom_trato_api.Quote.Types.{brl}
use bom_trato_api.Billing.Types.{
  immediate, quoted, processing, applied, month, PlanChangeProps, CreatePlanChangeParams,
  PaymentMethodUpdateStatus, PaymentMethodUpdateProps, PaymentSetupIdentity,
}
use bom_trato_api.Billing.PlanChange.{
  created, create, same_status, is_quoted, is_quote_expired, confirm, transition, mark_applied,
  given_or_kept, record_references,
}
use bom_trato_api.Billing.PaymentMethodUpdate.{attach_setup, assert_customer}
use bom_trato_api.Billing.Processor.{RemotePlanChangeState, RemoteStatus, mark, save_remote}
use bom_trato_api.Billing.PlanLife.{IsValid, here, next, confirmed, reachable_change-IsValid}
use bom_trato_api.Billing.Reports.{save_remote-again}

-- The times are seconds after 1970: a period from 100 to 10000, an offer until 900.
abbrev params : CreatePlanChangeParams
params = record {
  id = 1;
  organization_id = 2;
  requested_by_id = 5;
  source_plan_price_id = 11;
  target_plan_price_id = 12;
  target_max_users = nat 5;
  stripe_customer_id = 21;
  stripe_subscription_id = 22;
  stripe_item_id = 23;
  source_stripe_price_id = 24;
  target_stripe_price_id = 25;
  mode = immediate;
  currency = brl;
  amount_due_now = nat 1500;
  target_amount_in_cents = nat 9900;
  target_interval = month;
  target_interval_count = nat 1;
  period_start = 100;
  period_end = 10000;
  proration_date = 600;
  expires_at = from_seconds 900;
}

change : PlanChangeProps
unfolding created
change = created params

create_it : create params ≡ ok change
unfolding create change
create_it = refl

started : PlanChangeProps
unfolding change
started = record change { status = processing; started_at = some (from_seconds 700) }

confirm_it : confirm (from_seconds 700) change ≡ ok started
unfolding started change created confirm is_quoted is_quote_expired same_status
confirm_it = refl

reachable_change-IsValid_example : IsValid started
reachable_change-IsValid_example =
    reachable_change-IsValid params change create_it
      (next here (confirmed (from_seconds 700) confirm_it))

done : PlanChangeProps
unfolding started
done = record started { status = applied }

apply_again : mark_applied done ≡ ok done
unfolding done started change created mark_applied transition same_status
apply_again = refl

apply_it : mark_applied started ≡ ok done
unfolding done started change created mark_applied transition same_status
apply_it = refl

started-ne_quoted : started.status ≢ quoted
unfolding started
started-ne_quoted e = cc

abbrev report : RemotePlanChangeState
report = record {
  status = RemoteStatus.applied;
  references = record { stripe_invoice_id = some 31; stripe_schedule_id = none };
}

billed : PlanChangeProps
unfolding done
billed = record done { stripe_invoice_id = some 31 }

report_it : save_remote started report ≡ ok billed
unfolding billed done started change created save_remote mark mark_applied transition same_status
    record_references given_or_kept
report_it = refl

save_remote-again_example : (billed.status ≡ applied) × (save_remote billed report ≡ ok billed)
save_remote-again_example = save_remote-again started billed report report_it

abbrev update : PaymentMethodUpdateProps
update = record {
  id = 41;
  organization_id = 2;
  requested_by_id = 5;
  stripe_customer_id = 21;
  stripe_subscription_id = 22;
  stripe_setup_intent_id = none;
  status = PaymentMethodUpdateStatus.pending;
  consent_version = brl;
  consent_accepted_at = at 1;
  expires_at = at 100;
  created_at = at 1;
}

abbrev identity : PaymentSetupIdentity
identity = record { id = 51; customer_id = some 21; update_id = some 41 }

attach_it : attach_setup identity update ≡ ok (record update { stripe_setup_intent_id = some 51 })
unfolding attach_setup assert_customer
attach_it = refl
