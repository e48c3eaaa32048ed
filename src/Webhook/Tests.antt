-- ===== src/Webhook/Tests.antt =====
-- The queue of events on concrete tables: two workers, a failure, an event that is closed.
use bom_trato_api.Prelude.{
  ◌≡◌, ◌≢◌, refl, sym, ◌∙◌, true, false, none, some, List, [], ◌∷◌, Memᴰ, arith,
}
use bom_trato_api.Prelude.Result.{ok, err}
use bom_trato_api.Prelude.Text.{codes, text_eq}
use bom_trato_api.Prelude.Date.{at}
use bom_trato_api.Billing.Types.{billing_busy}
use bom_trato_api.Webhook.Queue.{
  WebhookEvent, WebhookNotice, complete, defer, new_event, enqueue, is_due, first_due,
  claim_candidate, claim_event, is_held, settled, settle_event, leased, is_retriable, retry_event,
}
use bom_trato_api.Webhook.Worker.{
  billing, Handlers, Heartbeat, is_stripe_catalog_webhook_type, process_body, process_event,
  process_customer_event, sync_customer, outcome_of,
}
use bom_trato_api.Webhook.Life
use bom_trato_api.Webhook.Life.{Step, Reach, IsValid, reachable_event-IsValid}
use bom_trato_api.Webhook.Owner
use bom_trato_api.Webhook.Owner.{settle_event-excludes}
use bom_trato_api.Prelude.Keyed.{IsKeyed}
use bom_trato_api.Webhook.Closed.{event_id, IsProcessed, Reach-processed_event}

abbrev notice : WebhookNotice
notice = record {
  id = 1;
  kind = codes "invoice.paid";
  stripe_customer_id = some 7;
  stripe_object_id = 8;
}

abbrev event : WebhookEvent
event = new_event notice (at 100)

abbrev queue : List WebhookEvent
queue = event ∷ []

-- Claimed by the worker with token 50 at the time 1000.
abbrev taken : List WebhookEvent
taken = leased 50 (at 1000) event ∷ []

-- The lease of 50 has run out, and 60 claims.
abbrev retaken : List WebhookEvent
retaken = leased 60 (at 200000) event ∷ []

claim_run : claim_event 50 (at 1000) queue ≡ (some (leased 50 (at 1000) event), taken)
unfolding claim_event claim_candidate first_due is_due
claim_run = refl

no_second_claim : claim_event 60 (at 2000) taken ≡ (none, taken)
unfolding claim_event claim_candidate first_due is_due
no_second_claim = refl

late_claim : claim_event 60 (at 200000) taken ≡ (some (leased 60 (at 200000) event), retaken)
unfolding claim_event claim_candidate first_due is_due
late_claim = refl

late_claim_answer : (claim_event 60 (at 200000) taken).0 ≡ some (leased 60 (at 200000) event)
unfolding claim_event claim_candidate first_due is_due
late_claim_answer = refl

settle_event-excludes_example :
    settle_event 1 50 0 complete (at 200001) (claim_event 60 (at 200000) taken).1
    ≡ (false, (claim_event 60 (at 200000) taken).1)
settle_event-excludes_example =
    settle_event-excludes 50 60 0 complete (at 200000) (at 200001) (leased 60 (at 200000) event)
      taken (claim_event 60 (at 200000) taken).1 (omega arith) late_claim_answer Owner.here

enqueue_run : enqueue notice (at 100) [] ≡ queue
unfolding enqueue
enqueue_run = refl

abbrev done : WebhookEvent
done = record event { processed_at = some (at 1500) }

sole : (x a : WebhookEvent) → Memᴰ a (x ∷ []) → a ≡ x
sole x a (Memᴰ.head e) = e
sole x a (Memᴰ.tail m) = elim m [ ]

single : (x : WebhookEvent) → IsKeyed event_id (x ∷ [])
single x = record { one_each = λ {a} {b} m n i. sole x a m ∙ sym (sole x b n) }

done-IsProcessed : IsProcessed done (done ∷ [])
done-IsProcessed = record { keyed = single done; there = Memᴰ.head refl; processed = refl }

Reach-processed_event_example :
    Memᴰ done (done ∷ []) × ((claim_event 60 (at 9000) (done ∷ [])).0 ≢ some done)
Reach-processed_event_example =
    Reach-processed_event done done 60 (at 9000) done-IsProcessed Life.here refl

-- An operator opens an event again that was given up.
abbrev given_up : WebhookEvent
given_up = record event { attempts = 25; failed_at = some (at 5000) }

reopen_run :
    retry_event 1 (at 9000) (given_up ∷ [])
    ≡ (true, record event { next_attempt_at = at 9000 } ∷ [])
unfolding retry_event is_retriable
reopen_run = refl

one_event : Life.Reach [] queue
one_event = Life.next Life.here (Life.enqueued notice (at 100) enqueue_run)

reachable_event-IsValid_example : IsValid event
reachable_event-IsValid_example = reachable_event-IsValid event one_event (Memᴰ.head refl)

-- The lock of the billing is busy.
abbrev handlers : Handlers
handlers = record {
  sync_catalog = λ kind object. ok tt;
  handle_deleted_customer = λ customer deleted. ok tt;
  customer_by_stripe_id =
      λ customer. ok (some (record { organization_id = 3; stripe_customer_id = some customer }));
  sync_payment_method_update = λ organization setup. ok tt;
  sync_billing = λ organization invoice. err (billing billing_busy);
  queue_billing_alert = λ organization event. ok tt;
  reconcile_plan_change = λ organization. ok tt;
}

abbrev steady : Heartbeat
steady = record {
  at_first = false;
  at_second = false;
  at_third = false;
  at_fourth = false;
  in_catch = false;
  at_end = false;
}

busy : process_body handlers steady event ≡ err (billing billing_busy)
unfolding process_body is_stripe_catalog_webhook_type process_customer_event sync_customer text_eq
busy = refl

abbrev deferred : WebhookEvent
deferred = settled 0 defer (at 2000) (leased 50 (at 1000) event)

process_run : process_event handlers steady event 50 (at 2000) taken ≡ (true, deferred ∷ [])
unfolding process_event outcome_of process_body is_stripe_catalog_webhook_type
    process_customer_event sync_customer text_eq settle_event is_held
process_run = refl

abbrev both_rows : List WebhookEvent
both_rows = (record done { id = 2 }) ∷ taken

still_there :
    Memᴰ (record done { id = 2 }) (process_event handlers steady event 50 (at 2000) both_rows).1
unfolding process_event outcome_of process_body is_stripe_catalog_webhook_type
    process_customer_event sync_customer text_eq settle_event is_held
still_there = Memᴰ.head refl
