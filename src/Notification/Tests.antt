-- ===== src/Notification/Tests.antt =====
-- The outbox of notifications on concrete data.
use bom_trato_api.Prelude.{
  ◌⊎◌, ◌+◌, ◌∙◌, sym, ◌≤◌, ◌<◌, ◌≡◌, refl, true, false, Option, none, some, [], ◌∷◌, Memᴰ, arith,
  nat, EntityId,
}
use bom_trato_api.Prelude.Result.{Result, ok, err}
use bom_trato_api.Prelude.Text.{Text, codes}
use bom_trato_api.Prelude.Date.{at}
use bom_trato_api.Quote.Types.{QuoteProps}
use bom_trato_api.Quote.Share.{QuoteShareProps, approve_it, decide_share}
use bom_trato_api.Quote.Sharing.{IsWhole}
use bom_trato_api.Quote.Samples.{sent_quote}
use bom_trato_api.Notification.Outbox.{
  NotificationStatus, quote_follow_up, NotificationRow, EnqueueNotification, new_row, insert,
  is_claimable, first_claimable, claimed_row, claim_candidate, claim, is_mine, ended, end_job,
  cleanup, is_stale,
}
use bom_trato_api.Notification.Automation.{
  Records, is_followed, is_settled, skips_follow_up, skips_kind, skips_of, should_skip_automation,
}
use bom_trato_api.Notification.Worker.{
  SendFailure, Clock, deadline, after_sending, work, process, process_claimed,
}
use bom_trato_api.Notification.FollowUp.{follow_up-decidable}
use bom_trato_api.Prelude.Keyed.{IsKeyed}
use bom_trato_api.Notification.Finished.{notification_id, has_row, Reach-finished}
use bom_trato_api.Notification.Claims.{count}
use bom_trato_api.Notification.Limit.{
  Outbox, inserted, claimed, worked, cleaned, Reach, here, next, sent-limit,
}

abbrev share : QuoteShareProps
share = record {
  id = 80;
  organization_id = 2;
  quote_id = 1;
  quote_version = 4;
  token_hash = codes "c0ffee";
  created_by_id = 5;
  created_at = at 12;
  expires_at = at 900;
  revoked_at = none;
  decision = none;
  decided_at = none;
  decided_version = none;
  change_requested_at = none;
  change_request_message = none;
}

abbrev records : Records
records = record {
  shares = share ∷ [];
  quotes = sent_quote ∷ [];
  orders = [];
  receivables = [];
  invitations = [];
  reviewed = [];
}

abbrev input : EnqueueNotification
input = record {
  id = 11;
  key = codes "quote/80";
  encrypted_payload = codes "sealed";
  available_at = some (at 100);
  expires_at = at 800;
  automation = some (record {
    organization_id = 2;
    kind = quote_follow_up;
    entity_id = 1;
    context_id = some 80;
    reference_at = none;
  });
}

abbrev job : NotificationRow
job = new_row input (at 90)

not_skipped : should_skip_automation job (at 120) records ≡ false
unfolding should_skip_automation skips_of skips_kind skips_follow_up is_followed is_settled
not_skipped = refl

whole : (s : QuoteShareProps) → Memᴰ s records.shares → IsWhole s
whole s (Memᴰ.head e) = rw e tt
whole s (Memᴰ.tail m) = elim m [ ]

counted : (q : QuoteProps) → Memᴰ q records.quotes → q.version < 2147483647
counted q (Memᴰ.head e) = rw e (omega arith)
counted q (Memᴰ.tail m) = elim m [ ]

follow_up-decidable_example :
    (s : QuoteShareProps) × (q : QuoteProps) × Memᴰ s records.shares
    × Memᴰ q records.quotes
    × (some 80 ≡ some s.id)
    × ((q' : QuoteProps) × (s' : QuoteShareProps) × (decide_share q approve_it
            (nat s.quote_version)
            (at 120)
            s
          ≡ ok (true, q', s')))
follow_up-decidable_example =
    follow_up-decidable job (at 120) records approve_it refl whole counted not_skipped

-- A provider that refuses each message for now, and one that takes it.
abbrev busy : EntityId → Text → Result SendFailure Text
busy id message = err (SendFailure.delivery_error (codes "RESEND_HTTP_429") true 0)

abbrev willing : EntityId → Text → Result SendFailure Text
willing id message = ok (codes "re_1")

abbrev opened : EntityId → Text → Option Text
opened id text = some text

abbrev clock : Clock
clock = record { checked_at = at 120; looked_up_at = at 120; failed_at = at 125 }

-- One processing of the only job, by a worker that is alone.
delivered : process opened willing 7 (at 120) clock (at 130) records (λ rows. rows) (job ∷ []) ≡ (
  true,
  record job {
    status = NotificationStatus.accepted;
    attempts = 1;
    first_attempt_at = some (at 120);
    provider_id = some (codes "re_1");
    encrypted_payload = none;
    finished_at = some (at 130);
  }
      ∷ [],
)
unfolding process process_claimed claim claim_candidate claimed_row is_claimable first_claimable
    work deadline should_skip_automation skips_of skips_kind skips_follow_up is_followed is_settled
    after_sending end_job is_mine ended
delivered = refl

abbrev waiting : Outbox
waiting = record { rows = insert input (at 90) []; held = []; sent = [] }

abbrev claimed_job : NotificationRow
claimed_job = claimed_row 7 (at 120) job

abbrev claimed_once : Outbox
claimed_once = record {
  rows = (claim 7 (at 120) waiting.rows).1;
  held = claimed_job ∷ [];
  sent = [];
}

abbrev sent_once : Outbox
sent_once = record { rows = claimed_once.rows; held = []; sent = 11 ∷ [] }

claims_it : (claim 7 (at 120) waiting.rows).0 ≡ some claimed_job
unfolding insert claim claim_candidate is_claimable first_claimable
claims_it = refl

sent_once-Reach : Reach opened busy (record { rows = []; held = []; sent = [] }) sent_once
unfolding work deadline should_skip_automation skips_of skips_kind skips_follow_up is_followed
    is_settled claimed_row
sent_once-Reach =
    next
      (next (next here (inserted input (at 90) refl refl))
        (claimed 7 (at 120) claimed_job claims_it refl))
      (worked [] [] claimed_job clock records refl refl)

sent-limit_example :
    ((id : EntityId) → count id (11 ∷ []) ≤ 16)
    × ((row : NotificationRow) → Memᴰ row sent_once.rows → count row.id (11 ∷ []) ≤ row.attempts)
sent-limit_example = sent-limit opened busy sent_once sent_once-Reach

abbrev finished : NotificationRow
finished = record job {
  status = NotificationStatus.accepted;
  attempts = 1;
  finished_at = some (at 130);
}

abbrev over : Outbox
over = record { rows = finished ∷ []; held = []; sent = 11 ∷ [] }

sole : (a : NotificationRow) → Memᴰ a (finished ∷ []) → a ≡ finished
sole a (Memᴰ.head e) = e
sole a (Memᴰ.tail m) = elim m [ ]

single : IsKeyed notification_id over.rows
single = record { one_each = λ {a} {b} m n i. sole a m ∙ sym (sole b n) }

-- The clean-up deletes the row.
swept : Reach opened busy over (record { rows = []; held = []; sent = 11 ∷ [] })
unfolding cleanup is_stale
swept = next here (cleaned (at 7776000131) (λ row. true) refl)

Reach-finished_example :
    (Memᴰ finished [] ⊎ (has_row 11 [] ≡ false)) × (count 11 (11 ∷ []) ≤ count 11 (11 ∷ []) + 0)
Reach-finished_example =
    Reach-finished opened busy finished over (record { rows = []; held = []; sent = 11 ∷ [] })
      single (Memᴰ.head refl) refl (omega arith) swept

-- The row is deleted 90 days after its end, not before.
cleanup_test :
    (cleanup (at 7776000130) (λ row. true) (finished ∷ job ∷ []) ≡ finished ∷ job ∷ [])
    × (cleanup (at 7776000131) (λ row. true) (finished ∷ job ∷ []) ≡ job ∷ [])
unfolding cleanup is_stale
cleanup_test = (refl, refl)
