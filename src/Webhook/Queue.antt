-- ===== src/Webhook/Queue.antt =====
-- `PrismaBillingWebhookRepository`
-- (billing/infrastructure/repositories/prismaBillingWebhook.repository.ts): the table of events.
-- Each method is one atomic statement; `now` is the `CURRENT_TIMESTAMP` of the database.
use Prim.Native.Nat.{min}
use bom_trato_api.Prelude.{
  ℕ, ◌+◌, ◌*◌, ◌^◌, Bool, false, not, ◌&&◌, ◌||◌, Option, none, some, List, [], ◌∷◌, ltb, leb, ◌==◌,
  if◌then◌else◌, EntityId, is_some, any, keep, update_where,
}
use bom_trato_api.Prelude.Text.{Text}
use bom_trato_api.Prelude.Date.{Date, date_lt, date_le, same_time, add_ms}
use bom_trato_api.Billing.Types.{BillingError}

-- What is written to `lastErrorCode`.
pub data FailureCode : Type 0 where
  billing_code : BillingError → FailureCode
  webhook_processing_failed : FailureCode

pub record WebhookEvent : Type 0 where
  pub id : EntityId
  pub kind : Text
  pub stripe_customer_id : Option EntityId
  pub stripe_object_id : EntityId
  pub attempts : ℕ
  pub next_attempt_at : Date
  pub processed_at : Option Date
  pub last_error_code : Option FailureCode
  pub received_at : Date
  pub failed_at : Option Date
  pub lease_token : Option EntityId
  pub lease_expires_at : Option Date

pub record WebhookNotice : Type 0 where
  pub id : EntityId
  pub kind : Text
  pub stripe_customer_id : Option EntityId
  pub stripe_object_id : EntityId

abbrev pub new_event : WebhookNotice → Date → WebhookEvent
new_event n now = record {
  id = n.id;
  kind = n.kind;
  stripe_customer_id = n.stripe_customer_id;
  stripe_object_id = n.stripe_object_id;
  attempts = 0;
  next_attempt_at = now;
  processed_at = none;
  last_error_code = none;
  received_at = now;
  failed_at = none;
  lease_token = none;
  lease_expires_at = none;
}

-- `skipDuplicates`: an event that the table has is not stored again.
unfoldable pub enqueue : WebhookNotice → Date → List WebhookEvent → List WebhookEvent
enqueue n now rows = if any (λ row. row.id == n.id) rows then rows else new_event n now ∷ rows

abbrev pub is_open : WebhookEvent → Bool
is_open row = not (is_some row.processed_at) && not (is_some row.failed_at)

-- A comparison with a column that is null does not hold.
abbrev pub over : Option Date → Date → Bool
over none now = false
over (some t) now = date_le t now

abbrev pub lasts : Option Date → Date → Bool
lasts none now = false
lasts (some t) now = date_lt now t

unfoldable pub is_due : Date → WebhookEvent → Bool
is_due now row =
    is_open row
    && date_le row.next_attempt_at now
    && (not (is_some row.lease_token) || over row.lease_expires_at now)

-- `ORDER BY "nextAttemptAt", "id" LIMIT 1`
abbrev pub is_earlier : WebhookEvent → WebhookEvent → Bool
is_earlier a b =
    date_lt a.next_attempt_at b.next_attempt_at
    || (same_time a.next_attempt_at b.next_attempt_at && ltb a.id b.id)

abbrev pub sooner : WebhookEvent → Option WebhookEvent → WebhookEvent
sooner row none = row
sooner row (some other) = if is_earlier other row then other else row

unfoldable pub first_due : List WebhookEvent → Option WebhookEvent
first_due [] = none
first_due (row ∷ rows) = some (sooner row (first_due rows))

-- `INTERVAL '2 minutes'`
abbrev pub lease_ms : ℕ
lease_ms = 120000

abbrev pub leased : EntityId → Date → WebhookEvent → WebhookEvent
leased token now row = record row {
  lease_token = some token;
  lease_expires_at = some (add_ms now lease_ms);
}

unfoldable pub claim_candidate :
    EntityId
    → Date
    → Option WebhookEvent
    → List WebhookEvent
    → Option WebhookEvent × List WebhookEvent
claim_candidate token now none rows = (none, rows)
claim_candidate token now (some c) rows =
    (some (leased token now c), update_where (λ row. row.id == c.id) (leased token now) rows)

unfoldable pub claim_event :
    EntityId → Date → List WebhookEvent → Option WebhookEvent × List WebhookEvent
claim_event token now rows = claim_candidate token now (first_due (keep (is_due now) rows)) rows

abbrev pub has_token : Option EntityId → EntityId → Bool
has_token none token = false
has_token (some t) token = t == token

-- The `WHERE` of the statements of a holder.
unfoldable pub is_held : EntityId → EntityId → Date → WebhookEvent → Bool
is_held id token now row =
    row.id == id && has_token row.lease_token token && lasts row.lease_expires_at now && is_open row

unfoldable pub renew_event_lease :
    EntityId → EntityId → Date → List WebhookEvent → Bool × List WebhookEvent
renew_event_lease id token now rows = (
  any (is_held id token now) rows,
  update_where (is_held id token now)
      (λ row. record row { lease_expires_at = some (add_ms now lease_ms) }) rows,
)

pub data WebhookOutcome : Type 0 where
  complete defer : WebhookOutcome
  retry : FailureCode → WebhookOutcome

-- `Math.min(3600, 2 ** Math.min(event.attempts + 1, 12))`
unfoldable pub retry_seconds : ℕ → ℕ
retry_seconds attempts = min 3600 (2 ^ min (attempts + 1) 12)

-- The columns that the statement sets. `attempts` is that of the claimed event.
unfoldable pub settled : ℕ → WebhookOutcome → Date → WebhookEvent → WebhookEvent
settled attempts complete now row = record row {
  processed_at = some now;
  last_error_code = none;
  lease_token = none;
  lease_expires_at = none;
}
settled attempts defer now row = record row {
  next_attempt_at = add_ms now 15000;
  lease_token = none;
  lease_expires_at = none;
}
settled attempts (retry code) now row = record row {
  attempts = row.attempts + 1;
  failed_at = if leb 25 (row.attempts + 1) then some now else none;
  last_error_code = some code;
  next_attempt_at = add_ms now (retry_seconds attempts * 1000);
  lease_token = none;
  lease_expires_at = none;
}

unfoldable pub settle_event :
    EntityId → EntityId → ℕ → WebhookOutcome → Date → List WebhookEvent → Bool × List WebhookEvent
settle_event id token attempts outcome now rows = (
  any (is_held id token now) rows,
  update_where (is_held id token now) (settled attempts outcome now) rows,
)

-- The `WHERE` of the command `retry-event` of scripts/billing/recoverBilling.ts.
unfoldable pub is_retriable : EntityId → Date → WebhookEvent → Bool
is_retriable id now row =
    row.id == id
    && not (is_some row.processed_at)
    && (not (is_some row.lease_token) || over row.lease_expires_at now)

abbrev pub renewed_event : Date → WebhookEvent → WebhookEvent
renewed_event now row = record row {
  failed_at = none;
  attempts = 0;
  next_attempt_at = now;
  last_error_code = none;
  lease_token = none;
  lease_expires_at = none;
}

-- By that command an operator opens an event again.
unfoldable pub retry_event : EntityId → Date → List WebhookEvent → Bool × List WebhookEvent
retry_event id now rows =
    (any (is_retriable id now) rows, update_where (is_retriable id now) (renewed_event now) rows)
