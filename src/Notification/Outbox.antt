-- ===== src/Notification/Outbox.antt =====
-- The table `NotificationOutbox` and the statements on it of `PrismaNotificationOutbox`
-- (notifications/infrastructure/repositories/prismaNotificationOutbox.repository.ts) and of
-- `NotificationWorker` (notifications/infrastructure/workers/notification.worker.ts). `now` is the
-- `CURRENT_TIMESTAMP` of the database. The columns of a notification that only its list shows are
-- left out.
use bom_trato_api.Prelude.{
  ℕ, ◌+◌, Bool, true, false, not, ◌&&◌, ◌||◌, Option, none, some, List, [], ◌∷◌, ltb, ◌==◌,
  if◌then◌else◌, EntityId, any, keep, update_where, or_else,
}
use bom_trato_api.Prelude.Text.{Text, text_eq}
use bom_trato_api.Prelude.Date.{Date, date_lt, date_le, same_time, add_ms}

pub data NotificationStatus : Type 0 where
  pending processing accepted failed skipped : NotificationStatus

pub data AutomationType : Type 0 where
  quote_follow_up work_order_reminder review_request : AutomationType
  receivable_due_soon receivable_overdue : AutomationType

-- What is written to `lastErrorCode`. The code of a refusal by the provider is a text.
pub data NotificationCode : Type 0 where
  retry_window_expired automation_no_longer_applicable : NotificationCode
  invalid_encrypted_payload provider_unavailable : NotificationCode
  delivery_code : Text → NotificationCode

pub record NotificationRow : Type 0 where
  pub id : EntityId
  pub key : Text
  pub encrypted_payload : Option Text
  pub status : NotificationStatus
  pub attempts : ℕ
  pub available_at : Date
  pub expires_at : Date
  pub first_attempt_at : Option Date
  pub lease_token : Option EntityId
  pub lease_until : Option Date
  pub provider_id : Option Text
  pub last_error_code : Option NotificationCode
  pub created_at : Date
  pub finished_at : Option Date
  pub organization_id : Option EntityId
  pub automation_type : Option AutomationType
  pub automation_entity_id : Option EntityId
  pub automation_context_id : Option EntityId
  pub automation_reference_at : Option Date

pub record AutomationNotificationMetadata : Type 0 where
  pub organization_id : EntityId
  pub kind : AutomationType
  pub entity_id : EntityId
  pub context_id : Option EntityId
  pub reference_at : Option Date

-- The message is encrypted when the row is inserted.
pub record EnqueueNotification : Type 0 where
  pub id : EntityId
  pub key : Text
  pub encrypted_payload : Text
  pub available_at : Option Date
  pub expires_at : Date
  pub automation : Option AutomationNotificationMetadata

abbrev pub bind_option {ℓ κ} : {A : Type ℓ} {B : Type κ} → Option A → (A → Option B) → Option B
bind_option none f = none
bind_option (some a) f = f a

abbrev pub new_row : EnqueueNotification → Date → NotificationRow
new_row input now = record {
  id = input.id;
  key = input.key;
  encrypted_payload = some input.encrypted_payload;
  status = pending;
  attempts = 0;
  available_at = or_else input.available_at now;
  expires_at = input.expires_at;
  first_attempt_at = none;
  lease_token = none;
  lease_until = none;
  provider_id = none;
  last_error_code = none;
  created_at = now;
  finished_at = none;
  organization_id = bind_option input.automation (λ a. some a.organization_id);
  automation_type = bind_option input.automation (λ a. some a.kind);
  automation_entity_id = bind_option input.automation (λ a. some a.entity_id);
  automation_context_id = bind_option input.automation (λ a. a.context_id);
  automation_reference_at = bind_option input.automation (λ a. a.reference_at);
}

-- `skipDuplicates`: a row with the same key or identifier is kept instead.
unfoldable pub insert : EnqueueNotification → Date → List NotificationRow → List NotificationRow
insert input now rows =
    if any (λ row. row.id == input.id || text_eq row.key input.key) rows
    then rows
    else new_row input now ∷ rows

abbrev pub is_status : NotificationStatus → NotificationStatus → Bool
is_status pending pending = true
is_status processing processing = true
is_status accepted accepted = true
is_status failed failed = true
is_status skipped skipped = true
is_status _ _ = false

-- A comparison with a column that is null does not hold.
abbrev pub reached : Option Date → Date → Bool
reached none now = false
reached (some t) now = date_le t now

unfoldable pub is_claimable : Date → NotificationRow → Bool
is_claimable now row =
    (is_status row.status pending && date_le row.available_at now)
    || (is_status row.status processing && reached row.lease_until now)

-- `ORDER BY "availableAt", "createdAt", "id"`
abbrev pub is_earlier : NotificationRow → NotificationRow → Bool
is_earlier a b =
    date_lt a.available_at b.available_at
    || (same_time a.available_at b.available_at
        && (date_lt a.created_at b.created_at
            || (same_time a.created_at b.created_at && ltb a.id b.id)))

abbrev pub sooner : NotificationRow → Option NotificationRow → NotificationRow
sooner row none = row
sooner row (some other) = if is_earlier other row then other else row

unfoldable pub first_claimable : List NotificationRow → Option NotificationRow
first_claimable [] = none
first_claimable (row ∷ rows) = some (sooner row (first_claimable rows))

unfoldable pub claimed_row : EntityId → Date → NotificationRow → NotificationRow
claimed_row token now row = record row {
  status = processing;
  lease_token = some token;
  lease_until = some (add_ms now 120000);
  first_attempt_at = some (or_else row.first_attempt_at now);
  attempts = row.attempts + 1;
}

unfoldable pub claim_candidate :
    EntityId
    → Date
    → Option NotificationRow
    → List NotificationRow
    → Option NotificationRow × List NotificationRow
claim_candidate token now none rows = (none, rows)
claim_candidate token now (some c) rows = (
  some (claimed_row token now c),
  update_where (λ row. row.id == c.id) (claimed_row token now) rows,
)

-- The statement that `process` begins with.
unfoldable pub claim :
    EntityId → Date → List NotificationRow → Option NotificationRow × List NotificationRow
claim token now rows =
    claim_candidate token now (first_claimable (keep (is_claimable now) rows)) rows

abbrev pub same_token : Option EntityId → Option EntityId → Bool
same_token (some a) (some b) = a == b
same_token none none = true
same_token _ _ = false

-- The `where` of the statements by which a worker lets go of the job that it has claimed.
unfoldable pub is_mine : NotificationRow → NotificationRow → Bool
is_mine job row =
    row.id == job.id
    && is_status row.status processing
    && same_token row.lease_token job.lease_token

-- How a worker lets go: it ends the job, has it sent again later, or had it accepted.
pub data Ending : Type 0 where
  finish : NotificationStatus → NotificationCode → Ending
  send_again : Date → NotificationCode → Ending
  accept : Text → Ending

-- The columns that the statement of an ending sets.
unfoldable pub ended : Ending → Date → NotificationRow → NotificationRow
ended (finish status code) now row = record row {
  status = status;
  last_error_code = some code;
  encrypted_payload = none;
  finished_at = some now;
  lease_token = none;
  lease_until = none;
}
ended (send_again available_at code) now row = record row {
  status = pending;
  available_at = available_at;
  lease_token = none;
  lease_until = none;
  last_error_code = some code;
}
ended (accept provider_id) now row = record row {
  status = accepted;
  provider_id = some provider_id;
  encrypted_payload = none;
  finished_at = some now;
  lease_token = none;
  lease_until = none;
  last_error_code = none;
}

unfoldable pub end_job :
    NotificationRow → Ending → Date → List NotificationRow → List NotificationRow
end_job job ending now rows = update_where (is_mine job) (ended ending now) rows

-- `"finishedAt" < CURRENT_TIMESTAMP - INTERVAL '90 days'`
unfoldable pub is_stale : Date → Option Date → Bool
is_stale now none = false
is_stale now (some finished) = date_lt (add_ms finished 7776000000) now

-- The hourly clean-up. Of the stale rows it takes at most a thousand, the oldest ones that nobody
-- has locked: which ones is a parameter.
unfoldable pub cleanup :
    Date → (NotificationRow → Bool) → List NotificationRow → List NotificationRow
cleanup now takes rows = keep (λ row. not (is_stale now row.finished_at && takes row)) rows
