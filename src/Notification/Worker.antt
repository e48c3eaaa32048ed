-- ===== src/Notification/Worker.antt =====
-- `process` of `NotificationWorker` (notifications/infrastructure/workers/notification.worker.ts)
-- and the answers of `ResendEmailGateway.send` (notifications/infrastructure/resend). The
-- deciphering of a message and the answer of the provider are parameters.
use Prim.Native.Nat.{min, max}
use bom_trato_api.Prelude.{
  ℕ, ◌-◌, ◌*◌, ◌^◌, Bool, true, false, not, ◌||◌, Option, none, some, List, ltb, leb, if◌then◌else◌,
  EntityId, or_else,
}
use bom_trato_api.Prelude.Result.{Result, ok, err}
use bom_trato_api.Prelude.Text.{Text}
use bom_trato_api.Prelude.Date.{Date, date_le, add_ms}
use bom_trato_api.Notification.Outbox.{
  failed, skipped, NotificationCode, retry_window_expired, automation_no_longer_applicable,
  invalid_encrypted_payload, provider_unavailable, delivery_code, NotificationRow, claim, Ending,
  finish, send_again, accept, end_job,
}
use bom_trato_api.Notification.Automation.{Records, should_skip_automation}

-- `NotificationDeliveryError`, or any other error that is thrown.
pub data SendFailure : Type 0 where
  delivery_error : Text → Bool → ℕ → SendFailure
  other_error : SendFailure

-- `Math.min(a, b)` of two times: NaN when one is.
abbrev pub min_date : Date → Date → Date
min_date (Date.at s) (Date.at t) = Date.at (min s t)
min_date _ _ = Date.invalid

-- Until when a job is tried: until it expires, and 23 hours after its first attempt.
unfoldable pub deadline : NotificationRow → Date → Date
deadline job now = min_date job.expires_at (add_ms (or_else job.first_attempt_at now) 82800000)

abbrev pub is_retryable : SendFailure → Bool
is_retryable (delivery_error code retryable after) = retryable
is_retryable other_error = true

abbrev pub failure_code : SendFailure → NotificationCode
failure_code (delivery_error code retryable after) = delivery_code code
failure_code other_error = provider_unavailable

abbrev pub retry_after : SendFailure → ℕ
retry_after (delivery_error code retryable after) = after
retry_after other_error = 0

-- The seconds before the next attempt; a job that is sent has been claimed, so that `attempts` is
-- positive.
unfoldable pub retry_delay : ℕ → SendFailure → ℕ
retry_delay attempts e = max (min 3600 (30 * 2 ^ (attempts - 1))) (retry_after e)

-- What follows a sending that fails: `limit` is the deadline.
unfoldable pub after_failure : NotificationRow → Date → Date → SendFailure → Ending
after_failure job limit now e =
    let available_at = add_ms now (retry_delay job.attempts e * 1000) in
    if not (is_retryable e) || leb 16 job.attempts || date_le limit available_at
    then finish failed (failure_code e)
    else send_again available_at (failure_code e)

unfoldable pub after_sending : NotificationRow → Date → Date → Result SendFailure Text → Ending
after_sending job limit now (ok provider_id) = accept provider_id
after_sending job limit now (err e) = after_failure job limit now e

-- The clock when the job is checked, when its automation is looked up, and when its sending has
-- failed.
pub record Clock : Type 0 where
  pub checked_at : Date
  pub looked_up_at : Date
  pub failed_at : Date

module _ {M : Type 0} (decrypt : EntityId → Text → Option M)
    (send : EntityId → M → Result SendFailure Text) where
  abbrev pub message_of : NotificationRow → Option M
  message_of job = elim job.encrypted_payload [ none ↦ none | some text ↦ decrypt job.id text ]

  -- How the worker lets go of a job that it has claimed, with the message that it has sent.
  unfoldable pub work : NotificationRow → Clock → Records → Option M × Ending
  work job clock r =
      if date_le (deadline job clock.checked_at) clock.checked_at || ltb 16 job.attempts
      then (none, finish skipped retry_window_expired)
      else if should_skip_automation job clock.looked_up_at r
      then (none, finish skipped automation_no_longer_applicable)
      else elim (message_of job) [
        | none ↦ (none, finish failed invalid_encrypted_payload)
        | some message ↦ (
          some message,
          after_sending job (deadline job clock.checked_at) clock.failed_at (send job.id message),
        )
      ]

  unfoldable pub process_claimed :
      Option NotificationRow
      → Clock
      → Date
      → Records
      → (List NotificationRow → List NotificationRow)
      → List NotificationRow
      → Bool × List NotificationRow
  process_claimed none clock now r meanwhile rows = (false, rows)
  process_claimed (some job) clock now r meanwhile rows =
      (true, end_job job (work job clock r).1 now (meanwhile rows))

  -- Whether a job was found, with the table afterwards. `meanwhile` is what other workers do on the
  -- table between the two statements.
  unfoldable pub process :
      EntityId
      → Date
      → Clock
      → Date
      → Records
      → (List NotificationRow → List NotificationRow)
      → List NotificationRow
      → Bool × List NotificationRow
  process token claimed_at clock ended_at r meanwhile rows =
      let (job, rows') = claim token claimed_at rows in
      process_claimed job clock ended_at r meanwhile rows'
