-- ===== src/Billing/Processor.antt =====
-- `PlanChangeProcessor` (billing/application/services/planChangeProcessor.service.ts). What the
-- payment provider answers (`inspect`, `execute`) is a parameter; the snapshot of the billing
-- that is stored on the way is not modelled.
use bom_trato_api.Prelude.{ℕ, Bool, false, not, ◌||◌, Option, none, some, if◌then◌else◌}
use bom_trato_api.Prelude.Result.{Result, ok, err, ◌>>=◌}
use bom_trato_api.Prelude.Date.{Date, date_le, spans, from_seconds}
use bom_trato_api.Billing.Types.{
  BillingError, billing_reconciliation_required, PlanChangeProps, PlanChangeReferences,
}
use bom_trato_api.Billing.PlanChange.{
  is_quoted, is_processing, is_terminal, mark_payment_pending, mark_scheduled, mark_applied,
  mark_canceled, mark_expired, record_references,
}

pub data RemoteStatus : Type 0 where
  pending_payment scheduled applied canceled expired : RemoteStatus

pub record RemotePlanChangeState : Type 0 where
  pub status : RemoteStatus
  pub references : PlanChangeReferences

unfoldable pub mark : RemoteStatus → PlanChangeProps → Result BillingError PlanChangeProps
mark pending_payment c = mark_payment_pending c
mark scheduled c = mark_scheduled c
mark applied c = mark_applied c
mark canceled c = mark_canceled c
mark expired c = mark_expired c

-- The change that is stored.
unfoldable pub save_remote :
    PlanChangeProps → RemotePlanChangeState → Result BillingError PlanChangeProps
save_remote c remote = do
  marked ← mark remote.status c
  ok (record_references remote.references marked)

-- `23 * 60 * 60 * 1000`
abbrev pub retry_window : ℕ
retry_window = 82800000

abbrev pub started_within : Option Date → Date → Bool
started_within none now = false
started_within (some start) now = not (spans start now retry_window)

unfoldable pub may_execute : Date → PlanChangeProps → Bool
may_execute now c = not (
    not (is_processing c)
    || not (started_within c.started_at now)
    || date_le (from_seconds c.period_end) now)

unfoldable pub refresh_unfinished :
    (PlanChangeProps → RemotePlanChangeState)
    → Option RemotePlanChangeState
    → Date
    → PlanChangeProps
    → Result BillingError PlanChangeProps
refresh_unfinished execute (some remote) now c = save_remote c remote
refresh_unfinished execute none now c =
    if may_execute now c then save_remote c (execute c) else err billing_reconciliation_required

unfoldable pub refresh :
    (PlanChangeProps → Option RemotePlanChangeState)
    → (PlanChangeProps → RemotePlanChangeState)
    → Date
    → PlanChangeProps
    → Result BillingError PlanChangeProps
refresh inspect execute now c =
    if is_quoted c || is_terminal c then ok c else refresh_unfinished execute (inspect c) now c
