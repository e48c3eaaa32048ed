-- ===== src/Notification/Automation.antt =====
-- `shouldSkipAutomation` of `NotificationWorker`
-- (notifications/infrastructure/workers/notification.worker.ts), over the tables that it reads.
use bom_trato_api.Prelude.{
  ◌==◌, Bool, true, false, not, ◌&&◌, ◌||◌, Option, none, some, List, EntityId, any, find, is_some,
}
use bom_trato_api.Prelude.Date.{Date, date_lt, date_le, same_time}
use bom_trato_api.Quote.Types.{QuoteProps}
use bom_trato_api.Quote.Entity.{is_sent}
use bom_trato_api.Quote.Share.{QuoteShareProps}
use bom_trato_api.WorkOrder.Types.{WorkOrderStatus, scheduled, completed, WorkOrderProps}
use bom_trato_api.Receivable.Types.{ReceivableStatus, ReceivableProps, opened, partially_paid}
use bom_trato_api.Notification.Outbox.{
  AutomationType, quote_follow_up, work_order_reminder, review_request, receivable_due_soon,
  NotificationRow,
}

-- The columns of a review invitation that are looked at.
pub record ReviewInvitation : Type 0 where
  pub id : EntityId
  pub work_order_id : EntityId
  pub expires_at : Date
  pub revoked_at : Option Date
  pub used_at : Option Date

-- `reviewed` are the work orders that have a review.
pub record Records : Type 0 where
  pub shares : List QuoteShareProps
  pub quotes : List QuoteProps
  pub orders : List WorkOrderProps
  pub receivables : List ReceivableProps
  pub invitations : List ReviewInvitation
  pub reviewed : List EntityId

-- The `where` of the search for the share of a follow-up.
unfoldable pub is_followed : EntityId → EntityId → EntityId → Date → QuoteShareProps → Bool
is_followed organization quote context now s =
    s.id == context
    && s.quote_id == quote
    && s.organization_id == organization
    && not (is_some s.revoked_at)
    && not (is_some s.decision)
    && not (is_some s.change_requested_at)
    && date_lt now s.expires_at

-- The quote of a share; the key of the table is the pair of its identifier and the organization.
abbrev pub shared_quote : QuoteShareProps → List QuoteProps → Option QuoteProps
shared_quote s quotes =
    find (λ q. q.id == s.quote_id && q.organization_id == s.organization_id) quotes

abbrev pub is_past : Option Date → Date → Bool
is_past none now = false
is_past (some t) now = date_le t now

-- Whether a follow-up of the quote through the share is no longer wanted.
unfoldable pub is_settled : Date → QuoteShareProps → QuoteProps → Bool
is_settled now s q =
    not (is_sent q.status) || not (q.version == s.quote_version) || is_past q.valid_until now

unfoldable pub skips_follow_up : EntityId → EntityId → EntityId → Date → Records → Bool
skips_follow_up organization quote context now r =
    elim (find (is_followed organization quote context now) r.shares) [
      | none ↦ true
      | some s ↦ elim (shared_quote s r.quotes) [ none ↦ true | some q ↦ is_settled now s q ]
    ]

abbrev pub find_order : EntityId → EntityId → List WorkOrderProps → Option WorkOrderProps
find_order organization id rows =
    find (λ row. row.id == id && row.organization_id == organization) rows

abbrev pub is_scheduled : WorkOrderStatus → Bool
is_scheduled scheduled = true
is_scheduled _ = false

abbrev pub is_completed : WorkOrderStatus → Bool
is_completed completed = true
is_completed _ = false

-- Whether a reminder of an order for the given start is out of date.
unfoldable pub is_rescheduled : Date → Date → Option Date → Bool
is_rescheduled reference now none = true
is_rescheduled reference now (some start) = not (same_time start reference) || date_le start now

unfoldable pub skips_reminder : EntityId → EntityId → Date → Date → Records → Bool
skips_reminder organization order reference now r = elim (find_order organization order r.orders) [
  | none ↦ true
  | some o ↦ not (is_scheduled o.status) || is_rescheduled reference now o.scheduled_start_at
]

unfoldable pub is_invited : EntityId → EntityId → Date → ReviewInvitation → Bool
is_invited order context now i =
    i.id == context
    && i.work_order_id == order
    && not (is_some i.revoked_at)
    && not (is_some i.used_at)
    && date_lt now i.expires_at

unfoldable pub skips_review : EntityId → EntityId → Date → Records → Bool
skips_review order context now r = elim (find (is_invited order context now) r.invitations) [
  | none ↦ true
  | some i ↦ (elim (find (λ (o : WorkOrderProps). o.id == i.work_order_id) r.orders) [
    | none ↦ true
    | some o ↦ not (is_completed o.status) || any (λ id. id == o.id) r.reviewed
  ])
]

abbrev pub is_due_status : ReceivableStatus → Bool
is_due_status opened = true
is_due_status partially_paid = true
is_due_status _ = false

-- Whether the time for the notice has passed: a notice before the date, or one after it.
unfoldable pub is_untimely : AutomationType → Date → Date → Bool
is_untimely receivable_due_soon due now = date_le due now
is_untimely _ due now = date_le now due

unfoldable pub skips_receivable :
    AutomationType → EntityId → EntityId → Date → Date → Records → Bool
skips_receivable kind organization receivable reference now r =
    elim (find (λ (x : ReceivableProps). x.id == receivable && x.organization_id == organization)
      r.receivables) [
        | none ↦ true
        | some x ↦
            not (is_due_status x.status)
            || not (same_time x.due_at reference)
            || is_untimely kind x.due_at now
      ]

unfoldable pub skips_kind :
    AutomationType → EntityId → EntityId → NotificationRow → Date → Records → Bool
skips_kind quote_follow_up organization entity job now r = elim job.automation_context_id [
  | none ↦ true
  | some context ↦ skips_follow_up organization entity context now r
]
skips_kind work_order_reminder organization entity job now r = elim job.automation_reference_at [
  | none ↦ true
  | some reference ↦ skips_reminder organization entity reference now r
]
skips_kind review_request organization entity job now r = elim job.automation_context_id [
  | none ↦ true
  | some context ↦ skips_review entity context now r
]
skips_kind kind organization entity job now r = elim job.automation_reference_at [
  | none ↦ true
  | some reference ↦ skips_receivable kind organization entity reference now r
]

unfoldable pub skips_of :
    AutomationType → Option EntityId → Option EntityId → NotificationRow → Date → Records → Bool
skips_of kind (some organization) (some entity) job now r =
    skips_kind kind organization entity job now r
skips_of kind _ _ job now r = true

unfoldable pub should_skip_automation : NotificationRow → Date → Records → Bool
should_skip_automation job now r = elim job.automation_type [
  | none ↦ false
  | some kind ↦ skips_of kind job.organization_id job.automation_entity_id job now r
]
