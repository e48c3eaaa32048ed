-- ===== src/Receivable/Entity.antt =====
-- `class Receivable` (receivables/domain/entities/receivable.entity.ts).
use bom_trato_api.Prelude.{
  ℕ, ◌+◌, ◌-◌, Bool, true, false, not, ◌&&◌, ◌||◌, Option, none, some, ltb, leb, ◌==◌,
  if◌then◌else◌, EntityId, Num, nat, is_safe_integer, num_is, num_above, value, max_int, is_some,
  or_else, pos, sub_ℕ,
}
use bom_trato_api.Prelude.Result.{Result, ok, ◌>>=◌, ◌>>◌, throw_if}
use bom_trato_api.Prelude.Text.{Text, text_eq}
use bom_trato_api.Prelude.Date.{Date, date_lt}
use bom_trato_api.Quote.Types.{brl}
use bom_trato_api.WorkOrder.Types.{WorkOrderStatus}
use bom_trato_api.Receivable.Types.{
  ReceivableStatus, partially_paid, ReceivableError, work_order_not_found, work_order_canceled,
  invalid_receivable_input, receivable_version_conflict, receivable_not_editable,
  receivable_has_payments, invalid_receivable_balance, payment_not_found, payment_exceeds_balance,
  payment_already_reversed, ReceivableKind, ReceivableProps, ReceivableSource, ReceivableDetails,
  ReceivableView, ReceivablePaymentProps,
}
use bom_trato_api.Receivable.Validation.{
  assert_amount, assert_date, normalize_text, normalize_reason,
}
use bom_trato_api.Receivable.Payment.{reverse}

abbrev pub is_canceled : ReceivableStatus → Bool
is_canceled ReceivableStatus.canceled = true
is_canceled _ = false

abbrev pub is_paid : ReceivableStatus → Bool
is_paid ReceivableStatus.paid = true
is_paid _ = false

abbrev pub order_canceled : WorkOrderStatus → Bool
order_canceled WorkOrderStatus.canceled = true
order_canceled _ = false

pub record CreateReceivableParams : Type 0 where
  pub id : EntityId
  pub organization_id : EntityId
  pub user_id : EntityId
  pub source : ReceivableSource
  pub kind : ReceivableKind
  pub amount_in_cents : Num
  pub due_at : Date
  pub notes : Option (Option Text)

-- The state of a new receivable.
unfoldable pub created : CreateReceivableParams → Option Text → Date → ReceivableProps
created p notes now = record {
  id = p.id;
  organization_id = p.organization_id;
  work_order_id = p.source.id;
  kind = p.kind;
  customer_id = p.source.customer_id;
  customer_name = p.source.customer_name;
  title = p.source.title;
  currency = p.source.currency;
  amount_in_cents = value p.amount_in_cents;
  received_in_cents = 0;
  status = ReceivableStatus.opened;
  due_at = p.due_at;
  notes = notes;
  canceled_at = none;
  canceled_by_id = none;
  cancellation_reason = none;
  version = 1;
  created_by_id = p.user_id;
  updated_by_id = p.user_id;
  created_at = now;
  updated_at = now;
}

unfoldable pub create : CreateReceivableParams → Date → Result ReceivableError ReceivableProps
create p now = do
  let source = p.source
  throw_if (not (source.organization_id == p.organization_id)) work_order_not_found
  throw_if (order_canceled source.status) work_order_canceled
  throw_if (not (text_eq source.currency brl)) invalid_receivable_input
  assert_amount p.amount_in_cents
  assert_date p.due_at
  assert_date now
  throw_if (num_above p.amount_in_cents source.total_in_cents) invalid_receivable_input
  notes ← normalize_text p.notes 2000
  ok (created p notes now)

-- A balance above 0 is `received < amount`.
unfoldable pub view : Date → ReceivableProps → ReceivableView
view now r = record {
  props = r;
  balance_in_cents =
      if is_canceled r.status then pos 0 else sub_ℕ r.amount_in_cents r.received_in_cents;
  overdue =
      not (is_canceled r.status)
      && ltb r.received_in_cents r.amount_in_cents
      && date_lt r.due_at now;
}

unfoldable pub assert_version : Num → ReceivableProps → Result ReceivableError (Unit {0})
assert_version version r =
    throw_if (not (is_safe_integer version) || not (num_is version r.version))
      receivable_version_conflict

unfoldable pub record_change :
    EntityId → Date → ReceivableProps → Result ReceivableError ReceivableProps
record_change user now r = do
  throw_if (leb max_int r.version) receivable_version_conflict
  ok (record r { version = r.version + 1; updated_by_id = user; updated_at = now })

unfoldable pub assert_not_canceled : ReceivableProps → Result ReceivableError (Unit {0})
assert_not_canceled r = throw_if (is_canceled r.status) receivable_not_editable

unfoldable pub updated_notes :
    Option (Option Text) → Option Text → Result ReceivableError (Option Text)
updated_notes none current = ok current
updated_notes (some notes) current = normalize_text (some notes) 2000

unfoldable pub update : ReceivableDetails → ReceivableProps → Result ReceivableError ReceivableProps
unfolding assert_not_canceled
update d r = do
  assert_not_canceled r
  throw_if (is_paid r.status) receivable_not_editable
  throw_if (not (is_some d.due_at) && not (is_some d.notes)) invalid_receivable_input
  let due_at = or_else d.due_at r.due_at
  assert_date due_at
  notes ← updated_notes d.notes r.notes
  ok (record r { due_at = due_at; notes = notes })

abbrev pub payment_status : ℕ → ℕ → ReceivableStatus
payment_status received amount =
    if received == 0
    then ReceivableStatus.opened
    else if received == amount
    then ReceivableStatus.paid
    else partially_paid

abbrev pub update_payment_status : ReceivableProps → ReceivableProps
update_payment_status r = record r { status = payment_status r.received_in_cents r.amount_in_cents }

-- An amount is at least 1 when it is compared with what remains, so the difference may stop at 0
-- where more was received than was due.
unfoldable pub receive :
    ReceivablePaymentProps → ReceivableProps → Result ReceivableError ReceivableProps
unfolding assert_not_canceled
receive p r = do
  assert_not_canceled r
  throw_if (not (p.receivable_id == r.id)) payment_not_found
  throw_if (is_some p.reversed_at) payment_already_reversed
  assert_amount (nat p.amount_in_cents)
  let remaining = r.amount_in_cents - r.received_in_cents
  throw_if (ltb remaining p.amount_in_cents) payment_exceeds_balance
  ok (
      update_payment_status
        (record r { received_in_cents = r.received_in_cents + p.amount_in_cents }))

-- The receivable and the payment afterwards.
unfoldable pub reverse_payment :
    ReceivablePaymentProps
    → EntityId
    → Text
    → Date
    → ReceivableProps
    → Result ReceivableError (ReceivableProps × ReceivablePaymentProps)
unfolding assert_not_canceled
reverse_payment p user reason now r = do
  assert_not_canceled r
  throw_if (not (p.receivable_id == r.id)) payment_not_found
  throw_if (is_some p.reversed_at) payment_already_reversed
  throw_if (ltb r.received_in_cents p.amount_in_cents) invalid_receivable_balance
  reversed ← reverse user reason now p
  ok (
    update_payment_status
        (record r { received_in_cents = r.received_in_cents - p.amount_in_cents }),
    reversed,
  )

unfoldable pub cancel :
    EntityId → Text → Date → ReceivableProps → Result ReceivableError ReceivableProps
unfolding assert_not_canceled
cancel user reason now r = do
  assert_not_canceled r
  throw_if (not (r.received_in_cents == 0)) receivable_has_payments
  normalized_reason ← normalize_reason reason
  ok (record r {
    status = ReceivableStatus.canceled;
    canceled_at = some now;
    canceled_by_id = some user;
    cancellation_reason = some normalized_reason;
  })
