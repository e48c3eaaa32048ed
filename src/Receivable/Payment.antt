-- ===== src/Receivable/Payment.antt =====
-- `class ReceivablePayment` (receivables/domain/entities/receivablePayment.entity.ts).
use bom_trato_api.Prelude.{
  Bool, true, false, ◌&&◌, Option, none, some, EntityId, ◌==◌, value, is_some,
}
use bom_trato_api.Prelude.Result.{Result, ok, ◌>>=◌, ◌>>◌, throw_if}
use bom_trato_api.Prelude.Text.{Text, text_eq}
use bom_trato_api.Prelude.Date.{Date, date_lt, same_time}
use bom_trato_api.Receivable.Types.{
  ReceivableError, invalid_payment_date, payment_already_reversed, ReceivablePaymentMethod, cash,
  pix, bank_transfer, credit_card, debit_card, other, ReceivablePaymentProps,
  CreateReceivablePaymentParams,
}
use bom_trato_api.Receivable.Validation.{
  assert_amount, assert_date, normalize_text, normalize_reason,
}

unfoldable pub create_payment :
    CreateReceivablePaymentParams → Date → Result ReceivableError ReceivablePaymentProps
create_payment p now = do
  assert_amount p.amount_in_cents
  assert_date p.received_at
  assert_date now
  throw_if (date_lt now p.received_at) invalid_payment_date
  notes ← normalize_text p.notes 2000
  ok (record {
    id = p.id;
    receivable_id = p.receivable_id;
    request_id = p.request_id;
    amount_in_cents = value p.amount_in_cents;
    method = p.method;
    received_at = p.received_at;
    notes = notes;
    recorded_by_id = p.recorded_by_id;
    created_at = now;
    reversed_at = none;
    reversed_by_id = none;
    reversal_reason = none;
  })

abbrev pub same_method : ReceivablePaymentMethod → ReceivablePaymentMethod → Bool
same_method cash cash = true
same_method pix pix = true
same_method bank_transfer bank_transfer = true
same_method credit_card credit_card = true
same_method debit_card debit_card = true
same_method other other = true
same_method _ _ = false

abbrev pub same_text : Option Text → Option Text → Bool
same_text none none = true
same_text (some a) (some b) = text_eq a b
same_text _ _ = false

unfoldable pub matches_request : ReceivablePaymentProps → ReceivablePaymentProps → Bool
matches_request p candidate =
    p.receivable_id == candidate.receivable_id
    && p.request_id == candidate.request_id
    && p.amount_in_cents == candidate.amount_in_cents
    && same_method p.method candidate.method
    && same_time p.received_at candidate.received_at
    && same_text p.notes candidate.notes
    && p.recorded_by_id == candidate.recorded_by_id

unfoldable pub reverse :
    EntityId → Text → Date → ReceivablePaymentProps → Result ReceivableError ReceivablePaymentProps
reverse user reason now p = do
  throw_if (is_some p.reversed_at) payment_already_reversed
  assert_date now
  normalized_reason ← normalize_reason reason
  ok (record p {
    reversed_at = some now;
    reversed_by_id = some user;
    reversal_reason = some normalized_reason;
  })
