-- ===== src/Receivable/Tests.antt =====
-- Runs of the receivables on concrete data, and the theorems applied to them.
use mathlib.Core.Path.{subst}
use bom_trato_api.Prelude.{
  ◌≡◌, inl, inr, refl, true, false, none, some, [], ◌∷◌, nat, arith, ◌==◌, Bool-cases, pos,
}
use bom_trato_api.Prelude.Result.{ok, ok_or}
use bom_trato_api.Prelude.Text.{Text, is_space, trim, trim_start, trim_end}
use bom_trato_api.Prelude.Date.{at}
use bom_trato_api.Organization.Access.{AccessContext, assert_can_operate, assert_verified_member}
use bom_trato_api.Quote.Types.{brl}
use bom_trato_api.Quote.Samples.{title}
use bom_trato_api.Receivable.Types.{
  ReceivableStatus, partially_paid, full, pix, ReceivableProps, ReceivableView, ReceivableDetails,
  ReceivablePaymentProps,
}
use bom_trato_api.Receivable.Validation.{
  assert_amount, assert_date, normalize_text, normalize_reason,
}
use bom_trato_api.Receivable.Payment.{create_payment, reverse}
use bom_trato_api.Receivable.Entity.{
  view, assert_version, record_change, update, receive, reverse_payment, updated_notes,
}
use bom_trato_api.Receivable.Balance.{IsValid, receive-reverse}
use bom_trato_api.Receivable.ListStore.{Store, list_repository, list_laws}
use bom_trato_api.Receivable.Service.{
  ChangeReceivableParams, RecordPaymentInput, PaymentResult, run, load, save, mutate,
  update_receivable, record_new, answer, record_payment, book_reversal, reverse_recorded_payment,
}
use bom_trato_api.Receivable.Ledger.{IsBalanced, standing, edit-IsBalanced}
use bom_trato_api.Receivable.Bookings.{record_payment-IsBalanced}
use bom_trato_api.Receivable.Reversal.{reverse_payment-IsBalanced}
use bom_trato_api.Receivable.Replay.{record_payment-replay}

abbrev access : AccessContext
access = record {
  is_member = true;
  verified = true;
  has_subscription_access = true;
  billing_needs_reconciliation = false;
}

abbrev row : ReceivableProps
row = record {
  id = 1;
  organization_id = 2;
  work_order_id = 9;
  kind = full;
  customer_id = 3;
  customer_name = title;
  title = title;
  currency = brl;
  amount_in_cents = 15000;
  received_in_cents = 5000;
  status = partially_paid;
  due_at = at 100;
  notes = none;
  canceled_at = none;
  canceled_by_id = none;
  cancellation_reason = none;
  version = 2;
  created_by_id = 5;
  updated_by_id = 5;
  created_at = at 1;
  updated_at = at 5;
}

abbrev paid_before : ReceivablePaymentProps
paid_before = record {
  id = 21;
  receivable_id = 1;
  request_id = 31;
  amount_in_cents = 5000;
  method = pix;
  received_at = at 4;
  notes = none;
  recorded_by_id = 5;
  created_at = at 5;
  reversed_at = none;
  reversed_by_id = none;
  reversal_reason = none;
}

abbrev store : Store
store = record { rows = row ∷ []; paid = paid_before ∷ [] }

row-IsValid : IsValid row
row-IsValid = ground arith

store-IsBalanced : IsBalanced list_repository list_laws store
store-IsBalanced id r h = elim (Bool-cases (1 == id)) [
  | inl t ↦ let e : row ≡ r = ground arith in (subst IsValid e row-IsValid, ground arith)
  | inr f ↦ absurd (ground arith)
]

abbrev params : ChangeReceivableParams
params = record { user_id = 5; receivable_id = 1; version = nat 2 }

abbrev input : RecordPaymentInput
input = record {
  request_id = 32;
  amount_in_cents = nat 10000;
  method = pix;
  received_at = at 6;
  notes = none;
}

abbrev no_result : PaymentResult × Store
no_result = (
  record {
    receivable = record { props = row; balance_in_cents = pos 0; overdue = false };
    payment = paid_before;
  },
  store,
)

recorded : PaymentResult × Store
recorded = ok_or no_result (record_payment list_repository access params input 22 (at 7) store)

record_it :
    record_payment list_repository access params input 22 (at 7) store ≡ ok (recorded.0, recorded.1)
unfolding recorded record_payment run load answer record_new save assert_can_operate
    assert_verified_member create_payment assert_amount assert_date normalize_text assert_version
    receive record_change view
record_it = refl

record_payment-IsBalanced_example : IsBalanced list_repository list_laws recorded.1
record_payment-IsBalanced_example =
    record_payment-IsBalanced list_repository list_laws access params input 22 (at 7) store
      recorded.1 recorded.0 store-IsBalanced record_it

abbrev reason : Text
reason = title

reversed_books : PaymentResult × Store
reversed_books =
    ok_or no_result (reverse_recorded_payment list_repository access params 21 reason (at 7) store)

reverse_it :
    reverse_recorded_payment list_repository access params 21 reason (at 7) store
    ≡ ok (reversed_books.0, reversed_books.1)
unfolding reversed_books reverse_recorded_payment run load book_reversal save assert_can_operate
    assert_verified_member normalize_text normalize_reason assert_version reverse_payment reverse
    record_change view trim trim_start trim_end is_space assert_date
reverse_it = refl

reverse_payment-IsBalanced_example : IsBalanced list_repository list_laws reversed_books.1
reverse_payment-IsBalanced_example =
    reverse_payment-IsBalanced list_repository list_laws access params 21 reason (at 7) store
      reversed_books.1 reversed_books.0 store-IsBalanced reverse_it

abbrev details : ReceivableDetails
details = record { due_at = some (at 200); notes = none }

updated_books : ReceivableView × Store
updated_books =
    ok_or (no_result.0.receivable, store)
      (update_receivable list_repository access params details (at 7) store)

update_it :
    update_receivable list_repository access params details (at 7) store
    ≡ ok (updated_books.0, updated_books.1)
unfolding updated_books update_receivable mutate run load save assert_can_operate
    assert_verified_member assert_version update assert_date normalize_text record_change view
    updated_notes
update_it = refl

abbrev row_updated : ReceivableProps
row_updated = record row { due_at = at 200; version = 3; updated_at = at 7 }

find_updated : list_repository.find_by_id 1 updated_books.1 ≡ some row_updated
unfolding updated_books update_receivable mutate run load save assert_can_operate
    assert_verified_member assert_version update assert_date normalize_text record_change view
    updated_notes
find_updated = refl

edit-IsBalanced_example :
    IsValid row_updated × (5000 ≡ standing (list_repository.payments 1 updated_books.1))
edit-IsBalanced_example =
    edit-IsBalanced list_repository list_laws access params details reason (at 7) store
      updated_books.1 updated_books.0 store-IsBalanced (inl update_it) 1 row_updated find_updated

record_payment-replay_example :
    (y : PaymentResult) × (record_payment list_repository access params input 23 (at 90) recorded.1
      ≡ ok (y, recorded.1))
    × (y.payment ≡ recorded.0.payment)
record_payment-replay_example =
    record_payment-replay list_repository list_laws access params input 22 23 (at 7) (at 90) store
      recorded.1 recorded.0 record_it refl refl

abbrev new_payment : ReceivablePaymentProps
new_payment = record paid_before { id = 22; request_id = 32; amount_in_cents = 10000 }

abbrev row_paid : ReceivableProps
row_paid = record row { received_in_cents = 15000; status = ReceivableStatus.paid }

receive_it : receive new_payment row ≡ ok row_paid
unfolding receive assert_amount
receive_it = refl

abbrev new_payment_reversed : ReceivablePaymentProps
new_payment_reversed = record new_payment {
  reversed_at = some (at 8);
  reversed_by_id = some 5;
  reversal_reason = some reason;
}

undo_it : reverse_payment new_payment 5 reason (at 8) row_paid ≡ ok (row, new_payment_reversed)
unfolding reverse_payment reverse assert_amount normalize_text normalize_reason trim trim_start
    trim_end is_space assert_date
undo_it = refl

receive-reverse_example : row ≡ row
receive-reverse_example =
    receive-reverse new_payment new_payment_reversed 5 reason (at 8) row row_paid row row-IsValid
      receive_it undo_it
