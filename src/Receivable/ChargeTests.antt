-- ===== src/Receivable/ChargeTests.antt =====
-- Runs of the charges on concrete data, and the theorems applied to them.
use mathlib.Core.Path.{subst}
use bom_trato_api.Prelude.{◌+◌, ◌≡◌, refl, Option, none, some, [], EntityId, nat}
use bom_trato_api.Prelude.Result.{ok, ok_or}
use bom_trato_api.Prelude.Text.{text_eq}
use bom_trato_api.Prelude.Date.{Date, at}
use bom_trato_api.Quote.Types.{brl}
use bom_trato_api.Quote.Entity.{down_payment}
use bom_trato_api.Quote.Samples.{title, approved_quote, approved_quote-IsValid}
use bom_trato_api.WorkOrder.Types.{WorkOrderStatus}
use bom_trato_api.Receivable.Types.{ReceivableKind, full, ReceivableSource, ReceivableView}
use bom_trato_api.Receivable.Validation.{assert_amount, assert_date, normalize_text}
use bom_trato_api.Receivable.Entity.{CreateReceivableParams, created, create, view}
use bom_trato_api.Receivable.ListStore.{Store, list_repository}
use bom_trato_api.Receivable.Service.{ensure_receivable}
use bom_trato_api.Receivable.Charge.{
  Charge, assert_same_amount, initial_charge, final_charge, down_payment_amount,
}
use bom_trato_api.Receivable.Automation.{
  AutomatedReceivableParams, ensure_charge, ensure_initial_receivable, ensure_final_receivable,
}
use bom_trato_api.Receivable.Charges.{amount_of, Within, charges-total}
use bom_trato_api.Receivable.Billed.{billed, Unbilled, billed-total}

abbrev source : ReceivableSource
source = record {
  id = 9;
  organization_id = 2;
  customer_id = 3;
  customer_name = title;
  title = title;
  currency = brl;
  total_in_cents = 15000;
  status = WorkOrderStatus.opened;
}

charges-total_example :
    (first : Option Charge) × (second : Option Charge) × (initial_charge approved_quote ≡ ok first)
    × (final_charge approved_quote ≡ ok second)
    × (amount_of first + amount_of second ≡ 15000)
    × Within 15000 first
    × Within 15000 second
charges-total_example = charges-total approved_quote approved_quote-IsValid refl

abbrev charge : Charge
charge = record { kind = full; amount_in_cents = 15000 }

abbrev create_params : CreateReceivableParams
create_params = record {
  id = 2;
  organization_id = 2;
  user_id = 5;
  source = source;
  kind = full;
  amount_in_cents = nat 15000;
  due_at = at 100;
  notes = some none;
}

-- The approval at 7 and the completion at 50 of the same order.
abbrev automated : Date → EntityId → AutomatedReceivableParams
automated now id = record {
  organization_id = 2;
  user_id = 5;
  source = source;
  quote = approved_quote;
  fresh_id = id;
  now = now;
}

abbrev no_books : Option ReceivableView × Store
no_books = (none, record { rows = []; paid = [] })

first_books : Option ReceivableView × Store
first_books =
    ok_or no_books (ensure_initial_receivable list_repository (automated (at 7) 41) no_books.1)

second_books : Option ReceivableView × Store
second_books =
    ok_or no_books
      (ensure_final_receivable list_repository (automated (at 50) 42) (at 90) first_books.1)

bill_first :
    ensure_initial_receivable list_repository (automated (at 7) 41) no_books.1
    ≡ ok (first_books.0, first_books.1)
unfolding first_books ensure_initial_receivable assert_same_amount initial_charge
    down_payment_amount down_payment ensure_charge ensure_receivable create created assert_amount
    assert_date normalize_text view text_eq
bill_first = refl

bill_second :
    ensure_final_receivable list_repository (automated (at 50) 42) (at 90) first_books.1
    ≡ ok (second_books.0, second_books.1)
unfolding second_books first_books ensure_initial_receivable ensure_final_receivable
    assert_same_amount initial_charge final_charge down_payment_amount down_payment ensure_charge
    ensure_receivable create created assert_amount assert_date normalize_text view text_eq
bill_second = refl

Unbilled-first : Unbilled list_repository 9 (initial_charge approved_quote) no_books.1
Unbilled-first c e = refl

abbrev balance_charge : Charge
balance_charge = record { kind = ReceivableKind.remaining_balance; amount_in_cents = 10500 }

Unbilled-second : Unbilled list_repository 9 (final_charge approved_quote) first_books.1
unfolding first_books ensure_initial_receivable assert_same_amount initial_charge final_charge
    down_payment_amount down_payment ensure_charge ensure_receivable create created assert_amount
    assert_date normalize_text view text_eq
Unbilled-second c e =
    let k : balance_charge ≡ c = cc in
    subst (λ x. list_repository.find_by_work_order_id_and_kind 9 x.kind first_books.1 ≡ none) k refl

billed-total_example : billed first_books.0 + billed second_books.0 ≡ 15000
billed-total_example =
    billed-total list_repository (automated (at 7) 41) no_books.1 first_books.1 first_books.0
      (automated (at 50) 42) (at 90) first_books.1 second_books.1 second_books.0
      approved_quote-IsValid refl refl Unbilled-first Unbilled-second bill_first bill_second
