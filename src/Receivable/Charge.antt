-- ===== src/Receivable/Charge.antt =====
-- What is charged for a quote and when: the amounts of
-- receivables/application/services/receivableAutomation.service.ts.
use bom_trato_api.Prelude.{
  ℕ, ◌-◌, ◌==◌, Bool, true, false, not, ◌||◌, Option, none, some, ltb, leb, if◌then◌else◌,
}
use bom_trato_api.Prelude.Result.{Result, ok, throw_if, or_throw, ◌>>=◌, ◌>>◌}
use bom_trato_api.Quote.Types.{PaymentCondition, upfront, after_completion, QuoteProps}
use bom_trato_api.Quote.Entity.{down_payment}
use bom_trato_api.Receivable.Types.{
  ReceivableError, invalid_receivable_input, ReceivableKind, full, remaining_balance,
  ReceivableSource,
}

abbrev pub is_after_completion : PaymentCondition → Bool
is_after_completion after_completion = true
is_after_completion _ = false

abbrev pub is_upfront : PaymentCondition → Bool
is_upfront upfront = true
is_upfront _ = false

unfoldable pub down_payment_amount : ℕ → Option ℕ → Result ReceivableError ℕ
down_payment_amount total percentage_or_null = do
  percentage ← or_throw percentage_or_null invalid_receivable_input
  throw_if (ltb percentage 1 || ltb 99 percentage) invalid_receivable_input
  let amount = down_payment total percentage
  throw_if (leb amount 0 || leb total amount) invalid_receivable_input
  ok amount

unfoldable pub assert_same_amount :
    ReceivableSource → QuoteProps → Result ReceivableError (Unit {0})
assert_same_amount source quote =
    throw_if (not (source.total_in_cents == quote.total_in_cents)) invalid_receivable_input

pub record Charge : Type 0 where
  pub kind : ReceivableKind
  pub amount_in_cents : ℕ

-- The kind and the amount that `ensureInitialReceivableFromQuote` asks for, `none` where it
-- returns null.
unfoldable pub initial_charge : QuoteProps → Result ReceivableError (Option Charge)
initial_charge quote =
    if leb quote.total_in_cents 0 || is_after_completion quote.payment_condition
    then ok none
    else if is_upfront quote.payment_condition
    then ok (some (record { kind = full; amount_in_cents = quote.total_in_cents }))
    else (do
      amount ← down_payment_amount quote.total_in_cents quote.down_payment_percentage
      ok (some (record { kind = ReceivableKind.down_payment; amount_in_cents = amount })))

-- The same of `ensureFinalReceivableFromQuote`.
unfoldable pub final_charge : QuoteProps → Result ReceivableError (Option Charge)
final_charge quote =
    if leb quote.total_in_cents 0 || is_upfront quote.payment_condition
    then ok none
    else if is_after_completion quote.payment_condition
    then ok (some (record { kind = full; amount_in_cents = quote.total_in_cents }))
    else (do
      amount ← down_payment_amount quote.total_in_cents quote.down_payment_percentage
      ok (
          some
            (record { kind = remaining_balance; amount_in_cents = quote.total_in_cents - amount })))
