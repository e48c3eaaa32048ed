-- ===== src/Receivable/Validation.antt =====
-- receivables/domain/validation/receivable.validation.ts.
use bom_trato_api.Prelude.{
  ℕ, not, ◌||◌, Option, none, some, ltb, Num, is_safe_integer, num_below, num_above, max_int,
  length,
}
use bom_trato_api.Prelude.Result.{Result, ok, ◌>>=◌, ◌>>◌, throw_if, or_throw}
use bom_trato_api.Prelude.Text.{Text, trim, nonempty}
use bom_trato_api.Prelude.Date.{Date, is_valid}
use bom_trato_api.Receivable.Types.{
  ReceivableError, invalid_receivable_amount, invalid_receivable_date, invalid_receivable_input,
  reason_required,
}

unfoldable pub assert_amount : Num → Result ReceivableError (Unit {0})
assert_amount value =
    throw_if (not (is_safe_integer value) || num_below value 1 || num_above value max_int)
      invalid_receivable_amount

unfoldable pub assert_date : Date → Result ReceivableError (Unit {0})
assert_date value = throw_if (not (is_valid value)) invalid_receivable_date

-- `undefined` and `null` are both `null` afterwards.
unfoldable pub normalize_text : Option (Option Text) → ℕ → Result ReceivableError (Option Text)
normalize_text none max_length = ok none
normalize_text (some none) max_length = ok none
normalize_text (some (some value)) max_length = do
  throw_if (ltb max_length (length (trim value))) invalid_receivable_input
  ok (nonempty (trim value))

unfoldable pub normalize_reason : Text → Result ReceivableError Text
normalize_reason value = do
  text ← normalize_text (some (some value)) 1000
  reason ← or_throw text reason_required
  throw_if (ltb (length reason) 3) reason_required
  ok reason
