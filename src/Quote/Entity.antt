-- ===== src/Quote/Entity.antt =====
-- `class Quote` (quotes/domain/entities/quote.entity.ts). A method that changes `this.props`
-- returns the new properties; one that throws returns the code of its `QuoteError`.
use bom_trato_api.Prelude.{
  ℕ, suc, ◌+◌, ◌-◌, ◌*◌, ◌/◌, Bool, true, false, not, ◌&&◌, ◌||◌, Option, none, some, List, [], ◌∷◌,
  map, ◌++◌, ltb, leb, ◌==◌, if◌then◌else◌, EntityId, Num, nat, length, any, keep, is_some,
  is_safe_integer, num_below, num_above, num_is, value, max_int, max_safe_integer,
}
use mathlib.Core.Option
use bom_trato_api.Prelude.Result.{Result, ok, err, ◌>>=◌, ◌>>◌, throw_if, or_throw}
use bom_trato_api.Prelude.Text.{Text, trim, nonempty}
use bom_trato_api.Prelude.Date.{Date, is_valid, date_le}
use bom_trato_api.Quote.Types.{
  QuoteStatus, draft, sent, approved, declined, canceled, PaymentCondition, after_completion,
  down_payment_and_balance, QuoteError, quote_item_not_found, quote_not_editable,
  quote_version_conflict, invalid_quote_transition, quote_expired, quote_empty, quote_item_limit,
  invalid_quote_input, invalid_quote_amount, invalid_quote_discount, invalid_quote_validity,
  QuoteItemProps, QuoteDetails, QuoteProps, brl,
}

abbrev pub is_draft : QuoteStatus → Bool
is_draft draft = true
is_draft _ = false

abbrev pub is_sent : QuoteStatus → Bool
is_sent sent = true
is_sent _ = false

abbrev pub with_balance : PaymentCondition → Bool
with_balance down_payment_and_balance = true
with_balance _ = false

unfoldable pub assert_version : Num → QuoteProps → Result QuoteError (Unit {0})
assert_version version q =
    throw_if (not (is_safe_integer version) || not (num_is version q.version))
      quote_version_conflict

unfoldable pub record_change : Option EntityId → Date → QuoteProps → Result QuoteError QuoteProps
record_change user now q = do
  throw_if (leb max_int q.version) quote_version_conflict
  ok (record q { version = q.version + 1; updated_by_id = user; updated_at = now })

unfoldable pub assert_draft : QuoteProps → Result QuoteError (Unit {0})
assert_draft q = throw_if (not (is_draft q.status)) quote_not_editable

unfoldable pub assert_not_expired : Date → QuoteProps → Result QuoteError (Unit {0})
assert_not_expired now q =
    throw_if (elim q.valid_until [ none ↦ false | some limit ↦ date_le limit now ]) quote_expired

abbrev pub sum_totals : List QuoteItemProps → ℕ
sum_totals [] = 0
sum_totals (item ∷ items) = item.total_in_cents + sum_totals items

-- The pair of the subtotal and the total.
unfoldable pub totals : List QuoteItemProps → Num → Result QuoteError (ℕ × ℕ)
totals items discount = do
  let subtotal = sum_totals items
  throw_if (ltb max_safe_integer subtotal || ltb max_int subtotal) invalid_quote_amount
  throw_if (not (is_safe_integer discount) || num_below discount 0 || num_above discount subtotal)
      invalid_quote_discount
  ok (subtotal, subtotal - value discount)

abbrev pub number_items : ℕ → List QuoteItemProps → List QuoteItemProps
number_items position [] = []
number_items position (item ∷ items) =
    record item { position = position } ∷ number_items (suc position) items

unfoldable pub set_items : List QuoteItemProps → QuoteProps → Result QuoteError QuoteProps
unfolding totals
set_items items q = do
  (subtotal, total) ← totals items (nat q.discount_in_cents)
  ok (record q {
    subtotal_in_cents = subtotal;
    total_in_cents = total;
    items = number_items 0 items;
  })

unfoldable pub normalize_down_payment_percentage :
    PaymentCondition → Option Num → Result QuoteError (Option ℕ)
normalize_down_payment_percentage down_payment_and_balance (some p) = do
  throw_if (not (is_safe_integer p) || num_below p 1 || num_above p 99) invalid_quote_input
  ok (some (value p))
normalize_down_payment_percentage down_payment_and_balance none = err invalid_quote_input
normalize_down_payment_percentage _ p = ok none

-- `details.x === undefined ? this.props.x : details.x`
unfoldable pub given_or {ℓ} : {A : Type ℓ} → Option A → A → A
given_or none fallback = fallback
given_or (some a) fallback = a

unfoldable pub no_details : QuoteDetails → Bool
no_details d =
    not (is_some d.title)
    && not (is_some d.notes)
    && not (is_some d.valid_until)
    && not (is_some d.discount_in_cents)
    && not (is_some d.payment_condition)
    && not (is_some d.down_payment_percentage)

unfoldable pub trimmed_length : Option Text → ℕ
trimmed_length none = 0
trimmed_length (some t) = length (trim t)

-- The new date of validity is not in the future.
unfoldable pub bad_validity : Option (Option Date) → Date → Bool
bad_validity (some (some limit)) now = not (is_valid limit) || date_le limit now
bad_validity _ now = false

unfoldable pub trimmed : Option Text → Option Text
trimmed none = none
trimmed (some t) = nonempty (trim t)

unfoldable pub update : QuoteDetails → Date → QuoteProps → Result QuoteError QuoteProps
update d now q = do
  assert_draft q
  throw_if (no_details d) invalid_quote_input
  let title = given_or d.title q.title
  let notes = given_or d.notes q.notes
  let valid_until = given_or d.valid_until q.valid_until
  let discount = given_or d.discount_in_cents (nat q.discount_in_cents)
  let condition = given_or d.payment_condition q.payment_condition
  percentage ←
      normalize_down_payment_percentage condition
        (given_or d.down_payment_percentage (Option.map nat q.down_payment_percentage))
  throw_if
      (ltb (length (trim title)) 2
        || ltb 150 (length (trim title))
        || ltb 5000 (trimmed_length notes))
      invalid_quote_input
  throw_if (bad_validity d.valid_until now) invalid_quote_validity
  (subtotal, total) ← totals q.items discount
  ok (record q {
    subtotal_in_cents = subtotal;
    total_in_cents = total;
    title = trim title;
    notes = trimmed notes;
    valid_until = valid_until;
    discount_in_cents = value discount;
    payment_condition = condition;
    down_payment_percentage = percentage;
  })

-- The parameters of `create`: who is quoted, by whom, and the details, which have a title and no
-- discount.
pub record CreateQuoteParams : Type 0 where
  pub id : EntityId
  pub organization_id : EntityId
  pub user_id : EntityId
  pub customer_id : EntityId
  pub customer_name : Text
  pub customer_email : Option Text
  pub customer_phone : Option Text
  pub title : Text
  pub notes : Option (Option Text)
  pub valid_until : Option (Option Date)
  pub payment_condition : Option PaymentCondition
  pub down_payment_percentage : Option (Option Num)

abbrev pub blank_quote : CreateQuoteParams → Date → QuoteProps
blank_quote p now = record {
  id = p.id;
  organization_id = p.organization_id;
  customer_id = p.customer_id;
  customer_name = p.customer_name;
  customer_email = p.customer_email;
  customer_phone = p.customer_phone;
  title = [];
  notes = none;
  status = draft;
  currency = brl;
  discount_in_cents = 0;
  subtotal_in_cents = 0;
  total_in_cents = 0;
  payment_condition = after_completion;
  down_payment_percentage = none;
  version = 1;
  valid_until = none;
  sent_at = none;
  decided_at = none;
  canceled_at = none;
  created_by_id = p.user_id;
  updated_by_id = some p.user_id;
  created_at = now;
  updated_at = now;
  items = [];
}

abbrev pub create_details : CreateQuoteParams → QuoteDetails
create_details p = record {
  title = some p.title;
  notes = p.notes;
  valid_until = p.valid_until;
  discount_in_cents = none;
  payment_condition = p.payment_condition;
  down_payment_percentage = p.down_payment_percentage;
}

unfoldable pub create : CreateQuoteParams → Date → Result QuoteError QuoteProps
create p now = update (create_details p) now (blank_quote p now)

unfoldable pub add_item : QuoteItemProps → QuoteProps → Result QuoteError QuoteProps
unfolding assert_draft set_items
add_item item q = do
  assert_draft q
  throw_if (leb 100 (length q.items)) quote_item_limit
  set_items (q.items ++ item ∷ []) q

unfoldable pub has_item : EntityId → List QuoteItemProps → Bool
has_item id = any (λ item. item.id == id)

abbrev pub swap_item : EntityId → QuoteItemProps → QuoteItemProps → QuoteItemProps
swap_item id item current = if current.id == id then item else current

unfoldable pub replace_item : EntityId → QuoteItemProps → QuoteProps → Result QuoteError QuoteProps
unfolding assert_draft set_items
replace_item id item q = do
  assert_draft q
  throw_if (not (has_item id q.items) || not (item.id == id)) quote_item_not_found
  set_items (map (swap_item id item) q.items) q

unfoldable pub remove_item : EntityId → QuoteProps → Result QuoteError QuoteProps
unfolding assert_draft set_items
remove_item id q = do
  assert_draft q
  throw_if (not (has_item id q.items)) quote_item_not_found
  set_items (keep (λ item. not (item.id == id)) q.items) q

-- `Math.round((total * percentage) / 100)`, exact for a total below 2 ^ 31.
unfoldable pub down_payment : ℕ → ℕ → ℕ
down_payment total percentage = (total * percentage + 50) / 100

unfoldable pub assert_payment_condition : QuoteProps → Result QuoteError (Unit {0})
assert_payment_condition q =
    if with_balance q.payment_condition
    then (do
      percentage ← or_throw q.down_payment_percentage invalid_quote_input
      let amount = down_payment q.total_in_cents percentage
      throw_if (leb amount 0 || leb q.total_in_cents amount) invalid_quote_amount)
    else ok tt

abbrev pub is_empty {ℓ} : {A : Type ℓ} → List A → Bool
is_empty [] = true
is_empty (x ∷ xs) = false

unfoldable pub mark_sent : Date → QuoteProps → Result QuoteError QuoteProps
unfolding assert_draft assert_not_expired assert_payment_condition
mark_sent now q = do
  assert_draft q
  throw_if (is_empty q.items) quote_empty
  assert_not_expired now q
  assert_payment_condition q
  ok (record q { status = sent; sent_at = some now })

unfoldable pub decide : QuoteStatus → Date → QuoteProps → Result QuoteError QuoteProps
unfolding assert_not_expired
decide status now q = do
  throw_if (not (is_sent q.status)) invalid_quote_transition
  assert_not_expired now q
  ok (record q { status = status; decided_at = some now })

unfoldable pub approve : Date → QuoteProps → Result QuoteError QuoteProps
unfolding decide
approve = decide approved

unfoldable pub decline : Date → QuoteProps → Result QuoteError QuoteProps
unfolding decide
decline = decide declined

unfoldable pub cancel : Date → QuoteProps → Result QuoteError QuoteProps
cancel now q = do
  throw_if (not (is_draft q.status) && not (is_sent q.status)) invalid_quote_transition
  ok (record q { status = canceled; canceled_at = some now })
