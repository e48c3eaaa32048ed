-- ===== src/Quote/Item.antt =====
-- `QuoteItem.create` (quotes/domain/entities/quoteItem.entity.ts): the quantity is a decimal text
-- with at most three digits after the point, kept in thousandths; the total is rounded half up.
use bom_trato_api.Prelude.{
  ℕ, zero, suc, ◌+◌, ◌-◌, ◌*◌, ◌/◌, Bool, true, false, not, ◌&&◌, ◌||◌, Option, none, some, [], ◌∷◌,
  ltb, leb, ◌==◌, if◌then◌else◌, EntityId, length, is_safe_integer, num_below, num_above, value,
  max_int,
}
use bom_trato_api.Prelude.Result.{Result, ok, ◌>>◌, throw_if}
use bom_trato_api.Prelude.Text.{Text, trim, nonempty}
use bom_trato_api.Quote.Types.{
  QuoteError, invalid_quote_item, invalid_quote_amount, QuoteItemDetails, QuoteItemProps,
}

abbrev pub is_digit : ℕ → Bool
is_digit c = leb b'0' c && leb c b'9'

abbrev pub all_digits : Text → Bool
all_digits [] = true
all_digits (c ∷ s) = is_digit c && all_digits s

-- `s.split('.')`, as its first part and what follows the first point.
abbrev pub split_point : Text → Text × Option Text
split_point [] = ([], none)
split_point (c ∷ s) =
    let (whole, fraction) = split_point s in
    if c == b'.' then ([], some s) else (c ∷ whole, fraction)

-- `\d{1,max}`
abbrev pub digits_up_to : ℕ → Text → Bool
digits_up_to max s = all_digits s && leb 1 (length s) && leb (length s) max

-- `/^\d{1,6}(\.\d{1,3})?$/`
unfoldable pub is_quantity : Text → Bool
is_quantity s =
    let (whole, fraction) = split_point s in
    digits_up_to 6 whole && elim fraction [ none ↦ true | some f ↦ digits_up_to 3 f ]

-- `Number(digits)`
abbrev pub decimal_from : ℕ → Text → ℕ
decimal_from acc [] = acc
decimal_from acc (c ∷ s) = decimal_from (acc * 10 + (c - b'0')) s

abbrev pub decimal : Text → ℕ
decimal = decimal_from 0

-- `fraction.padEnd(3, '0')`
abbrev pub pad_end : ℕ → Text → Text
pad_end zero s = s
pad_end (suc n) [] = b'0' ∷ pad_end n []
pad_end (suc n) (c ∷ s) = c ∷ pad_end n s

unfoldable pub quantity_in_thousandths : Text → ℕ
quantity_in_thousandths s =
    let (whole, fraction) = split_point s in
    decimal whole * 1000 + decimal (pad_end 3 (elim fraction [ none ↦ [] | some f ↦ f ]))

-- `(BigInt(quantity) * BigInt(unitAmountInCents) + 500n) / 1000n`
unfoldable pub item_total : ℕ → ℕ → ℕ
item_total quantity unit_amount = (quantity * unit_amount + 500) / 1000

-- The description is absent, `null` or a text of at most 2000 characters.
abbrev pub long_description : Option (Option Text) → Bool
long_description (some (some d)) = ltb 2000 (length (trim d))
long_description _ = false

abbrev pub item_description : Option (Option Text) → Option Text
item_description (some (some d)) = nonempty (trim d)
item_description _ = none

unfoldable pub create_item :
    EntityId → QuoteItemDetails → Option EntityId → Result QuoteError QuoteItemProps
create_item id details catalog_service_id = do
  let name = trim details.name
  throw_if (ltb (length name) 2 || ltb 100 (length name) || long_description details.description)
      invalid_quote_item
  throw_if (not (is_quantity details.quantity)) invalid_quote_item
  let quantity = quantity_in_thousandths details.quantity
  throw_if (ltb quantity 1) invalid_quote_item
  let amount = details.unit_amount_in_cents
  throw_if (not (is_safe_integer amount) || num_below amount 0 || num_above amount max_int)
      invalid_quote_amount
  let total = item_total quantity (value amount)
  throw_if (ltb max_int total) invalid_quote_amount
  ok (record {
    id = id;
    catalog_service_id = catalog_service_id;
    name = name;
    description = item_description details.description;
    unit_of = details.unit_of;
    quantity_in_thousandths = quantity;
    unit_amount_in_cents = value amount;
    total_in_cents = total;
    position = 0;
  })
