-- ===== src/Quote/Samples.antt =====
-- A sent and an approved quote, for tests.
use bom_trato_api.Prelude.{refl, none, some, [], ◌∷◌, arith}
use bom_trato_api.Prelude.Text.{Text, is_space, trim, trim_start, trim_end}
use bom_trato_api.Prelude.Date.{at}
use bom_trato_api.Quote.Types.{
  sent, approved, down_payment_and_balance, ServiceUnit, QuoteItemProps, QuoteProps, brl,
}
use bom_trato_api.Quote.Entity.{down_payment}
use bom_trato_api.Quote.Invariant.{IsValid}

abbrev pub title : Text
title = b'R' ∷ b'o' ∷ b'o' ∷ b'f' ∷ []

abbrev pub item : QuoteItemProps
item = record {
  id = 7;
  catalog_service_id = none;
  name = title;
  description = none;
  unit_of = ServiceUnit.hour;
  quantity_in_thousandths = 1500;
  unit_amount_in_cents = 10000;
  total_in_cents = 15000;
  position = 0;
}

-- A sent quote of 150.00 with a down payment of 30 percent.
abbrev pub sent_quote : QuoteProps
sent_quote = record {
  id = 1;
  organization_id = 2;
  customer_id = 3;
  customer_name = title;
  customer_email = none;
  customer_phone = none;
  title = title;
  notes = none;
  status = sent;
  currency = brl;
  discount_in_cents = 0;
  subtotal_in_cents = 15000;
  total_in_cents = 15000;
  payment_condition = down_payment_and_balance;
  down_payment_percentage = some 30;
  version = 4;
  valid_until = none;
  sent_at = some (at 10);
  decided_at = none;
  canceled_at = none;
  created_by_id = 5;
  updated_by_id = some 5;
  created_at = at 1;
  updated_at = at 10;
  items = item ∷ [];
}

abbrev pub approved_quote : QuoteProps
approved_quote = record sent_quote { status = approved; decided_at = some (at 20) }

pub sent_quote-IsValid : IsValid sent_quote
unfolding trim trim_start trim_end is_space down_payment
sent_quote-IsValid = record {
  summed = refl;
  discounted = refl;
  bounded = omega arith;
  few = omega arith;
  numbered = refl;
  titled = (omega arith, omega arith);
  trimmed_title = refl;
  percentage = (omega arith, omega arith);
  dated = tt;
  offered = (tt, (omega arith, omega arith));
}

pub approved_quote-IsValid : IsValid approved_quote
unfolding trim trim_start trim_end is_space down_payment
approved_quote-IsValid = record {
  summed = refl;
  discounted = refl;
  bounded = omega arith;
  few = omega arith;
  numbered = refl;
  titled = (omega arith, omega arith);
  trimmed_title = refl;
  percentage = (omega arith, omega arith);
  dated = tt;
  offered = (tt, (omega arith, omega arith));
}
