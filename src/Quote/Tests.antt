-- ===== src/Quote/Tests.antt =====
-- Runs of the quotes on concrete data, and the theorems applied to them.
use bom_trato_api.Prelude.{◌≡◌, refl, true, none, some, [], ◌∷◌, nat, ◌<◌}
use bom_trato_api.Prelude.Result.{ok}
use bom_trato_api.Prelude.Text.{Text, is_space, trim, trim_start, trim_end}
use bom_trato_api.Prelude.Date.{at}
use bom_trato_api.Quote.Types.{
  QuoteStatus, draft, approved, down_payment_and_balance, ServiceUnit, QuoteItemDetails, QuoteProps,
}
use bom_trato_api.Quote.Item.{create_item, is_quantity, quantity_in_thousandths, item_total}
use bom_trato_api.Quote.Entity.{
  CreateQuoteParams, create, update, no_details, given_or, trimmed, trimmed_length, bad_validity,
  normalize_down_payment_percentage, totals, set_items, add_item, assert_draft, mark_sent,
  assert_not_expired, assert_payment_condition, down_payment, approve, decide, record_change,
}
use bom_trato_api.Quote.Lifecycle.{
  item_added, was_sent, was_approved, Reach, here, next, Reach-SameOffer, SameOffer,
}
use bom_trato_api.Quote.Share.{
  QuoteShareProps, approve_it, CreateShareParams, create_share, assert_readable, decide_first,
  decide_share, request_change,
}
use bom_trato_api.Quote.Quantity.{quantity-lt}
use bom_trato_api.Quote.Samples.{title, item, sent_quote, approved_quote}

abbrev params : CreateQuoteParams
params = record {
  id = 1;
  organization_id = 2;
  user_id = 5;
  customer_id = 3;
  customer_name = title;
  customer_email = none;
  customer_phone = none;
  title = title;
  notes = none;
  valid_until = none;
  payment_condition = some down_payment_and_balance;
  down_payment_percentage = some (some (nat 30));
}

-- A new quote and the same one with an item and sent.
abbrev new_quote : QuoteProps
new_quote = record sent_quote {
  status = draft;
  subtotal_in_cents = 0;
  total_in_cents = 0;
  version = 1;
  sent_at = none;
  updated_at = at 1;
  items = [];
}

abbrev offered_quote : QuoteProps
offered_quote = record sent_quote { version = 1; updated_at = at 1 }

abbrev drafted_quote : QuoteProps
drafted_quote = record offered_quote { status = draft; sent_at = none }

create_new : create params (at 1) ≡ ok new_quote
unfolding create update assert_draft no_details given_or trimmed trimmed_length bad_validity
    normalize_down_payment_percentage totals trim trim_start trim_end is_space
create_new = refl

add_first : add_item item new_quote ≡ ok drafted_quote
unfolding add_item set_items totals assert_draft
add_first = refl

send_it : mark_sent (at 10) drafted_quote ≡ ok offered_quote
unfolding mark_sent assert_draft assert_not_expired assert_payment_condition down_payment
send_it = refl

approve_it_now : approve (at 20) sent_quote ≡ ok approved_quote
unfolding approve decide assert_not_expired
approve_it_now = refl

life : Reach new_quote offered_quote
life = next (next here (item_added item add_first)) (was_sent (at 10) send_it)

decided : Reach sent_quote approved_quote
decided = next here (was_approved (at 20) approve_it_now)

Reach-SameOffer_example : SameOffer sent_quote approved_quote
Reach-SameOffer_example = Reach-SameOffer (λ e. cc) decided

stamp_it :
    record_change (some 5) (at 30) approved_quote
    ≡ ok (record approved_quote { version = 5; updated_at = at 30 })
unfolding record_change
stamp_it = refl

-- `'1.5'`
abbrev one_and_a_half : Text
one_and_a_half = b'1' ∷ b'.' ∷ b'5' ∷ []

quantity-lt_example : quantity_in_thousandths one_and_a_half < 1000000000
unfolding is_quantity
quantity-lt_example = quantity-lt one_and_a_half refl

abbrev details : QuoteItemDetails
details = record {
  name = title;
  description = none;
  unit_of = ServiceUnit.hour;
  quantity = one_and_a_half;
  unit_amount_in_cents = nat 10000;
}

create_first : create_item 7 details none ≡ ok item
unfolding create_item item_total is_quantity quantity_in_thousandths trim trim_start trim_end
    is_space
create_first = refl

abbrev share : QuoteShareProps
share = record {
  id = 11;
  organization_id = 2;
  quote_id = 1;
  quote_version = 4;
  token_hash = title;
  created_by_id = 5;
  created_at = at 12;
  expires_at = at 1000;
  revoked_at = none;
  decision = none;
  decided_at = none;
  decided_version = none;
  change_requested_at = none;
  change_request_message = none;
}

abbrev share_params : CreateShareParams
share_params = record { id = 11; token_hash = title; user_id = 5; expires_at = at 1000 }

share_made : create_share share_params sent_quote (at 12) ≡ ok share
unfolding create_share
share_made = refl

abbrev quote_after : QuoteProps
quote_after = record approved_quote { version = 5; updated_by_id = none; updated_at = at 20 }

abbrev share_after : QuoteShareProps
share_after = record share {
  decision = some approved;
  decided_at = some (at 20);
  decided_version = some 5;
}

decide_it :
    decide_share sent_quote approve_it (nat 4) (at 20) share ≡ ok (true, quote_after, share_after)
unfolding decide_share decide_first assert_readable approve decide assert_not_expired record_change
decide_it = refl

abbrev message : Text
message = b'l' ∷ b'a' ∷ b't' ∷ b'e' ∷ b'r' ∷ []

abbrev share_asked : QuoteShareProps
share_asked = record share {
  change_requested_at = some (at 20);
  change_request_message = some message;
}

ask_it : request_change sent_quote (nat 4) message (at 20) share ≡ ok (true, share_asked)
unfolding request_change assert_readable trim trim_start trim_end is_space
ask_it = refl

cancel_it :
    record_change (some 5) (at 30) (record sent_quote { status = QuoteStatus.canceled })
    ≡ ok (record sent_quote { status = QuoteStatus.canceled; version = 5; updated_at = at 30 })
unfolding record_change
cancel_it = refl

readable : assert_readable sent_quote (at 12) share ≡ ok tt
unfolding assert_readable
readable = refl
