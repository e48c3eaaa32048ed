-- ===== src/Quote/Quantity.antt =====
-- About the text of a quantity and the items that `QuoteItem.create` returns, in Quote/Item.
use bom_trato_api.Prelude.{
  ℕ, zero, suc, ◌+◌, ◌-◌, ◌*◌, ◌^◌, ◌≤◌, ◌<◌, ◌≡◌, refl, true, ◌&&◌, Option, none, some, [], ◌∷◌,
  arith, length, max_int, EntityId,
}
use native.Mathlib.Nat.{pow-suc}
use bom_trato_api.Prelude.Result.{ok}
use bom_trato_api.Prelude.Text.{Text}
use bom_trato_api.Quote.Types.{QuoteItemDetails, QuoteItemProps}
use bom_trato_api.Quote.Item.{
  all_digits, split_point, digits_up_to, is_quantity, decimal_from, decimal, pad_end,
  quantity_in_thousandths, item_total, create_item,
}

next_digit : (x acc p d : ℕ) → x ≤ 9 → d ≤ (acc * 10 + x + 1) * p → d ≤ (acc + 1) * (p * 10)
next_digit x acc p d h k = grind arith

decimal_from-lt :
    (s : Text) (acc : ℕ) → all_digits s ≡ true → decimal_from acc s + 1 ≤ (acc + 1) * 10 ^ length s
decimal_from-lt [] acc h = omega arith
decimal_from-lt (c ∷ s) acc h = rw (pow-suc 10 (length s)) (
    next_digit (c - b'0') acc (10 ^ length s) _ (ground arith)
      (decimal_from-lt s (acc * 10 + (c - b'0')) (ground arith)))

power_six : (n : ℕ) → n ≤ 6 → 10 ^ n ≤ 1000000
power_six zero h = omega arith
power_six (suc zero) h = omega arith
power_six (suc (suc zero)) h = omega arith
power_six (suc (suc (suc zero))) h = omega arith
power_six (suc (suc (suc (suc zero)))) h = omega arith
power_six (suc (suc (suc (suc (suc zero))))) h = omega arith
power_six (suc (suc (suc (suc (suc (suc zero)))))) h = omega arith
power_six (suc (suc (suc (suc (suc (suc (suc n))))))) h = omega arith

pad_end-all_digits : (n : ℕ) (s : Text) → all_digits s ≡ true → all_digits (pad_end n s) ≡ true
pad_end-all_digits zero s h = h
pad_end-all_digits (suc n) [] h = pad_end-all_digits n [] refl
pad_end-all_digits (suc n) (c ∷ s) h = ground (arith, pad_end-all_digits n s)

length-pad_end : (n : ℕ) (s : Text) → length s ≤ n → length (pad_end n s) ≡ n
length-pad_end zero [] h = refl
length-pad_end zero (c ∷ s) h = omega arith
length-pad_end (suc n) [] h = omega (arith, length-pad_end n [] (omega arith))
length-pad_end (suc n) (c ∷ s) h = omega (arith, length-pad_end n s (omega arith))

whole-lt : (w : Text) → digits_up_to 6 w ≡ true → decimal w < 1000000
whole-lt w h =
    omega (arith, decimal_from-lt w 0 (ground arith), power_six (length w) (ground arith))

fraction-lt : (f : Text) → digits_up_to 3 f ≡ true → decimal (pad_end 3 f) < 1000
fraction-lt f h =
    let e = length-pad_end 3 f (ground arith) in
    let b = decimal_from-lt (pad_end 3 f) 0 (pad_end-all_digits 3 f (ground arith)) in
    omega (arith, rw e at b)

parts-lt :
    (w : Text) (f : Option Text)
    → (digits_up_to 6 w && elim f [ none ↦ true | some r ↦ digits_up_to 3 r ]) ≡ true
    → decimal w * 1000 + decimal (pad_end 3 (elim f [ none ↦ [] | some r ↦ r ])) < 1000000000
parts-lt w none h = omega (arith, whole-lt w (ground arith))
parts-lt w (some f) h = omega (arith, whole-lt w (ground arith), fraction-lt f (ground arith))

-- Whatever text is accepted as a quantity, its value is below a million, in thousandths.
pub quantity-lt : (s : Text) → is_quantity s ≡ true → quantity_in_thousandths s < 1000000000
unfolding is_quantity quantity_in_thousandths
quantity-lt s h = parts-lt (split_point s).0 (split_point s).1 h

-- An item that `QuoteItem.create` returns has a quantity from 0.001 to 999999.999, an amount for
-- each unit and a total that fit a 32-bit column, a total that is the exact product of quantity
-- and amount rounded half up to the cent, and a name of 2 to 100 characters.
pub create_item-bounds :
    (id : EntityId) (d : QuoteItemDetails) (c : Option EntityId) {item : QuoteItemProps}
    → create_item id d c ≡ ok item
    → (1 ≤ item.quantity_in_thousandths)
      × (item.quantity_in_thousandths < 1000000000)
      × (item.unit_amount_in_cents ≤ max_int)
      × (item.total_in_cents ≤ max_int)
      × (item.total_in_cents * 1000
          ≤ item.quantity_in_thousandths * item.unit_amount_in_cents + 500)
      × (item.quantity_in_thousandths * item.unit_amount_in_cents + 500
          < item.total_in_cents * 1000 + 1000)
      × (2 ≤ length item.name)
      × (length item.name ≤ 100)
unfolding create_item item_total
create_item-bounds id d c h = ground (arith, quantity-lt d.quantity)
