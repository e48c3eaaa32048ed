-- ===== src/Contact/Phone.antt =====
-- `normalizeBrazilianPhone` and `isValidBrazilianPhone` (shared/text/phone.ts), and the idiom by
-- which leads and customers keep a number.
use bom_trato_api.Prelude.{
  ℕ, ◌+◌, ◌-◌, ◌*◌, Bool, true, false, not, ◌&&◌, ◌||◌, Option, none, some, [], ◌∷◌, ltb, leb, ◌==◌,
  length, keep, if◌then◌else◌,
}
use bom_trato_api.Prelude.Text.{Text, trim, is_space, nonempty}

-- `\d`
abbrev pub is_digit : ℕ → Bool
is_digit c = leb b'0' c && leb c b'9'

abbrev pub drop_two : Text → Text
drop_two (c ∷ d ∷ s) = s
drop_two _ = []

abbrev pub starts_55 : Text → Bool
starts_55 (c ∷ d ∷ s) = c == b'5' && d == b'5'
starts_55 _ = false

-- The digits without the code of the country.
unfoldable pub national : Text → Text
national digits =
    if (length digits == 12 || length digits == 13) && starts_55 digits
    then drop_two digits
    else digits

unfoldable pub normalize_brazilian_phone : Text → Text
normalize_brazilian_phone phone = national (keep is_digit phone)

-- `[\d\s().-]`
unfoldable pub is_phone_char : ℕ → Bool
is_phone_char c = is_digit c || is_space c || c == b'(' || c == b')' || c == b'.' || c == b'-'

abbrev pub all_chars : Text → Bool
all_chars [] = true
all_chars (c ∷ s) = is_phone_char c && all_chars s

-- `/^\+?[\d\s().-]+$/`
unfoldable pub is_phone_text : Text → Bool
is_phone_text [] = false
is_phone_text (c ∷ s) =
    if c == b'+' then ltb 0 (length s) && all_chars s else is_phone_char c && all_chars s

-- `Number(digits.slice(0, 2))`, of digits.
abbrev pub area_code : Text → ℕ
area_code (c ∷ d ∷ s) = (c - b'0') * 10 + (d - b'0')
area_code (c ∷ []) = c - b'0'
area_code [] = 0

abbrev pub all_digits : Text → Bool
all_digits [] = true
all_digits (c ∷ s) = is_digit c && all_digits s

-- `/^9\d{8}$/`
unfoldable pub is_mobile : Text → Bool
is_mobile [] = false
is_mobile (c ∷ s) = c == b'9' && length s == 8 && all_digits s

-- `/^[2-5]\d{7}$/`
unfoldable pub is_landline : Text → Bool
is_landline [] = false
is_landline (c ∷ s) = leb b'2' c && leb c b'5' && length s == 7 && all_digits s

-- The tests on the digits.
unfoldable pub is_national_number : Text → Bool
is_national_number digits =
    (length digits == 10 || length digits == 11)
    && not (ltb (area_code digits) 11 || ltb 99 (area_code digits))
    && (if length digits == 11 then is_mobile (drop_two digits) else is_landline (drop_two digits))

unfoldable pub is_valid_brazilian_phone : Text → Bool
is_valid_brazilian_phone phone =
    is_phone_text (trim phone) && is_national_number (normalize_brazilian_phone (trim phone))

-- `phone?.trim() || null`
unfoldable pub phone_input : Option Text → Option Text
phone_input none = none
phone_input (some phone) = nonempty (trim phone)

-- `phoneInput !== null && !isValidBrazilianPhone(phoneInput)`
unfoldable pub bad_phone : Option Text → Bool
bad_phone none = false
bad_phone (some phone) = not (is_valid_brazilian_phone phone)

-- `phoneInput === null ? null : normalizeBrazilianPhone(phoneInput)`
unfoldable pub normal_phone : Option Text → Option Text
normal_phone none = none
normal_phone (some phone) = some (normalize_brazilian_phone phone)
