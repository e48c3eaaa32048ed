-- ===== src/Contact/Normal.antt =====
-- About Contact/Email and Contact/Phone: what is normal stays as it is.
use bom_trato_api.Prelude.{
  ℕ, ◌≡◌, refl, sym, ap, ◌∙◌, inl, inr, Bool-cases, true, false, ◌&&◌, ◌||◌, Option, none, some, [],
  ◌∷◌, ltb, ◌==◌, length, keep, arith, if◌then◌else◌,
}
use bom_trato_api.Prelude.Text.{Text, trim, trim_start, trim_end, is_space, nonempty}
use bom_trato_api.Contact.Email.{normalize_email, optional_email}
use bom_trato_api.Contact.Phone.{
  is_digit, national, drop_two, starts_55, normalize_brazilian_phone, is_phone_char, all_chars,
  is_phone_text, all_digits, is_national_number, is_valid_brazilian_phone, phone_input,
}

keep-digits : (s : Text) → all_digits (keep is_digit s) ≡ true
keep-digits [] = refl
keep-digits (c ∷ s) = elim (Bool-cases (is_digit c)) [
  | inl t ↦ rw (t, t) (keep-digits s)
  | inr f ↦ rw f (keep-digits s)
]

kept-digits : (s : Text) → all_digits s ≡ true → keep is_digit s ≡ s
kept-digits [] h = refl
kept-digits (c ∷ s) h = ground (arith, kept-digits s)

digit-clean : (c : ℕ) → is_digit c ≡ true → is_space c ≡ false
unfolding is_space
digit-clean c h = ground arith

drop-digits : (s : Text) → all_digits s ≡ true → all_digits (drop_two s) ≡ true
drop-digits [] h = refl
drop-digits (c ∷ []) h = refl
drop-digits (c ∷ d ∷ s) h = ground arith

national-digits : (s : Text) → all_digits s ≡ true → all_digits (national s) ≡ true
unfolding national
national-digits s h = elim (Bool-cases ((length s == 12 || length s == 13) && starts_55 s)) [
  | inl t ↦ rw t (drop-digits s h)
  | inr f ↦ rw f h
]

normal-digits : (s : Text) → all_digits (normalize_brazilian_phone s) ≡ true
unfolding normalize_brazilian_phone
normal-digits s = national-digits (keep is_digit s) (keep-digits s)

-- A text of digits has no white space around it.
trim_start-digits : (s : Text) → all_digits s ≡ true → trim_start s ≡ s
unfolding trim_start
trim_start-digits [] h = refl
trim_start-digits (c ∷ s) h = let d : is_digit c ≡ true = ground arith in rw (digit-clean c d) refl

trim_end-digits : (s : Text) → all_digits s ≡ true → trim_end s ≡ s
unfolding trim_end
trim_end-digits [] h = refl
trim_end-digits (c ∷ []) h = let d : is_digit c ≡ true = ground arith in rw (digit-clean c d) refl
trim_end-digits (c ∷ d ∷ s) h =
    let e = trim_end-digits (d ∷ s) (ground arith) in
    ap
      (λ (x : Text). elim x as (λ y. Text) [
        | [] ↦ if is_space c then [] else c ∷ []
        | a ∷ r ↦ c ∷ a ∷ r
      ])
      e

trim-digits : (s : Text) → all_digits s ≡ true → trim s ≡ s
unfolding trim
trim-digits s h = ap trim_end (trim_start-digits s h) ∙ trim_end-digits s h

chars-digits : (s : Text) → all_digits s ≡ true → all_chars s ≡ true
unfolding is_phone_char
chars-digits [] h = refl
chars-digits (c ∷ s) h = ground (arith, chars-digits s)

phone_text-digits :
    (s : Text) → all_digits s ≡ true → ltb 0 (length s) ≡ true → is_phone_text s ≡ true
unfolding is_phone_text is_phone_char
phone_text-digits [] h l = ground arith
phone_text-digits (c ∷ s) h l = ground (arith, chars-digits s)

national-long :
    (s : Text) → is_national_number s ≡ true → (national s ≡ s) × (ltb 0 (length s) ≡ true)
unfolding is_national_number national
national-long s h = ground arith

normal-again : (s : Text) → all_digits s ≡ true → national s ≡ s → normalize_brazilian_phone s ≡ s
unfolding normalize_brazilian_phone
normal-again s d n = ap national (kept-digits s d) ∙ n

nonempty-long : (s : Text) → ltb 0 (length s) ≡ true → nonempty s ≡ some s
nonempty-long [] h = ground arith
nonempty-long (c ∷ s) h = refl

valid-number :
    (phone : Text)
    → is_valid_brazilian_phone phone ≡ true
    → is_national_number (normalize_brazilian_phone (trim phone)) ≡ true
unfolding is_valid_brazilian_phone
valid-number phone h = ground arith

-- A number that was accepted and put into its normal form is accepted again, and is its own normal
-- form.
pub phone-twice :
    (phone : Text)
    → trim phone ≡ phone
    → is_valid_brazilian_phone phone ≡ true
    → (phone_input (some (normalize_brazilian_phone phone))
        ≡ some (normalize_brazilian_phone phone))
      × (is_valid_brazilian_phone (normalize_brazilian_phone phone) ≡ true)
      × (normalize_brazilian_phone (normalize_brazilian_phone phone)
          ≡ normalize_brazilian_phone phone)
unfolding is_valid_brazilian_phone phone_input
phone-twice phone t h =
    let n = normalize_brazilian_phone phone in
    let d = normal-digits phone in
    let ok_number : is_national_number n ≡ true =
      ap (λ x. is_national_number (normalize_brazilian_phone x)) (sym t) ∙ valid-number phone h in
    let (long, some_digit) = national-long n ok_number in
    let clean = trim-digits n d in
    let again = normal-again n d long in
    (
      rw clean (nonempty-long n some_digit),
      rw (clean, again, ok_number, phone_text-digits n d some_digit) refl,
      again,
    )

-- What the lower case of a text is asked for: it is its own lower case, and has no white space
-- around it that the text has not.
pub record IsLower (lower : Text → Text) : Type 0 where
  pub twice : (s : Text) → lower (lower s) ≡ lower s
  pub clean : (s : Text) → trim (lower (trim s)) ≡ lower (trim s)

email-again :
    (lower : Text → Text) (s : Text)
    → IsLower lower
    → normalize_email lower (normalize_email lower s) ≡ normalize_email lower s
unfolding normalize_email
email-again lower s l = ap lower (l.clean s) ∙ l.twice (trim s)

nonempty-normal :
    (lower : Text → Text) (s : Text)
    → normalize_email lower s ≡ s
    → optional_email lower (nonempty s) ≡ nonempty s
unfolding optional_email
nonempty-normal lower [] h = refl
nonempty-normal lower (c ∷ s) h = ap nonempty h

-- An address in its normal form is its own normal form.
pub email-twice :
    (lower : Text → Text) (email : Option Text)
    → IsLower lower
    → optional_email lower (optional_email lower email) ≡ optional_email lower email
unfolding optional_email
email-twice lower none l = refl
email-twice lower (some []) l = refl
email-twice lower (some (c ∷ s)) l =
    nonempty-normal lower (normalize_email lower (c ∷ s)) (email-again lower (c ∷ s) l)
