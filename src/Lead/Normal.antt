-- ===== src/Lead/Normal.antt =====
-- About the contact data of leads: Lead/Entity beside Contact.
use bom_trato_api.Prelude.{
  ◌≤◌, ◌≡◌, refl, sym, ap, true, false, not, Option, none, some, [], ◌∷◌, length, arith,
}
use bom_trato_api.Prelude.Result.{ok, >>=-eq_ok, ok-eq}
use bom_trato_api.Prelude.Text.{Text, trim, trim_twice, nonempty}
use bom_trato_api.Prelude.Date.{Date}
use bom_trato_api.Contact.Email.{optional_email, bad_email}
use bom_trato_api.Contact.Phone.{phone_input, bad_phone, normal_phone, is_valid_brazilian_phone}
use bom_trato_api.Contact.Normal.{IsLower, email-twice, phone-twice}
use bom_trato_api.Lead.Entity.{
  LeadProps, LeadDetails, CreateLeadParams, normalize_lead, create_lead,
}

-- The details of a lead are in their normal form.
pub record IsNormal (lower : Text → Text) (l : LeadProps) : Type 0 where
  pub named : (2 ≤ length l.name) × (length l.name ≤ 100)
  pub trimmed_name : trim l.name ≡ l.name
  pub normal_email : optional_email lower l.email ≡ l.email
  pub good_email : bad_email l.email ≡ false
  pub own_phone : phone_input l.phone ≡ l.phone
  pub good_phone : bad_phone l.phone ≡ false
  pub normal_number : normal_phone l.phone ≡ l.phone
  pub message_fits : (10 ≤ length l.message) × (length l.message ≤ 2000)

phone-none : (phone_input none ≡ none) × (bad_phone none ≡ false) × (normal_phone none ≡ none)
unfolding phone_input bad_phone normal_phone
phone-none = (refl, refl, refl)

-- What is left of an optional number.
phone-kept :
    (t : Text)
    → trim t ≡ t
    → bad_phone (nonempty t) ≡ false
    → (phone_input (normal_phone (nonempty t)) ≡ normal_phone (nonempty t))
      × (bad_phone (normal_phone (nonempty t)) ≡ false)
      × (normal_phone (normal_phone (nonempty t)) ≡ normal_phone (nonempty t))
unfolding bad_phone normal_phone
phone-kept [] e h = phone-none
phone-kept (c ∷ s) e h =
    let valid : is_valid_brazilian_phone (c ∷ s) ≡ true = ground arith in
    let (own, again, same) = phone-twice (c ∷ s) e valid in (own, ap not again, ap some same)

phone-normal :
    (phone : Option Text)
    → bad_phone (phone_input phone) ≡ false
    → (phone_input (normal_phone (phone_input phone)) ≡ normal_phone (phone_input phone))
      × (bad_phone (normal_phone (phone_input phone)) ≡ false)
      × (normal_phone (normal_phone (phone_input phone)) ≡ normal_phone (phone_input phone))
unfolding phone_input normal_phone
phone-normal none h = phone-none
phone-normal (some p) h = phone-kept (trim p) (trim_twice p) h

-- What the details have passed.
normalize_lead-parts :
    (lower : Text → Text) (d r : LeadDetails)
    → normalize_lead lower d ≡ ok r
    → (r ≡ record {
      name = trim d.name;
      email = optional_email lower d.email;
      phone = normal_phone (phone_input d.phone);
      message = trim d.message;
    })
      × ((2 ≤ length (trim d.name)) × (length (trim d.name) ≤ 100))
      × (bad_email (optional_email lower d.email) ≡ false)
      × (bad_phone (phone_input d.phone) ≡ false)
      × ((10 ≤ length (trim d.message)) × (length (trim d.message) ≤ 2000))
unfolding normalize_lead
normalize_lead-parts lower d r h = ground arith

-- The details that a new lead holds are in their normal form: the name is trimmed and has from 2
-- to 100 characters, the message fits, and the address and the number are accepted again and are
-- their own normal forms, so that a customer can be made of them. The lower case of a text is
-- taken to be its own lower case, and to add no white space around it.
pub create_lead-IsNormal :
    (lower : Text → Text) (p : CreateLeadParams) (now : Date) (l : LeadProps)
    → IsLower lower
    → create_lead lower p now ≡ ok l
    → IsNormal lower l
unfolding create_lead
create_lead-IsNormal lower p now l low h =
    let (r, e, k) = >>=-eq_ok (normalize_lead lower p.details) _ h in
    let (same, names, mail, phone, message) = normalize_lead-parts lower p.details r e in
    let (own, good, normal) = phone-normal p.details.phone phone in
    let twice = email-twice lower p.details.email low in
    let made = sym (ok-eq k) in
    rw (made, same)
      (record {
        named = names;
        trimmed_name = trim_twice p.details.name;
        normal_email = twice;
        good_email = mail;
        own_phone = own;
        good_phone = good;
        normal_number = normal;
        message_fits = message;
      })
