-- ===== src/Lead/Creates.antt =====
-- About the customer and the quote that Lead/Conversion makes of a lead in its normal form.
use mathlib.Core.Path.{subst}
use bom_trato_api.Prelude.{
  ℕ, ◌≤◌, ◌≡◌, inl, inr, refl, false, Option, Option-cases, none, some, [], ◌∷◌, ◌++◌, length,
  arith, ltb, or_else,
}
use bom_trato_api.Prelude.Result.{ok}
use bom_trato_api.Prelude.Text.{Text, codes, trim, nonempty, length-trim, trim-two, is_space}
use bom_trato_api.Quote.Types.{QuoteProps}
use bom_trato_api.Quote.Entity.{
  create, blank_quote, trimmed, update, totals, no_details, given_or, trimmed_length, bad_validity,
  normalize_down_payment_percentage, assert_draft,
}
use bom_trato_api.Customer.{CustomerProps, create_customer, normalize_customer, longer}
use bom_trato_api.Lead.Entity.{LeadProps}
use bom_trato_api.Lead.Conversion.{ConvertParams, customer_details, lead_notes, quote_params}
use bom_trato_api.Lead.Normal.{IsNormal}

module _ (lower : Text → Text) where
  not-longer : (n : ℕ) (s : Text) → length s ≤ n → longer n (nonempty (trim s)) ≡ false
  not-longer n s h = short n (trim s) (let k = length-trim s in omega arith)
    where
      short : (n : ℕ) (s : Text) → length s ≤ n → longer n (nonempty s) ≡ false
      short n [] h = refl
      short n (c ∷ s) h = ground arith

  notes-fit :
      (l : LeadProps) → IsNormal lower l → longer 5000 (nonempty (trim (lead_notes l))) ≡ false
  notes-fit l n = let m = n.message_fits.1 in not-longer 5000 (lead_notes l) (omega arith)

  pub creates-customer :
      (p : ConvertParams) (l : LeadProps)
      → IsNormal lower l
      → (c : CustomerProps) × (create_customer lower p.customer_id p.organization_id
            (customer_details l)
            p.customer_at
          ≡ ok c)
        × (c.id ≡ p.customer_id)
        × (c.name ≡ l.name)
        × (c.email ≡ l.email)
        × (c.phone ≡ l.phone)
        × (c.archived_at ≡ none)
  unfolding create_customer normalize_customer
  creates-customer p l n =
      let (a, b) = n.named in
      let f = notes-fit l n in
      let low : ltb (length l.name) 2 ≡ false = ground arith in
      let high : ltb 100 (length l.name) ≡ false = ground arith in
      (
        record {
          id = p.customer_id;
          organization_id = p.organization_id;
          name = l.name;
          email = l.email;
          phone = l.phone;
          default_service_address = none;
          notes = nonempty (trim (lead_notes l));
          archived_at = none;
          created_at = p.customer_at;
          updated_at = p.customer_at;
        },
        simp (
          n.own_phone, n.good_phone, n.trimmed_name, low, high, n.normal_email, n.good_email, f,
          n.normal_number,
        ),
        refl,
        refl,
        refl,
        refl,
        refl,
      )

  abbrev pub Fits : Option Text → Type 0
  Fits none = Unit {0}
  Fits (some name) = (2 ≤ length (trim name)) × (length (trim name) ≤ 150)

  abbrev pub title_of : LeadProps → Text
  title_of l = or_else l.requested_service_name (codes "Solicitação de " ++ l.name)

  plain-title :
      (l : LeadProps)
      → IsNormal lower l
      → (2 ≤ length (trim (codes "Solicitação de " ++ l.name)))
        × (length (trim (codes "Solicitação de " ++ l.name)) ≤ 150)
  unfolding is_space
  plain-title l n =
      let long = trim-two b'S' b'o' (codes "licitação de " ++ l.name) refl refl in
      let short = length-trim (codes "Solicitação de " ++ l.name) in
      let m = n.named.1 in (long, omega arith)

  title-Fits :
      (l : LeadProps)
      → IsNormal lower l
      → Fits l.requested_service_name
      → (2 ≤ length (trim (title_of l))) × (length (trim (title_of l)) ≤ 150)
  title-Fits l n t = elim (Option-cases l.requested_service_name) [
    | inl e ↦ rw e (plain-title l n)
    | inr (name, e) ↦ rw e (subst Fits e t)
  ]

  pub creates-quote :
      (p : ConvertParams) (l : LeadProps) (c : CustomerProps)
      → IsNormal lower l
      → Fits l.requested_service_name
      → (q : QuoteProps) × (create (quote_params p l c) p.quote_at ≡ ok q)
        × (q.id ≡ p.quote_id)
        × (q.customer_id ≡ c.id)
  unfolding create update assert_draft totals no_details given_or trimmed_length bad_validity
      normalize_down_payment_percentage trimmed
  creates-quote p l c n t =
      let (a, b) = title-Fits l n t in
      let m = length-trim l.message in
      let k = n.message_fits.1 in
      let low : ltb (length (trim (title_of l))) 2 ≡ false = ground arith in
      let high : ltb 150 (length (trim (title_of l))) ≡ false = ground arith in
      let notes : ltb 5000 (length (trim l.message)) ≡ false = ground arith in
      (
        record (blank_quote (quote_params p l c) p.quote_at) {
          title = trim (title_of l);
          notes = nonempty (trim l.message);
        },
        simp (low, high, notes),
        refl,
        refl,
      )
