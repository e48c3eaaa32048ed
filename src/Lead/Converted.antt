-- ===== src/Lead/Converted.antt =====
-- About the conversion of leads: Lead/Conversion over its tables.
use bom_trato_api.Prelude.{
  ◌≡◌, refl, ap, ◌∙◌, true, false, ◌||◌, Option, none, some, List, [], ◌∷◌, Memᴰ, EntityId, any,
  find, find-Mem, find-update_where, any-Mem, update_where, arith, ◌==◌, ==_refl, if◌then◌else◌,
}
use bom_trato_api.Prelude.Result.{ok}
use bom_trato_api.Prelude.Text.{Text}
use bom_trato_api.Organization.Access.{AccessContext, assert_can_operate}
use bom_trato_api.Quote.Types.{draft, QuoteProps}
use bom_trato_api.Quote.Invariant.{IsValid, create-IsValid}
use bom_trato_api.Quote.Entity.{create}
use bom_trato_api.Customer.{CustomerProps}
use bom_trato_api.Lead.Entity.{LeadProps, is_closed, converted, convert}
use bom_trato_api.Lead.Intake.{is_lead, lead_denied, load_lead, save_lead, written_lead}
use bom_trato_api.Lead.Conversion.{
  LeadTables, ConvertParams, has_contact, find_customers_by_contact, insert_customer, customer_of,
  quote_params, quoted_service, add_service, quote_of, convert_loaded, convert_lead, same_text,
}
use bom_trato_api.Lead.Normal.{IsNormal}
use bom_trato_api.Lead.Creates.{Fits, creates-customer, creates-quote}

-- Where no customer has the contact, none is found, and one with the address can be inserted.
none-found :
    (email phone : Option Text) (rows : List CustomerProps)
    → any (has_contact email phone) rows ≡ false
    → find_customers_by_contact email phone rows ≡ []
unfolding find_customers_by_contact
none-found email phone [] h = refl
none-found email phone (row ∷ rows) h =
    let a : has_contact email phone row ≡ false = ground arith in
    let b : any (has_contact email phone) rows ≡ false = ground arith in
    rw a (none-found email phone rows b)

free-address :
    (id : EntityId) (email phone : Option Text) (rows : List CustomerProps)
    → any (λ row. row.id == id) rows ≡ false
    → any (has_contact email phone) rows ≡ false
    → any (λ row. row.id == id || same_text row.email email) rows ≡ false
unfolding has_contact
free-address id email phone [] f h = refl
free-address id email phone (row ∷ rows) f h = ground (arith, free-address id email phone rows)

inserts :
    (c : CustomerProps) (phone : Option Text) (rows : List CustomerProps)
    → any (λ row. row.id == c.id) rows ≡ false
    → any (has_contact c.email phone) rows ≡ false
    → insert_customer c rows ≡ ok (c ∷ rows)
unfolding insert_customer
inserts c phone rows f h = rw (free-address c.id c.email phone rows f h) refl

-- What is asked of the request and of the tables: the company may operate; the lead is open and in
-- its normal form, and names a service of a fitting length or none; no customer has its address or
-- its number; and no service is quoted, since none was asked for or it is gone.
pub record Convertible (lower : Text → Text) (access : AccessContext) (p : ConvertParams)
    (l : LeadProps) (t : LeadTables) : Type 0 where
  pub may_operate : assert_can_operate access lead_denied ≡ ok tt
  pub found : find (is_lead p.organization_id p.lead_id) t.leads ≡ some l
  pub normal : IsNormal lower l
  pub still_open : is_closed l.status ≡ false
  pub titled : Fits lower l.requested_service_name
  pub no_contact : any (has_contact l.email l.phone) t.customers ≡ false
  pub fresh : any (λ (row : CustomerProps). row.id == p.customer_id) t.customers ≡ false
  pub no_service : quoted_service l t.services ≡ none

abbrev pub converted_lead : ConvertParams → LeadProps → LeadProps
converted_lead p l = record l {
  status = converted;
  converted_customer_id = some p.customer_id;
  converted_quote_id = some p.quote_id;
  converted_at = some p.converted_at;
  updated_at = p.converted_at;
}

-- What a conversion leaves.
pub record Converted (p : ConvertParams) (l : LeadProps) (t t' : LeadTables) : Type 0 where
  pub customer : CustomerProps
  pub quote : QuoteProps
  pub customer_added : t'.customers ≡ customer ∷ t.customers
  pub quote_added : t'.quotes ≡ quote ∷ t.quotes
  pub customer_id : customer.id ≡ p.customer_id
  pub same_name : customer.name ≡ l.name
  pub same_email : customer.email ≡ l.email
  pub same_phone : customer.phone ≡ l.phone
  pub not_archived : customer.archived_at ≡ none
  pub quote_id : quote.id ≡ p.quote_id
  pub for_customer : quote.customer_id ≡ customer.id
  pub valid_quote : IsValid quote
  pub a_draft : quote.status ≡ draft
  pub no_items : quote.items ≡ []
  pub lead_saved : find (is_lead p.organization_id p.lead_id) t'.leads ≡ some (converted_lead p l)

module _ (lower : Text → Text) (access : AccessContext) (p : ConvertParams) (l : LeadProps)
    (t : LeadTables) where
  is-found :
      Convertible lower access p l t
      → Memᴰ l t.leads × (l.id ≡ p.lead_id) × (l.organization_id ≡ p.organization_id)
  is-found h =
      let (m, e) = find-Mem (is_lead p.organization_id p.lead_id) t.leads l h.found in
      (m, ground arith, ground arith)

  own-lead : Convertible lower access p l t → is_lead p.organization_id l.id l ≡ true
  own-lead h = let (m, i, o) = is-found h in rw (o, ==_refl l.id, ==_refl p.organization_id) refl

  saves-lead :
      Convertible lower access p l t
      → save_lead p.organization_id (converted_lead p l) t.leads
        ≡ ok (
            update_where
              (is_lead p.organization_id l.id)
              (written_lead (converted_lead p l))
              t.leads)
  unfolding save_lead
  saves-lead h =
      let (m, i, o) = is-found h in
      let own = own-lead h in
      let here = any-Mem (is_lead p.organization_id l.id) t.leads m own in
      let scoped : (l.organization_id == p.organization_id) ≡ true =
        ap (λ x. x == p.organization_id) o ∙ ==_refl p.organization_id in
      simp (scoped, here)

  finds-lead :
      Convertible lower access p l t
      → find (is_lead p.organization_id p.lead_id) (
          update_where (is_lead p.organization_id l.id) (written_lead (converted_lead p l)) t.leads)
        ≡ some (converted_lead p l)
  finds-lead h =
      find-update_where (is_lead p.organization_id p.lead_id) (is_lead p.organization_id l.id)
        (written_lead (converted_lead p l)) t.leads l (λ row. refl) h.found
      ∙ ap (λ x. some (if x then converted_lead p l else l)) (own-lead h)

  gets-customer :
      Convertible lower access p l t
      → (c : CustomerProps) × (customer_of lower p l
            (find_customers_by_contact l.email l.phone t.customers)
            t.customers
          ≡ ok (c, c ∷ t.customers))
        × (c.id ≡ p.customer_id)
        × (c.name ≡ l.name)
        × (c.email ≡ l.email)
        × (c.phone ≡ l.phone)
        × (c.archived_at ≡ none)
  unfolding customer_of
  gets-customer h =
      let (c, e, i, n, m, f, a) = creates-customer lower p l h.normal in
      let fresh : any (λ (row : CustomerProps). row.id == c.id) t.customers ≡ false =
        ap (λ x. any (λ (row : CustomerProps). row.id == x) t.customers) i ∙ h.fresh in
      let free : any (has_contact c.email l.phone) t.customers ≡ false =
        ap (λ x. any (has_contact x l.phone) t.customers) m ∙ h.no_contact in
      let k = inserts c l.phone t.customers fresh free in
      let z = none-found l.email l.phone t.customers h.no_contact in
      (c, simp (z, e, k), i, n, m, f, a)

  gets-quote :
      Convertible lower access p l t
      → (c : CustomerProps) (q : QuoteProps) → create (quote_params p l c) p.quote_at ≡ ok q
      → quote_of p l c t.services ≡ ok q
  unfolding quote_of add_service
  gets-quote h c q g = let v = h.no_service in simp (g, v)

  converts :
      Convertible lower access p l t
      → (c q : EntityId) → c ≡ p.customer_id
      → q ≡ p.quote_id
      → convert c q p.converted_at l ≡ ok (converted_lead p l)
  unfolding convert
  converts h c q i j = let w = h.still_open in rw (w, i, j) refl

  -- The conversion of a lead of a new customer who asked for no service of the catalog, or for one
  -- that is gone, goes through: when the company may operate, the lead is open, in its normal form
  -- and names a service of a fitting length or none, no customer has its address or its number, and
  -- the identifier of the customer is fresh, the call succeeds. It adds a customer with the name,
  -- the address and the number of the lead, and a valid draft of a quote for that customer, without
  -- items, and marks the lead as converted into these.
  pub convert_lead-total :
      Convertible lower access p l t
      → (t' : LeadTables) × (convert_lead lower access p t ≡ ok (converted_lead p l, t'))
        × Converted p l t t'
  unfolding convert_lead convert_loaded load_lead
  convert_lead-total h =
      let (c, e, i, n, m, f, a) = gets-customer h in
      let (q, g, j, k) = creates-quote lower p l c h.normal h.titled in
      let s = saves-lead h in
      let o = h.may_operate in
      let d = h.found in
      let w = h.still_open in
      let b = gets-quote h c q g in
      let u = converts h c.id q.id i j in
      (
        record {
          leads =
              update_where (is_lead p.organization_id l.id) (written_lead (converted_lead p l))
                t.leads;
          customers = c ∷ t.customers;
          quotes = q ∷ t.quotes;
          services = t.services;
        },
        simp (o, d, w, e, b, u, s),
        record {
          customer = c;
          quote = q;
          customer_added = refl;
          quote_added = refl;
          customer_id = i;
          same_name = n;
          same_email = m;
          same_phone = f;
          not_archived = a;
          quote_id = j;
          for_customer = k;
          valid_quote = (create-IsValid (quote_params p l c) p.quote_at g).0;
          a_draft = (create-IsValid (quote_params p l c) p.quote_at g).1;
          no_items = (create-IsValid (quote_params p l c) p.quote_at g).2;
          lead_saved = finds-lead h;
        },
      )
