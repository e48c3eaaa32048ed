-- ===== src/Lead/Again.antt =====
-- About requests and conversions that are repeated: Lead/Intake and Lead/Conversion.
use bom_trato_api.Prelude.{
  ◌≡◌, ◌≢◌, refl, sym, ap, ◌∙◌, true, false, not, ◌&&◌, ◌||◌, some, List, EntityId, any-Mem, find,
  find-Mem, find-update_where, is_some, update_where, arith, ◌==◌, ==_refl, if◌then◌else◌, some-eq,
  false-true,
}
use bom_trato_api.Prelude.Result.{
  ok, or_throw, or_throw-some, rethrow, rethrow-eq_ok, throw_if, >>=-eq_ok, ok-eq,
}
use bom_trato_api.Prelude.Text.{Text}
use bom_trato_api.Prelude.Date.{Date}
use bom_trato_api.Organization.Access.{AccessContext, assert_can_operate}
use bom_trato_api.Lead.Entity.{
  LeadProps, lead_not_found, lead_request_conflict, public_service_not_found,
  invalid_lead_transition, create_lead, is_closed, convert, normalize_lead,
}
use bom_trato_api.Lead.Intake.{
  insert_lead, save_new, RequestParams, requested_service, lead_params, create_public_lead, is_lead,
  load_lead, save_lead, written_lead, lead_denied,
}
use bom_trato_api.Lead.Conversion.{
  lead_error, LeadTables, ConvertParams, customer_of, find_customers_by_contact, quote_of,
  quote_error, convert_loaded, convert_lead,
}

-- A request that the table has is answered by the lead that it has.
save_new-parts :
    (organization : EntityId) (l saved : LeadProps) (rows rows' : List LeadProps)
    → save_new organization l rows ≡ ok (saved, rows')
    → (rows' ≡ insert_lead l rows)
      × (find (λ row. row.request_key == l.request_key) rows' ≡ some saved)
unfolding save_new
save_new-parts organization l saved rows rows' h =
    let (_, e, k) =
      >>=-eq_ok (throw_if (not (l.organization_id == organization)) lead_not_found) _ h in
    let (x, f, m) =
      >>=-eq_ok
        (or_throw (find (λ row. row.request_key == l.request_key) (insert_lead l rows))
          lead_request_conflict)
        _ k in
    let (_, g, n) =
      >>=-eq_ok (throw_if (not (x.organization_id == organization)) lead_request_conflict) _ m in
    let same : x ≡ saved = ap (λ (y : LeadProps × List LeadProps). y.0) (ok-eq n) in
    let left : insert_lead l rows ≡ rows' =
      ap (λ (y : LeadProps × List LeadProps). y.1) (ok-eq n) in
    (
      sym left,
      ap (λ x. find (λ (row : LeadProps). row.request_key == l.request_key) x) (sym left)
          ∙ or_throw-some (find (λ row. row.request_key == l.request_key) (insert_lead l rows))
              lead_request_conflict f
          ∙ ap some same,
    )

keyed-insert :
    (l : LeadProps) (rows : List LeadProps) (saved : LeadProps)
    → find (λ row. row.request_key == l.request_key) rows ≡ some saved
    → insert_lead l rows ≡ rows
unfolding insert_lead
keyed-insert l rows saved h =
    let (m, e) = find-Mem (λ (row : LeadProps). row.request_key == l.request_key) rows saved h in
    let here =
      any-Mem (λ (row : LeadProps). row.id == l.id || row.request_key == l.request_key) rows m
        (ground arith) in
    rw here refl

-- The key of the lead that a request makes.
request-key :
    (lower : Text → Text) (p : RequestParams) (l : LeadProps)
    → create_lead lower (lead_params p) p.now ≡ ok l
    → l.request_key ≡ p.request_key
unfolding create_lead
request-key lower p l h =
    let (d, e, k) = >>=-eq_ok (normalize_lead lower p.details) _ h in
    ap (λ (x : LeadProps). x.request_key) (sym (ok-eq k))

-- What a request has done.
public-parts :
    (lower : Text → Text) (p : RequestParams) (rows rows' : List LeadProps) (id : EntityId)
    (made : Date)
    → create_public_lead lower p rows ≡ ok ((id, made), rows')
    → (l : LeadProps) × (saved : LeadProps) × (l.request_key ≡ p.request_key)
      × (rows' ≡ insert_lead l rows)
      × (find (λ row. row.request_key == p.request_key) rows' ≡ some saved)
      × (saved.id ≡ id)
      × (saved.created_at ≡ made)
unfolding create_public_lead
public-parts lower p rows rows' id made h =
    let (_, e, k) =
      >>=-eq_ok
        (throw_if (is_some p.catalog_service_id && not (is_some (requested_service p)))
          public_service_not_found)
        _ h in
    let (l, f, m) = >>=-eq_ok (create_lead lower (lead_params p) p.now) _ k in
    let ((saved, rest), g, n) = >>=-eq_ok (save_new p.organization_id l rows) _ m in
    let key = request-key lower p l f in
    let (a, b) = save_new-parts p.organization_id l saved rows rest g in
    let left : rest ≡ rows' = ap (λ (x : (EntityId × Date) × List LeadProps). x.1) (ok-eq n) in
    (
      l,
      saved,
      key,
      sym left ∙ a,
      ap (λ x. find (λ (row : LeadProps). row.request_key == p.request_key) x) (sym left)
          ∙ ap (λ k. find (λ (row : LeadProps). row.request_key == k) rest) (sym key)
          ∙ b,
      ap (λ (x : (EntityId × Date) × List LeadProps). x.0.0) (ok-eq n),
      ap (λ (x : (EntityId × Date) × List LeadProps). x.0.1) (ok-eq n),
    )

-- A visitor's request that is sent again, with the same key, makes no second lead: if it succeeds,
-- whatever else it says and whenever it is sent, the table stays as the first request has left it,
-- and the answer is the same.
pub create_public_lead-again :
    (lower : Text → Text) (p again : RequestParams) (rows rows' last : List LeadProps)
    (id id' : EntityId) (made made' : Date)
    → create_public_lead lower p rows ≡ ok ((id, made), rows')
    → again.request_key ≡ p.request_key
    → create_public_lead lower again rows' ≡ ok ((id', made'), last)
    → (last ≡ rows') × (id' ≡ id) × (made' ≡ made)
create_public_lead-again lower p again rows rows' last id id' made made' h same k =
    let (l, saved, key, e, f, i, m) = public-parts lower p rows rows' id made h in
    let (l2, saved2, key2, e2, f2, i2, m2) = public-parts lower again rows' last id' made' k in
    let there : find (λ (row : LeadProps). row.request_key == l2.request_key) rows' ≡ some saved =
      ap (λ k. find (λ (row : LeadProps). row.request_key == k) rows') (key2 ∙ same) ∙ f in
    let kept : last ≡ rows' = e2 ∙ keyed-insert l2 rows' saved there in
    let one : saved2 ≡ saved = some-eq (
      sym f2
      ∙ ap (λ x. find (λ (row : LeadProps). row.request_key == again.request_key) x) kept
      ∙ ap (λ k. find (λ (row : LeadProps). row.request_key == k) rows') same
      ∙ f) in
    (
      kept,
      sym i2 ∙ ap (λ (x : LeadProps). x.id) one ∙ i,
      sym m2 ∙ ap (λ (x : LeadProps). x.created_at) one ∙ m,
    )

convert-parts :
    (customer quote : EntityId) (now : Date) (l x : LeadProps)
    → convert customer quote now l ≡ ok x
    → (is_closed x.status ≡ true) × (x.id ≡ l.id)
unfolding convert
convert-parts customer quote now l x h = ground arith

owned :
    (organization id : EntityId) (l' l : LeadProps)
    → l'.id ≡ l.id
    → is_lead organization id l ≡ true
    → is_lead organization l'.id l ≡ true
owned organization id l' l i h = let e = ==_refl l.id in rw i (ground arith)

-- What a conversion has loaded.
conversion-loads :
    (lower : Text → Text) (access : AccessContext) (p : ConvertParams) (t : LeadTables)
    (r : LeadProps × LeadTables)
    → convert_lead lower access p t ≡ ok r
    → (l : LeadProps) × (find (is_lead p.organization_id p.lead_id) t.leads ≡ some l)
      × (convert_loaded lower p l t ≡ ok r)
unfolding convert_lead load_lead
conversion-loads lower access p t r h =
    let (_, e0, k0) = >>=-eq_ok (rethrow lead_error (assert_can_operate access lead_denied)) _ h in
    let (l, e1, k1) =
      >>=-eq_ok
        (rethrow lead_error
          (or_throw (find (is_lead p.organization_id p.lead_id) t.leads) lead_not_found))
        _ k0 in
    (
      l,
      or_throw-some (find (is_lead p.organization_id p.lead_id) t.leads) lead_not_found
          (rethrow-eq_ok lead_error _ e1),
      k1,
    )

-- A lead that is converted was open.
loaded-open :
    (lower : Text → Text) (p : ConvertParams) (l : LeadProps) (t : LeadTables)
    (r : LeadProps × LeadTables)
    → convert_loaded lower p l t ≡ ok r
    → is_closed l.status ≡ false
unfolding convert_loaded
loaded-open lower p l t r h = ground arith

-- What a conversion has saved.
loaded-saves :
    (lower : Text → Text) (p : ConvertParams) (l l' : LeadProps) (t t' : LeadTables)
    → convert_loaded lower p l t ≡ ok (l', t')
    → (is_closed l'.status ≡ true)
      × (l'.id ≡ l.id)
      × (save_lead p.organization_id l' t.leads ≡ ok t'.leads)
unfolding convert_loaded
loaded-saves lower p l l' t t' h =
    let (_, e2, k2) =
      >>=-eq_ok (throw_if (is_closed l.status) (lead_error invalid_lead_transition)) _ h in
    let ((c, customers), e3, k3) =
      >>=-eq_ok
        (customer_of lower p l (find_customers_by_contact l.email l.phone t.customers) t.customers)
        _ k2 in
    let (q, e4, k4) = >>=-eq_ok (rethrow quote_error (quote_of p l c t.services)) _ k3 in
    let (x, e5, k5) = >>=-eq_ok (rethrow lead_error (convert c.id q.id p.converted_at l)) _ k4 in
    let (leads, e6, k6) =
      >>=-eq_ok (rethrow lead_error (save_lead p.organization_id x t.leads)) _ k5 in
    let same : x ≡ l' = ap (λ (y : LeadProps × LeadTables). y.0) (ok-eq k6) in
    let left : leads ≡ t'.leads = ap (λ (y : LeadProps × LeadTables). y.1.leads) (ok-eq k6) in
    let (closed, id) = convert-parts c.id q.id p.converted_at l x (rethrow-eq_ok lead_error _ e5) in
    (
      ap (λ (y : LeadProps). is_closed y.status) (sym same) ∙ closed,
      ap (λ (y : LeadProps). y.id) (sym same) ∙ id,
      ap (λ y. save_lead p.organization_id y t.leads) (sym same)
          ∙ rethrow-eq_ok lead_error _ e6
          ∙ ap ok left,
    )

saved-leads :
    (organization : EntityId) (l : LeadProps) (rows rows' : List LeadProps)
    → save_lead organization l rows ≡ ok rows'
    → rows' ≡ update_where (is_lead organization l.id) (written_lead l) rows
unfolding save_lead
saved-leads organization l rows rows' h = ground arith

-- A conversion has closed the lead.
conversion-closes :
    (lower : Text → Text) (access : AccessContext) (p : ConvertParams) (t t' : LeadTables)
    (l' : LeadProps)
    → convert_lead lower access p t ≡ ok (l', t')
    → (s : LeadProps) × (find (is_lead p.organization_id p.lead_id) t'.leads ≡ some s)
      × (is_closed s.status ≡ true)
conversion-closes lower access p t t' l' h =
    let (l, f, k) = conversion-loads lower access p t (l', t') h in
    let (c, i, s) = loaded-saves lower p l l' t t' k in
    let (m, own) = find-Mem (is_lead p.organization_id p.lead_id) t.leads l f in
    let r = saved-leads p.organization_id l' t.leads t'.leads s in
    let e =
      find-update_where (is_lead p.organization_id p.lead_id) (is_lead p.organization_id l'.id)
        (written_lead l') t.leads l (λ row. refl) f in
    let here : is_lead p.organization_id l'.id l ≡ true =
      owned p.organization_id p.lead_id l' l i own in
    (
      written_lead l' l,
      ap (λ x. find (is_lead p.organization_id p.lead_id) x) r
          ∙ e
          ∙ ap (λ x. some (if x then written_lead l' l else l)) here,
      c,
    )

-- A lead is converted once: when a conversion has succeeded, no other conversion of the lead
-- succeeds on the tables that it has left, whoever asks for it and whatever the customers are.
pub convert_lead-once :
    (lower : Text → Text) (access other : AccessContext) (p again : ConvertParams)
    (t t' : LeadTables) (l' : LeadProps) (r : LeadProps × LeadTables)
    → convert_lead lower access p t ≡ ok (l', t')
    → again.organization_id ≡ p.organization_id
    → again.lead_id ≡ p.lead_id
    → convert_lead lower other again t' ≢ ok r
convert_lead-once lower access other p again t t' l' r h o i k =
    let (s, f, c) = conversion-closes lower access p t t' l' h in
    let (l2, f2, k2) = conversion-loads lower other again t' r k in
    let open2 = loaded-open lower again l2 t' r k2 in
    let same : s ≡ l2 = some-eq (
      sym f
      ∙ ap (λ x. find (is_lead p.organization_id x) t'.leads) (sym i)
      ∙ ap (λ x. find (is_lead x again.lead_id) t'.leads) (sym o)
      ∙ f2) in
    false-true (sym open2 ∙ ap (λ (x : LeadProps). is_closed x.status) (sym same) ∙ c)
