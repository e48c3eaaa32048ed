-- ===== src/Workflow/QuoteTable.antt =====
-- About the table of quotes under all the use cases that write it: those of Quote/Service, the
-- approval in Workflow/Approval, the decision through the public link in Workflow/PublicDecision and
-- the conversion of a lead in Lead/Conversion.
use mathlib.Core.Path.{subst}
use bom_trato_api.Prelude.{◌≡◌, refl, sym, ap, Bool, true, false, some, none, List, nat}
use bom_trato_api.Prelude.Result.{
  ok, or_throw, or_throw-some, rethrow, rethrow-eq_ok, >>=-eq_ok, ok-eq, throw_if,
}
use bom_trato_api.Prelude.Text.{Text}
use bom_trato_api.Prelude.Date.{Date}
use bom_trato_api.Organization.Access.{AccessContext, assert_can_operate}
use bom_trato_api.Customer.{CustomerProps}
use bom_trato_api.Quote.Types.{QuoteProps, quote_not_found}
use bom_trato_api.Quote.Entity.{assert_version, record_change, approve, create}
use bom_trato_api.Quote.Item.{create_item}
use bom_trato_api.Quote.Invariant.{
  IsValid, approve-IsValid, record_change-IsValid, create-IsValid, add_item-IsValid,
}
use bom_trato_api.Quote.Share.{
  QuoteShareProps, Decision, approve_it, decline_it, share_error, decide_share, assert_readable,
}
use bom_trato_api.Quote.Sharing.{decide_share-first}
use bom_trato_api.Quote.Store.{find_quote, save_quote}
use bom_trato_api.Quote.Service.{
  quote_denied, ChangeQuoteParams, CatalogService, QuoteChange, change_quote, CreateQuoteInput,
  create_quote,
}
use bom_trato_api.Quote.Table.{
  AreValid, save-AreValid, cons-AreValid, found-IsValid, change-AreValid, create-AreValid,
}
use bom_trato_api.Receivable.Repository.{Repository}
use bom_trato_api.WorkOrder.Creation.{ensure_work_order}
use bom_trato_api.Receivable.Automation.{ensure_initial_receivable}
use bom_trato_api.Workflow.Approval.{
  Tables, ApprovalParams, order_params, receivable_params, start_work, approve_loaded,
  approve_quote, quote_error, work_order_error, receivable_error,
}
use bom_trato_api.Workflow.PublicDecision.{
  PublicTables, DecideParams, DecisionResult, find_share, share_missing, share_failure,
  work_failure, save_decision, owner_params, decision_result, start_decided, save_decided,
  save_if_changed, public_load, public_decide,
}
use bom_trato_api.Lead.Entity.{LeadProps, is_closed, convert, invalid_lead_transition}
use bom_trato_api.Lead.Intake.{lead_denied, load_lead, save_lead}
use bom_trato_api.Lead.Conversion as Conversion
use bom_trato_api.Lead.Conversion.{
  LeadTables, ConvertParams, quote_params, quote_of, add_service, quoted_service,
  CatalogServiceSource, service_details, convert_loaded, convert_lead, customer_of,
  find_customers_by_contact, lead_error,
}

module _ {S : Type 0} (repo : Repository S) where
  start_work-quotes :
      (p : ApprovalParams) (q : QuoteProps) (t t' : Tables S)
      → start_work repo p q t ≡ ok t'
      → t'.quotes ≡ t.quotes
  unfolding start_work
  start_work-quotes p q t t' h =
      let ((order, orders), e, k) =
        >>=-eq_ok (rethrow work_order_error (ensure_work_order (order_params p q) t.orders)) _ h in
      let ((view, receivables), f, l) =
        >>=-eq_ok
          (rethrow receivable_error
            (ensure_initial_receivable repo (receivable_params p q order) t.receivables))
          _ k in
      sym (ap (λ (x : Tables S). x.quotes) (ok-eq l))

  approve_quote-AreValid :
      (access : AccessContext) (p : ApprovalParams) (q : QuoteProps) (t t' : Tables S)
      → AreValid t.quotes
      → approve_quote repo access p t ≡ ok (q, t')
      → AreValid t'.quotes
  unfolding approve_quote approve_loaded
  approve_quote-AreValid access p q t t' a h =
      let (_, _, h0) =
        >>=-eq_ok (rethrow quote_error (assert_can_operate access quote_denied)) _ h in
      let (x, e1, h1) =
        >>=-eq_ok (rethrow quote_error (or_throw (find_quote p.quote_id t.quotes) quote_not_found))
          _ h0 in
      let (_, _, h2) = >>=-eq_ok (rethrow quote_error (assert_version p.version x)) _ h1 in
      let (y, e3, h3) = >>=-eq_ok (rethrow quote_error (approve p.now x)) _ h2 in
      let (t1, e4, h4) = >>=-eq_ok (start_work repo p y t) _ h3 in
      let (z, e5, h5) =
        >>=-eq_ok (rethrow quote_error (record_change (some p.user_id) p.now y)) _ h4 in
      let (rows, e6, h6) =
        >>=-eq_ok (rethrow quote_error (save_quote z p.version t1.quotes)) _ h5 in
      let f =
        or_throw-some (find_quote p.quote_id t.quotes) quote_not_found
          (rethrow-eq_ok quote_error _ e1) in
      let v = found-IsValid p.quote_id t.quotes x a f in
      let w = approve-IsValid p.now v (rethrow-eq_ok quote_error _ e3) in
      let u = record_change-IsValid (some p.user_id) p.now w (rethrow-eq_ok quote_error _ e5) in
      let b = subst AreValid (sym (start_work-quotes p y t t1 e4)) a in
      subst AreValid (ap (λ (r : QuoteProps × Tables S). r.1.quotes) (ok-eq h6))
        (save-AreValid z p.version t1.quotes rows u b (rethrow-eq_ok quote_error _ e6))

  start_decided-quotes :
      (d : Decision) (p : DecideParams) (owner : _) (q : QuoteProps) (t t' : Tables S)
      → p.decision ≡ d
      → start_decided repo p owner q t ≡ ok t'
      → t'.quotes ≡ t.quotes
  unfolding start_decided
  start_decided-quotes approve_it p owner q t t' i h =
      let h1 = rw i at h in
      start_work-quotes (owner_params p owner q) q t t' (rethrow-eq_ok work_failure _ h1)
  start_decided-quotes decline_it p owner q t t' i h =
      let h1 = rw i at h in sym (ap (λ (x : Tables S). x.quotes) (ok-eq h1))

  save_decided-AreValid :
      (p : DecideParams) (version : _) (q : QuoteProps) (s : QuoteShareProps)
      (t t' : PublicTables S)
      → AreValid t.company.quotes
      → IsValid q
      → save_decided repo p version q s t ≡ ok t'
      → AreValid t'.company.quotes
  unfolding save_decided
  save_decided-AreValid p version q s t t' a v h =
      let (rows, e0, h0) =
        >>=-eq_ok
          (rethrow (λ e. work_failure (quote_error e))
            (save_quote q (nat version) t.company.quotes))
          _ h in
      let (shares, _, h1) =
        >>=-eq_ok (rethrow (λ e. share_failure (share_error e)) (save_decision s t.shares)) _ h0 in
      let (owner, _, h2) = >>=-eq_ok (or_throw p.owner_id share_missing) _ h1 in
      let (company, e3, h3) =
        >>=-eq_ok (start_decided repo p owner q (record t.company { quotes = rows })) _ h2 in
      let b =
        save-AreValid q (nat version) t.company.quotes rows v a
          (rethrow-eq_ok (λ e. work_failure (quote_error e)) _ e0) in
      let same =
        start_decided-quotes p.decision p owner q (record t.company { quotes = rows }) company refl
          e3 in
      subst AreValid (ap (λ (x : PublicTables S). x.company.quotes) (ok-eq h3))
        (subst AreValid (sym same) b)

  save_if_changed-AreValid :
      (p : DecideParams) (version : _) (changed : Bool) (q q' : QuoteProps) (s s' : QuoteShareProps)
      (t t' : PublicTables S)
      → AreValid t.company.quotes
      → IsValid q
      → decide_share q p.decision p.version p.decided_at s ≡ ok (changed, q', s')
      → save_if_changed repo p version changed q' s' t ≡ ok t'
      → AreValid t'.company.quotes
  unfolding save_if_changed
  save_if_changed-AreValid p version true q q' s s' t t' a v d h =
      let (_, _, _, _, _, _, _, w) =
        decide_share-first q q' s s' p.decision p.version p.decided_at v d in
      save_decided-AreValid p version q' s' t t' a w h
  save_if_changed-AreValid p version false q q' s s' t t' a v d h =
      subst AreValid (ap (λ (x : PublicTables S). x.company.quotes) (ok-eq h)) a

  public_decide-AreValid :
      (p : DecideParams) (r : DecisionResult) (t t' : PublicTables S)
      → AreValid t.company.quotes
      → public_decide repo p t ≡ ok (r, t')
      → AreValid t'.company.quotes
  unfolding public_decide public_load
  public_decide-AreValid p r t t' a h =
      let ((q, s), e, k) = >>=-eq_ok (public_load p.token_hash p.loaded_at t) _ h in
      let (s0, _, k0) = >>=-eq_ok (or_throw (find_share p.token_hash t.shares) share_missing) _ e in
      let (q0, e1, k1) =
        >>=-eq_ok (or_throw (find_quote s0.quote_id t.company.quotes) share_missing) _ k0 in
      let (_, _, k2) = >>=-eq_ok (rethrow share_failure (assert_readable q0 p.loaded_at s0)) _ k1 in
      let same : q0 ≡ q = ap (λ (x : QuoteProps × QuoteShareProps). x.0) (ok-eq k2) in
      let f = or_throw-some (find_quote s0.quote_id t.company.quotes) share_missing e1 in
      let v = subst IsValid same (found-IsValid s0.quote_id t.company.quotes q0 a f) in
      let ((changed, q', s'), e3, k3) =
        >>=-eq_ok (rethrow share_failure (decide_share q p.decision p.version p.decided_at s)) _
          k in
      let (t1, e4, k4) = >>=-eq_ok (save_if_changed repo p q.version changed q' s' t) _ k3 in
      let (_, _, k5) = >>=-eq_ok (decision_result s') _ k4 in
      subst AreValid (ap (λ (x : DecisionResult × PublicTables S). x.1.company.quotes) (ok-eq k5)) (
        save_if_changed-AreValid p q.version changed q q' s s' t t1 a v
          (rethrow-eq_ok share_failure _ e3) e4)

add_service-IsValid :
    (id : _) (s : _) (q q' : QuoteProps) → IsValid q → add_service id s q ≡ ok q' → IsValid q'
unfolding add_service
add_service-IsValid id none q q' v h = subst IsValid (ok-eq h) v
add_service-IsValid id (some s) q q' v h =
    let (item, _, k) = >>=-eq_ok (create_item id (service_details s) (some s.id)) _ h in
    add_item-IsValid item v k

convert_lead-AreValid :
    (lower : Text → Text) (access : AccessContext) (p : ConvertParams) (l : LeadProps)
    (t t' : LeadTables)
    → AreValid t.quotes
    → convert_lead lower access p t ≡ ok (l, t')
    → AreValid t'.quotes
unfolding convert_lead convert_loaded quote_of
convert_lead-AreValid lower access p l t t' a h =
    let (_, _, h0) = >>=-eq_ok (rethrow lead_error (assert_can_operate access lead_denied)) _ h in
    let (x, _, h1) =
      >>=-eq_ok (rethrow lead_error (load_lead p.organization_id p.lead_id t.leads)) _ h0 in
    let (_, _, h2) =
      >>=-eq_ok (throw_if (is_closed x.status) (lead_error invalid_lead_transition)) _ h1 in
    let ((c, customers), _, h3) =
      >>=-eq_ok
        (customer_of lower p x (find_customers_by_contact x.email x.phone t.customers) t.customers)
        _ h2 in
    let (q, e4, h4) = >>=-eq_ok (rethrow Conversion.quote_error (quote_of p x c t.services)) _ h3 in
    let (y, _, h5) = >>=-eq_ok (rethrow lead_error (convert c.id q.id p.converted_at x)) _ h4 in
    let (leads, _, h6) =
      >>=-eq_ok (rethrow lead_error (save_lead p.organization_id y t.leads)) _ h5 in
    let (b, e7, h7) =
      >>=-eq_ok (create (quote_params p x c) p.quote_at) _
        (rethrow-eq_ok Conversion.quote_error _ e4) in
    let v =
      add_service-IsValid p.item_id (quoted_service x t.services) b q
        (create-IsValid (quote_params p x c) p.quote_at e7).0 h7 in
    subst AreValid (ap (λ (r : LeadProps × LeadTables). r.1.quotes) (ok-eq h6))
      (cons-AreValid q t.quotes v a)

module _ {S : Type 0} (repo : Repository S) where
  -- A use case that succeeds and has the table before and after it; what else it reads is that of
  -- the moment.
  pub data Step (rows rows' : List QuoteProps) : Type 0 where
    changed :
        (customers : List CustomerProps) (services : List CatalogService) (access : AccessContext)
        (p : ChangeQuoteParams) (c : QuoteChange) (q : QuoteProps)
        → change_quote customers services access p c rows ≡ ok (q, rows')
        → Step rows rows'
    created :
        (customers : List CustomerProps) (services : List CatalogService) (access : AccessContext)
        (input : CreateQuoteInput) (now : Date) (q : QuoteProps)
        → create_quote customers services access input now rows ≡ ok (q, rows')
        → Step rows rows'
    approved_by_member :
        (access : AccessContext) (p : ApprovalParams) (q : QuoteProps) (t t' : Tables S)
        → t.quotes ≡ rows
        → approve_quote repo access p t ≡ ok (q, t')
        → t'.quotes ≡ rows'
        → Step rows rows'
    decided_through_link :
        (p : DecideParams) (r : DecisionResult) (t t' : PublicTables S)
        → t.company.quotes ≡ rows
        → public_decide repo p t ≡ ok (r, t')
        → t'.company.quotes ≡ rows'
        → Step rows rows'
    converted :
        (lower : Text → Text) (access : AccessContext) (p : ConvertParams) (l : LeadProps)
        (t t' : LeadTables)
        → t.quotes ≡ rows
        → convert_lead lower access p t ≡ ok (l, t')
        → t'.quotes ≡ rows'
        → Step rows rows'

  pub data Reach (rows : List QuoteProps) : List QuoteProps → Type 0 where
    here : Reach rows rows
    next : {mid rows' : List QuoteProps} → Reach rows mid → Step mid rows' → Reach rows rows'

  Step-AreValid : {rows rows' : List QuoteProps} → Step rows rows' → AreValid rows → AreValid rows'
  Step-AreValid {rows} {rows'} (changed customers services access p c q h) a =
      change-AreValid customers services access p c rows rows' q a h
  Step-AreValid {rows} {rows'} (created customers services access input now q h) a =
      create-AreValid customers services access input now rows rows' q a h
  Step-AreValid (approved_by_member access p q t t' i h j) a =
      subst AreValid j (approve_quote-AreValid repo access p q t t' (subst AreValid (sym i) a) h)
  Step-AreValid (decided_through_link p r t t' i h j) a =
      subst AreValid j (public_decide-AreValid repo p r t t' (subst AreValid (sym i) a) h)
  Step-AreValid (converted lower access p l t t' i h j) a =
      subst AreValid j (convert_lead-AreValid lower access p l t t' (subst AreValid (sym i) a) h)

  -- The table of quotes holds valid quotes only: whatever changes, creations, approvals by members,
  -- decisions through public links and conversions of leads succeed on it, one after another and on
  -- whichever of its quotes, from a table of valid quotes, such as an empty one, they lead to a
  -- table of valid quotes.
  pub Reach-AreValid :
      {rows rows' : List QuoteProps} → AreValid rows → Reach rows rows' → AreValid rows'
  Reach-AreValid a here = a
  Reach-AreValid a (next r s) = Step-AreValid s (Reach-AreValid a r)
