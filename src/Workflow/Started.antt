-- ===== src/Workflow/Started.antt =====
-- About the approval of a quote: Workflow/Approval.
use mathlib.Core.Path.{subst}
use bom_trato_api.Prelude.{
  ◌+◌, ◌≤◌, ◌<◌, ◌≡◌, inl, inr, refl, sym, ap, ◌∙◌, true, Option, none, some, List, ◌∷◌, nat, arith,
  length, max_int, find, find-Mem, num_is, EntityId, ◌==◌, ==_refl, ==→eq,
}
use bom_trato_api.Prelude.Result.{ok}
use bom_trato_api.Prelude.Date.{is_valid}
use bom_trato_api.Organization.Access.{AccessContext, assert_can_operate}
use bom_trato_api.Quote.Types.{sent, approved, QuoteProps, brl}
use bom_trato_api.Quote.Entity.{assert_version, record_change, approve}
use bom_trato_api.Quote.Invariant.{IsValid, approve-IsValid}
use bom_trato_api.Quote.Lifecycle.{Unexpired}
use bom_trato_api.Quote.Store.{find_quote, distinct_ids, written_quote, save_quote}
use bom_trato_api.Quote.Saved.{Stores, save_quote-Stores}
use bom_trato_api.WorkOrder.Types.{WorkOrderProps}
use bom_trato_api.WorkOrder.Creation.{find_by_quote_id}
use bom_trato_api.WorkOrder.Mirror.{Mirrors, FitsAddress, ensure_work_order-Mirrors}
use bom_trato_api.Receivable.Types.{ReceivableView, ReceivableKind}
use bom_trato_api.Receivable.Entity.{order_canceled}
use bom_trato_api.Receivable.Repository.{Repository}
use bom_trato_api.Receivable.Charge.{Charge, assert_same_amount, initial_charge}
use bom_trato_api.Receivable.Automation.{ensure_initial_receivable}
use bom_trato_api.Receivable.Charges.{amount_of, charges-total}
use bom_trato_api.Receivable.Billed.{billed, Accepts, ensure_charge-new}
use bom_trato_api.Workflow.Approval.{
  quote_denied, Tables, ApprovalParams, source_of, order_params, receivable_params, start_work,
  approve_loaded, approve_quote,
}

-- The quote that an approval leaves.
abbrev pub approved_by : ApprovalParams → QuoteProps → QuoteProps
approved_by p q = record q {
  status = approved;
  decided_at = some p.now;
  version = q.version + 1;
  updated_by_id = some p.user_id;
  updated_at = p.now;
}

abbrev pub approved_at : ApprovalParams → QuoteProps → QuoteProps
approved_at p q = record q { status = approved; decided_at = some p.now }

pub approve-sent :
    (p : ApprovalParams) (q : QuoteProps)
    → q.status ≡ sent
    → Unexpired q.valid_until p.now
    → approve p.now q ≡ ok (approved_at p q)
unfolding approve
approve-sent p q e u = ground arith

stamp-approved :
    (p : ApprovalParams) (q : QuoteProps)
    → q.version < max_int
    → record_change (some p.user_id) p.now (approved_at p q) ≡ ok (approved_by p q)
unfolding record_change
stamp-approved p q h = ground arith

same_version-num :
    (p : ApprovalParams) (q : QuoteProps)
    → p.version ≡ nat q.version
    → num_is p.version q.version ≡ true
same_version-num p q h = rw h (==_refl q.version)

written_self :
    (p : ApprovalParams) (q : QuoteProps) → written_quote (approved_by p q) q ≡ approved_by p q
unfolding written_quote
written_self p q = refl

-- What is found under an identifier is found under its own.
pub found_self :
    (id : EntityId) (rows : List QuoteProps) (q : QuoteProps)
    → find_quote id rows ≡ some q
    → find_quote q.id rows ≡ some q
unfolding find_quote
found_self id rows q h =
    let (_, i) = find-Mem (λ row. row.id == id) rows q h in
    subst (λ x. find (λ (row : QuoteProps). row.id == x) rows ≡ some q) (sym (==→eq q.id id i)) h

version-ok :
    (p : ApprovalParams) (q : QuoteProps)
    → p.version ≡ nat q.version
    → q.version < max_int
    → assert_version p.version q ≡ ok tt
unfolding assert_version
version-ok p q h b = ground arith

some-none : {A : Type 0} {a : A} → some a ≡ none → ⊥
some-none h = cc

pub total-bounded : {q : QuoteProps} → IsValid q → q.total_in_cents ≤ max_int
total-bounded v = ground (arith, v.discounted, v.bounded)

pub same-amount :
    (q : QuoteProps) (order : WorkOrderProps)
    → order.total_in_cents ≡ q.total_in_cents
    → assert_same_amount (source_of order) q ≡ ok tt
unfolding assert_same_amount
same-amount q order e = ground arith

module _ {S : Type 0} (repo : Repository S) where
  initial-new :
      (p : ApprovalParams) (q : QuoteProps) (order : WorkOrderProps) (s : S)
      → IsValid q
      → q.status ≡ approved
      → Mirrors q order
      → q.currency ≡ brl
      → q.total_in_cents ≤ max_int
      → is_valid p.now ≡ true
      → ((kind : ReceivableKind) → repo.find_by_work_order_id_and_kind order.id kind s ≡ none)
      → Accepts repo q.organization_id p.user_id p.receivable_id order.id q.customer_id s
      → (c : Option Charge) × (v : Option ReceivableView) × (s' : S) × (initial_charge q ≡ ok c)
        × (ensure_initial_receivable repo (receivable_params p q order) s ≡ ok (v, s'))
        × (billed v ≡ amount_of c)
  unfolding ensure_initial_receivable
  initial-new p q order s v a m b t d f acc =
      let (c, _, ec, _, _, w, _) = charges-total q v a in
      let (x, s', k, e) =
        ensure_charge-new repo (receivable_params p q order) p.now s c m.same_organization
          (ap order_canceled m.is_open) (m.same_currency ∙ b) (rw m.same_total t) d d
          (λ x _. f x.kind)
          (subst (λ x. Accepts repo q.organization_id p.user_id p.receivable_id order.id x s)
            (sym m.same_customer) acc)
          (rw m.same_total w) in
      let same : assert_same_amount (source_of order) q ≡ ok tt =
        same-amount q order m.same_total in
      (c, x, s', ec, rw (same, ec) k, e)

  -- What is asked of the request and of the tables.
  pub record Approvable (p : ApprovalParams) (q : QuoteProps) (t : Tables S) : Type 0 where
    pub valid : IsValid q
    pub offered_now : (q.status ≡ sent) × Unexpired q.valid_until p.now
    pub currency_brl : q.currency ≡ brl
    pub found : find_quote p.quote_id t.quotes ≡ some q
    pub same_version : p.version ≡ nat q.version
    pub counted : q.version < max_int
    pub distinct : distinct_ids q.items ≡ true
    pub fresh_items : length p.item_ids ≡ length q.items
    pub address_fits : FitsAddress p.service_address
    pub clock : is_valid p.now ≡ true
    pub no_order : find_by_quote_id q.id t.orders ≡ none
    pub no_receivable :
        (kind : ReceivableKind)
        → repo.find_by_work_order_id_and_kind p.order_id kind t.receivables ≡ none
    pub accepts :
        Accepts repo q.organization_id p.user_id p.receivable_id p.order_id q.customer_id
          t.receivables

  -- What the approval leaves: the order and the charge that it makes.
  pub record Started (p : ApprovalParams) (q : QuoteProps) (t t' : Tables S) : Type 0 where
    pub order : WorkOrderProps
    pub charge : Option Charge
    pub view : Option ReceivableView
    pub orders_added : t'.orders ≡ order ∷ t.orders
    pub mirrors : Mirrors q order
    pub charged : initial_charge q ≡ ok charge
    pub booked :
        ensure_initial_receivable repo (receivable_params p q order) t.receivables
        ≡ ok (view, t'.receivables)
    pub amount_booked : billed view ≡ amount_of charge

  pub start_work-Started :
      (p : ApprovalParams) (q : QuoteProps) (t : Tables S)
      → Approvable p q t
      → (t' : Tables S) × (start_work repo p (approved_at p q) t ≡ ok t')
        × (t'.quotes ≡ t.quotes)
        × Started p (approved_at p q) t t'
  unfolding start_work
  start_work-Started p q t a =
      let q' : QuoteProps = approved_at p q in
      let e = approve-sent p q a.offered_now.0 a.offered_now.1 in
      let v : IsValid q' = approve-IsValid p.now a.valid e in
      elim (ensure_work_order-Mirrors (order_params p q') t.orders refl v a.fresh_items
        a.address_fits) [
          | inl (o, k, _) ↦ absurd (some-none (sym k ∙ a.no_order))
          | inr (o, _, k, m, i) ↦
              let (c, x, s', ec, ek, eb) =
                initial-new p q' o t.receivables v refl m a.currency_brl (total-bounded v) a.clock
                  (λ kind. rw i (a.no_receivable kind)) (rw i a.accepts) in
              (
                record t { orders = o ∷ t.orders; receivables = s' },
                rw (k, ek) refl,
                refl,
                record {
                  order = o;
                  charge = c;
                  view = x;
                  orders_added = refl;
                  mirrors = m;
                  charged = ec;
                  booked = ek;
                  amount_booked = eb;
                },
              )
        ]

  saved :
      (p : ApprovalParams) (q : QuoteProps) (t : Tables S)
      → Approvable p q t
      → (rows : List QuoteProps) × (save_quote (approved_by p q) p.version t.quotes ≡ ok rows)
        × Stores (approved_by p q) t.quotes rows
  saved p q t a =
      save_quote-Stores (approved_by p q) q p.version t.quotes
        (found_self p.quote_id t.quotes q a.found) (same_version-num p q a.same_version) a.distinct
        (written_self p q)

  -- The approval of an offer goes through. When the company may operate, the quote is sent, valid,
  -- unexpired, in the currency of the program and of the version that the request names, has no
  -- order yet, the address is of at most 500 characters, the identifiers are fresh and the table of
  -- receivables takes a receivable of the new order, then the call succeeds: it returns the approved
  -- quote with its version raised by one and stores it, leaving every other quote as it was, adds
  -- exactly one open order, which is that of the quote, and books the charge that the payment
  -- condition asks for first.
  pub approve_quote-Started :
      (access : AccessContext) (p : ApprovalParams) (q : QuoteProps) (t : Tables S)
      → assert_can_operate access quote_denied ≡ ok tt
      → Approvable p q t
      → (t' : Tables S) × (approve_quote repo access p t ≡ ok (approved_by p q, t'))
        × Stores (approved_by p q) t.quotes t'.quotes
        × Started p (approved_at p q) t t'
  unfolding approve_quote approve_loaded
  approve_quote-Started access p q t o a =
      let (t1, e1, same, st) = start_work-Started p q t a in
      let e = approve-sent p q a.offered_now.0 a.offered_now.1 in
      let r = stamp-approved p q a.counted in
      let (rows, k, stored) = saved p q t a in
      let k1 : save_quote (approved_by p q) p.version t1.quotes ≡ ok rows =
        ap (save_quote (approved_by p q) p.version) same ∙ k in
      let f = a.found in
      let w = version-ok p q a.same_version a.counted in
      (
        record t1 { quotes = rows },
        rw (o, f, w, e, e1, r, k1) refl,
        stored,
        record {
          order = st.order;
          charge = st.charge;
          view = st.view;
          orders_added = st.orders_added;
          mirrors = st.mirrors;
          charged = st.charged;
          booked = st.booked;
          amount_booked = st.amount_booked;
        },
      )
