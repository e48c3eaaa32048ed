-- ===== src/Workflow/PublicApproval.antt =====
-- About the approval through the public link, `public_decide` in Workflow/PublicDecision, beside
-- the approval by a member, `approve_quote` in Workflow/Approval.
use bom_trato_api.Prelude.{
  ◌+◌, ◌<◌, ◌≡◌, refl, sym, ap, ◌∙◌, true, Option, none, some, List, EntityId, nat, arith, any-Mem,
  find-Mem, max_int, ==_refl, update_where, num_is,
}
use bom_trato_api.Prelude.Result.{ok, rethrow, >>=-eq_ok, ok-eq}
use bom_trato_api.Organization.Access.{AccessContext, assert_can_operate}
use bom_trato_api.Quote.Types.{approved, QuoteProps}
use bom_trato_api.Quote.Entity.{record_change, assert_version}
use bom_trato_api.Quote.Lifecycle.{Unexpired}
use bom_trato_api.Quote.Share.{
  QuoteShareProps, approve_it, assert_readable, decide_first, decide_share,
}
use bom_trato_api.Quote.Store.{find_quote, written_quote, save_quote}
use bom_trato_api.Quote.Saved.{Stores, save_quote-Stores}
use bom_trato_api.WorkOrder.Types.{WorkOrderProps}
use bom_trato_api.WorkOrder.Entity.{create, created}
use bom_trato_api.WorkOrder.Store.{Orders}
use bom_trato_api.WorkOrder.Creation.{new_order, ensure_or_create, ensure_work_order}
use bom_trato_api.Receivable.Repository.{Repository}
use bom_trato_api.Receivable.Charge.{assert_same_amount, initial_charge}
use bom_trato_api.Receivable.Automation.{ensure_charge, ensure_initial_receivable}
use bom_trato_api.Workflow.Approval.{
  quote_denied, Tables, ApprovalParams, order_params, receivable_params, start_work, approve_quote,
  approve_loaded, quote_error, work_order_error, receivable_error,
}
use bom_trato_api.Workflow.Started.{
  approved_by, approved_at, Approvable, Started, found_self, approve-sent, start_work-Started,
  approve_quote-Started,
}
use bom_trato_api.Workflow.PublicDecision.{
  PublicTables, DecideParams, find_share, is_undecided, decided_row, save_decision, owner_params,
  decision_result, start_decided, save_decided, save_if_changed, public_load, public_decide,
}

-- The approved quote as the link leaves it.
abbrev pub approved_through : DecideParams → QuoteProps → QuoteProps
approved_through p q = record q {
  status = approved;
  decided_at = some p.decided_at;
  version = q.version + 1;
  updated_by_id = none;
  updated_at = p.decided_at;
}

abbrev pub decided_share : DecideParams → QuoteProps → QuoteShareProps → QuoteShareProps
decided_share p q s = record s {
  decision = some approved;
  decided_at = some p.decided_at;
  decided_version = some (q.version + 1);
}

stamp-through :
    (p : DecideParams) (q : QuoteProps)
    → q.version < max_int
    → record_change none p.decided_at
        (record q { status = approved; decided_at = some p.decided_at })
      ≡ ok (approved_through p q)
unfolding record_change
stamp-through p q h = ground arith

written-through :
    (p : DecideParams) (q : QuoteProps)
    → written_quote (approved_through p q) q ≡ approved_through p q
unfolding written_quote
written-through p q = refl

module _ {S : Type 0} (repo : Repository S) where
  -- The work does not look at who decided and when.
  same-new :
      (a : ApprovalParams) (p : DecideParams) (q : QuoteProps)
      → new_order (order_params a (approved_through p q))
        ≡ new_order (order_params a (approved_at a q))
  unfolding new_order create created
  same-new a p q = refl

  same-ensured :
      (a : ApprovalParams) (p : DecideParams) (q : QuoteProps) (found : Option WorkOrderProps)
      (rows : Orders)
      → ensure_or_create found (order_params a (approved_through p q)) rows
        ≡ ensure_or_create found (order_params a (approved_at a q)) rows
  unfolding ensure_or_create
  same-ensured a p q (some w) rows = refl
  same-ensured a p q none rows = rw (same-new a p q) refl

  same-order :
      (a : ApprovalParams) (p : DecideParams) (q : QuoteProps) (rows : Orders)
      → ensure_work_order (order_params a (approved_through p q)) rows
        ≡ ensure_work_order (order_params a (approved_at a q)) rows
  unfolding ensure_work_order
  same-order a p q rows = same-ensured a p q _ rows

  same-receivable :
      (a : ApprovalParams) (p : DecideParams) (q : QuoteProps) (order : WorkOrderProps) (s : S)
      → ensure_initial_receivable repo (receivable_params a (approved_through p q) order) s
        ≡ ensure_initial_receivable repo (receivable_params a (approved_at a q) order) s
  unfolding ensure_initial_receivable ensure_charge assert_same_amount initial_charge
  same-receivable a p q order s = refl

  -- Started on the tables of a company whose quotes were just saved.
  work-moves :
      (a : ApprovalParams) (p : DecideParams) (q : QuoteProps) (rows : List QuoteProps)
      (t t' : Tables S)
      → start_work repo a (approved_at a q) t ≡ ok t'
      → start_work repo a (approved_through p q) (record t { quotes = rows })
        ≡ ok (record t' { quotes = rows })
  unfolding start_work
  work-moves a p q rows t t' h =
      let ((order, orders), e, k) =
        >>=-eq_ok
          (rethrow work_order_error (ensure_work_order (order_params a (approved_at a q)) t.orders))
          _ h in
      let ((view, receivables), f, l) =
        >>=-eq_ok
          (rethrow receivable_error (
            ensure_initial_receivable repo (receivable_params a (approved_at a q) order)
              t.receivables))
          _ k in
      rw (same-order a p q t.orders, e, same-receivable a p q order t.receivables, f)
        (ap (λ (x : Tables S). ok (record x { quotes = rows })) (ok-eq l))

  -- What is asked of the request and of the tables: the link is readable, undecided and without a
  -- request for a change, the quote has not expired, and the work can be started in the name of
  -- the owner.
  pub record Decidable (p : DecideParams) (owner : EntityId) (q : QuoteProps) (s : QuoteShareProps)
      (t : PublicTables S) : Type 0 where
    pub wants : p.decision ≡ approve_it
    pub has_owner : p.owner_id ≡ some owner
    pub share_found : find_share p.token_hash t.shares ≡ some s
    pub quote_found : find_quote s.quote_id t.company.quotes ≡ some q
    pub readable : assert_readable q p.loaded_at s ≡ ok tt
    pub readable_then : assert_readable q p.decided_at s ≡ ok tt
    pub shared_version : num_is p.version s.quote_version ≡ true
    pub unrevoked : s.revoked_at ≡ none
    pub undecided : s.decision ≡ none
    pub no_request : s.change_requested_at ≡ none
    pub unexpired : Unexpired q.valid_until p.decided_at
    pub work : Approvable repo (owner_params p owner q) q t.company

  decides :
      (p : DecideParams) (owner : EntityId) (q : QuoteProps) (s : QuoteShareProps)
      (t : PublicTables S)
      → Decidable p owner q s t
      → decide_share q p.decision p.version p.decided_at s
        ≡ ok (true, approved_through p q, decided_share p q s)
  unfolding decide_share decide_first
  decides p owner q s t d =
      let at_decision : ApprovalParams = record (owner_params p owner q) { now = p.decided_at } in
      let e = approve-sent at_decision q d.work.offered_now.0 d.unexpired in
      let f = stamp-through p q d.work.counted in
      let r = d.readable_then in
      let v = d.shared_version in simp (d.wants, r, v, d.no_request, d.undecided, e, f)

  saves-quote :
      (p : DecideParams) (owner : EntityId) (q : QuoteProps) (s : QuoteShareProps)
      (t : PublicTables S)
      → Decidable p owner q s t
      → (rows : List QuoteProps) × (save_quote
            (approved_through p q)
            (nat q.version)
            t.company.quotes
          ≡ ok rows)
        × Stores (approved_through p q) t.company.quotes rows
  saves-quote p owner q s t d =
      save_quote-Stores (approved_through p q) q (nat q.version) t.company.quotes
        (found_self s.quote_id t.company.quotes q d.quote_found) (==_refl q.version) d.work.distinct
        (written-through p q)

  saves-share :
      (p : DecideParams) (owner : EntityId) (q : QuoteProps) (s : QuoteShareProps)
      (t : PublicTables S)
      → Decidable p owner q s t
      → save_decision (decided_share p q s) t.shares
        ≡ ok (update_where (is_undecided s.id) (decided_row (decided_share p q s)) t.shares)
  unfolding save_decision find_share is_undecided
  saves-share p owner q s t d =
      let m = (find-Mem _ t.shares s d.share_found).0 in
      let open_share : is_undecided s.id s ≡ true =
        simp (==_refl s.id, d.unrevoked, d.undecided, d.no_request) in
      let here = any-Mem (is_undecided s.id) t.shares m open_share in rw here refl

  -- The work that a member's approval has started.
  work-of :
      (access : AccessContext) (a : ApprovalParams) (q : QuoteProps) (t m : Tables S)
      → assert_can_operate access quote_denied ≡ ok tt
      → Approvable repo a q t
      → approve_quote repo access a t ≡ ok (approved_by a q, m)
      → (t1 : Tables S) × (start_work repo a (approved_at a q) t ≡ ok t1)
        × (t1.orders ≡ m.orders)
        × (t1.receivables ≡ m.receivables)
  unfolding approve_quote approve_loaded
  work-of access a q t m o w h =
      let e = approve-sent a q w.offered_now.0 w.offered_now.1 in
      let f = w.found in
      let h1 = rw (o, f) at h in
      let (_, _, h2) = >>=-eq_ok (rethrow quote_error (assert_version a.version q)) _ h1 in
      let h3 = rw e at h2 in
      let (t1, e1, h4) = >>=-eq_ok (start_work repo a (approved_at a q) t) _ h3 in
      let (c, _, h5) =
        >>=-eq_ok (rethrow quote_error (record_change (some a.user_id) a.now (approved_at a q))) _
          h4 in
      let (rows, _, h6) = >>=-eq_ok (rethrow quote_error (save_quote c a.version t1.quotes)) _ h5 in
      (
        t1,
        e1,
        ap (λ (x : QuoteProps × Tables S). x.1.orders) (ok-eq h6),
        ap (λ (x : QuoteProps × Tables S). x.1.receivables) (ok-eq h6),
      )

  -- The customer's approval does what the owner's would. When the company may operate, and the
  -- link and the quote are as `Decidable` says, the call succeeds: it answers with the approval,
  -- its time and the raised version, keeps them in the share, stores the approved quote, leaving
  -- every other quote as it was, and leaves the very work orders and
  -- receivables that the approval of the same quote by the owner leaves, which succeeds too: one
  -- open order, which is that of the quote, and the charge that the payment condition asks for
  -- first.
  pub public_decide-approve_quote :
      (access : AccessContext) (p : DecideParams) (owner : EntityId) (q : QuoteProps)
      (s : QuoteShareProps) (t : PublicTables S)
      → assert_can_operate access quote_denied ≡ ok tt
      → Decidable p owner q s t
      → (t' : PublicTables S) × (m : Tables S) × (public_decide repo p t
          ≡ ok (
            record { status = approved; decided_at = p.decided_at; version = q.version + 1 },
            t',
          ))
        × (t'.shares
            ≡ update_where (is_undecided s.id) (decided_row (decided_share p q s)) t.shares)
        × Stores (approved_through p q) t.company.quotes t'.company.quotes
        × (approve_quote repo access (owner_params p owner q) t.company
            ≡ ok (approved_by (owner_params p owner q) q, m))
        × (t'.company.orders ≡ m.orders)
        × (t'.company.receivables ≡ m.receivables)
        × Started repo (owner_params p owner q) (approved_at (owner_params p owner q) q) t.company m
  unfolding public_decide public_load save_if_changed save_decided start_decided decision_result
  public_decide-approve_quote access p owner q s t o d =
      let a = owner_params p owner q in
      let (m, em, _, st) = approve_quote-Started repo access a q t.company o d.work in
      let (t1, e1, same, st1) = start_work-Started repo a q t.company d.work in
      let approved-work = work-of access a q t.company m o d.work em in
      let (rows, eq, stored) = saves-quote p owner q s t d in
      let es = saves-share p owner q s t d in
      let w = work-moves a p q rows t.company t1 e1 in
      let shares = update_where (is_undecided s.id) (decided_row (decided_share p q s)) t.shares in
      (
        record { company = record t1 { quotes = rows }; shares = shares },
        m,
        rw
            (
              d.share_found,
              d.quote_found,
              d.readable,
              decides p owner q s t d,
              eq,
              es,
              d.has_owner,
              d.wants,
              w,
            )
            refl,
        refl,
        stored,
        em,
        ap (λ (x : Tables S). x.orders) (ok-eq (sym e1 ∙ approved-work.1)) ∙ approved-work.2,
        ap (λ (x : Tables S). x.receivables) (ok-eq (sym e1 ∙ approved-work.1)) ∙ approved-work.3,
        st,
      )
