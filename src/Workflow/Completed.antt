-- ===== src/Workflow/Completed.antt =====
-- About the completion of an order: Workflow/Completion.
use mathlib.Core.Path.{subst}
use bom_trato_api.Prelude.{
  ◌+◌, ◌<◌, ◌≡◌, refl, sym, ap, ◌∙◌, true, Option, none, some, nat, arith, max_int, find-Mem,
  num_is, EntityId, ◌==◌, ==_refl, ==→eq,
}
use bom_trato_api.Prelude.Result.{Result, ok}
use bom_trato_api.Prelude.Date.{Date, is_valid}
use bom_trato_api.Organization.Access.{AccessContext, assert_can_operate}
use bom_trato_api.Quote.Types.{approved, QuoteProps, brl}
use bom_trato_api.Quote.Invariant.{IsValid}
use bom_trato_api.Quote.Store.{find_quote}
use bom_trato_api.WorkOrder.Types.{in_progress, completed, WorkOrderProps}
use bom_trato_api.WorkOrder.Entity.{assert_version, record_change, complete, schedule_to_check}
use bom_trato_api.WorkOrder.Store.{Orders, find_by_id, check_conflict, written, save}
use bom_trato_api.WorkOrder.Saved.{Stores, save-Stores}
use bom_trato_api.WorkOrder.Service.{denied}
use bom_trato_api.Receivable.Types.{ReceivableView, ReceivableError}
use bom_trato_api.Receivable.Repository.{Repository}
use bom_trato_api.Receivable.Charge.{Charge, assert_same_amount, initial_charge, final_charge}
use bom_trato_api.Receivable.Automation.{
  AutomatedReceivableParams, ensure_charge, ensure_final_receivable,
}
use bom_trato_api.Receivable.Charges.{amount_of, charges-total}
use bom_trato_api.Receivable.Billed.{billed, Unbilled, Accepts, ensure_charge-new}
use bom_trato_api.Workflow.Approval.{Tables, source_of}
use bom_trato_api.Workflow.Completion.{
  CompletionParams, due_at, final_params, complete_loaded, complete_work_order,
}
use bom_trato_api.Workflow.Started.{total-bounded, same-amount}

abbrev pub completed_at : CompletionParams → WorkOrderProps → WorkOrderProps
completed_at p w = record w { status = completed; completed_at = some p.now }

-- The order that a completion leaves.
abbrev pub completed_by : CompletionParams → WorkOrderProps → WorkOrderProps
completed_by p w = record w {
  status = completed;
  completed_at = some p.now;
  version = w.version + 1;
  updated_by_id = p.user_id;
  updated_at = p.now;
}

complete-started :
    (p : CompletionParams) (w : WorkOrderProps)
    → w.status ≡ in_progress
    → complete p.now w ≡ ok (completed_at p w)
unfolding complete
complete-started p w e = ground arith

no-slot :
    (p : CompletionParams) (w : WorkOrderProps) → schedule_to_check w (completed_at p w) ≡ ok none
unfolding schedule_to_check
no-slot p w = refl

unchecked : (rows : Orders) → check_conflict none rows ≡ ok tt
unfolding check_conflict
unchecked rows = refl

stamp-completed :
    (p : CompletionParams) (w : WorkOrderProps)
    → w.version < max_int
    → record_change p.user_id p.now (completed_at p w) ≡ ok (completed_by p w)
unfolding record_change
stamp-completed p w h = ground arith

order_version-ok :
    (p : CompletionParams) (w : WorkOrderProps)
    → p.version ≡ nat w.version
    → w.version < max_int
    → assert_version p.version w ≡ ok tt
unfolding assert_version
order_version-ok p w h b = ground arith

same_version-num :
    (p : CompletionParams) (w : WorkOrderProps)
    → p.version ≡ nat w.version
    → num_is p.version w.version ≡ true
same_version-num p w h = rw h (==_refl w.version)

written_self :
    (p : CompletionParams) (w : WorkOrderProps) → written (completed_by p w) w ≡ completed_by p w
unfolding written
written_self p w = refl

found_self :
    (id : EntityId) (rows : Orders) (w : WorkOrderProps)
    → find_by_id id rows ≡ some w
    → find_by_id w.id rows ≡ some w
found_self id rows w h =
    let (_, i) = find-Mem (λ row. row.id == id) rows w h in
    subst (λ x. find_by_id x rows ≡ some w) (sym (==→eq w.id id i)) h

saved_order :
    (p : CompletionParams) (w : WorkOrderProps) (rows : Orders)
    → find_by_id p.work_order_id rows ≡ some w
    → p.version ≡ nat w.version
    → (rows' : Orders) × (save (completed_by p w) p.version rows ≡ ok rows')
      × Stores (completed_by p w) rows rows'
saved_order p w rows f h =
    save-Stores (completed_by p w) w p.version rows (found_self p.work_order_id rows w f)
      (same_version-num p w h) (written_self p w)

module _ {S : Type 0} (repo : Repository S) where
  ensure_final-charge :
      (p : AutomatedReceivableParams) (due : Date) (s : S) (c : Option Charge)
      {r : Result ReceivableError (Option ReceivableView × S)}
      → assert_same_amount p.source p.quote ≡ ok tt
      → final_charge p.quote ≡ ok c
      → ensure_charge repo p due c s ≡ r
      → ensure_final_receivable repo p due s ≡ r
  unfolding ensure_final_receivable
  ensure_final-charge p due s c same e k = rw (same, e) k

  -- What is asked of the request and of the tables.
  pub record Completable (p : CompletionParams) (q : QuoteProps) (w : WorkOrderProps) (t : Tables S)
      : Type 0 where
    pub valid : IsValid q
    pub accepted : q.status ≡ approved
    pub quote_found : find_quote w.quote_id t.quotes ≡ some q
    pub order_found : find_by_id p.work_order_id t.orders ≡ some w
    pub started : w.status ≡ in_progress
    pub same_total : w.total_in_cents ≡ q.total_in_cents
    pub currency_brl : w.currency ≡ brl
    pub same_version : p.version ≡ nat w.version
    pub counted : w.version < max_int
    pub clock : is_valid p.now ≡ true
    pub due : is_valid (due_at p) ≡ true
    pub unbilled : Unbilled repo w.id (final_charge q) t.receivables
    pub accepts :
        Accepts repo w.organization_id p.user_id p.receivable_id w.id w.customer_id t.receivables

  -- The completion of a started order goes through. When the company may operate, the order is in
  -- progress, in the currency of the program, of the version that the request names and of the
  -- total of its approved valid quote, the dates are valid, the last charge has not been booked and
  -- the table of receivables takes a receivable of the order, then the call succeeds: it returns the
  -- completed order with its version raised by one and stores it, leaving every other order as it
  -- was, and books an amount which together with the charge at the
  -- approval is the total of the quote.
  pub complete_work_order-total :
      (access : AccessContext) (p : CompletionParams) (q : QuoteProps) (w : WorkOrderProps)
      (t : Tables S)
      → assert_can_operate access denied ≡ ok tt
      → Completable p q w t
      → (first : Option Charge) × (t' : Tables S) × (v : Option ReceivableView)
        × (complete_work_order repo access p t ≡ ok (completed_by p w, t'))
        × Stores (completed_by p w) t.orders t'.orders
        × (ensure_final_receivable repo
              (final_params p q (completed_at p w))
              (due_at p)
              t.receivables
            ≡ ok (v, t'.receivables))
        × (initial_charge q ≡ ok first)
        × (amount_of first + billed v ≡ q.total_in_cents)
  unfolding complete_work_order complete_loaded
  complete_work_order-total access p q w t o a =
      let order : WorkOrderProps = completed_at p w in
      let (x, y, ex, ey, sum, _, within) = charges-total q a.valid a.accepted in
      let (v, s', k, e) =
        ensure_charge-new repo (final_params p q order) (due_at p) t.receivables y refl refl
          a.currency_brl (rw a.same_total (total-bounded a.valid)) a.due a.clock
          (λ c h. a.unbilled c (ey ∙ h)) a.accepts (rw a.same_total within) in
      let same : assert_same_amount (source_of order) q ≡ ok tt =
        same-amount q order a.same_total in
      let (rows, z, stored) = saved_order p w t.orders a.order_found a.same_version in
      let final =
        ensure_final-charge (final_params p q order) (due_at p) t.receivables y same ey k in
      let f = a.order_found in
      let g = a.quote_found in
      let ver = order_version-ok p w a.same_version a.counted in
      let c = complete-started p w a.started in
      let st = stamp-completed p w a.counted in
      (
        x,
        record t { orders = rows; receivables = s' },
        v,
        rw (o, f, ver, c, g, final, no-slot p w, unchecked t.orders, st, z) refl,
        stored,
        final,
        ex,
        ap (λ n. amount_of x + n) e ∙ sum,
      )
