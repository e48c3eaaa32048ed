-- ===== src/Billing/Reports.antt =====
-- About the reports of the payment provider: Billing/Processor.
use bom_trato_api.Prelude.{
  ◌≡◌, inl, inr, refl, sym, ap, ◌∙◌, true, false, ◌||◌, Option, none, some, arith, Bool-cases,
  EntityId,
}
use bom_trato_api.Prelude.Result.{Result, ok, err, >>=-eq_ok}
use bom_trato_api.Prelude.Date.{Date, date_le, spans, from_seconds}
use bom_trato_api.Billing.Types.{
  BillingError, billing_reconciliation_required, immediate, period_end, PlanChangeStatus,
  processing, PlanChangeProps, PlanChangeReferences,
}
use bom_trato_api.Billing.PlanChange.{
  same_status, is_quoted, is_processing, is_terminal, transition, mark_payment_pending,
  mark_scheduled, mark_applied, mark_canceled, mark_expired, given_or_kept, record_references,
}
use bom_trato_api.Billing.Processor.{
  RemoteStatus, pending_payment, scheduled, applied, canceled, expired, RemotePlanChangeState, mark,
  save_remote, retry_window, started_within, may_execute, refresh_unfinished, refresh,
}

true_ne_false : true ≡ false → ⊥
true_ne_false h = cc

err_ne_ok :
    {A : Type 0} {e : BillingError} {a : A} → ◌≡◌ {A = Result BillingError A} (err e) (ok a) → ⊥
err_ne_ok h = cc

abbrev pub status_of : RemoteStatus → PlanChangeStatus
status_of pending_payment = PlanChangeStatus.pending_payment
status_of scheduled = PlanChangeStatus.scheduled
status_of applied = PlanChangeStatus.applied
status_of canceled = PlanChangeStatus.canceled
status_of expired = PlanChangeStatus.expired

mark-status :
    (r : RemoteStatus) (c c' : PlanChangeProps)
    → mark r c ≡ ok c'
    → (c'.status ≡ status_of r)
      × (c'.mode ≡ c.mode)
      × (c'.stripe_invoice_id ≡ c.stripe_invoice_id)
      × (c'.stripe_schedule_id ≡ c.stripe_schedule_id)
unfolding mark mark_payment_pending mark_scheduled mark_applied mark_canceled mark_expired
    transition same_status
mark-status pending_payment c c' h = ground arith
mark-status scheduled c c' h = ground arith
mark-status applied c c' h = ground arith
mark-status canceled c c' h = ground arith
mark-status expired c c' h = ground arith

kept-same : (x y : Option EntityId) → given_or_kept x (given_or_kept x y) ≡ given_or_kept x y
unfolding given_or_kept
kept-same none y = refl
kept-same (some x) y = refl

references-same :
    (r : PlanChangeReferences) (c : PlanChangeProps)
    → record_references r (record_references r c) ≡ record_references r c
unfolding record_references
references-same r c =
    rw
      (
        kept-same r.stripe_invoice_id c.stripe_invoice_id,
        kept-same r.stripe_schedule_id c.stripe_schedule_id,
      )
      refl

-- A change in the status that is reported is left as it is.
mark-again :
    (r : RemoteStatus) (c : PlanChangeProps)
    → c.status ≡ status_of r
    → (r ≡ pending_payment → c.mode ≡ immediate)
    → (r ≡ scheduled → c.mode ≡ period_end)
    → mark r c ≡ ok c
unfolding mark mark_payment_pending mark_scheduled mark_applied mark_canceled mark_expired
    transition same_status
mark-again pending_payment c e p s = let m = p refl in ground arith
mark-again scheduled c e p s = let m = s refl in ground arith
mark-again applied c e p s = ground arith
mark-again canceled c e p s = ground arith
mark-again expired c e p s = ground arith

mark-mode :
    (r : RemoteStatus) (c c' : PlanChangeProps)
    → mark r c ≡ ok c'
    → (r ≡ pending_payment → c.mode ≡ immediate) × (r ≡ scheduled → c.mode ≡ period_end)
unfolding mark mark_payment_pending mark_scheduled
mark-mode pending_payment c c' h = (λ e. ground arith, λ e. cc)
mark-mode scheduled c c' h = (λ e. cc, λ e. ground arith)
mark-mode applied c c' h = (λ e. cc, λ e. cc)
mark-mode canceled c c' h = (λ e. cc, λ e. cc)
mark-mode expired c c' h = (λ e. cc, λ e. cc)

references-kept :
    (r : PlanChangeReferences) (c : PlanChangeProps)
    → ((record_references r c).status ≡ c.status) × ((record_references r c).mode ≡ c.mode)
unfolding record_references
references-kept r c = (refl, refl)

-- What is reported is stored: after a successful call the change has the reported status, and the
-- same report delivered again succeeds and changes nothing.
pub save_remote-again :
    (c c' : PlanChangeProps) (remote : RemotePlanChangeState)
    → save_remote c remote ≡ ok c'
    → (c'.status ≡ status_of remote.status) × (save_remote c' remote ≡ ok c')
unfolding save_remote
save_remote-again c c' remote h =
    let (m, e, k) = >>=-eq_ok (mark remote.status c) _ h in
    let k' : record_references remote.references m ≡ c' = cc in
    let a = mark-status remote.status c m e in
    let b = mark-mode remote.status c m e in
    let r = references-kept remote.references m in
    let s : c'.status ≡ status_of remote.status = ap (λ x. x.status) (sym k') ∙ r.0 ∙ a.0 in
    let t : c'.mode ≡ c.mode = ap (λ x. x.mode) (sym k') ∙ r.1 ∙ a.1 in
    let again = mark-again remote.status c' s (λ q. t ∙ b.0 q) (λ q. t ∙ b.1 q) in
    let fix : record_references remote.references c' ≡ c' =
      ap (record_references remote.references) (sym k')
      ∙ references-same remote.references m
      ∙ k' in
    (s, rw (again, fix) refl)

abbrev pub MayExecute : Date → PlanChangeProps → Type 0
MayExecute now c =
    (c.status ≡ processing)
    × ((start : Date) × (c.started_at ≡ some start) × (spans start now retry_window ≡ false))
    × (date_le (from_seconds c.period_end) now ≡ false)

started_within-some :
    (o : Option Date) (now : Date)
    → started_within o now ≡ true
    → (start : Date) × (o ≡ some start) × (spans start now retry_window ≡ false)
started_within-some none now h = absurd (ground arith)
started_within-some (some start) now h = (
  start,
  refl,
  elim (Bool-cases (spans start now retry_window)) [
    | inl t ↦ absurd (true_ne_false (sym (rw t at h)))
    | inr f ↦ f
  ],
)

may_execute-parts : (now : Date) (c : PlanChangeProps) → may_execute now c ≡ true → MayExecute now c
unfolding may_execute is_processing same_status
may_execute-parts now c h =
    let a : c.status ≡ processing = ground arith in
    let b : started_within c.started_at now ≡ true = ground arith in
    let d : date_le (from_seconds c.period_end) now ≡ false = ground arith in
    (a, started_within-some c.started_at now b, d)

executed :
    (execute : PlanChangeProps → RemotePlanChangeState) (now : Date) (c c' : PlanChangeProps)
    → refresh_unfinished execute none now c ≡ ok c'
    → (c.status ≡ processing)
      × ((start : Date) × (c.started_at ≡ some start) × (spans start now retry_window ≡ false))
      × (date_le (from_seconds c.period_end) now ≡ false)
      × (save_remote c (execute c) ≡ ok c')
unfolding refresh_unfinished
executed execute now c c' h = elim (Bool-cases (may_execute now c)) [
  | inl t ↦ let m = may_execute-parts now c t in (m.0, m.1, m.2, rw t at h)
  | inr f ↦ absurd (err_ne_ok (rw f at h))
]

-- The only case in which a refresh asks the provider to carry a change out: nothing is reported,
-- the change is being processed, was started less than 23 hours ago, and its period has not ended.
-- In every other case without a report it fails, and a quoted or finished change is never touched.
pub refresh-executes :
    (inspect : PlanChangeProps → Option RemotePlanChangeState)
    (execute : PlanChangeProps → RemotePlanChangeState) (now : Date) (c : PlanChangeProps)
    → inspect c ≡ none
    → ((is_quoted c || is_terminal c) ≡ true → refresh inspect execute now c ≡ ok c)
      × ((is_quoted c || is_terminal c) ≡ false
          → ((c' : PlanChangeProps)
              → refresh inspect execute now c ≡ ok c'
              → (c.status ≡ processing)
                × ((start : Date) × (c.started_at ≡ some start)
                    × (spans start now retry_window ≡ false))
                × (date_le (from_seconds c.period_end) now ≡ false)
                × (save_remote c (execute c) ≡ ok c'))
            × (may_execute now c ≡ false
                → refresh inspect execute now c ≡ err billing_reconciliation_required))
unfolding refresh refresh_unfinished
refresh-executes inspect execute now c n = (
  (λ t. rw t refl),
  λ f. ((λ c' h. executed execute now c c' (rw (f, n) at h)), λ m. rw (f, n, m) refl),
)
