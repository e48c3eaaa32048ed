-- ===== src/Billing/PlanLife.antt =====
-- The calls of the methods of a change of plan as steps, on Billing/PlanChange.
use bom_trato_api.Prelude.{
  ◌≤◌, ◌<◌, ◌≡◌, ◌≢◌, ◌⊎◌, ◌↔◌, inl, inr, refl, ◌∙◌, true, false, none, some, is_some, arith,
}
use bom_trato_api.Prelude.Result.{ok}
use bom_trato_api.Prelude.Date.{Date, date_le}
use bom_trato_api.Billing.Types.{
  immediate, period_end, PlanChangeStatus, quoted, processing, pending_payment, scheduled, applied,
  canceled, expired, PlanChangeProps, CreatePlanChangeParams, PlanChangeReferences,
}
use bom_trato_api.Billing.PlanChange.{
  created, create, same_status, is_quoted, is_quote_expired, confirm, transition,
  mark_payment_pending, mark_scheduled, mark_applied, mark_canceled, mark_expired,
  record_references,
}

-- What each status promises, and the order of the times.
pub record IsValid (c : PlanChangeProps) : Type 0 where
  pub paying : c.status ≡ pending_payment → c.mode ≡ immediate
  pub waiting : c.status ≡ scheduled → c.mode ≡ period_end
  pub unstarted : c.status ≡ quoted → c.started_at ≡ none
  pub started :
      (c.status ≡ processing)
        ⊎ (c.status ≡ pending_payment)
        ⊎ (c.status ≡ scheduled)
        ⊎ (c.status ≡ applied)
      → is_some c.started_at ≡ true
  pub period : (c.period_start ≤ c.proration_date) × (c.proration_date < c.period_end)

pub data Step (c c' : PlanChangeProps) : Type 0 where
  confirmed : (now : Date) → confirm now c ≡ ok c' → Step c c'
  payment_pending : mark_payment_pending c ≡ ok c' → Step c c'
  was_scheduled : mark_scheduled c ≡ ok c' → Step c c'
  was_applied : mark_applied c ≡ ok c' → Step c c'
  was_canceled : mark_canceled c ≡ ok c' → Step c c'
  was_expired : mark_expired c ≡ ok c' → Step c c'
  referenced : (r : PlanChangeReferences) → record_references r c ≡ c' → Step c c'

pub data Reach (c : PlanChangeProps) : PlanChangeProps → Type 0 where
  here : Reach c c
  next : {d e : PlanChangeProps} → Reach c d → Step d e → Reach c e

create-IsValid : (p : CreatePlanChangeParams) (c : PlanChangeProps) → create p ≡ ok c → IsValid c
unfolding create created
create-IsValid p c h = ground arith

Step-IsValid : {c c' : PlanChangeProps} → IsValid c → Step c c' → IsValid c'
unfolding confirm is_quoted mark_payment_pending mark_scheduled mark_applied mark_canceled
    mark_expired transition same_status record_references
Step-IsValid v (confirmed now h) = ground arith
Step-IsValid v (payment_pending h) = ground arith
Step-IsValid v (was_scheduled h) = ground arith
Step-IsValid v (was_applied h) = ground arith
Step-IsValid v (was_canceled h) = ground arith
Step-IsValid v (was_expired h) = ground arith
Step-IsValid v (referenced r h) = ground arith

Reach-IsValid : {c c' : PlanChangeProps} → IsValid c → Reach c c' → IsValid c'
Reach-IsValid v here = v
Reach-IsValid v (next r s) = Step-IsValid (Reach-IsValid v r) s

-- Whatever methods are called on a new change of plan, in whatever order: a payment is pending
-- only for an immediate change, only a change at the end of the period is scheduled, a quoted
-- change has not started and one under way or applied has, and its period holds the date of the
-- proration.
pub reachable_change-IsValid :
    (p : CreatePlanChangeParams) (c : PlanChangeProps) {c' : PlanChangeProps}
    → create p ≡ ok c
    → Reach c c'
    → IsValid c'
reachable_change-IsValid p c h r = Reach-IsValid (create-IsValid p c h) r

abbrev pub IsTerminal : PlanChangeStatus → Type 0
IsTerminal applied = Unit {0}
IsTerminal canceled = Unit {0}
IsTerminal expired = Unit {0}
IsTerminal _ = ⊥

-- What no method changes in a finished change.
abbrev pub SameEnd : PlanChangeProps → PlanChangeProps → Type 0
SameEnd c c' =
    (c'.status ≡ c.status)
    × (c'.mode ≡ c.mode)
    × (c'.started_at ≡ c.started_at)
    × (c'.amount_due_now ≡ c.amount_due_now)
    × (c'.target_plan_price_id ≡ c.target_plan_price_id)

terminal-cases :
    (s : PlanChangeStatus) → IsTerminal s → (s ≡ applied) ⊎ (s ≡ canceled) ⊎ (s ≡ expired)
terminal-cases applied t = inl refl
terminal-cases canceled t = inr (inl refl)
terminal-cases expired t = inr (inr refl)
terminal-cases quoted t = absurd t
terminal-cases processing t = absurd t
terminal-cases pending_payment t = absurd t
terminal-cases scheduled t = absurd t

Step-terminal :
    {c c' : PlanChangeProps}
    → (c.status ≡ applied) ⊎ (c.status ≡ canceled) ⊎ (c.status ≡ expired)
    → Step c c'
    → SameEnd c c'
unfolding confirm is_quoted mark_payment_pending mark_scheduled mark_applied mark_canceled
    mark_expired transition same_status record_references
Step-terminal t (confirmed now h) = ground arith
Step-terminal t (payment_pending h) = ground arith
Step-terminal t (was_scheduled h) = ground arith
Step-terminal t (was_applied h) = ground arith
Step-terminal t (was_canceled h) = ground arith
Step-terminal t (was_expired h) = ground arith
Step-terminal t (referenced r h) = ground arith

-- An applied, canceled or expired change of plan stays as it is, whatever is reported or called
-- afterwards: status, mode, start, price and amount.
pub Reach-terminal : {c c' : PlanChangeProps} → IsTerminal c.status → Reach c c' → SameEnd c c'
Reach-terminal t here = (refl, refl, refl, refl, refl)
Reach-terminal {c} t (next {d} r s) =
    let a = Reach-terminal t r in
    let t' = rw (← a.0) at t in
    let b = Step-terminal (terminal-cases d.status t') s in
    (b.0 ∙ a.0, b.1 ∙ a.1, b.2 ∙ a.2, b.3 ∙ a.3, b.4 ∙ a.4)

Step-confirmed :
    {c c' : PlanChangeProps}
    → c.status ≢ quoted
    → Step c c'
    → (c'.status ≢ quoted) × (c'.started_at ≡ c.started_at)
unfolding confirm is_quoted mark_payment_pending mark_scheduled mark_applied mark_canceled
    mark_expired transition same_status record_references
Step-confirmed t (confirmed now h) = ground arith
Step-confirmed t (payment_pending h) = ground arith
Step-confirmed t (was_scheduled h) = ground arith
Step-confirmed t (was_applied h) = ground arith
Step-confirmed t (was_canceled h) = ground arith
Step-confirmed t (was_expired h) = ground arith
Step-confirmed t (referenced r h) = ground arith

-- Once a change of plan is no longer quoted it is never quoted again, is not confirmed a second
-- time, and keeps the time at which it was started.
pub Reach-confirmed :
    {c c' : PlanChangeProps}
    → c.status ≢ quoted
    → Reach c c'
    → (c'.status ≢ quoted)
      × (c'.started_at ≡ c.started_at)
      × ((now : Date) (d : PlanChangeProps) → confirm now c' ≢ ok d)
unfolding confirm is_quoted same_status
Reach-confirmed {c} {c'} n here = (n, refl, λ now d h. n (ground arith))
Reach-confirmed {c} {c'} n (next r s) =
    let a = Reach-confirmed n r in
    let b = Step-confirmed a.0 s in (b.0, b.1 ∙ a.1, λ now d h. b.0 (ground arith))

-- A confirmation succeeds exactly on a quoted change whose offer has not expired; it then starts
-- the change at that time.
pub confirm_iff :
    (now : Date) (c : PlanChangeProps)
    → ((c' : PlanChangeProps) × (confirm now c ≡ ok c'))
      ↔ ((c.status ≡ quoted) × (date_le c.expires_at now ≡ false))
unfolding confirm is_quoted is_quote_expired same_status
confirm_iff now c = (
  (λ (c', h). ground arith),
  λ h. (record c { status = processing; started_at = some now }, ground arith),
)
