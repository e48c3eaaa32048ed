-- ===== src/WorkOrder/Edges.antt =====
-- About the status of a work order from step to step, on WorkOrder/Entity.
use bom_trato_api.Prelude.{◌≡◌, ◌≢◌, ◌⊎◌, inl, inr, refl, arith}
use bom_trato_api.Prelude.Result.{ok}
use bom_trato_api.Prelude.Date.{Date}
use bom_trato_api.WorkOrder.Types.{
  WorkOrderStatus, opened, scheduled, in_progress, completed, canceled, WorkOrderProps,
}
use bom_trato_api.WorkOrder.Entity.{
  assert_planning, assert_ready, record_change, schedule, start, update_execution_notes, complete,
  cancel,
}
use bom_trato_api.WorkOrder.Lifecycle.{
  Step, updated, assigned, was_scheduled, was_started, noted, was_completed, was_canceled, recorded,
  Reach, here, next, update-parts, assign-parts, schedule-IsValid, start-IsValid, cancel-IsValid,
}

pub data Edge : WorkOrderStatus → WorkOrderStatus → Type 0 where
  stay : {s : WorkOrderStatus} → Edge s s
  plan : Edge opened scheduled
  begin : Edge opened in_progress
  begin_planned : Edge scheduled in_progress
  finish : Edge in_progress completed
  drop : Edge opened canceled
  drop_planned : Edge scheduled canceled
  drop_started : Edge in_progress canceled

abbrev pub IsClosed : WorkOrderStatus → Type 0
IsClosed completed = Unit {0}
IsClosed canceled = Unit {0}
IsClosed _ = ⊥

from_planning : {s t : WorkOrderStatus} → (s ≡ opened) ⊎ (s ≡ scheduled) → t ≡ scheduled → Edge s t
from_planning (inl e) h = rw (e, h) plan
from_planning (inr e) h = rw (e, h) stay

from_planning_start :
    {s t : WorkOrderStatus} → (s ≡ opened) ⊎ (s ≡ scheduled) → t ≡ in_progress → Edge s t
from_planning_start (inl e) h = rw (e, h) begin
from_planning_start (inr e) h = rw (e, h) begin_planned

to_canceled : (s : WorkOrderStatus) → s ≢ completed → s ≢ canceled → Edge s canceled
to_canceled opened n m = drop
to_canceled scheduled n m = drop_planned
to_canceled in_progress n m = drop_started
to_canceled completed n m = absurd (n refl)
to_canceled canceled n m = absurd (m refl)

to_Edge : {s t : WorkOrderStatus} → t ≡ s → Edge s t
to_Edge e = rw e stay

-- Every call moves the status along an edge: from planning to execution to completion, with a way
-- out to canceled before completion, and never back.
pub WorkOrderStep-Edge : {w w' : WorkOrderProps} → Step w w' → Edge w.status w'.status
unfolding update_execution_notes complete record_change
WorkOrderStep-Edge (updated d h) = to_Edge (update-parts d h).status_kept
WorkOrderStep-Edge (assigned user h) = to_Edge (assign-parts user h).status_kept
WorkOrderStep-Edge {w} {w'} (was_scheduled from to now h) =
    let e = schedule-IsValid from to now w w' h in from_planning e.2 e.1
WorkOrderStep-Edge {w} {w'} (was_started now h) =
    let e = start-IsValid now w w' h in from_planning_start e.2 e.1
WorkOrderStep-Edge (noted notes h) = to_Edge (ground arith)
WorkOrderStep-Edge {w} {w'} (was_completed now h) =
    let e : (w.status ≡ in_progress) × (w'.status ≡ completed) = ground arith in
    rw (e.0, e.1) finish
WorkOrderStep-Edge {w} {w'} (was_canceled reason now h) =
    let e = cancel-IsValid reason now w w' h in rw e.1 (to_canceled w.status e.2 e.3)
WorkOrderStep-Edge (recorded user now h) = to_Edge (ground arith)

-- What a closed order keeps: everything but its version and the stamp of the last change.
pub record SameRecord (w w' : WorkOrderProps) : Type 0 where
  pub status_same : w'.status ≡ w.status
  pub assignee_same : w'.assigned_to_id ≡ w.assigned_to_id
  pub address_same : w'.service_address ≡ w.service_address
  pub notes_same : w'.execution_notes ≡ w.execution_notes
  pub slot_same : w'.scheduled_start_at ≡ w.scheduled_start_at
  pub completion_same : w'.completed_at ≡ w.completed_at
  pub cancellation_same : w'.cancellation_reason ≡ w.cancellation_reason
  pub items_same : w'.items ≡ w.items
  pub total_same : w'.total_in_cents ≡ w.total_in_cents

closed-planning :
    {A : Type 0} (s : WorkOrderStatus) → IsClosed s → (s ≡ opened) ⊎ (s ≡ scheduled) → A
closed-planning s c (inl e) = absurd (rw e at c)
closed-planning s c (inr e) = absurd (rw e at c)

closed-cases : (s : WorkOrderStatus) → IsClosed s → (s ≡ completed) ⊎ (s ≡ canceled)
closed-cases completed c = inl refl
closed-cases canceled c = inr refl
closed-cases opened c = absurd c
closed-cases scheduled c = absurd c
closed-cases in_progress c = absurd c

Step-closed : {w w' : WorkOrderProps} → IsClosed w.status → Step w w' → SameRecord w w'
unfolding update_execution_notes complete record_change
Step-closed {w} c (updated d h) = closed-planning w.status c (update-parts d h).planning
Step-closed {w} c (assigned user h) = closed-planning w.status c (assign-parts user h).planning
Step-closed {w} {w'} c (was_scheduled from to now h) =
    closed-planning w.status c (schedule-IsValid from to now w w' h).2
Step-closed {w} {w'} c (was_started now h) = closed-planning w.status c (start-IsValid now w w' h).2
Step-closed {w} c (noted notes h) = let k = closed-cases w.status c in ground arith
Step-closed {w} c (was_completed now h) = let k = closed-cases w.status c in ground arith
Step-closed {w} {w'} c (was_canceled reason now h) =
    let k = closed-cases w.status c in let e = cancel-IsValid reason now w w' h in ground arith
Step-closed c (recorded user now h) = ground arith

-- A completed or canceled work order keeps its status, assignee, address, notes, period, dates,
-- items and amounts, whatever methods are called afterwards.
pub Reach-closed : {w w' : WorkOrderProps} → IsClosed w.status → Reach w w' → SameRecord w w'
Reach-closed c here = ground arith
Reach-closed {w} c (next r s) =
    let ih = Reach-closed c r in
    let c' = rw (← ih.status_same) at c in let e = Step-closed c' s in ground arith

-- What decides whether two orders collide.
pub record SamePlace (w w' : WorkOrderProps) : Type 0 where
  pub place_assignee : w'.assigned_to_id ≡ w.assigned_to_id
  pub place_start : w'.scheduled_start_at ≡ w.scheduled_start_at
  pub place_end : w'.scheduled_end_at ≡ w.scheduled_end_at

pub Step-id : {w w' : WorkOrderProps} → Step w w' → w'.id ≡ w.id
unfolding schedule start update_execution_notes complete cancel record_change
Step-id (updated d h) = (update-parts d h).id_kept
Step-id (assigned user h) = (assign-parts user h).id_kept
Step-id (was_scheduled from to now h) = ground arith
Step-id (was_started now h) = ground arith
Step-id (noted notes h) = ground arith
Step-id (was_completed now h) = ground arith
Step-id (was_canceled reason now h) = ground arith
Step-id (recorded user now h) = ground arith

start-place : (now : Date) (w w' : WorkOrderProps) → start now w ≡ ok w' → SamePlace w w'
unfolding start assert_planning assert_ready
start-place now w w' h = ground arith

-- An order in progress has the place that it had before the step, when it was planned or open.
pub Step-in_progress :
    {w w' : WorkOrderProps}
    → Step w w'
    → w'.status ≡ in_progress
    → SamePlace w w' × ((w.status ≡ opened) ⊎ (w.status ≡ scheduled) ⊎ (w.status ≡ in_progress))
unfolding update_execution_notes complete cancel record_change
Step-in_progress (updated d h) e = let k = update-parts d h in ground arith
Step-in_progress (assigned user h) e = let k = assign-parts user h in ground arith
Step-in_progress {w} {w'} (was_scheduled from to now h) e =
    let k = (schedule-IsValid from to now w w' h).1 in ground arith
Step-in_progress {w} {w'} (was_started now h) e =
    let p = start-place now w w' h in
    let k = (start-IsValid now w w' h).2 in (p, elim k [ inl a ↦ inl a | inr b ↦ inr (inl b) ])
Step-in_progress (noted notes h) e = ground arith
Step-in_progress (was_completed now h) e = ground arith
Step-in_progress (was_canceled reason now h) e = ground arith
Step-in_progress (recorded user now h) e = ground arith
