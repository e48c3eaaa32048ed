-- ===== src/WorkOrder/Lifecycle.antt =====
-- The states of a work order and the calls of its methods as steps, on WorkOrder/Entity.
use bom_trato_api.Prelude.{
  ℕ, ◌+◌, ◌≤◌, ◌<◌, ◌≡◌, ◌≢◌, ◌⊎◌, true, Option, none, some, arith, EntityId, is_some, max_int,
  length,
}
use bom_trato_api.Prelude.Result.{ok}
use bom_trato_api.Prelude.Text.{Text}
use bom_trato_api.Prelude.Date.{Date, at, invalid}
use bom_trato_api.WorkOrder.Types.{
  opened, scheduled, in_progress, completed, canceled, WorkOrderProps, WorkOrderDetails,
}
use bom_trato_api.WorkOrder.Entity.{
  CreateWorkOrderParams, created, create, assert_planning, assert_ready, record_change, update,
  assign, schedule, start, update_execution_notes, complete, cancel,
}

-- A period that ends after it starts.
pub data IsPeriod : Option Date → Option Date → Type 0 where
  period : {s e : ℕ} → s < e → IsPeriod (some (at s)) (some (at e))

abbrev pub IsReady : WorkOrderProps → Type 0
IsReady w = (is_some w.assigned_to_id ≡ true) × (is_some w.service_address ≡ true)

abbrev pub IsReasoned : Option Text → Type 0
IsReasoned none = ⊥
IsReasoned (some reason) = (5 ≤ length reason) × (length reason ≤ 1000)

-- What each status promises.
pub record IsValid (w : WorkOrderProps) : Type 0 where
  pub unplanned : w.status ≡ opened → (w.scheduled_start_at ≡ none) × (w.scheduled_end_at ≡ none)
  pub planned : w.status ≡ scheduled → IsReady w × IsPeriod w.scheduled_start_at w.scheduled_end_at
  pub underway : w.status ≡ in_progress → IsReady w × (is_some w.started_at ≡ true)
  pub done :
      w.status ≡ completed
      → IsReady w × (is_some w.started_at ≡ true) × (is_some w.completed_at ≡ true)
  pub dropped :
      w.status ≡ canceled → (is_some w.canceled_at ≡ true) × IsReasoned w.cancellation_reason

pub data Step (w w' : WorkOrderProps) : Type 0 where
  updated : (d : WorkOrderDetails) → update d w ≡ ok w' → Step w w'
  assigned : (user : Option EntityId) → assign user w ≡ ok w' → Step w w'
  was_scheduled : (from to now : Date) → schedule from to now w ≡ ok w' → Step w w'
  was_started : (now : Date) → start now w ≡ ok w' → Step w w'
  noted : (notes : Option Text) → update_execution_notes notes w ≡ ok w' → Step w w'
  was_completed : (now : Date) → complete now w ≡ ok w' → Step w w'
  was_canceled : (reason : Text) (now : Date) → cancel reason now w ≡ ok w' → Step w w'
  recorded : (user : EntityId) (now : Date) → record_change user now w ≡ ok w' → Step w w'

pub data Reach (w : WorkOrderProps) : WorkOrderProps → Type 0 where
  here : Reach w w
  next : {r s : WorkOrderProps} → Reach w r → Step r s → Reach w s

-- What a change of the texts and of the assignee leaves.
pub record Kept (w w' : WorkOrderProps) : Type 0 where
  pub id_kept : w'.id ≡ w.id
  pub status_kept : w'.status ≡ w.status
  pub start_kept : w'.scheduled_start_at ≡ w.scheduled_start_at
  pub end_kept : w'.scheduled_end_at ≡ w.scheduled_end_at
  pub planning : (w.status ≡ opened) ⊎ (w.status ≡ scheduled)
  pub assignee_kept :
      w.status ≡ scheduled → is_some w.assigned_to_id ≡ true → is_some w'.assigned_to_id ≡ true
  pub address_kept :
      w.status ≡ scheduled → is_some w.service_address ≡ true → is_some w'.service_address ≡ true

pub update-parts : (d : WorkOrderDetails) {w w' : WorkOrderProps} → update d w ≡ ok w' → Kept w w'
unfolding update assert_planning
update-parts d h = ground arith

pub assign-parts :
    (user : Option EntityId) {w w' : WorkOrderProps} → assign user w ≡ ok w' → Kept w w'
unfolding assign assert_planning
assign-parts user h = ground arith

Kept-IsValid : {w w' : WorkOrderProps} → IsValid w → Kept w w' → IsValid w'
Kept-IsValid v k = ground arith

pub schedule-IsValid :
    (from to now : Date) (w w' : WorkOrderProps)
    → schedule from to now w ≡ ok w'
    → IsValid w' × (w'.status ≡ scheduled) × ((w.status ≡ opened) ⊎ (w.status ≡ scheduled))
unfolding schedule assert_planning assert_ready
schedule-IsValid (at s) (at e) now w w' h =
    let lt : s < e = ground arith in
    let st : w'.status ≡ scheduled = ground arith in
    let st' : (w.status ≡ opened) ⊎ (w.status ≡ scheduled) = ground arith in
    let a : IsReady w' = ground arith in
    let p : (w'.scheduled_start_at ≡ some (at s)) × (w'.scheduled_end_at ≡ some (at e)) =
      ground arith in
    (
      record {
        unplanned = λ u. cc;
        planned = λ _. (a, rw (p.0, p.1) (period lt));
        underway = λ u. cc;
        done = λ u. cc;
        dropped = λ u. cc;
      },
      st,
      st',
    )
schedule-IsValid invalid e now w w' h = ground arith
schedule-IsValid (at s) invalid now w w' h = ground arith

pub start-IsValid :
    (now : Date) (w w' : WorkOrderProps)
    → start now w ≡ ok w'
    → IsValid w' × (w'.status ≡ in_progress) × ((w.status ≡ opened) ⊎ (w.status ≡ scheduled))
unfolding start assert_planning assert_ready
start-IsValid now w w' h = ground arith

complete-IsValid :
    (now : Date) (w w' : WorkOrderProps)
    → IsValid w
    → complete now w ≡ ok w'
    → IsValid w' × (w'.status ≡ completed) × (w.status ≡ in_progress)
unfolding complete
complete-IsValid now w w' v h = ground arith

pub cancel-IsValid :
    (reason : Text) (now : Date) (w w' : WorkOrderProps)
    → cancel reason now w ≡ ok w'
    → IsValid w' × (w'.status ≡ canceled) × (w.status ≢ completed) × (w.status ≢ canceled)
unfolding cancel
cancel-IsValid reason now w w' h = ground arith

update_execution_notes-Kept :
    (notes : Option Text) (w w' : WorkOrderProps)
    → IsValid w
    → update_execution_notes notes w ≡ ok w'
    → IsValid w' × (w'.status ≡ w.status) × (w.status ≢ completed) × (w.status ≢ canceled)
unfolding update_execution_notes
update_execution_notes-Kept notes w w' v h = ground arith

pub record_change-IsValid :
    (user : EntityId) (now : Date) (w w' : WorkOrderProps)
    → IsValid w
    → record_change user now w ≡ ok w'
    → IsValid w' × (w'.status ≡ w.status) × (w'.version ≡ w.version + 1) × (w.version < max_int)
unfolding record_change
record_change-IsValid user now w w' v h = ground arith

pub create-IsValid :
    (p : CreateWorkOrderParams) (now : Date) (w : WorkOrderProps)
    → create p now ≡ ok w
    → IsValid w × (w.status ≡ opened)
unfolding create created
create-IsValid p now w h = ground arith

pub Step-IsValid : {w w' : WorkOrderProps} → IsValid w → Step w w' → IsValid w'
Step-IsValid v (updated d h) = Kept-IsValid v (update-parts d h)
Step-IsValid v (assigned user h) = Kept-IsValid v (assign-parts user h)
Step-IsValid {w} {w'} v (was_scheduled from to now h) = (schedule-IsValid from to now w w' h).0
Step-IsValid {w} {w'} v (was_started now h) = (start-IsValid now w w' h).0
Step-IsValid {w} {w'} v (noted notes h) = (update_execution_notes-Kept notes w w' v h).0
Step-IsValid {w} {w'} v (was_completed now h) = (complete-IsValid now w w' v h).0
Step-IsValid {w} {w'} v (was_canceled reason now h) = (cancel-IsValid reason now w w' h).0
Step-IsValid {w} {w'} v (recorded user now h) = (record_change-IsValid user now w w' v h).0

Reach-IsValid : {w w' : WorkOrderProps} → IsValid w → Reach w w' → IsValid w'
Reach-IsValid v here = v
Reach-IsValid v (next r s) = Step-IsValid (Reach-IsValid v r) s

-- Whatever methods are called on a new work order, in whatever order: when it is scheduled,
-- started or completed somebody is assigned and the service address is known; a scheduled one has
-- a period that ends after it starts, a started or completed one the time of its start, a
-- completed one the time of its end, and a canceled one a reason of 5 to 1000 characters.
pub reachable_work_order-IsValid :
    (p : CreateWorkOrderParams) (now : Date) (w : WorkOrderProps) {w' : WorkOrderProps}
    → create p now ≡ ok w
    → Reach w w'
    → IsValid w'
reachable_work_order-IsValid p now w h r = Reach-IsValid (create-IsValid p now w h).0 r
