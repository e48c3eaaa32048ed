-- ===== src/WorkOrder/Slot.antt =====
-- About `scheduleToCheck` (workOrders/domain/entities/workOrder.entity.ts).
use bom_trato_api.Prelude.{
  ◌≡◌, ◌≢◌, ◌⊎◌, inl, inr, refl, ◌∙◌, Bool, true, false, Option, none, some, arith, EntityId,
  is_some, same_id, Bool-cases, ◌&&◌,
}
use bom_trato_api.Prelude.Result.{ok}
use bom_trato_api.Prelude.Date.{Date, at, invalid}
use bom_trato_api.WorkOrder.Types.{scheduled, WorkOrderProps, WorkOrderScheduleSlot}
use bom_trato_api.WorkOrder.Entity.{slot_of, schedule_to_check, same_moment, is_scheduled}
use bom_trato_api.WorkOrder.Lifecycle.{IsValid, IsReady, IsPeriod, period}

abbrev pub SlotOf : WorkOrderProps → WorkOrderScheduleSlot → Type 0
SlotOf w slot =
    (slot.work_order_id ≡ w.id)
    × (w.assigned_to_id ≡ some slot.assigned_to_id)
    × (w.scheduled_start_at ≡ some slot.start)
    × (w.scheduled_end_at ≡ some slot.end)

-- The order was already planned for the same person and period.
abbrev pub SameSlot : WorkOrderProps → WorkOrderProps → Type 0
SameSlot w w' =
    (w.status ≡ scheduled)
    × (w.assigned_to_id ≡ w'.assigned_to_id)
    × (w.scheduled_start_at ≡ w'.scheduled_start_at)
    × (w.scheduled_end_at ≡ w'.scheduled_end_at)

same_moment-eq : (a b : Option Date) → same_moment a b ≡ true → a ≡ b
same_moment-eq none none h = refl
same_moment-eq (some (at s)) (some (at t)) h = let e : s ≡ t = ground arith in rw e refl
same_moment-eq (some (at s)) (some invalid) h = ground arith
same_moment-eq (some invalid) (some b) h = ground arith
same_moment-eq none (some b) h = ground arith
same_moment-eq (some a) none h = ground arith

same_id-eq : (a b : Option EntityId) → same_id a b ≡ true → a ≡ b
same_id-eq none none h = refl
same_id-eq (some s) (some t) h = let e : s ≡ t = ground arith in rw e refl
same_id-eq none (some t) h = ground arith
same_id-eq (some s) none h = ground arith

-- The three comparisons of the code.
unchanged_slot : WorkOrderProps → WorkOrderProps → Bool
unchanged_slot w w' =
    is_scheduled w.status
    && same_id w.assigned_to_id w'.assigned_to_id
    && same_moment w.scheduled_start_at w'.scheduled_start_at
    && same_moment w.scheduled_end_at w'.scheduled_end_at

unchanged_slot-SameSlot : (w w' : WorkOrderProps) → unchanged_slot w w' ≡ true → SameSlot w w'
unfolding unchanged_slot
unchanged_slot-SameSlot w w' h =
    let a : same_id w.assigned_to_id w'.assigned_to_id ≡ true = ground arith in
    let b : same_moment w.scheduled_start_at w'.scheduled_start_at ≡ true = ground arith in
    let c : same_moment w.scheduled_end_at w'.scheduled_end_at ≡ true = ground arith in
    let d : w.status ≡ scheduled = ground arith in
    (
      d,
      same_id-eq w.assigned_to_id w'.assigned_to_id a,
      same_moment-eq w.scheduled_start_at w'.scheduled_start_at b,
      same_moment-eq w.scheduled_end_at w'.scheduled_end_at c,
    )

checked :
    (w w' : WorkOrderProps)
    → w'.status ≡ scheduled
    → unchanged_slot w w' ≡ false
    → schedule_to_check w w' ≡ slot_of w'
unfolding schedule_to_check unchanged_slot slot_of
checked w w' e h = ground arith

IsPeriod-some :
    {a b : Option Date} → IsPeriod a b → (s : Date) × (e : Date) × (a ≡ some s) × (b ≡ some e)
IsPeriod-some (period {s} {e} lt) = (at s, at e, refl, refl)

is_some-some : {A : Type 0} (o : Option A) → is_some o ≡ true → (a : A) × (o ≡ some a)
is_some-some none h = absurd (ground arith)
is_some-some (some a) h = (a, refl)

slot_of-SlotOf :
    (w : WorkOrderProps)
    → IsReady w
    → IsPeriod w.scheduled_start_at w.scheduled_end_at
    → (slot : WorkOrderScheduleSlot) × (slot_of w ≡ ok (some slot)) × SlotOf w slot
unfolding slot_of
slot_of-SlotOf w r p =
    let q = is_some-some w.assigned_to_id r.0 in
    let (s, e, hs, he) = IsPeriod-some p in
    (
      record { work_order_id = w.id; assigned_to_id = q.0; start = s; end = e },
      ground arith,
      (refl, q.1, hs, he),
    )

-- For an order in a valid state the schedule to check is found without an error. A scheduled order
-- has its own assignee and period checked, unless it was scheduled before for the same person and
-- period; an order that is not scheduled has nothing checked.
pub schedule_to_check-slot :
    (w w' : WorkOrderProps)
    → IsValid w'
    → (w'.status ≡ scheduled
        → SameSlot w w'
          ⊎ ((slot : WorkOrderScheduleSlot) × (schedule_to_check w w' ≡ ok (some slot))
              × SlotOf w' slot))
      × (w'.status ≢ scheduled → schedule_to_check w w' ≡ ok none)
unfolding schedule_to_check
schedule_to_check-slot w w' v = (
  (λ e.
      let p = v.planned e in
      elim (Bool-cases (unchanged_slot w w')) [
        | inl h ↦ inl (unchanged_slot-SameSlot w w' h)
        | inr h ↦
            let (slot, q, r) = slot_of-SlotOf w' p.0 p.1 in inr (slot, checked w w' e h ∙ q, r)
      ]),
  λ n. ground arith,
)
