-- ===== src/WorkOrder/Tests.antt =====
-- Runs of the work orders on concrete data, and the theorems applied to them.
use mathlib.Core.Path.{subst}
use mathlib.Core.List.Memᴰ
use bom_trato_api.Prelude.{
  ◌≡◌, ◌⊎◌, inl, inr, refl, sym, true, false, none, some, [], ◌∷◌, nat, arith, ◌∙◌, ap, Memᴰ,
}
use bom_trato_api.Prelude.Result.{ok, err, ok_or}
use bom_trato_api.Prelude.Text.{is_space, trim, trim_start, trim_end}
use bom_trato_api.Prelude.Date.{at}
use bom_trato_api.Organization.Access.{AccessContext, assert_can_operate, assert_verified_member}
use bom_trato_api.Quote.Samples.{title, approved_quote, approved_quote-IsValid}
use bom_trato_api.WorkOrder.Types.{
  WorkOrderStatus, scheduled, work_order_schedule_conflict, WorkOrderProps,
}
use bom_trato_api.WorkOrder.Entity.{
  CreateWorkOrderParams, created, create, assert_version, record_change, assert_planning,
  assert_ready, assign, schedule, slot_of, schedule_to_check,
}
use bom_trato_api.WorkOrder.Lifecycle.{
  IsValid, period, Step, was_scheduled, here, next, reachable_work_order-IsValid,
}
use bom_trato_api.WorkOrder.Store.{
  Orders, conflicts, has_schedule_conflict, written, is_target, updated_row, save, check_conflict,
}
use bom_trato_api.WorkOrder.Service.{ChangeWorkOrderParams, change, mutate}
use bom_trato_api.WorkOrder.Agenda.{IsAgenda}
use bom_trato_api.WorkOrder.Changes.{mutate-IsAgenda}
use bom_trato_api.WorkOrder.Creation.{EnsureWorkOrderParams, find_by_quote_id, ensure_work_order}
use bom_trato_api.WorkOrder.Mirror.{Mirrors, ensure_work_order-Mirrors}

abbrev ensure_params : EnsureWorkOrderParams
ensure_params = record {
  quote = approved_quote;
  created_by_id = 5;
  assigned_to_id = some 6;
  service_address = some title;
  fresh_id = 9;
  item_ids = 70 ∷ [];
  now = at 20;
}

ensure_work_order-Mirrors_example :
    ((existing : WorkOrderProps) × (find_by_quote_id 1 [] ≡ some existing)
      × (ensure_work_order ensure_params [] ≡ ok (existing, [])))
    ⊎ ((order : WorkOrderProps) × (find_by_quote_id 1 [] ≡ none)
        × (ensure_work_order ensure_params [] ≡ ok (order, order ∷ []))
        × Mirrors approved_quote order
        × (order.id ≡ 9))
unfolding trim trim_start trim_end is_space
ensure_work_order-Mirrors_example =
    ensure_work_order-Mirrors ensure_params [] refl approved_quote-IsValid refl (omega arith)

abbrev create_params : CreateWorkOrderParams
create_params = record {
  id = 9;
  organization_id = 2;
  user_id = 5;
  quote = approved_quote;
  item_ids = 70 ∷ [];
}

abbrev new_order : WorkOrderProps
new_order = ok_or (created create_params (at 20)) (create create_params (at 20))

create_it : create create_params (at 20) ≡ ok new_order
unfolding create created
create_it = refl

-- An order that is assigned and has an address.
order : WorkOrderProps
order = record (created create_params (at 20)) {
  assigned_to_id = some 6;
  service_address = some title;
}

planned : WorkOrderProps
unfolding order
planned = record order {
  status = scheduled;
  scheduled_start_at = some (at 100);
  scheduled_end_at = some (at 200);
}

plan_it : schedule (at 100) (at 200) (at 30) order ≡ ok planned
unfolding planned order created schedule assert_planning assert_ready
plan_it = refl

assign_it : assign (some 6) new_order ≡ ok (record new_order { assigned_to_id = some 6 })
unfolding create created assign assert_planning
assign_it = refl

reachable_work_order-IsValid_example : IsValid (record new_order { assigned_to_id = some 6 })
reachable_work_order-IsValid_example =
    reachable_work_order-IsValid create_params (at 20) new_order create_it
      (next here (Step.assigned (some 6) assign_it))

abbrev finished : WorkOrderProps
finished = record planned { status = WorkOrderStatus.completed; completed_at = some (at 300) }

stamp_it :
    record_change 5 (at 400) finished
    ≡ ok (record finished { version = 2; updated_by_id = 5; updated_at = at 400 })
unfolding planned order created record_change
stamp_it = refl

order-IsValid : IsValid order
unfolding order created
order-IsValid = ground arith

planned-IsValid : IsValid planned
unfolding planned order created
planned-IsValid = record {
  unplanned = λ e. absurd (ground arith);
  planned = λ e. ((refl, refl), period (omega arith));
  underway = λ e. absurd (ground arith);
  done = λ e. absurd (ground arith);
  dropped = λ e. absurd (ground arith);
}

single : {x y : WorkOrderProps} → Memᴰ x (y ∷ []) → x ≡ y
single m = elim (Memᴰ.cases_cons m) [ inl e ↦ e | inr n ↦ absurd (Memᴰ.not-nil n) ]

agenda : IsAgenda (order ∷ [])
agenda = record {
  valid = λ {row} m. subst IsValid (sym (single m)) order-IsValid;
  apart = λ {a} {b} m n d. absurd (d (ap (λ x. x.id) (single m ∙ sym (single n))));
}

abbrev access : AccessContext
access = record {
  is_member = true;
  verified = true;
  has_subscription_access = true;
  billing_needs_reconciliation = false;
}

abbrev params : ChangeWorkOrderParams
params = record { user_id = 5; work_order_id = 9; version = nat 1 }

after : WorkOrderProps × Orders
after =
    ok_or (order, [])
      (mutate access params (at 30) (schedule (at 100) (at 200) (at 30)) (order ∷ []))

plan_order :
    mutate access params (at 30) (schedule (at 100) (at 200) (at 30)) (order ∷ [])
    ≡ ok (after.0, after.1)
unfolding after mutate change assert_can_operate assert_verified_member assert_version order created
    schedule assert_planning assert_ready schedule_to_check slot_of check_conflict
    has_schedule_conflict conflicts record_change save is_target updated_row written
plan_order = refl

mutate-IsAgenda_example : IsAgenda after.1
mutate-IsAgenda_example =
    mutate-IsAgenda access params (at 30) (schedule (at 100) (at 200) (at 30)) (order ∷ [])
      {changed = after.0} {rows' = after.1} (λ w w' h. was_scheduled (at 100) (at 200) (at 30) h)
      agenda plan_order

-- Somebody who is at work from 150 to 250 cannot be booked from 100 to 200.
double_booking :
    mutate access params (at 30) (schedule (at 100) (at 200) (at 30)) (
      order
      ∷ record planned {
        id = 10;
        scheduled_start_at = some (at 150);
        scheduled_end_at = some (at 250);
      }
      ∷ [])
    ≡ err work_order_schedule_conflict
unfolding mutate change assert_can_operate assert_verified_member assert_version planned order
    created schedule assert_planning assert_ready schedule_to_check slot_of check_conflict
    has_schedule_conflict conflicts
double_booking = refl
