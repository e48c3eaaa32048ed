-- ===== src/WorkOrder/Store.antt =====
-- The part of `PrismaWorkOrderRepository` (workOrders/infrastructure/repositories) that the changes
-- of an order use. The store is the rows of the table of the organization; the transactions of an
-- organization run one after another.
use bom_trato_api.Prelude.{
  ◌==◌, Bool, true, false, not, ◌&&◌, Option, none, some, List, map, EntityId, Num, num_is, any,
  find, if◌then◌else◌,
}
use bom_trato_api.Prelude.Result.{Result, ok, err, throw_if, ◌>>◌}
use bom_trato_api.Prelude.Date.{Date, date_lt}
use bom_trato_api.WorkOrder.Types.{
  WorkOrderStatus, scheduled, in_progress, WorkOrderError, work_order_version_conflict,
  work_order_schedule_conflict, WorkOrderProps, WorkOrderScheduleSlot, assignee_required,
  assignee_not_available,
}

abbrev pub Orders : Type 0
Orders = List WorkOrderProps

abbrev pub find_by_id : EntityId → Orders → Option WorkOrderProps
find_by_id id rows = find (λ row. row.id == id) rows

-- `status: { in: [SCHEDULED, IN_PROGRESS] }`
abbrev pub occupies : WorkOrderStatus → Bool
occupies scheduled = true
occupies in_progress = true
occupies _ = false

-- A comparison with a column that is null does not hold.
abbrev pub before : Option Date → Date → Bool
before none limit = false
before (some d) limit = date_lt d limit

abbrev pub after : Option Date → Date → Bool
after none limit = false
after (some d) limit = date_lt limit d

abbrev pub assigned_to : Option EntityId → EntityId → Bool
assigned_to none user = false
assigned_to (some a) user = a == user

unfoldable pub conflicts : WorkOrderScheduleSlot → WorkOrderProps → Bool
conflicts slot row =
    not (row.id == slot.work_order_id)
    && assigned_to row.assigned_to_id slot.assigned_to_id
    && occupies row.status
    && before row.scheduled_start_at slot.end
    && after row.scheduled_end_at slot.start

unfoldable pub has_schedule_conflict : WorkOrderScheduleSlot → Orders → Bool
has_schedule_conflict slot rows = any (conflicts slot) rows

-- The columns that `save` writes.
unfoldable pub written : WorkOrderProps → WorkOrderProps → WorkOrderProps
written state row = record row {
  title = state.title;
  instructions = state.instructions;
  service_address = state.service_address;
  execution_notes = state.execution_notes;
  assigned_to_id = state.assigned_to_id;
  status = state.status;
  scheduled_start_at = state.scheduled_start_at;
  scheduled_end_at = state.scheduled_end_at;
  started_at = state.started_at;
  completed_at = state.completed_at;
  canceled_at = state.canceled_at;
  cancellation_reason = state.cancellation_reason;
  version = state.version;
  updated_by_id = state.updated_by_id;
  updated_at = state.updated_at;
}

-- The `where` of the update.
unfoldable pub is_target : WorkOrderProps → Num → WorkOrderProps → Bool
is_target state expected row = row.id == state.id && num_is expected row.version

unfoldable pub updated_row : WorkOrderProps → Num → WorkOrderProps → WorkOrderProps
updated_row state expected row = if is_target state expected row then written state row else row

unfoldable pub save : WorkOrderProps → Num → Orders → Result WorkOrderError Orders
save state expected rows = do
  throw_if (not (any (is_target state expected) rows)) work_order_version_conflict
  ok (map (updated_row state expected) rows)

unfoldable pub check_conflict :
    Option WorkOrderScheduleSlot → Orders → Result WorkOrderError (Unit {0})
check_conflict none rows = ok tt
check_conflict (some slot) rows =
    throw_if (has_schedule_conflict slot rows) work_order_schedule_conflict

-- `available` is what `tx.isAssignableMember` answers.
unfoldable pub assert_assignee :
    (EntityId → Bool) → Option EntityId → Result WorkOrderError (Unit {0})
assert_assignee available none = err assignee_required
assert_assignee available (some user) = throw_if (not (available user)) assignee_not_available
