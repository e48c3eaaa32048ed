-- ===== src/WorkOrder/Entity.antt =====
-- `class WorkOrder` (workOrders/domain/entities/workOrder.entity.ts) and
-- `WorkOrderSchedulePeriod` (workOrders/domain/valueObjects).
use bom_trato_api.Prelude.{
  ℕ, suc, ◌+◌, Bool, true, false, not, ◌&&◌, ◌||◌, Option, none, some, List, [], ◌∷◌, ltb, leb,
  ◌==◌, if◌then◌else◌, EntityId, Num, is_safe_integer, num_is, max_int, is_some, or_else, length,
  same_id,
}
use bom_trato_api.Prelude.Result.{Result, ok, ◌>>=◌, ◌>>◌, throw_if, or_throw}
use bom_trato_api.Prelude.Text.{Text, trim, nonempty}
use bom_trato_api.Prelude.Date.{Date, is_valid, date_le, longer_than, same_time}
use bom_trato_api.Quote.Types.{QuoteStatus, QuoteItemProps, QuoteProps}
use bom_trato_api.WorkOrder.Types.{
  WorkOrderStatus, opened, scheduled, in_progress, completed, WorkOrderError, quote_not_found,
  quote_not_approved, work_order_version_conflict, work_order_not_editable,
  invalid_work_order_transition, invalid_work_order_input, invalid_work_order_schedule,
  assignee_required, service_address_required, cancellation_reason_required,
  invalid_schedule_period, WorkOrderItemProps, WorkOrderProps, WorkOrderScheduleSlot,
  WorkOrderDetails,
}

abbrev pub is_approved : QuoteStatus → Bool
is_approved QuoteStatus.approved = true
is_approved _ = false

abbrev pub is_planning : WorkOrderStatus → Bool
is_planning opened = true
is_planning scheduled = true
is_planning _ = false

abbrev pub is_scheduled : WorkOrderStatus → Bool
is_scheduled scheduled = true
is_scheduled _ = false

abbrev pub is_in_progress : WorkOrderStatus → Bool
is_in_progress in_progress = true
is_in_progress _ = false

abbrev pub is_closed : WorkOrderStatus → Bool
is_closed completed = true
is_closed WorkOrderStatus.canceled = true
is_closed _ = false

abbrev pub order_item : EntityId → QuoteItemProps → ℕ → WorkOrderItemProps
order_item id item position = record {
  id = id;
  source_quote_item_id = item.id;
  name = item.name;
  description = item.description;
  unit_of = item.unit_of;
  quantity_in_thousandths = item.quantity_in_thousandths;
  unit_amount_in_cents = item.unit_amount_in_cents;
  total_in_cents = item.total_in_cents;
  position = position;
}

-- `quote.items.map(...)` with the fresh identifiers, of which there are as many as items.
abbrev pub order_items : List EntityId → List QuoteItemProps → ℕ → List WorkOrderItemProps
order_items (id ∷ ids) (item ∷ items) position =
    order_item id item position ∷ order_items ids items (suc position)
order_items _ _ position = []

pub record CreateWorkOrderParams : Type 0 where
  pub id : EntityId
  pub organization_id : EntityId
  pub user_id : EntityId
  pub quote : QuoteProps
  pub item_ids : List EntityId

-- The state of a new order.
unfoldable pub created : CreateWorkOrderParams → Date → WorkOrderProps
created p now = record {
  id = p.id;
  organization_id = p.organization_id;
  quote_id = p.quote.id;
  customer_id = p.quote.customer_id;
  customer_name = p.quote.customer_name;
  customer_email = p.quote.customer_email;
  customer_phone = p.quote.customer_phone;
  title = p.quote.title;
  instructions = p.quote.notes;
  service_address = none;
  execution_notes = none;
  assigned_to_id = none;
  status = opened;
  currency = p.quote.currency;
  subtotal_in_cents = p.quote.subtotal_in_cents;
  discount_in_cents = p.quote.discount_in_cents;
  total_in_cents = p.quote.total_in_cents;
  scheduled_start_at = none;
  scheduled_end_at = none;
  started_at = none;
  completed_at = none;
  canceled_at = none;
  cancellation_reason = none;
  version = 1;
  created_by_id = p.user_id;
  updated_by_id = p.user_id;
  created_at = now;
  updated_at = now;
  items = order_items p.item_ids p.quote.items 0;
}

unfoldable pub create : CreateWorkOrderParams → Date → Result WorkOrderError WorkOrderProps
create p now = do
  let quote = p.quote
  throw_if (not (quote.organization_id == p.organization_id)) quote_not_found
  throw_if (not (is_approved quote.status)) quote_not_approved
  throw_if (length quote.items == 0 || not (length p.item_ids == length quote.items))
      invalid_work_order_input
  ok (created p now)

unfoldable pub assert_version : Num → WorkOrderProps → Result WorkOrderError (Unit {0})
assert_version version w =
    throw_if (not (is_safe_integer version) || not (num_is version w.version))
      work_order_version_conflict

unfoldable pub record_change :
    EntityId → Date → WorkOrderProps → Result WorkOrderError WorkOrderProps
record_change user now w = do
  throw_if (leb max_int w.version) work_order_version_conflict
  ok (record w { version = w.version + 1; updated_by_id = user; updated_at = now })

unfoldable pub assert_planning : WorkOrderProps → Result WorkOrderError (Unit {0})
assert_planning w = throw_if (not (is_planning w.status)) work_order_not_editable

unfoldable pub assert_ready : WorkOrderProps → Result WorkOrderError (Unit {0})
assert_ready w = do
  throw_if (not (is_some w.assigned_to_id)) assignee_required
  throw_if (not (is_some w.service_address)) service_address_required

unfoldable pub normalize_text : Option Text → ℕ → Result WorkOrderError (Option Text)
normalize_text none max_length = ok none
normalize_text (some value) max_length = do
  throw_if (ltb max_length (length (trim value))) invalid_work_order_input
  ok (nonempty (trim value))

-- `details.x === undefined ? this.props.x : this.normalizeText(details.x, max)`
unfoldable pub updated_text :
    Option (Option Text) → Option Text → ℕ → Result WorkOrderError (Option Text)
unfolding normalize_text
updated_text none current max_length = ok current
updated_text (some value) current max_length = normalize_text value max_length

unfoldable pub update : WorkOrderDetails → WorkOrderProps → Result WorkOrderError WorkOrderProps
unfolding assert_planning
update d w = do
  assert_planning w
  throw_if
      (not (is_some d.title) && not (is_some d.instructions) && not (is_some d.service_address))
      invalid_work_order_input
  let title = or_else d.title w.title
  throw_if (ltb (length (trim title)) 2 || ltb 150 (length (trim title))) invalid_work_order_input
  instructions ← updated_text d.instructions w.instructions 5000
  address ← updated_text d.service_address w.service_address 500
  throw_if (is_scheduled w.status && not (is_some address)) service_address_required
  ok (record w { title = trim title; instructions = instructions; service_address = address })

unfoldable pub assign : Option EntityId → WorkOrderProps → Result WorkOrderError WorkOrderProps
unfolding assert_planning
assign user w = do
  assert_planning w
  throw_if (is_scheduled w.status && not (is_some user)) assignee_required
  ok (record w { assigned_to_id = user })

unfoldable pub schedule : Date → Date → Date → WorkOrderProps → Result WorkOrderError WorkOrderProps
unfolding assert_planning assert_ready
schedule start end now w = do
  assert_planning w
  assert_ready w
  throw_if (not (is_valid start) || not (is_valid end) || date_le start now || date_le end start)
      invalid_work_order_schedule
  ok (record w { scheduled_start_at = some start; scheduled_end_at = some end; status = scheduled })

unfoldable pub start : Date → WorkOrderProps → Result WorkOrderError WorkOrderProps
unfolding assert_planning assert_ready
start now w = do
  assert_planning w
  assert_ready w
  ok (record w { status = in_progress; started_at = some now })

unfoldable pub update_execution_notes :
    Option Text → WorkOrderProps → Result WorkOrderError WorkOrderProps
update_execution_notes notes w = do
  throw_if (is_closed w.status) work_order_not_editable
  text ← normalize_text notes 10000
  ok (record w { execution_notes = text })

unfoldable pub complete : Date → WorkOrderProps → Result WorkOrderError WorkOrderProps
complete now w = do
  throw_if (not (is_in_progress w.status)) invalid_work_order_transition
  ok (record w { status = completed; completed_at = some now })

unfoldable pub cancel : Text → Date → WorkOrderProps → Result WorkOrderError WorkOrderProps
cancel reason now w = do
  throw_if (is_closed w.status) invalid_work_order_transition
  throw_if (ltb (length (trim reason)) 5 || ltb 1000 (length (trim reason)))
      cancellation_reason_required
  ok (record w {
    status = WorkOrderStatus.canceled;
    canceled_at = some now;
    cancellation_reason = some (trim reason);
  })

-- `a?.getTime() === b?.getTime()`
abbrev pub same_moment : Option Date → Option Date → Bool
same_moment none none = true
same_moment (some a) (some b) = same_time a b
same_moment _ _ = false

-- The period and the person of an order, as `scheduleToCheck` returns them.
unfoldable pub slot_of : WorkOrderProps → Result WorkOrderError (Option WorkOrderScheduleSlot)
slot_of w = do
  assignee ← or_throw w.assigned_to_id assignee_required
  start ← or_throw w.scheduled_start_at invalid_work_order_schedule
  end ← or_throw w.scheduled_end_at invalid_work_order_schedule
  ok (some (record { work_order_id = w.id; assigned_to_id = assignee; start = start; end = end }))

unfoldable pub schedule_to_check :
    WorkOrderProps → WorkOrderProps → Result WorkOrderError (Option WorkOrderScheduleSlot)
schedule_to_check previous current =
    if not (is_scheduled current.status)
    then ok none
    else if is_scheduled previous.status
        && same_id previous.assigned_to_id current.assigned_to_id
        && same_moment previous.scheduled_start_at current.scheduled_start_at
        && same_moment previous.scheduled_end_at current.scheduled_end_at
    then ok none
    else slot_of current

-- `31 * 24 * 60 * 60 * 1000`
abbrev pub max_duration : ℕ
max_duration = 2678400000

-- `WorkOrderSchedulePeriod.create`
unfoldable pub create_period : Date → Date → Result WorkOrderError (Date × Date)
create_period from to = do
  throw_if
      (not (is_valid from)
        || not (is_valid to)
        || date_le to from
        || longer_than from to max_duration)
      invalid_schedule_period
  ok (from, to)
