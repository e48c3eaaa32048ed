-- ===== src/Workflow/CancelTests.antt =====
-- The cancellation of an order on concrete data.
use bom_trato_api.Prelude.{
  ◌≡◌, refl, ap, ◌∙◌, sym, true, false, none, some, [], ◌∷◌, Memᴰ, nat, arith, EntityId,
}
use bom_trato_api.Prelude.Result.{ok}
use bom_trato_api.Prelude.Text.{codes, trim, trim_start, trim_end, is_space}
use bom_trato_api.Prelude.Date.{at}
use bom_trato_api.Organization.Access.{AccessContext, assert_can_operate, assert_verified_member}
use bom_trato_api.WorkOrder.Types.{WorkOrderStatus, WorkOrderProps}
use bom_trato_api.WorkOrder.Entity.{
  assert_version, record_change, cancel, schedule_to_check, slot_of,
}
use bom_trato_api.WorkOrder.Store.{check_conflict, save, written, is_target, updated_row}
use bom_trato_api.Receivable.Types.{ReceivableStatus, ReceivableKind, ReceivableProps}
use bom_trato_api.Receivable.Entity
use bom_trato_api.Receivable.Validation.{normalize_reason, normalize_text}
use bom_trato_api.Receivable.ListStore.{Store, list_repository, list_laws}
use bom_trato_api.Workflow.Approval.{Tables}
use bom_trato_api.Workflow.Cancellation.{
  CancellationParams, is_kept, cancel_receivable_of, cancel_unless_kept, cancel_receivables,
  cancel_loaded, cancel_work_order,
}
use bom_trato_api.Workflow.Canceled.{Apart, cancel_work_order-collects_nothing}

abbrev access : AccessContext
access = record {
  is_member = true;
  verified = true;
  has_subscription_access = true;
  billing_needs_reconciliation = false;
}

abbrev order : WorkOrderProps
order = record {
  id = 9;
  organization_id = 2;
  quote_id = 1;
  customer_id = 3;
  customer_name = codes "Ana";
  customer_email = none;
  customer_phone = none;
  title = codes "House";
  instructions = none;
  service_address = none;
  execution_notes = none;
  assigned_to_id = none;
  status = WorkOrderStatus.opened;
  currency = codes "brl";
  subtotal_in_cents = 15000;
  discount_in_cents = 0;
  total_in_cents = 15000;
  scheduled_start_at = none;
  scheduled_end_at = none;
  started_at = none;
  completed_at = none;
  canceled_at = none;
  cancellation_reason = none;
  version = 1;
  created_by_id = 5;
  updated_by_id = 5;
  created_at = at 1;
  updated_at = at 1;
  items = [];
}

abbrev unpaid : ReceivableProps
unpaid = record {
  id = 41;
  organization_id = 2;
  work_order_id = 9;
  kind = ReceivableKind.down_payment;
  customer_id = 3;
  customer_name = codes "Ana";
  title = codes "House";
  currency = codes "brl";
  amount_in_cents = 4500;
  received_in_cents = 0;
  status = ReceivableStatus.opened;
  due_at = at 100;
  notes = none;
  canceled_at = none;
  canceled_by_id = none;
  cancellation_reason = none;
  version = 1;
  created_by_id = 5;
  updated_by_id = 5;
  created_at = at 1;
  updated_at = at 1;
}

abbrev part_paid : ReceivableProps
part_paid = record unpaid {
  id = 42;
  kind = ReceivableKind.remaining_balance;
  received_in_cents = 500;
  status = ReceivableStatus.partially_paid;
}

abbrev params : CancellationParams
params = record {
  user_id = 6;
  work_order_id = 9;
  version = nat 1;
  reason = codes "customer moved";
  now = at 50;
}

abbrev tables : Tables Store
tables = record {
  quotes = [];
  orders = order ∷ [];
  receivables = record { rows = unpaid ∷ part_paid ∷ []; paid = [] };
}

abbrev canceled_order : WorkOrderProps
canceled_order = record order {
  status = WorkOrderStatus.canceled;
  canceled_at = some (at 50);
  cancellation_reason = some (codes "customer moved");
  version = 2;
  updated_by_id = 6;
  updated_at = at 50;
}

abbrev canceled_row : ReceivableProps
canceled_row = record unpaid {
  status = ReceivableStatus.canceled;
  canceled_at = some (at 50);
  canceled_by_id = some 6;
  cancellation_reason = some (codes "customer moved");
  version = 2;
  updated_by_id = 6;
  updated_at = at 50;
}

abbrev left : Tables Store
left = record {
  quotes = [];
  orders = canceled_order ∷ [];
  receivables = record { rows = canceled_row ∷ part_paid ∷ []; paid = [] };
}

cancels_it : cancel_work_order list_repository access params tables ≡ ok (canceled_order, left)
unfolding cancel_work_order cancel_loaded cancel_receivables cancel_unless_kept cancel_receivable_of
    assert_can_operate assert_verified_member assert_version record_change cancel schedule_to_check
    slot_of check_conflict save written Entity.cancel Entity.record_change
    Entity.assert_not_canceled normalize_reason normalize_text is_target updated_row trim trim_start
    trim_end is_space
cancels_it = refl

apart : Apart (unpaid ∷ part_paid ∷ [])
apart = (λ x m n. only x m n, (λ x m. elim m [ ], tt))
  where
    only : (x : ReceivableProps) → Memᴰ x (part_paid ∷ []) → x.id ≡ 41 → ⊥
    only x (Memᴰ.head e) n =
        let k : ◌≡◌ {A = EntityId} 42 41 = ap (λ (y : ReceivableProps). y.id) (sym e) ∙ n in
        absurd (omega arith)
    only x (Memᴰ.tail m) n = elim m [ ]

stored :
    (x : ReceivableProps)
    → Memᴰ x (unpaid ∷ part_paid ∷ [])
    → list_repository.find_by_id x.id tables.receivables ≡ some x
stored x (Memᴰ.head e) = rw e refl
stored x (Memᴰ.tail (Memᴰ.head e)) = rw e refl
stored x (Memᴰ.tail (Memᴰ.tail m)) = elim m [ ]

cancel_work_order-collects_nothing_example :
    (WorkOrderStatus.canceled ≡ WorkOrderStatus.canceled)
    × (left.quotes ≡ tables.quotes)
    × ((row : ReceivableProps) × (list_repository.find_by_id 41 left.receivables ≡ some row)
        × (is_kept row ≡ true))
cancel_work_order-collects_nothing_example =
    cancel_work_order-collects_nothing list_repository list_laws access params tables left order
      canceled_order unpaid cancels_it refl apart stored (Memᴰ.head refl)
