-- ===== src/WorkOrder/Service.antt =====
-- `WorkOrderApplicationService.mutate` (workOrders/application/services) and the use cases that
-- are one call of it (workOrders/application/useCases). The notifications are not modelled.
use bom_trato_api.Prelude.{Bool, Option, none, some, EntityId, Num}
use bom_trato_api.Prelude.Result.{Result, ok, err, throw_if, or_throw}
use bom_trato_api.Prelude.Result
use bom_trato_api.Prelude.Transaction.{Tx, ◌>>=◌, ◌>>◌, pure, lift, gets, write}
use bom_trato_api.Prelude.Date.{Date}
use bom_trato_api.Organization.Access.{AccessContext, AccessDenial, assert_can_operate}
use bom_trato_api.WorkOrder.Types.{WorkOrderError, work_order_not_found, WorkOrderProps}
use bom_trato_api.WorkOrder.Entity.{
  assert_version, record_change, assign, schedule, start, schedule_to_check,
}
use bom_trato_api.WorkOrder.Store.{Orders, find_by_id, save, check_conflict, assert_assignee}

-- `(code) => new WorkOrderError(code)`
abbrev pub denied : AccessDenial → WorkOrderError
denied AccessDenial.member_required = WorkOrderError.member_required
denied AccessDenial.verified_user_required = WorkOrderError.verified_user_required
denied AccessDenial.billing_reconciliation_required = WorkOrderError.billing_reconciliation_required
denied AccessDenial.subscription_required = WorkOrderError.subscription_required

pub record ChangeWorkOrderParams : Type 0 where
  pub user_id : EntityId
  pub work_order_id : EntityId
  pub version : Num

-- From the loaded order to the saved one.
unfoldable pub change :
    ChangeWorkOrderParams
    → Date
    → (WorkOrderProps → Result WorkOrderError WorkOrderProps)
    → WorkOrderProps
    → Tx WorkOrderError Orders WorkOrderProps
change p now operation previous rows =
    (do
      lift (assert_version p.version previous)
      order ← lift (operation previous)
      slot ← lift (schedule_to_check previous order)
      lift (check_conflict slot rows)
      changed ← lift (record_change p.user_id now order)
      write (save changed p.version)
      pure changed)
      rows

unfoldable pub mutate :
    AccessContext
    → ChangeWorkOrderParams
    → Date
    → (WorkOrderProps → Result WorkOrderError WorkOrderProps)
    → Tx WorkOrderError Orders WorkOrderProps
mutate access p now operation = do
  lift (assert_can_operate access denied)
  found ← gets (find_by_id p.work_order_id)
  previous ← lift (or_throw found work_order_not_found)
  change p now operation previous

-- What the callback of each use case does to the order. `available` is what the transaction
-- answers to `isAssignableMember`.
module _ (available : EntityId → Bool) (now : Date) where
  unfoldable pub schedule_order :
      Date → Date → WorkOrderProps → Result WorkOrderError WorkOrderProps
  schedule_order from to order =
      Result.◌>>◌ (assert_assignee available order.assigned_to_id) (schedule from to now order)

  unfoldable pub start_order : WorkOrderProps → Result WorkOrderError WorkOrderProps
  start_order order = Result.◌>>◌ (assert_assignee available order.assigned_to_id) (start now order)

  unfoldable pub assign_order :
      Option EntityId → WorkOrderProps → Result WorkOrderError WorkOrderProps
  assign_order none order = assign none order
  assign_order (some user) order =
      Result.◌>>◌ (assert_assignee available (some user)) (assign (some user) order)
