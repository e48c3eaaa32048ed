-- ===== src/Workflow/Cancellation.antt =====
-- `CancelWorkOrderUseCase` (workOrders/application/useCases/cancelWorkOrder.useCase.ts) inside the
-- `mutate` of `WorkOrderApplicationService`, over the tables of an organization.
use bom_trato_api.Prelude.{
  Bool, true, false, ◌||◌, List, [], ◌∷◌, EntityId, Num, nat, ltb, if◌then◌else◌,
}
use bom_trato_api.Prelude.Result.{Result, ok, or_throw, rethrow, ◌>>=◌, ◌>>◌}
use bom_trato_api.Prelude.Text.{Text}
use bom_trato_api.Prelude.Date.{Date}
use bom_trato_api.Organization.Access.{AccessContext, assert_can_operate}
use bom_trato_api.WorkOrder.Types.{work_order_not_found, WorkOrderProps}
use bom_trato_api.WorkOrder.Entity.{assert_version, record_change, cancel, schedule_to_check}
use bom_trato_api.WorkOrder.Store.{find_by_id, check_conflict, save}
use bom_trato_api.WorkOrder.Service.{denied}
use bom_trato_api.Receivable.Types.{ReceivableStatus, ReceivableProps}
use bom_trato_api.Receivable.Entity
use bom_trato_api.Receivable.Repository.{Repository}
use bom_trato_api.Workflow.Approval.{WorkflowError, work_order_error, receivable_error, Tables}

pub record CancellationParams : Type 0 where
  pub user_id : EntityId
  pub work_order_id : EntityId
  pub version : Num
  pub reason : Text
  pub now : Date

abbrev pub is_canceled : ReceivableStatus → Bool
is_canceled ReceivableStatus.canceled = true
is_canceled _ = false

-- A receivable that the cancellation leaves alone: it is canceled, or something was paid.
abbrev pub is_kept : ReceivableProps → Bool
is_kept r = is_canceled r.status || ltb 0 r.received_in_cents

module _ {S : Type 0} (repo : Repository S) where
  unfoldable pub cancel_receivable_of :
      CancellationParams → ReceivableProps → S → Result WorkflowError S
  cancel_receivable_of p r s = do
    canceled ← rethrow receivable_error (Entity.cancel p.user_id p.reason p.now r)
    changed ← rethrow receivable_error (Entity.record_change p.user_id p.now canceled)
    rethrow receivable_error (repo.save changed (nat r.version) s)

  -- The body of the loop.
  unfoldable pub cancel_unless_kept :
      CancellationParams → ReceivableProps → S → Result WorkflowError S
  cancel_unless_kept p r s = if is_kept r then ok s else cancel_receivable_of p r s

  unfoldable pub cancel_receivables :
      CancellationParams → List ReceivableProps → S → Result WorkflowError S
  cancel_receivables p [] s = ok s
  cancel_receivables p (r ∷ rs) s = do s' ← cancel_unless_kept p r s; cancel_receivables p rs s'

  -- From the loaded order to the saved one.
  unfoldable pub cancel_loaded :
      CancellationParams
      → WorkOrderProps
      → Tables S
      → Result WorkflowError (WorkOrderProps × Tables S)
  cancel_loaded p previous t = do
    rethrow work_order_error (assert_version p.version previous)
    order ← rethrow work_order_error (cancel p.reason p.now previous)
    receivables ←
        cancel_receivables p (repo.list_by_work_order_id order.id t.receivables) t.receivables
    slot ← rethrow work_order_error (schedule_to_check previous order)
    rethrow work_order_error (check_conflict slot t.orders)
    changed ← rethrow work_order_error (record_change p.user_id p.now order)
    orders ← rethrow work_order_error (save changed p.version t.orders)
    ok (changed, record t { orders = orders; receivables = receivables })

  unfoldable pub cancel_work_order :
      AccessContext
      → CancellationParams
      → Tables S
      → Result WorkflowError (WorkOrderProps × Tables S)
  cancel_work_order access p t = do
    rethrow work_order_error (assert_can_operate access denied)
    previous ←
        rethrow work_order_error
          (or_throw (find_by_id p.work_order_id t.orders) work_order_not_found)
    cancel_loaded p previous t
