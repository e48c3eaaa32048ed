-- ===== src/Receivable/Types.antt =====
-- The data of receivables and payments (receivables/domain/entities, the enums of
-- prisma/schema.prisma) and the codes of their errors.
use bom_trato_api.Prelude.{ℕ, Option, EntityId, Num, ℤ, Bool}
use bom_trato_api.Prelude.Text.{Text}
use bom_trato_api.Prelude.Date.{Date}
use bom_trato_api.WorkOrder.Types.{WorkOrderStatus}

pub data ReceivableStatus : Type 0 where
  opened partially_paid paid canceled : ReceivableStatus

pub data ReceivableKind : Type 0 where
  full down_payment remaining_balance : ReceivableKind

pub data ReceivablePaymentMethod : Type 0 where
  cash pix bank_transfer credit_card debit_card other : ReceivablePaymentMethod

pub data ReceivableError : Type 0 where
  organization_not_found member_required verified_user_required : ReceivableError
  subscription_required billing_reconciliation_required receivables_busy : ReceivableError
  work_order_not_found work_order_canceled receivable_not_found : ReceivableError
  receivable_already_exists receivable_version_conflict receivable_not_editable : ReceivableError
  receivable_has_payments invalid_receivable_input invalid_receivable_amount : ReceivableError
  invalid_receivable_date invalid_receivable_balance payment_not_found : ReceivableError
  payment_exceeds_balance payment_already_reversed invalid_payment_method : ReceivableError
  invalid_payment_date idempotency_conflict reason_required : ReceivableError

pub record ReceivableProps : Type 0 where
  pub id : EntityId
  pub organization_id : EntityId
  pub work_order_id : EntityId
  pub kind : ReceivableKind
  pub customer_id : EntityId
  pub customer_name : Text
  pub title : Text
  pub currency : Text
  pub amount_in_cents : ℕ
  pub received_in_cents : ℕ
  pub status : ReceivableStatus
  pub due_at : Date
  pub notes : Option Text
  pub canceled_at : Option Date
  pub canceled_by_id : Option EntityId
  pub cancellation_reason : Option Text
  pub version : ℕ
  pub created_by_id : EntityId
  pub updated_by_id : EntityId
  pub created_at : Date
  pub updated_at : Date

pub record ReceivableSource : Type 0 where
  pub id : EntityId
  pub organization_id : EntityId
  pub customer_id : EntityId
  pub customer_name : Text
  pub title : Text
  pub currency : Text
  pub total_in_cents : ℕ
  pub status : WorkOrderStatus

-- `none` is `undefined`, and an inner `none` is `null`.
pub record ReceivableDetails : Type 0 where
  pub due_at : Option Date
  pub notes : Option (Option Text)

pub record ReceivableView : Type 0 where
  pub props : ReceivableProps
  pub balance_in_cents : ℤ
  pub overdue : Bool

pub record ReceivablePaymentProps : Type 0 where
  pub id : EntityId
  pub receivable_id : EntityId
  pub request_id : EntityId
  pub amount_in_cents : ℕ
  pub method : ReceivablePaymentMethod
  pub received_at : Date
  pub notes : Option Text
  pub recorded_by_id : EntityId
  pub created_at : Date
  pub reversed_at : Option Date
  pub reversed_by_id : Option EntityId
  pub reversal_reason : Option Text

pub record CreateReceivablePaymentParams : Type 0 where
  pub id : EntityId
  pub receivable_id : EntityId
  pub request_id : EntityId
  pub amount_in_cents : Num
  pub method : ReceivablePaymentMethod
  pub received_at : Date
  pub notes : Option (Option Text)
  pub recorded_by_id : EntityId
