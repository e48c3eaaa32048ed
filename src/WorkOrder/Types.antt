-- ===== src/WorkOrder/Types.antt =====
-- The data of work orders (workOrders/domain/types/workOrder.types.ts) and their errors.
use bom_trato_api.Prelude.{ℕ, Option, List, EntityId}
use bom_trato_api.Prelude.Text.{Text}
use bom_trato_api.Prelude.Date.{Date}
use bom_trato_api.Quote.Types.{ServiceUnit}

pub data WorkOrderStatus : Type 0 where
  opened scheduled in_progress completed canceled : WorkOrderStatus

pub data WorkOrderError : Type 0 where
  organization_not_found member_required verified_user_required : WorkOrderError
  subscription_required billing_reconciliation_required quote_not_found : WorkOrderError
  quote_not_approved work_order_not_found work_order_version_conflict : WorkOrderError
  work_order_not_editable invalid_work_order_transition : WorkOrderError
  invalid_work_order_input invalid_work_order_schedule assignee_required : WorkOrderError
  assignee_not_available service_address_required cancellation_reason_required : WorkOrderError
  work_orders_busy invalid_schedule_period work_order_schedule_conflict : WorkOrderError
  work_order_not_completed customer_contact_required : WorkOrderError
  review_public_profile_required review_already_submitted : WorkOrderError
  review_recipient_not_allowed : WorkOrderError

pub record WorkOrderItemProps : Type 0 where
  pub id : EntityId
  pub source_quote_item_id : EntityId
  pub name : Text
  pub description : Option Text
  pub unit_of : ServiceUnit
  pub quantity_in_thousandths : ℕ
  pub unit_amount_in_cents : ℕ
  pub total_in_cents : ℕ
  pub position : ℕ

pub record WorkOrderProps : Type 0 where
  pub id : EntityId
  pub organization_id : EntityId
  pub quote_id : EntityId
  pub customer_id : EntityId
  pub customer_name : Text
  pub customer_email : Option Text
  pub customer_phone : Option Text
  pub title : Text
  pub instructions : Option Text
  pub service_address : Option Text
  pub execution_notes : Option Text
  pub assigned_to_id : Option EntityId
  pub status : WorkOrderStatus
  pub currency : Text
  pub subtotal_in_cents : ℕ
  pub discount_in_cents : ℕ
  pub total_in_cents : ℕ
  pub scheduled_start_at : Option Date
  pub scheduled_end_at : Option Date
  pub started_at : Option Date
  pub completed_at : Option Date
  pub canceled_at : Option Date
  pub cancellation_reason : Option Text
  pub version : ℕ
  pub created_by_id : EntityId
  pub updated_by_id : EntityId
  pub created_at : Date
  pub updated_at : Date
  pub items : List WorkOrderItemProps

pub record WorkOrderScheduleSlot : Type 0 where
  pub work_order_id : EntityId
  pub assigned_to_id : EntityId
  pub start : Date
  pub end : Date

pub record WorkOrderDetails : Type 0 where
  pub title : Option Text
  pub instructions : Option (Option Text)
  pub service_address : Option (Option Text)
