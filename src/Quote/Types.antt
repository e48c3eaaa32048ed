-- ===== src/Quote/Types.antt =====
-- The data of a quote (quotes/domain/entities/quote.entity.ts and quoteItem.entity.ts, the enums
-- of prisma/schema.prisma) and the codes of its errors.
use bom_trato_api.Prelude.{ℕ, Option, List, [], ◌∷◌, EntityId, Num}
use bom_trato_api.Prelude.Text.{Text}
use bom_trato_api.Prelude.Date.{Date}

pub data QuoteStatus : Type 0 where
  draft sent approved declined canceled : QuoteStatus

pub data PaymentCondition : Type 0 where
  after_completion upfront down_payment_and_balance : PaymentCondition

pub data ServiceUnit : Type 0 where
  service hour day unit square_meter : ServiceUnit

pub data QuoteError : Type 0 where
  organization_not_found member_required verified_user_required subscription_required : QuoteError
  billing_reconciliation_required quote_not_found quote_item_not_found : QuoteError
  customer_not_found customer_archived catalog_service_not_found : QuoteError
  catalog_service_archived quote_not_editable quote_version_conflict : QuoteError
  invalid_quote_transition quote_expired quote_empty quote_item_limit : QuoteError
  invalid_quote_input invalid_quote_item invalid_quote_amount : QuoteError
  invalid_quote_discount invalid_quote_validity quotes_busy : QuoteError

pub record QuoteItemDetails : Type 0 where
  pub name : Text
  pub description : Option (Option Text)
  pub unit_of : ServiceUnit
  pub quantity : Text
  pub unit_amount_in_cents : Num

pub record QuoteItemProps : Type 0 where
  pub id : EntityId
  pub catalog_service_id : Option EntityId
  pub name : Text
  pub description : Option Text
  pub unit_of : ServiceUnit
  pub quantity_in_thousandths : ℕ
  pub unit_amount_in_cents : ℕ
  pub total_in_cents : ℕ
  pub position : ℕ

-- `Partial<QuoteDetails>`: `none` is `undefined`, and an inner `none` is `null`.
pub record QuoteDetails : Type 0 where
  pub title : Option Text
  pub notes : Option (Option Text)
  pub valid_until : Option (Option Date)
  pub discount_in_cents : Option Num
  pub payment_condition : Option PaymentCondition
  pub down_payment_percentage : Option (Option Num)

pub record QuoteProps : Type 0 where
  pub id : EntityId
  pub organization_id : EntityId
  pub customer_id : EntityId
  pub customer_name : Text
  pub customer_email : Option Text
  pub customer_phone : Option Text
  pub title : Text
  pub notes : Option Text
  pub status : QuoteStatus
  pub currency : Text
  pub discount_in_cents : ℕ
  pub subtotal_in_cents : ℕ
  pub total_in_cents : ℕ
  pub payment_condition : PaymentCondition
  pub down_payment_percentage : Option ℕ
  pub version : ℕ
  pub valid_until : Option Date
  pub sent_at : Option Date
  pub decided_at : Option Date
  pub canceled_at : Option Date
  pub created_by_id : EntityId
  pub updated_by_id : Option EntityId
  pub created_at : Date
  pub updated_at : Date
  pub items : List QuoteItemProps

-- `'brl'`
abbrev pub brl : Text
brl = b'b' ∷ b'r' ∷ b'l' ∷ []
