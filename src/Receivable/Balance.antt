-- ===== src/Receivable/Balance.antt =====
-- The states of a receivable and the methods that move its balance, on Receivable/Entity.
use bom_trato_api.Prelude.{
  ℕ, ◌+◌, ◌≤◌, ◌<◌, ◌≡◌, ◌≢◌, ◌↔◌, Option, none, some, arith, EntityId, max_int, pos,
}
use bom_trato_api.Prelude.Result.{ok}
use bom_trato_api.Prelude.Text.{Text}
use bom_trato_api.Prelude.Date.{Date}
use bom_trato_api.Receivable.Types.{
  ReceivableStatus, partially_paid, ReceivableProps, ReceivableDetails, ReceivablePaymentProps,
}
use bom_trato_api.Receivable.Validation.{assert_amount}
use bom_trato_api.Receivable.Entity.{
  created, CreateReceivableParams, create, view, record_change, update, receive, reverse_payment,
  cancel, update_payment_status,
}

-- The status follows from the amounts; a canceled receivable has received nothing, and only such
-- a one carries a cancellation.
abbrev pub Consistent :
    ReceivableStatus → ℕ → ℕ → Option Date → Option EntityId → Option Text → Type 0
Consistent ReceivableStatus.opened received amount none none none = received ≡ 0
Consistent partially_paid received amount none none none = (0 < received) × (received < amount)
Consistent ReceivableStatus.paid received amount none none none = received ≡ amount
Consistent ReceivableStatus.canceled received amount (some _) (some _) (some _) = received ≡ 0
Consistent _ received amount _ _ _ = ⊥

pub record IsValid (r : ReceivableProps) : Type 0 where
  pub positive : 1 ≤ r.amount_in_cents
  pub bounded : r.amount_in_cents ≤ max_int
  pub consistent :
      Consistent r.status r.received_in_cents r.amount_in_cents r.canceled_at r.canceled_by_id
        r.cancellation_reason

-- A new receivable is valid and owes its whole amount, which is at most the total of the order.
pub create-IsValid :
    (p : CreateReceivableParams) (now : Date) {r : ReceivableProps}
    → create p now ≡ ok r
    → IsValid r
      × ((view now r).balance_in_cents ≡ pos r.amount_in_cents)
      × (r.amount_in_cents ≤ p.source.total_in_cents)
unfolding create created assert_amount view
create-IsValid p now h = ground arith

pub update-IsValid :
    (d : ReceivableDetails) {r r' : ReceivableProps} → IsValid r → update d r ≡ ok r' → IsValid r'
unfolding update
update-IsValid d v h = ground arith

pub record_change-IsValid :
    (user : EntityId) (now : Date) {r r' : ReceivableProps}
    → IsValid r
    → record_change user now r ≡ ok r'
    → IsValid r'
unfolding record_change
record_change-IsValid user now v h = ground arith

pub receive-IsValid :
    (p : ReceivablePaymentProps) {r r' : ReceivableProps}
    → IsValid r
    → receive p r ≡ ok r'
    → IsValid r'
unfolding receive assert_amount
receive-IsValid p v h = ground arith

pub reverse_payment-IsValid :
    (p p' : ReceivablePaymentProps) (user : EntityId) (reason : Text) (now : Date)
    {r r' : ReceivableProps}
    → IsValid r
    → reverse_payment p user reason now r ≡ ok (r', p')
    → IsValid r'
unfolding reverse_payment
reverse_payment-IsValid p p' user reason now v h = ground arith

pub cancel-IsValid :
    (user : EntityId) (reason : Text) (now : Date) {r r' : ReceivableProps}
    → IsValid r
    → cancel user reason now r ≡ ok r'
    → IsValid r'
unfolding cancel
cancel-IsValid user reason now v h = ground arith

-- A receivable takes a payment exactly if it is not canceled, the payment is for it, stands, and
-- is an amount from one cent to what is still owed.
pub receive_iff :
    (p : ReceivablePaymentProps) (r : ReceivableProps)
    → IsValid r
    → ((r' : ReceivableProps) × (receive p r ≡ ok r')) ↔ (
        (r.status ≢ ReceivableStatus.canceled)
        × (p.receivable_id ≡ r.id)
        × (p.reversed_at ≡ none)
        × (1 ≤ p.amount_in_cents)
        × (r.received_in_cents + p.amount_in_cents ≤ r.amount_in_cents))
unfolding receive assert_amount
receive_iff p r v = (
  λ (r', h). ground arith,
  λ h. (
    update_payment_status
        (record r { received_in_cents = r.received_in_cents + p.amount_in_cents }),
    ground arith,
  ),
)

-- A payment that is taken and then reversed leaves the receivable exactly as it was before.
pub receive-reverse :
    (p p' : ReceivablePaymentProps) (user : EntityId) (reason : Text) (now : Date)
    (r r' r'' : ReceivableProps)
    → IsValid r
    → receive p r ≡ ok r'
    → reverse_payment p user reason now r' ≡ ok (r'', p')
    → r'' ≡ r
unfolding receive reverse_payment assert_amount
receive-reverse p p' user reason now r r' r'' v h k = ground arith
