-- ===== src/Billing/PaymentLife.antt =====
-- The calls of the methods of an update of the payment method as steps, on
-- Billing/PaymentMethodUpdate.
use bom_trato_api.Prelude.{◌≡◌, ◌≢◌, refl, sym, ◌∙◌, some, EntityId, arith}
use bom_trato_api.Prelude.Result.{ok}
use bom_trato_api.Billing.Types.{pending, PaymentMethodUpdateProps, PaymentSetupIdentity}
use bom_trato_api.Billing.PaymentMethodUpdate.{
  assert_customer, attach_setup, finish, mark_update_applied, mark_update_canceled,
}

pub data Step (u u' : PaymentMethodUpdateProps) : Type 0 where
  attached : (s : PaymentSetupIdentity) → attach_setup s u ≡ ok u' → Step u u'
  was_applied : mark_update_applied u ≡ ok u' → Step u u'
  was_canceled : mark_update_canceled u ≡ ok u' → Step u u'

pub data Reach (u : PaymentMethodUpdateProps) : PaymentMethodUpdateProps → Type 0 where
  here : Reach u u
  next : {v w : PaymentMethodUpdateProps} → Reach u v → Step v w → Reach u w

Step-setup :
    {u u' : PaymentMethodUpdateProps} (id : EntityId)
    → u.stripe_setup_intent_id ≡ some id
    → Step u u'
    → u'.stripe_setup_intent_id ≡ some id
unfolding attach_setup assert_customer mark_update_applied mark_update_canceled finish
Step-setup id e (attached s h) = ground arith
Step-setup id e (was_applied h) = ground arith
Step-setup id e (was_canceled h) = ground arith

Step-finished :
    {u u' : PaymentMethodUpdateProps} → u.status ≢ pending → Step u u' → u'.status ≡ u.status
unfolding attach_setup assert_customer mark_update_applied mark_update_canceled finish
Step-finished n (attached s h) = ground arith
Step-finished n (was_applied h) = ground arith
Step-finished n (was_canceled h) = ground arith

-- A setup that is attached to an update is never exchanged for another, and an update that is
-- applied or canceled keeps that status, whatever is called afterwards.
pub Reach-payment_update :
    {u u' : PaymentMethodUpdateProps}
    → Reach u u'
    → ((id : EntityId) → u.stripe_setup_intent_id ≡ some id → u'.stripe_setup_intent_id ≡ some id)
      × (u.status ≢ pending → u'.status ≡ u.status)
Reach-payment_update here = (λ id e. e, λ n. refl)
Reach-payment_update (next r s) =
    let a = Reach-payment_update r in
    (λ id e. Step-setup id (a.0 id e) s, λ n. Step-finished (λ e. n (sym (a.1 n) ∙ e)) s ∙ a.1 n)
