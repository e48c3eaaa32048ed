-- ===== src/Receivable/Bookings.antt =====
-- About recording a payment: `record_payment` in Receivable/Service
-- (recordReceivablePayment.useCase.ts).
use bom_trato_api.Prelude.{
  ◌+◌, ◌≡◌, ◌⊎◌, sym, Option, none, some, List, ◌∷◌, arith, EntityId, inl, inr, ◌∙◌, ap,
}
use bom_trato_api.Prelude.Result.{ok}
use bom_trato_api.Prelude.Transaction.{bind-parts, lift-parts, write-parts}
use bom_trato_api.Prelude.Date.{Date}
use bom_trato_api.Organization.Access.{AccessContext, assert_can_operate}
use bom_trato_api.Receivable.Types.{ReceivableProps, ReceivableView, ReceivablePaymentProps}
use bom_trato_api.Receivable.Payment.{create_payment}
use bom_trato_api.Receivable.Entity.{assert_version, receive}
use bom_trato_api.Receivable.Balance.{record_change-IsValid, receive-IsValid}
use bom_trato_api.Receivable.Repository.{Repository, IsRepository}
use bom_trato_api.Receivable.Service.{
  ChangeReceivableParams, RecordPaymentInput, PaymentResult, denied, payment_params, run, load,
  save, answer, replay, record_new, record_payment,
}
use bom_trato_api.Receivable.Ledger.{
  standing, IsBalanced, save-rows, save-parts, record_change-SameAccount,
}

receive-Takes :
    (p : ReceivablePaymentProps) (r c : ReceivableProps)
    → receive p r ≡ ok c
    → (p.reversed_at ≡ none)
      × (p.receivable_id ≡ r.id)
      × (c.id ≡ r.id)
      × (c.amount_in_cents ≡ r.amount_in_cents)
      × (c.received_in_cents ≡ r.received_in_cents + p.amount_in_cents)
unfolding receive
receive-Takes p r c h = ground arith

standing-cons :
    (p : ReceivablePaymentProps) (ps : List ReceivablePaymentProps)
    → p.reversed_at ≡ none
    → standing (p ∷ ps) ≡ p.amount_in_cents + standing ps
standing-cons p ps h = ground arith

module _ {S : Type 0} (repo : Repository S) (laws : IsRepository repo) where
  pub record_new-parts :
      (p : ChangeReceivableParams) (payment : ReceivablePaymentProps) (r : ReceivableProps)
      (now : Date) (s s'' : S) (x : PaymentResult)
      → record_new repo p payment r now s ≡ ok (x, s'')
      → (c : ReceivableProps) × (y : ReceivableView × S) × (assert_version p.version r ≡ ok tt)
        × (receive payment r ≡ ok c)
        × (save repo c p now s ≡ ok y)
        × (repo.create_payment payment y.1 ≡ ok s'')
        × (x ≡ record { receivable = y.0; payment = payment })
  unfolding record_new
  record_new-parts p payment r now s s'' x h =
      let (u, vsn, h1) = lift-parts (assert_version p.version r) _ s h in
      let (c, done, h2) = lift-parts (receive payment r) _ s h1 in
      let (y, saved, h3) = bind-parts (save repo c p now) _ s h2 in
      let (z, created, h4) = write-parts (repo.create_payment payment) _ y.1 h3 in
      (c, y, vsn, done, saved, ground arith, ground arith)

  answered :
      (p : ChangeReceivableParams) (payment : ReceivablePaymentProps) (r : ReceivableProps)
      (now : Date) (previous : Option ReceivablePaymentProps) (s s' : S) (x : PaymentResult)
      → answer repo previous p payment r now s ≡ ok (x, s')
      → (s' ≡ s) ⊎ (record_new repo p payment r now s ≡ ok (x, s'))
  unfolding answer replay
  answered p payment r now none s s' x h = inr h
  answered p payment r now (some existing) s s' x h = inl (ground arith)

  pub record_payment-parts :
      (access : AccessContext) (p : ChangeReceivableParams) (input : RecordPaymentInput)
      (fresh_id : EntityId) (now : Date) (s s' : S) (x : PaymentResult)
      → record_payment repo access p input fresh_id now s ≡ ok (x, s')
      → (r : ReceivableProps) × (payment : ReceivablePaymentProps) × (assert_can_operate access
            denied
          ≡ ok tt)
        × (repo.find_by_id p.receivable_id s ≡ some r)
        × (create_payment (payment_params p input fresh_id) now ≡ ok payment)
        × (answer repo
              (repo.find_payment_by_request_id p.receivable_id input.request_id s)
              p
              payment
              r
              now
              s
            ≡ ok (x, s'))
  unfolding record_payment run load
  record_payment-parts access p input fresh_id now s s' x h = ground arith

  record_new-IsBalanced :
      (p : ChangeReceivableParams) (payment : ReceivablePaymentProps) (r0 : ReceivableProps)
      (now : Date) (s s'' : S) (x : PaymentResult)
      → IsBalanced repo laws s
      → repo.find_by_id p.receivable_id s ≡ some r0
      → record_new repo p payment r0 now s ≡ ok (x, s'')
      → IsBalanced repo laws s''
  record_new-IsBalanced p payment r0 now s s'' x b found h id r g =
      let (c, y, vsn, done, saved, created, shown) = record_new-parts p payment r0 now s s'' x h in
      let s' = y.1 in
      let (d, changed, stored, seen) = save-parts repo laws c p now s s' y.0 saved in
      let b0 = b p.receivable_id r0 found in
      let k = receive-Takes payment r0 c done in
      let t = record_change-SameAccount repo laws p.user_id now c d changed in
      let key = laws.find-id p.receivable_id s r0 found in
      let dkey : d.id ≡ payment.receivable_id = ground arith in
      let pkey : payment.receivable_id ≡ p.receivable_id = ground arith in
      let f = ap (λ (i : EntityId). repo.find_by_id i s) (dkey ∙ pkey) ∙ found in
      let w' = record_change-IsValid p.user_id now (receive-IsValid payment b0.0 done) changed in
      let g' = sym (laws.create_payment-find payment s' s'' id created) ∙ g in
      let rows = save-rows repo laws d r0 p.version s s' b w' (ground arith) stored f id r g' in
      let money = laws.save-payments d p.version s s' id stored in
      let before = laws.save-payments d p.version s s' payment.receivable_id stored in
      let taken = laws.create_payment-payments payment s' s'' created in
      let others = laws.create_payment-other payment s' s'' id created in
      let sum =
        ap standing taken
        ∙ standing-cons payment _ k.0
        ∙ ap (λ (ps : List ReceivablePaymentProps). payment.amount_in_cents + standing ps)
            (before ∙ ap (λ (i : EntityId). repo.payments i s) pkey) in
      (
        rows.0,
        elim rows.1 [
          | inl (e, q) ↦ omega (
            arith,
            q,
            t.1,
            k.4,
            b0.1,
            sum,
            ap (λ (i : EntityId). standing (repo.payments i s'')) (e ∙ dkey),
          )
          | inr (ne, q) ↦ q ∙ ap standing (sym money ∙ sym (others (λ z. ne (z ∙ sym dkey))))
        ],
      )

  -- A successful request to record a payment, the replay of an earlier one included, keeps the
  -- books balanced: when in the store every receivable is valid and has received the sum of its
  -- payments that are not reversed, the same holds afterwards.
  pub record_payment-IsBalanced :
      (access : AccessContext) (p : ChangeReceivableParams) (input : RecordPaymentInput)
      (fresh_id : EntityId) (now : Date) (s s' : S) (x : PaymentResult)
      → IsBalanced repo laws s
      → record_payment repo access p input fresh_id now s ≡ ok (x, s')
      → IsBalanced repo laws s'
  record_payment-IsBalanced access p input fresh_id now s s' x b h =
      let (r, payment, allowed, found, made, done) =
        record_payment-parts access p input fresh_id now s s' x h in
      elim (answered p payment r now _ s s' x done) [
        | inl same ↦ rw same b
        | inr new ↦ record_new-IsBalanced p payment r now s s' x b found new
      ]
