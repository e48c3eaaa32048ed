-- ===== src/Receivable/Reversal.antt =====
-- About reversing a recorded payment: `reverse_recorded_payment` in Receivable/Service
-- (reverseReceivablePayment.useCase.ts).
use bom_trato_api.Prelude.{
  ◌+◌, ◌≡◌, sym, none, some, List, ◌∷◌, ◌++◌, arith, EntityId, inl, inr, ◌∙◌, ap,
}
use mathlib.Core.Path.{ap₂}
use bom_trato_api.Prelude.Result.{ok}
use bom_trato_api.Prelude.Transaction.{bind-parts, lift-parts, write-parts}
use bom_trato_api.Prelude.Text.{Text}
use bom_trato_api.Prelude.Date.{Date}
use bom_trato_api.Organization.Access.{AccessContext}
use bom_trato_api.Receivable.Types.{ReceivableProps, ReceivableView, ReceivablePaymentProps}
use bom_trato_api.Receivable.Payment.{reverse}
use bom_trato_api.Receivable.Entity.{reverse_payment}
use bom_trato_api.Receivable.Balance.{record_change-IsValid, reverse_payment-IsValid}
use bom_trato_api.Receivable.Repository.{Repository, IsRepository, merge_reversal}
use bom_trato_api.Receivable.Service.{
  ChangeReceivableParams, PaymentResult, run, load, save, book_reversal, reverse_recorded_payment,
}
use bom_trato_api.Receivable.Ledger.{
  standing, standing-append, IsBalanced, save-rows, save-parts, record_change-SameAccount,
}

reverse-Reverses :
    (p p' : ReceivablePaymentProps) (user : EntityId) (reason : Text) (now : Date)
    (r c : ReceivableProps)
    → reverse_payment p user reason now r ≡ ok (c, p')
    → (p.reversed_at ≡ none)
      × (p.receivable_id ≡ r.id)
      × (c.id ≡ r.id)
      × (c.amount_in_cents ≡ r.amount_in_cents)
      × (c.received_in_cents + p.amount_in_cents ≡ r.received_in_cents)
      × (p'.id ≡ p.id)
      × (p'.receivable_id ≡ p.receivable_id)
      × (p'.reversed_at ≡ some now)
unfolding reverse_payment reverse
reverse-Reverses p p' user reason now r c h = ground arith

-- Where one standing payment is marked as reversed, the sum falls by its amount.
standing-reversed :
    (before after : List ReceivablePaymentProps) (old p : ReceivablePaymentProps) (t : Date)
    → old.reversed_at ≡ none
    → p.reversed_at ≡ some t
    → standing (before ++ merge_reversal old p ∷ after) + old.amount_in_cents
      ≡ standing (before ++ old ∷ after)
standing-reversed before after old p t a b = ground (
  arith,
  standing-append before (merge_reversal old p ∷ after),
  standing-append before (old ∷ after),
)

of_some {ℓ} : {A : Type ℓ} {a b : A} → some a ≡ some b → a ≡ b
of_some h = cc

module _ {S : Type 0} (repo : Repository S) (laws : IsRepository repo) where
  book_reversal-parts :
      (p : ChangeReceivableParams) (payment : ReceivablePaymentProps) (reason : Text)
      (r : ReceivableProps) (now : Date) (s s'' : S) (x : PaymentResult)
      → book_reversal repo p payment reason r now s ≡ ok (x, s'')
      → (c : ReceivableProps × ReceivablePaymentProps) × (y : ReceivableView × S) × (reverse_payment
            payment p.user_id reason now r
          ≡ ok c)
        × (save repo c.0 p now s ≡ ok y)
        × (repo.save_payment_reversal c.1 y.1 ≡ ok s'')
  unfolding book_reversal
  book_reversal-parts p payment reason r now s s'' x h =
      let (c, done, h1) = lift-parts (reverse_payment payment p.user_id reason now r) _ s h in
      let (y, saved, h2) = bind-parts (save repo c.0 p now) _ s h1 in
      let (w, stored, h3) = write-parts (repo.save_payment_reversal c.1) _ y.1 h2 in
      (c, y, done, saved, ground (arith, stored, h3))

  reversal-parts :
      (access : AccessContext) (p : ChangeReceivableParams) (payment_id : EntityId) (reason : Text)
      (now : Date) (s s'' : S) (x : PaymentResult)
      → reverse_recorded_payment repo access p payment_id reason now s ≡ ok (x, s'')
      → (r : ReceivableProps) × (payment : ReceivablePaymentProps) × (repo.find_by_id
            p.receivable_id s
          ≡ some r)
        × (repo.find_payment_by_id p.receivable_id payment_id s ≡ some payment)
        × (book_reversal repo p payment reason r now s ≡ ok (x, s''))
  unfolding reverse_recorded_payment run load
  reversal-parts access p payment_id reason now s s'' x h = ground arith

  book_reversal-IsBalanced :
      (p : ChangeReceivableParams) (payment_id : EntityId) (payment : ReceivablePaymentProps)
      (reason : Text) (r0 : ReceivableProps) (now : Date) (s s'' : S) (x : PaymentResult)
      → IsBalanced repo laws s
      → repo.find_by_id p.receivable_id s ≡ some r0
      → repo.find_payment_by_id p.receivable_id payment_id s ≡ some payment
      → book_reversal repo p payment reason r0 now s ≡ ok (x, s'')
      → IsBalanced repo laws s''
  book_reversal-IsBalanced p payment_id payment reason r0 now s s'' x b found pfound h id r g =
      let (c, y, done, saved, stored) = book_reversal-parts p payment reason r0 now s s'' x h in
      let s' = y.1 in
      let rev = c.1 in
      let (d, changed, kept, seen) = save-parts repo laws c.0 p now s s' y.0 saved in
      let b0 = b p.receivable_id r0 found in
      let k = reverse-Reverses payment rev p.user_id reason now r0 c.0 done in
      let t = record_change-SameAccount repo laws p.user_id now c.0 d changed in
      let key = laws.find-id p.receivable_id s r0 found in
      let pkey = laws.find_payment-key p.receivable_id payment_id s payment pfound in
      let dkey : d.id ≡ p.receivable_id = ground arith in
      let rkey : rev.receivable_id ≡ p.receivable_id = k.6 ∙ pkey.1 in
      let f = ap (λ (i : EntityId). repo.find_by_id i s) dkey ∙ found in
      let w =
        record_change-IsValid p.user_id now
          (reverse_payment-IsValid payment rev p.user_id reason now b0.0 done) changed in
      let g' = sym (laws.reversal-find rev s' s'' id stored) ∙ g in
      let rows = save-rows repo laws d r0 p.version s s' b w (ground arith) kept f id r g' in
      let money = laws.save-payments d p.version s s' id kept in
      let others = laws.reversal-other rev s' s'' id stored in
      let (before, after, old, was, oid, stands, becomes) =
        laws.reversal-payments rev s' s'' stored in
      let rows' =
        ap (λ (i : EntityId). repo.payments i s) (sym rkey)
        ∙ sym (laws.save-payments d p.version s s' rev.receivable_id kept)
        ∙ was in
      let key' = k.5 ∙ pkey.0 in
      let again =
        ap₂ (λ (i j : EntityId). repo.find_payment_by_id i j s) (sym rkey) (sym key')
        ∙ sym (laws.save-find_payment d p.version s s' rev.receivable_id rev.id kept)
        ∙ oid in
      let same : old ≡ payment = of_some (sym again ∙ pfound) in
      let fall = standing-reversed before after old rev now stands k.7 in
      (
        rows.0,
        elim rows.1 [
          | inl (e, q) ↦ omega (
            arith,
            q,
            t.1,
            k.4,
            b0.1,
            fall,
            ap standing becomes,
            ap standing rows',
            ap (λ (a : ReceivablePaymentProps). a.amount_in_cents) same,
            ap (λ (i : EntityId). standing (repo.payments i s'')) (e ∙ dkey ∙ sym rkey),
          )
          | inr (ne, q) ↦ q ∙ ap standing (sym money ∙ sym (others (λ z. ne (z ∙ rkey ∙ sym dkey))))
        ],
      )

  -- A successful reversal of a recorded payment keeps the books balanced: when in the store every
  -- receivable is valid and has received the sum of its payments that are not reversed, the same
  -- holds afterwards.
  pub reverse_payment-IsBalanced :
      (access : AccessContext) (p : ChangeReceivableParams) (payment_id : EntityId) (reason : Text)
      (now : Date) (s s' : S) (x : PaymentResult)
      → IsBalanced repo laws s
      → reverse_recorded_payment repo access p payment_id reason now s ≡ ok (x, s')
      → IsBalanced repo laws s'
  reverse_payment-IsBalanced access p payment_id reason now s s' x b h =
      let (r, payment, found, pfound, booked) =
        reversal-parts access p payment_id reason now s s' x h in
      book_reversal-IsBalanced p payment_id payment reason r now s s' x b found pfound booked
