-- ===== src/Receivable/Replay.antt =====
-- About a request to record a payment that is sent twice: `record_payment` in
-- Receivable/Service (recordReceivablePayment.useCase.ts).
use bom_trato_api.Prelude.{
  ◌≡◌, refl, sym, true, false, Option, none, some, arith, EntityId, inl, inr, ◌∙◌, ap, Option-cases,
}
use mathlib.Core.Path.{ap₂}
use bom_trato_api.Prelude.Result.{ok}
use bom_trato_api.Prelude.Text.{Text, text_eq_refl}
use bom_trato_api.Prelude.Date.{Date, is_valid, date_lt}
use bom_trato_api.Organization.Access.{AccessContext, assert_can_operate}
use bom_trato_api.Receivable.Types.{
  ReceivableProps, ReceivablePaymentProps, CreateReceivablePaymentParams,
}
use bom_trato_api.Receivable.Validation.{assert_date}
use bom_trato_api.Receivable.Payment.{create_payment, matches_request, same_text}
use bom_trato_api.Receivable.Entity.{view, receive, record_change}
use bom_trato_api.Receivable.Repository.{Repository, IsRepository, merge}
use bom_trato_api.Receivable.Service.{
  ChangeReceivableParams, RecordPaymentInput, PaymentResult, denied, payment_params, run, load,
  replay, answer, record_new, record_payment,
}
use bom_trato_api.Receivable.Ledger.{save-parts}
use bom_trato_api.Receivable.Bookings.{record_payment-parts, record_new-parts}

-- The payment that the same input makes later, under another identifier.
abbrev again : ReceivablePaymentProps → EntityId → Date → ReceivablePaymentProps
again a id later = record a { id = id; created_at = later }

create_payment-again :
    (p : ChangeReceivableParams) (input : RecordPaymentInput) (id id' : EntityId) (now later : Date)
    (a : ReceivablePaymentProps)
    → create_payment (payment_params p input id) now ≡ ok a
    → is_valid later ≡ true
    → date_lt later input.received_at ≡ false
    → create_payment (payment_params p input id') later ≡ ok (again a id' later)
unfolding create_payment assert_date
create_payment-again p input id id' now later a h valid past = ground arith

same_text_refl : (t : Option Text) → same_text t t ≡ true
same_text_refl none = refl
same_text_refl (some t) = text_eq_refl t

matches_again :
    (a e : ReceivablePaymentProps) (id : EntityId) (later : Date)
    → matches_request e (again a id later) ≡ matches_request e a
unfolding matches_request
matches_again a e id later = refl

created-matches :
    (p : CreateReceivablePaymentParams) (now : Date) (a : ReceivablePaymentProps)
    → create_payment p now ≡ ok a
    → matches_request a a ≡ true
unfolding create_payment assert_date matches_request
created-matches p now a h = ground (arith, same_text_refl a.notes)

created-fields :
    (p : ChangeReceivableParams) (input : RecordPaymentInput) (id : EntityId) (now : Date)
    (a : ReceivablePaymentProps)
    → create_payment (payment_params p input id) now ≡ ok a
    → (a.receivable_id ≡ p.receivable_id) × (a.request_id ≡ input.request_id)
unfolding create_payment
created-fields p input id now a h = ground arith

changed_id :
    (user : EntityId) (now : Date) (a : ReceivablePaymentProps) (r c d : ReceivableProps)
    → receive a r ≡ ok c
    → record_change user now c ≡ ok d
    → d.id ≡ r.id
unfolding receive record_change
changed_id user now a r c d h k = ground arith

abbrev payment_of : PaymentResult → ReceivablePaymentProps
payment_of x = x.payment

module _ {S : Type 0} (repo : Repository S) (laws : IsRepository repo) where
  -- A replay succeeds, and leaves the store alone.
  answer_replay :
      (p : ChangeReceivableParams) (input : RecordPaymentInput) (access : AccessContext)
      (id : EntityId) (later : Date) (s : S) (r : ReceivableProps) (e a : ReceivablePaymentProps)
      → assert_can_operate access denied ≡ ok tt
      → repo.find_by_id p.receivable_id s ≡ some r
      → create_payment (payment_params p input id) later ≡ ok a
      → repo.find_payment_by_request_id p.receivable_id input.request_id s ≡ some e
      → matches_request e a ≡ true
      → record_payment repo access p input id later s
        ≡ ok (record { receivable = view later r; payment = e }, s)
  unfolding record_payment run load answer replay
  answer_replay p input access id later s r e a allowed found made known same = ground arith

  replay-parts :
      (p : ChangeReceivableParams) (e a : ReceivablePaymentProps) (r : ReceivableProps) (now : Date)
      (s s' : S) (x : PaymentResult)
      → answer repo (some e) p a r now s ≡ ok (x, s')
      → (matches_request e a ≡ true) × (s' ≡ s) × (x.payment ≡ e)
  unfolding answer replay
  replay-parts p e a r now s s' x h = ground arith

  -- What a first booking leaves behind for a later request.
  booked :
      (p : ChangeReceivableParams) (a : ReceivablePaymentProps) (r : ReceivableProps) (now : Date)
      (s s' : S) (x : PaymentResult)
      → repo.find_by_id p.receivable_id s ≡ some r
      → a.receivable_id ≡ p.receivable_id
      → record_new repo p a r now s ≡ ok (x, s')
      → (r' : ReceivableProps) × (repo.find_by_id p.receivable_id s' ≡ some r')
        × (repo.find_payment_by_request_id a.receivable_id a.request_id s' ≡ some a)
        × (x.payment ≡ a)
  booked p a r now s s' x found key h =
      let (c, y, vsn, done, saved, created, shown) =
        record_new-parts repo laws p a r now s s' x h in
      let (d, changed, kept, seen) = save-parts repo laws c p now s y.1 y.0 saved in
      let (old, was, v, becomes) = laws.save-find d p.version s y.1 kept in
      let rkey = laws.find-id p.receivable_id s r found in
      let dkey = changed_id p.user_id now a r c d done changed in
      let at_key =
        ap (λ (i : EntityId). repo.find_by_id i s') (sym rkey ∙ sym dkey)
        ∙ laws.create_payment-find a y.1 s' d.id created
        ∙ becomes in
      (merge old d, at_key, laws.create_payment-request a y.1 s' created, ap payment_of shown)

  -- A request that was answered once is answered again at any later time with the same payment,
  -- under whatever fresh identifier, and the store stays as the first answer left it: the second
  -- request books nothing and does not look at the version, which the first one has changed.
  pub record_payment-replay :
      (access : AccessContext) (p : ChangeReceivableParams) (input : RecordPaymentInput)
      (id id' : EntityId) (now later : Date) (s s' : S) (x : PaymentResult)
      → record_payment repo access p input id now s ≡ ok (x, s')
      → is_valid later ≡ true
      → date_lt later input.received_at ≡ false
      → (y : PaymentResult) × (record_payment repo access p input id' later s' ≡ ok (y, s'))
        × (y.payment ≡ x.payment)
  unfolding answer
  record_payment-replay access p input id id' now later s s' x h valid past =
      let (r, a, allowed, found, made, done) =
        record_payment-parts repo laws access p input id now s s' x h in
      let made' = create_payment-again p input id id' now later a made valid past in
      let same = created-fields p input id now a made in
      elim (Option-cases (repo.find_payment_by_request_id p.receivable_id input.request_id s)) [
        | inl new ↦
            let (r', found', known, shown) = booked p a r now s s' x found same.0 (
              ap (λ (o : Option ReceivablePaymentProps). answer repo o p a r now s) (sym new)
              ∙ done) in
            (
              record { receivable = view later r'; payment = a },
              answer_replay p input access id' later s' r' a (again a id' later) allowed found'
                  made'
                  (ap₂ (λ (i j : EntityId). repo.find_payment_by_request_id i j s') (sym same.0)
                      (sym same.1)
                    ∙ known)
                  (matches_again a a id' later ∙ created-matches _ now a made),
              sym shown,
            )
        | inr (e, known) ↦
            let (m, kept, shown) = replay-parts p e a r now s s' x (
              ap (λ (o : Option ReceivablePaymentProps). answer repo o p a r now s) (sym known)
              ∙ done) in
            (
              record { receivable = view later r; payment = e },
              answer_replay p input access id' later s' r e (again a id' later) allowed
                  (ap (λ (t : S). repo.find_by_id p.receivable_id t) kept ∙ found) made'
                  (ap
                      (λ (t : S).
                        repo.find_payment_by_request_id p.receivable_id input.request_id t)
                      kept
                    ∙ known)
                  (matches_again a e id' later ∙ m),
              sym shown,
            )
      ]
