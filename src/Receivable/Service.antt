-- ===== src/Receivable/Service.antt =====
-- The use cases on receivables (receivables/application: receivableApplicationService and the
-- use cases create, update, cancel, recordPayment, reversePayment), over the repository. The clock
-- and the fresh identifier are arguments.
use bom_trato_api.Prelude.{
  ℕ, ◌==◌, Bool, true, false, not, Option, none, some, [], ◌∷◌, EntityId, Num, nat, find, length,
  if◌then◌else◌,
}
use bom_trato_api.Prelude.Result.{Result, err, throw_if, or_throw}
use bom_trato_api.Prelude.Transaction.{Tx, ◌>>=◌, ◌>>◌, pure, lift, gets, write}
use bom_trato_api.Prelude.Text.{Text}
use bom_trato_api.Prelude.Date.{Date}
use bom_trato_api.Organization.Access.{AccessContext, AccessDenial, assert_can_operate}
use bom_trato_api.Receivable.Types.{
  ReceivableError, work_order_not_found, receivable_not_found, receivable_already_exists,
  payment_not_found, idempotency_conflict, ReceivableKind, full, ReceivablePaymentMethod,
  ReceivableProps, ReceivableSource, ReceivableDetails, ReceivableView, ReceivablePaymentProps,
  CreateReceivablePaymentParams,
}
use bom_trato_api.Receivable.Payment.{create_payment, matches_request}
use bom_trato_api.Receivable.Entity.{
  create, view, assert_version, record_change, update, receive, reverse_payment, cancel,
}
use bom_trato_api.Receivable.Repository.{Repository}

-- `(code) => new ReceivableError(code)`
abbrev pub denied : AccessDenial → ReceivableError
denied AccessDenial.member_required = ReceivableError.member_required
denied AccessDenial.verified_user_required = ReceivableError.verified_user_required
denied AccessDenial.billing_reconciliation_required =
    ReceivableError.billing_reconciliation_required
denied AccessDenial.subscription_required = ReceivableError.subscription_required

pub record ChangeReceivableParams : Type 0 where
  pub user_id : EntityId
  pub receivable_id : EntityId
  pub version : Num

pub record RecordPaymentInput : Type 0 where
  pub request_id : EntityId
  pub amount_in_cents : Num
  pub method : ReceivablePaymentMethod
  pub received_at : Date
  pub notes : Option (Option Text)

abbrev pub payment_params :
    ChangeReceivableParams → RecordPaymentInput → EntityId → CreateReceivablePaymentParams
payment_params p input fresh_id = record {
  id = fresh_id;
  receivable_id = p.receivable_id;
  request_id = input.request_id;
  amount_in_cents = input.amount_in_cents;
  method = input.method;
  received_at = input.received_at;
  notes = input.notes;
  recorded_by_id = p.user_id;
}

pub record PaymentResult : Type 0 where
  pub receivable : ReceivableView
  pub payment : ReceivablePaymentProps

abbrev pub is_full : ReceivableProps → Bool
is_full r = elim r.kind [ full ↦ true | _ ↦ false ]

module _ {S : Type 0} (repo : Repository S) where
  -- `run`: the policy, then the operation.
  unfoldable pub run :
      {A : Type 0} → AccessContext → Tx ReceivableError S A → Tx ReceivableError S A
  run access operation = do lift (assert_can_operate access denied); operation

  unfoldable pub load : EntityId → Tx ReceivableError S ReceivableProps
  load id = do found ← gets (repo.find_by_id id); lift (or_throw found receivable_not_found)

  unfoldable pub save :
      ReceivableProps → ChangeReceivableParams → Date → Tx ReceivableError S ReceivableView
  save r p now = do
    changed ← lift (record_change p.user_id now r)
    write (repo.save changed p.version)
    pure (view now changed)

  unfoldable pub mutate :
      AccessContext
      → ChangeReceivableParams
      → Date
      → (ReceivableProps → Result ReceivableError ReceivableProps)
      → Tx ReceivableError S ReceivableView
  mutate access p now operation = run access (do
    r ← load p.receivable_id
    lift (assert_version p.version r)
    changed ← lift (operation r)
    save changed p now)

  unfoldable pub cancel_receivable :
      AccessContext → ChangeReceivableParams → Text → Date → Tx ReceivableError S ReceivableView
  cancel_receivable access p reason now = mutate access p now (cancel p.user_id reason now)

  unfoldable pub update_receivable :
      AccessContext
      → ChangeReceivableParams
      → ReceivableDetails
      → Date
      → Tx ReceivableError S ReceivableView
  update_receivable access p d now = mutate access p now (update d)

  -- A replay is answered before the version is looked at.
  unfoldable pub replay :
      ReceivablePaymentProps
      → ReceivablePaymentProps
      → ReceivableProps
      → Date
      → Tx ReceivableError S PaymentResult
  replay existing payment r now = do
    lift (throw_if (not (matches_request existing payment)) idempotency_conflict)
    pure (record { receivable = view now r; payment = existing })

  unfoldable pub record_new :
      ChangeReceivableParams
      → ReceivablePaymentProps
      → ReceivableProps
      → Date
      → Tx ReceivableError S PaymentResult
  record_new p payment r now = do
    lift (assert_version p.version r)
    received ← lift (receive payment r)
    saved ← save received p now
    write (repo.create_payment payment)
    pure (record { receivable = saved; payment = payment })

  unfoldable pub answer :
      Option ReceivablePaymentProps
      → ChangeReceivableParams
      → ReceivablePaymentProps
      → ReceivableProps
      → Date
      → Tx ReceivableError S PaymentResult
  answer none p payment r now = record_new p payment r now
  answer (some existing) p payment r now = replay existing payment r now

  unfoldable pub record_payment :
      AccessContext
      → ChangeReceivableParams
      → RecordPaymentInput
      → EntityId
      → Date
      → Tx ReceivableError S PaymentResult
  record_payment access p input fresh_id now = run access (do
    r ← load p.receivable_id
    payment ← lift (create_payment (payment_params p input fresh_id) now)
    previous ← gets (repo.find_payment_by_request_id p.receivable_id input.request_id)
    answer previous p payment r now)

  unfoldable pub book_reversal :
      ChangeReceivableParams
      → ReceivablePaymentProps
      → Text
      → ReceivableProps
      → Date
      → Tx ReceivableError S PaymentResult
  book_reversal p payment reason r now = do
    (changed, reversed) ← lift (reverse_payment payment p.user_id reason now r)
    saved ← save changed p now
    write (repo.save_payment_reversal reversed)
    pure (record { receivable = saved; payment = reversed })

  unfoldable pub reverse_recorded_payment :
      AccessContext
      → ChangeReceivableParams
      → EntityId
      → Text
      → Date
      → Tx ReceivableError S PaymentResult
  reverse_recorded_payment access p payment_id reason now = run access (do
    r ← load p.receivable_id
    lift (assert_version p.version r)
    found ← gets (repo.find_payment_by_id p.receivable_id payment_id)
    payment ← lift (or_throw found payment_not_found)
    book_reversal p payment reason r now)

  -- `ensureReceivableFromWorkOrder`
  unfoldable pub ensure_receivable :
      EntityId
      → EntityId
      → ReceivableSource
      → ReceivableKind
      → ℕ
      → Date
      → Option (Option Text)
      → EntityId
      → Date
      → Tx ReceivableError S ReceivableView
  ensure_receivable organization_id user_id source kind amount due_at notes fresh_id now = do
    existing ← gets (repo.find_by_work_order_id_and_kind source.id kind)
    elim existing [
      | some r ↦ pure (view now r)
      | none ↦ do
        r ← lift (
            create
              (record {
                id = fresh_id;
                organization_id = organization_id;
                user_id = user_id;
                source = source;
                kind = kind;
                amount_in_cents = nat amount;
                due_at = due_at;
                notes = notes;
              })
              now)
        write (repo.create r)
        pure (view now r)
    ]

  unfoldable pub create_receivable :
      AccessContext
      → EntityId
      → EntityId
      → Option ReceivableSource
      → Date
      → Option (Option Text)
      → EntityId
      → Date
      → Tx ReceivableError S ReceivableView
  create_receivable access organization_id user_id found due_at notes fresh_id now = run access (do
    source ← lift (or_throw found work_order_not_found)
    existing ← gets (repo.list_by_work_order_id source.id)
    elim existing [
      | [] ↦
          ensure_receivable organization_id user_id source full source.total_in_cents due_at notes
            fresh_id now
      | r ∷ rest ↦ elim (find is_full (r ∷ rest)) [
        | some f ↦
            if length (r ∷ rest) == 1
            then pure (view now f)
            else lift (err receivable_already_exists)
        | none ↦ lift (err receivable_already_exists)
      ]
    ])
