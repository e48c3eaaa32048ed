-- ===== src/Receivable/Repository.antt =====
-- The port `ReceivableRepository` (receivables/domain/repositories/receivable.repository.ts) over
-- a store of type `S`, and what the use cases rely on.
use bom_trato_api.Prelude.{◌≡◌, ◌≢◌, Option, none, some, List, ◌∷◌, ◌++◌, EntityId, value, Num}
use bom_trato_api.Prelude.Result.{Result, ok}
use bom_trato_api.Receivable.Types.{
  ReceivableError, ReceivableKind, ReceivableProps, ReceivablePaymentProps,
}

pub record Repository (S : Type 0) : Type 0 where
  pub create : ReceivableProps → S → Result ReceivableError S
  pub find_by_id : EntityId → S → Option ReceivableProps
  pub find_by_work_order_id_and_kind : EntityId → ReceivableKind → S → Option ReceivableProps
  pub list_by_work_order_id : EntityId → S → List ReceivableProps
  pub save : ReceivableProps → Num → S → Result ReceivableError S
  pub find_payment_by_id : EntityId → EntityId → S → Option ReceivablePaymentProps
  pub find_payment_by_request_id : EntityId → EntityId → S → Option ReceivablePaymentProps
  pub create_payment : ReceivablePaymentProps → S → Result ReceivableError S
  pub save_payment_reversal : ReceivablePaymentProps → S → Result ReceivableError S
  -- All payments of a receivable.
  pub payments : EntityId → S → List ReceivablePaymentProps

-- The row after a save: only these columns are written.
abbrev pub merge : ReceivableProps → ReceivableProps → ReceivableProps
merge old r = record old {
  received_in_cents = r.received_in_cents;
  status = r.status;
  due_at = r.due_at;
  notes = r.notes;
  canceled_at = r.canceled_at;
  canceled_by_id = r.canceled_by_id;
  cancellation_reason = r.cancellation_reason;
  version = r.version;
  updated_by_id = r.updated_by_id;
  updated_at = r.updated_at;
}

-- The row after a reversal is saved.
abbrev pub merge_reversal : ReceivablePaymentProps → ReceivablePaymentProps → ReceivablePaymentProps
merge_reversal old p = record old {
  reversed_at = p.reversed_at;
  reversed_by_id = p.reversed_by_id;
  reversal_reason = p.reversal_reason;
}

-- The table of receivables and that of the payments have their identifiers as keys, a write
-- touches the rows that its condition names, and a save succeeds only on the expected version.
pub record IsRepository {S : Type 0} (repo : Repository S) : Type 0 where
  pub find-id :
      (id : EntityId) (s : S) (r : ReceivableProps) → repo.find_by_id id s ≡ some r → r.id ≡ id
  pub save-find :
      (r : ReceivableProps) (v : Num) (s s' : S)
      → repo.save r v s ≡ ok s'
      → (old : ReceivableProps) × (repo.find_by_id r.id s ≡ some old)
        × (old.version ≡ value v)
        × (repo.find_by_id r.id s' ≡ some (merge old r))
  pub save-find_other :
      (r : ReceivableProps) (v : Num) (s s' : S) (id : EntityId)
      → repo.save r v s ≡ ok s'
      → id ≢ r.id
      → repo.find_by_id id s' ≡ repo.find_by_id id s
  pub save-payments :
      (r : ReceivableProps) (v : Num) (s s' : S) (id : EntityId)
      → repo.save r v s ≡ ok s'
      → repo.payments id s' ≡ repo.payments id s
  pub create_payment-payments :
      (p : ReceivablePaymentProps) (s s' : S)
      → repo.create_payment p s ≡ ok s'
      → repo.payments p.receivable_id s' ≡ p ∷ repo.payments p.receivable_id s
  pub create_payment-other :
      (p : ReceivablePaymentProps) (s s' : S) (id : EntityId)
      → repo.create_payment p s ≡ ok s'
      → id ≢ p.receivable_id
      → repo.payments id s' ≡ repo.payments id s
  pub create_payment-find :
      (p : ReceivablePaymentProps) (s s' : S) (id : EntityId)
      → repo.create_payment p s ≡ ok s'
      → repo.find_by_id id s' ≡ repo.find_by_id id s
  pub create_payment-request :
      (p : ReceivablePaymentProps) (s s' : S)
      → repo.create_payment p s ≡ ok s'
      → repo.find_payment_by_request_id p.receivable_id p.request_id s' ≡ some p
  pub reversal-payments :
      (p : ReceivablePaymentProps) (s s' : S)
      → repo.save_payment_reversal p s ≡ ok s'
      → (before : List ReceivablePaymentProps) × (after : List ReceivablePaymentProps)
        × (old : ReceivablePaymentProps) × (repo.payments p.receivable_id s ≡ before ++ old ∷ after)
        × (repo.find_payment_by_id p.receivable_id p.id s ≡ some old)
        × (old.reversed_at ≡ none)
        × (repo.payments p.receivable_id s' ≡ before ++ merge_reversal old p ∷ after)
  pub reversal-other :
      (p : ReceivablePaymentProps) (s s' : S) (id : EntityId)
      → repo.save_payment_reversal p s ≡ ok s'
      → id ≢ p.receivable_id
      → repo.payments id s' ≡ repo.payments id s
  pub reversal-find :
      (p : ReceivablePaymentProps) (s s' : S) (id : EntityId)
      → repo.save_payment_reversal p s ≡ ok s'
      → repo.find_by_id id s' ≡ repo.find_by_id id s
  pub save-find_payment :
      (r : ReceivableProps) (v : Num) (s s' : S) (rid pid : EntityId)
      → repo.save r v s ≡ ok s'
      → repo.find_payment_by_id rid pid s' ≡ repo.find_payment_by_id rid pid s
  pub find_payment-key :
      (rid pid : EntityId) (s : S) (p : ReceivablePaymentProps)
      → repo.find_payment_by_id rid pid s ≡ some p
      → (p.id ≡ pid) × (p.receivable_id ≡ rid)
