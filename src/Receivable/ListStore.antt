-- ===== src/Receivable/ListStore.antt =====
-- A repository of receivables over two lists, on which tests run.
use bom_trato_api.Prelude.{
  ◌≡◌, ◌≢◌, refl, Bool, true, false, ◌&&◌, Option, none, some, List, [], ◌∷◌, ◌++◌, arith, EntityId,
  Num, value, ◌==◌, Bool-cases, inl, inr, find, keep, is_some, if◌then◌else◌, ap, ◌∙◌,
}
use bom_trato_api.Prelude.Result.{Result, ok, err}
use bom_trato_api.Receivable.Types.{
  ReceivableError, receivable_version_conflict, payment_already_reversed, ReceivableKind,
  ReceivableProps, ReceivablePaymentProps,
}
use bom_trato_api.Receivable.Repository.{Repository, IsRepository, merge, merge_reversal}

pub record Store : Type 0 where
  pub rows : List ReceivableProps
  pub paid : List ReceivablePaymentProps

abbrev pub row_of : EntityId → List ReceivableProps → Option ReceivableProps
row_of id [] = none
row_of id (r ∷ rs) = if r.id == id then some r else row_of id rs

abbrev pub put_row : EntityId → ReceivableProps → List ReceivableProps → List ReceivableProps
put_row id c [] = []
put_row id c (r ∷ rs) = if r.id == id then merge r c ∷ rs else r ∷ put_row id c rs

abbrev pub kind_eq : ReceivableKind → ReceivableKind → Bool
kind_eq ReceivableKind.full ReceivableKind.full = true
kind_eq ReceivableKind.down_payment ReceivableKind.down_payment = true
kind_eq ReceivableKind.remaining_balance ReceivableKind.remaining_balance = true
kind_eq _ _ = false

abbrev pub is_payment : EntityId → EntityId → ReceivablePaymentProps → Bool
is_payment rid pid p = p.receivable_id == rid && p.id == pid

abbrev pub payment_of :
    EntityId → EntityId → List ReceivablePaymentProps → Option ReceivablePaymentProps
payment_of rid pid = find (is_payment rid pid)

abbrev pub payments_of : EntityId → List ReceivablePaymentProps → List ReceivablePaymentProps
payments_of rid = keep (λ p. p.receivable_id == rid)

abbrev pub put_reversal :
    ReceivablePaymentProps → List ReceivablePaymentProps → List ReceivablePaymentProps
put_reversal p [] = []
put_reversal p (q ∷ qs) =
    if is_payment p.receivable_id p.id q then merge_reversal q p ∷ qs else q ∷ put_reversal p qs

abbrev pub save_row : ReceivableProps → Num → Store → Result ReceivableError Store
save_row c v s = elim (row_of c.id s.rows) [
  | none ↦ err receivable_version_conflict
  | some old ↦
      if old.version == value v
      then ok (record s { rows = put_row c.id c s.rows })
      else err receivable_version_conflict
]

abbrev pub reverse_row : ReceivablePaymentProps → Store → Result ReceivableError Store
reverse_row p s = elim (payment_of p.receivable_id p.id s.paid) [
  | none ↦ err payment_already_reversed
  | some old ↦
      if is_some old.reversed_at
      then err payment_already_reversed
      else ok (record s { paid = put_reversal p s.paid })
]

abbrev pub list_repository : Repository Store
list_repository = record {
  create = λ r s. ok (record s { rows = r ∷ s.rows });
  find_by_id = λ id s. row_of id s.rows;
  find_by_work_order_id_and_kind =
      λ id kind s. find (λ r. r.work_order_id == id && kind_eq r.kind kind) s.rows;
  list_by_work_order_id = λ id s. keep (λ r. r.work_order_id == id) s.rows;
  save = save_row;
  find_payment_by_id = λ rid pid s. payment_of rid pid s.paid;
  find_payment_by_request_id =
      λ rid request s. find (λ p. p.receivable_id == rid && p.request_id == request) s.paid;
  create_payment = λ p s. ok (record s { paid = p ∷ s.paid });
  save_payment_reversal = reverse_row;
  payments = λ rid s. payments_of rid s.paid;
}

row_of-id :
    (id : EntityId) (rs : List ReceivableProps) (r : ReceivableProps)
    → row_of id rs ≡ some r
    → r.id ≡ id
row_of-id id [] r h = cc
row_of-id id (x ∷ rs) r h = ground (arith, row_of-id id rs r)

row_of-put :
    (c old : ReceivableProps) (rs : List ReceivableProps)
    → row_of c.id rs ≡ some old
    → row_of c.id (put_row c.id c rs) ≡ some (merge old c)
row_of-put c old [] h = cc
row_of-put c old (x ∷ rs) h = ground (arith, row_of-put c old rs)

row_of-put_other :
    (c : ReceivableProps) (id : EntityId) (rs : List ReceivableProps)
    → id ≢ c.id
    → row_of id (put_row c.id c rs) ≡ row_of id rs
row_of-put_other c id [] h = refl
row_of-put_other c id (x ∷ rs) h = ground (arith, row_of-put_other c id rs)

payments_of-other :
    (p : ReceivablePaymentProps) (id : EntityId) (ps : List ReceivablePaymentProps)
    → id ≢ p.receivable_id
    → payments_of id (put_reversal p ps) ≡ payments_of id ps
payments_of-other p id [] h = refl
payments_of-other p id (x ∷ ps) h = ground (arith, payments_of-other p id ps)

payment_of-key :
    (rid pid : EntityId) (ps : List ReceivablePaymentProps) (p : ReceivablePaymentProps)
    → payment_of rid pid ps ≡ some p
    → (p.id ≡ pid) × (p.receivable_id ≡ rid)
payment_of-key rid pid [] p h = cc
payment_of-key rid pid (x ∷ ps) p h = ground (arith, payment_of-key rid pid ps p)

-- The rows of one receivable, split at the payment that a reversal changes.
abbrev Split :
    ReceivablePaymentProps → ReceivablePaymentProps → List ReceivablePaymentProps → Type 0
Split p old ps =
    (before : List ReceivablePaymentProps) × (after : List ReceivablePaymentProps) × (payments_of
        p.receivable_id ps
      ≡ before ++ old ∷ after)
    × (payments_of p.receivable_id (put_reversal p ps) ≡ before ++ merge_reversal old p ∷ after)

Split-at :
    (p old : ReceivablePaymentProps) (ps : List ReceivablePaymentProps)
    → payment_of p.receivable_id p.id ps ≡ some old
    → Split p old ps
Split-at p old [] h = cc
Split-at p old (x ∷ ps) h = elim (Bool-cases (is_payment p.receivable_id p.id x)) [
  | inl e ↦
      let same : x ≡ old = ground arith in
      ([], payments_of p.receivable_id ps, ground arith, ground arith)
  | inr e ↦
      let (before, after, a, b) = Split-at p old ps (ground arith) in
      elim (Bool-cases (x.receivable_id == p.receivable_id)) [
        | inl k ↦ (x ∷ before, after, ground arith, ground arith)
        | inr k ↦ (before, after, ground arith, ground arith)
      ]
]

save_row-parts :
    (r : ReceivableProps) (v : Num) (s s' : Store)
    → save_row r v s ≡ ok s'
    → (old : ReceivableProps) × (row_of r.id s.rows ≡ some old)
      × (old.version ≡ value v)
      × (s' ≡ record s { rows = put_row r.id r s.rows })
save_row-parts r v s s' h = ground arith

reverse_row-parts :
    (p : ReceivablePaymentProps) (s s' : Store)
    → reverse_row p s ≡ ok s'
    → (old : ReceivablePaymentProps) × (payment_of p.receivable_id p.id s.paid ≡ some old)
      × (old.reversed_at ≡ none)
      × (s' ≡ record s { paid = put_reversal p s.paid })
reverse_row-parts p s s' h = ground arith

find_other :
    (r : ReceivableProps) (v : Num) (s s' : Store) (id : EntityId)
    → save_row r v s ≡ ok s'
    → id ≢ r.id
    → row_of id s'.rows ≡ row_of id s.rows
find_other r v s s' id h ne =
    let (old, a, b, e) = save_row-parts r v s s' h in rw e (row_of-put_other r id s.rows ne)

find_saved :
    (r : ReceivableProps) (v : Num) (s s' : Store)
    → save_row r v s ≡ ok s'
    → (old : ReceivableProps) × (row_of r.id s.rows ≡ some old)
      × (old.version ≡ value v)
      × (row_of r.id s'.rows ≡ some (merge old r))
find_saved r v s s' h =
    let (old, a, b, e) = save_row-parts r v s s' h in
    (old, a, b, ap (λ (t : Store). row_of r.id t.rows) e ∙ row_of-put r old s.rows a)

reversal_split :
    (p : ReceivablePaymentProps) (s s' : Store)
    → reverse_row p s ≡ ok s'
    → (before : List ReceivablePaymentProps) × (after : List ReceivablePaymentProps)
      × (old : ReceivablePaymentProps) × (payments_of p.receivable_id s.paid
          ≡ before ++ old ∷ after)
      × (payment_of p.receivable_id p.id s.paid ≡ some old)
      × (old.reversed_at ≡ none)
      × (payments_of p.receivable_id s'.paid ≡ before ++ merge_reversal old p ∷ after)
reversal_split p s s' h =
    let (old, a, b, e) = reverse_row-parts p s s' h in
    let (before, after, x, y) = Split-at p old s.paid a in
    (before, after, old, x, a, b, ap (λ (t : Store). payments_of p.receivable_id t.paid) e ∙ y)

pub list_laws : IsRepository list_repository
list_laws = record {
  find-id = λ id s r h. row_of-id id s.rows r h;
  save-find = find_saved;
  save-find_other = find_other;
  save-payments =
      λ r v s s' id h. ap (λ (t : Store). payments_of id t.paid) (save_row-parts r v s s' h).3;
  create_payment-payments = λ p s s' h. ground arith;
  create_payment-other = λ p s s' id h ne. ground arith;
  create_payment-find = λ p s s' id h. ground arith;
  create_payment-request = λ p s s' h. ground arith;
  reversal-payments = reversal_split;
  reversal-other = λ p s s' id h ne.
      ap (λ (t : Store). payments_of id t.paid) (reverse_row-parts p s s' h).3
      ∙ payments_of-other p id s.paid ne;
  reversal-find =
      λ p s s' id h. ap (λ (t : Store). row_of id t.rows) (reverse_row-parts p s s' h).3;
  save-find_payment = λ r v s s' rid pid h.
      ap (λ (t : Store). payment_of rid pid t.paid) (save_row-parts r v s s' h).3;
  find_payment-key = λ rid pid s p h. payment_of-key rid pid s.paid p h;
}
