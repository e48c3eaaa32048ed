-- ===== src/Workflow/Canceled.antt =====
-- About the cancellation of a work order: Workflow/Cancellation.
use bom_trato_api.Prelude.{
  ◌≡◌, ◌≢◌, inl, inr, refl, sym, ap, ◌∙◌, Bool-cases, true, ◌||◌, some, List, [], ◌∷◌, Memᴰ,
  EntityId, nat, ltb, some-eq, arith, if◌then◌else◌,
}
use bom_trato_api.Prelude.Result.{
  ok, or_throw, or_throw-some, rethrow, rethrow-eq_ok, >>=-eq_ok, ok-eq,
}
use bom_trato_api.Prelude.Text.{Text}
use bom_trato_api.Prelude.Date.{Date}
use bom_trato_api.Organization.Access.{AccessContext, assert_can_operate}
use bom_trato_api.WorkOrder.Types.{WorkOrderStatus, work_order_not_found, WorkOrderProps}
use bom_trato_api.WorkOrder.Entity.{assert_version, record_change, cancel, schedule_to_check}
use bom_trato_api.WorkOrder.Store.{find_by_id, check_conflict, save}
use bom_trato_api.WorkOrder.Service.{denied}
use bom_trato_api.Receivable.Types.{ReceivableProps}
use bom_trato_api.Receivable.Entity
use bom_trato_api.Receivable.Repository.{Repository, IsRepository, merge}
use bom_trato_api.Workflow.Approval.{work_order_error, receivable_error, Tables}
use bom_trato_api.Workflow.Cancellation.{
  CancellationParams, is_kept, is_canceled, cancel_receivable_of, cancel_unless_kept,
  cancel_receivables, cancel_loaded, cancel_work_order,
}

-- The identifiers of the rows are apart.
abbrev pub Apart : List ReceivableProps → Type 0
Apart [] = Unit {0}
Apart (r ∷ rs) = ((x : ReceivableProps) → Memᴰ x rs → x.id ≢ r.id) × Apart rs

canceled-status :
    (p : CancellationParams) (r c x : ReceivableProps)
    → Entity.cancel p.user_id p.reason p.now r ≡ ok c
    → Entity.record_change p.user_id p.now c ≡ ok x
    → (is_canceled x.status ≡ true) × (x.id ≡ r.id)
unfolding Entity.cancel Entity.record_change
canceled-status p r c x h k = ground arith

module _ {S : Type 0} (repo : Repository S) (laws : IsRepository repo)
    (p : CancellationParams) where
  -- A receivable that is canceled is so in the store, and the others are as they were.
  canceled-there :
      (r : ReceivableProps) (s s' : S)
      → cancel_receivable_of repo p r s ≡ ok s'
      → ((row : ReceivableProps) × (repo.find_by_id r.id s' ≡ some row) × (is_kept row ≡ true))
        × ((id : EntityId) → id ≢ r.id → repo.find_by_id id s' ≡ repo.find_by_id id s)
  unfolding cancel_receivable_of
  canceled-there r s s' h =
      let (c, e, k) =
        >>=-eq_ok (rethrow receivable_error (Entity.cancel p.user_id p.reason p.now r)) _ h in
      let (x, f, m) =
        >>=-eq_ok (rethrow receivable_error (Entity.record_change p.user_id p.now c)) _ k in
      let g = rethrow-eq_ok receivable_error (repo.save x (nat r.version) s) m in
      let (status, id) =
        canceled-status p r c x (rethrow-eq_ok receivable_error _ e)
          (rethrow-eq_ok receivable_error _ f) in
      let (old, _, _, found) = laws.save-find x (nat r.version) s s' g in
      (
        (
          merge old x,
          ap (λ y. repo.find_by_id y s') (sym id) ∙ found,
          ap (λ y. y || ltb 0 x.received_in_cents) status,
        ),
        λ i n. laws.save-find_other x (nat r.version) s s' i g (λ e. n (e ∙ id)),
      )

  -- The body of the loop, on a row of the store.
  one-there :
      (r : ReceivableProps) (s s' : S)
      → repo.find_by_id r.id s ≡ some r
      → cancel_unless_kept repo p r s ≡ ok s'
      → ((row : ReceivableProps) × (repo.find_by_id r.id s' ≡ some row) × (is_kept row ≡ true))
        × ((id : EntityId) → id ≢ r.id → repo.find_by_id id s' ≡ repo.find_by_id id s)
  unfolding cancel_unless_kept
  one-there r s s' f h = elim (Bool-cases (is_kept r)) [
    | inl t ↦
        let same : s ≡ s' =
          ok-eq (ap (λ x. if x then ok s else cancel_receivable_of repo p r s) (sym t) ∙ h) in
        (
          (r, ap (repo.find_by_id r.id) (sym same) ∙ f, t),
          λ id n. ap (repo.find_by_id id) (sym same),
        )
    | inr t ↦
        canceled-there r s s'
          (ap (λ x. if x then ok s else cancel_receivable_of repo p r s) (sym t) ∙ h)
  ]

  loop-others :
      (rs : List ReceivableProps) (s s' : S) (id : EntityId)
      → Apart rs
      → ((x : ReceivableProps) → Memᴰ x rs → repo.find_by_id x.id s ≡ some x)
      → ((x : ReceivableProps) → Memᴰ x rs → id ≢ x.id)
      → cancel_receivables repo p rs s ≡ ok s'
      → repo.find_by_id id s' ≡ repo.find_by_id id s
  unfolding cancel_receivables
  loop-others [] s s' id a f n h = ap (repo.find_by_id id) (sym (ok-eq h))
  loop-others (r ∷ rs) s s' id a f n h =
      let (m, e, k) = >>=-eq_ok (cancel_unless_kept repo p r s) _ h in
      let (_, others) = one-there r s m (f r (Memᴰ.head refl)) e in
      loop-others rs m s' id a.1 (λ x i. others x.id (a.0 x i) ∙ f x (Memᴰ.tail i))
        (λ x i. n x (Memᴰ.tail i)) k
      ∙ others id (n r (Memᴰ.head refl))

  loop-there :
      (rs : List ReceivableProps) (s s' : S) (x : ReceivableProps)
      → Apart rs
      → ((y : ReceivableProps) → Memᴰ y rs → repo.find_by_id y.id s ≡ some y)
      → Memᴰ x rs
      → cancel_receivables repo p rs s ≡ ok s'
      → (row : ReceivableProps) × (repo.find_by_id x.id s' ≡ some row) × (is_kept row ≡ true)
  unfolding cancel_receivables
  loop-there [] s s' x a f i h = elim i [ ]
  loop-there (r ∷ rs) s s' x a f (Memᴰ.head e0) h =
      let (m, e, k) = >>=-eq_ok (cancel_unless_kept repo p r s) _ h in
      let ((row, g, t), others) = one-there r s m (f r (Memᴰ.head refl)) e in
      let later =
        loop-others rs m s' r.id a.1 (λ y i. others y.id (a.0 y i) ∙ f y (Memᴰ.tail i))
          (λ y i n. a.0 y i (sym n)) k in
      (row, ap (λ (y : ReceivableProps). repo.find_by_id y.id s') e0 ∙ later ∙ g, t)
  loop-there (r ∷ rs) s s' x a f (Memᴰ.tail i) h =
      let (m, e, k) = >>=-eq_ok (cancel_unless_kept repo p r s) _ h in
      let (_, others) = one-there r s m (f r (Memᴰ.head refl)) e in
      loop-there rs m s' x a.1 (λ y j. others y.id (a.0 y j) ∙ f y (Memᴰ.tail j)) i k

-- What a cancellation has done.
cancellation-parts :
    {S : Type 0} (repo : Repository S) (access : AccessContext) (p : CancellationParams)
    (t t' : Tables S) (order : WorkOrderProps)
    → cancel_work_order repo access p t ≡ ok (order, t')
    → (w : WorkOrderProps) × (c : WorkOrderProps) × (find_by_id p.work_order_id t.orders ≡ some w)
      × (cancel p.reason p.now w ≡ ok c)
      × (record_change p.user_id p.now c ≡ ok order)
      × (t'.quotes ≡ t.quotes)
      × (cancel_receivables repo p (repo.list_by_work_order_id c.id t.receivables) t.receivables
          ≡ ok t'.receivables)
unfolding cancel_work_order cancel_loaded
cancellation-parts {S = S} repo access p t t' order h =
    let (_, e0, k0) = >>=-eq_ok (rethrow work_order_error (assert_can_operate access denied)) _ h in
    let (w, e1, k1) =
      >>=-eq_ok
        (rethrow work_order_error
          (or_throw (find_by_id p.work_order_id t.orders) work_order_not_found))
        _ k0 in
    let (_, e2, k2) = >>=-eq_ok (rethrow work_order_error (assert_version p.version w)) _ k1 in
    let (c, e3, k3) = >>=-eq_ok (rethrow work_order_error (cancel p.reason p.now w)) _ k2 in
    let (s, e4, k4) =
      >>=-eq_ok
        (cancel_receivables repo p (repo.list_by_work_order_id c.id t.receivables) t.receivables) _
        k3 in
    let (slot, e5, k5) = >>=-eq_ok (rethrow work_order_error (schedule_to_check w c)) _ k4 in
    let (_, e6, k6) = >>=-eq_ok (rethrow work_order_error (check_conflict slot t.orders)) _ k5 in
    let (x, e7, k7) = >>=-eq_ok (rethrow work_order_error (record_change p.user_id p.now c)) _ k6 in
    let (orders, e8, k8) = >>=-eq_ok (rethrow work_order_error (save x p.version t.orders)) _ k7 in
    let same = ok-eq k8 in
    (
      w,
      c,
      or_throw-some (find_by_id p.work_order_id t.orders) work_order_not_found
          (rethrow-eq_ok work_order_error _ e1),
      rethrow-eq_ok work_order_error _ e3,
      rethrow-eq_ok work_order_error _ e7 ∙ ap (λ (y : WorkOrderProps × Tables S). ok y.0) same,
      ap (λ (y : WorkOrderProps × Tables S). y.1.quotes) (sym same),
      e4 ∙ ap (λ (y : WorkOrderProps × Tables S). ok y.1.receivables) same,
    )

canceled-order :
    (reason : Text) (user : EntityId) (now : Date) (w c order : WorkOrderProps)
    → cancel reason now w ≡ ok c
    → record_change user now c ≡ ok order
    → (order.status ≡ WorkOrderStatus.canceled) × (c.id ≡ w.id)
unfolding cancel record_change
canceled-order reason user now w c order h k = ground arith

-- A canceled order leaves nothing to be collected that nothing was paid of: when the cancellation
-- succeeds, the order is canceled, the quotes stay as they are, and each receivable of the order is
-- afterwards canceled, or something has been received for it. The list of the receivables of the
-- order holds rows of the store, each once.
pub cancel_work_order-collects_nothing :
    {S : Type 0} (repo : Repository S) (laws : IsRepository repo) (access : AccessContext)
    (p : CancellationParams) (t t' : Tables S) (w order : WorkOrderProps) (r : ReceivableProps)
    → cancel_work_order repo access p t ≡ ok (order, t')
    → find_by_id p.work_order_id t.orders ≡ some w
    → Apart (repo.list_by_work_order_id w.id t.receivables)
    → ((x : ReceivableProps)
        → Memᴰ x (repo.list_by_work_order_id w.id t.receivables)
        → repo.find_by_id x.id t.receivables ≡ some x)
    → Memᴰ r (repo.list_by_work_order_id w.id t.receivables)
    → (order.status ≡ WorkOrderStatus.canceled)
      × (t'.quotes ≡ t.quotes)
      × ((row : ReceivableProps) × (repo.find_by_id r.id t'.receivables ≡ some row)
          × (is_kept row ≡ true))
cancel_work_order-collects_nothing repo laws access p t t' w order r h found apart rows m =
    let (w', c, f, e, k, q, l) = cancellation-parts repo access p t t' order h in
    let (status, id) = canceled-order p.reason p.user_id p.now w' c order e k in
    let same : c.id ≡ w.id = id ∙ ap (λ (x : WorkOrderProps). x.id) (some-eq (sym f ∙ found)) in
    let l' =
      ap (λ i. cancel_receivables repo p (repo.list_by_work_order_id i t.receivables) t.receivables)
        (sym same)
      ∙ l in
    (
      status,
      q,
      loop-there repo laws p (repo.list_by_work_order_id w.id t.receivables) t.receivables
          t'.receivables r apart rows m l',
    )
