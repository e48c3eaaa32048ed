-- ===== src/Receivable/Ledger.antt =====
-- The books of a store of receivables, and the use cases that change a receivable without a
-- payment (updateReceivable.useCase.ts, cancelReceivable.useCase.ts).
use bom_trato_api.Prelude.{
  ℕ, ◌+◌, ◌≡◌, ◌≢◌, ◌⊎◌, refl, sym, Option, none, some, List, [], ◌∷◌, ◌++◌, arith, EntityId, ◌==◌,
  Bool-cases, inl, inr, ==→eq, Num, ◌∙◌, ap,
}
use bom_trato_api.Prelude.Result.{Result, ok}
use bom_trato_api.Prelude.Transaction.{Tx}
use bom_trato_api.Prelude.Text.{Text}
use bom_trato_api.Prelude.Date.{Date}
use bom_trato_api.Organization.Access.{AccessContext, assert_can_operate}
use bom_trato_api.Receivable.Types.{
  ReceivableError, ReceivableProps, ReceivableDetails, ReceivableView, ReceivablePaymentProps,
}
use bom_trato_api.Receivable.Entity.{view, assert_version, record_change, update, cancel}
use bom_trato_api.Receivable.Balance.{
  IsValid, update-IsValid, record_change-IsValid, cancel-IsValid,
}
use bom_trato_api.Receivable.Repository.{Repository, IsRepository, merge}
use bom_trato_api.Receivable.Service.{
  ChangeReceivableParams, denied, run, load, save, mutate, cancel_receivable, update_receivable,
}

-- The amount of a payment, unless it has been reversed.
abbrev pub standing_amount : Option Date → ℕ → ℕ
standing_amount none amount = amount
standing_amount (some _) amount = 0

-- The sum of the payments that stand.
abbrev pub standing : List ReceivablePaymentProps → ℕ
standing [] = 0
standing (p ∷ ps) = standing_amount p.reversed_at p.amount_in_cents + standing ps

pub standing-append :
    (xs ys : List ReceivablePaymentProps) → standing (xs ++ ys) ≡ standing xs + standing ys
standing-append [] ys = omega arith
standing-append (x ∷ xs) ys = omega (arith, standing-append xs ys)

module _ {S : Type 0} (repo : Repository S) (laws : IsRepository repo) where
  -- In the store, every receivable is valid and has received what its standing payments sum to.
  abbrev pub IsBalanced : S → Type 0
  IsBalanced s =
      (id : EntityId) (r : ReceivableProps)
      → repo.find_by_id id s ≡ some r
      → IsValid r × (r.received_in_cents ≡ standing (repo.payments id s))

  -- A row after a save is the merged one, or one that was there before.
  save_row :
      (c old : ReceivableProps) (v : Num) (s s' : S) (id : EntityId) (r : ReceivableProps)
      → repo.save c v s ≡ ok s'
      → repo.find_by_id c.id s ≡ some old
      → repo.find_by_id id s' ≡ some r
      → ((id ≡ c.id) × (r ≡ merge old c)) ⊎ ((id ≢ c.id) × (repo.find_by_id id s ≡ some r))
  save_row c old v s s' id r h f g = elim (Bool-cases (id == c.id)) [
    | inl e ↦
        let (old', a, b, d) = laws.save-find c v s s' h in
        let same = ==→eq id c.id e in inl (same, cc)
    | inr e ↦
        let ne : id ≢ c.id = ground arith in
        inr (ne, sym (laws.save-find_other c v s s' id h ne) ∙ g)
  ]

  pub save-parts :
      (r : ReceivableProps) (p : ChangeReceivableParams) (now : Date) (s s' : S)
      (w : ReceivableView)
      → save repo r p now s ≡ ok (w, s')
      → (c : ReceivableProps) × (record_change p.user_id now r ≡ ok c)
        × (repo.save c p.version s ≡ ok s')
        × (w ≡ view now c)
  unfolding save
  save-parts r p now s s' w h = ground arith

  pub load-find :
      (id : EntityId) (s s' : S) (r : ReceivableProps)
      → load repo id s ≡ ok (r, s')
      → (s' ≡ s) × (repo.find_by_id id s ≡ some r)
  unfolding load
  load-find id s s' r h = ground arith

  run-parts :
      {A : Type 0} (access : AccessContext) (m : Tx ReceivableError S A) (s : S) (x : A × S)
      → run repo access m s ≡ ok x
      → (assert_can_operate access denied ≡ ok tt) × (m s ≡ ok x)
  unfolding run
  run-parts access m s x h = ground arith

  -- The fields that identify a receivable, which no method changes.
  abbrev pub SameAccount : ReceivableProps → ReceivableProps → Type 0
  SameAccount old c = (c.id ≡ old.id) × (c.amount_in_cents ≡ old.amount_in_cents)

  -- A save of a valid state of the same receivable keeps all rows valid, and the row of the
  -- receivable has received what the state says.
  pub save-rows :
      (c old : ReceivableProps) (v : Num) (s s' : S)
      → IsBalanced s
      → IsValid c
      → SameAccount old c
      → repo.save c v s ≡ ok s'
      → repo.find_by_id c.id s ≡ some old
      → (id : EntityId) (r : ReceivableProps) → repo.find_by_id id s' ≡ some r
      → IsValid r
        × ((id ≡ c.id × (r.received_in_cents ≡ c.received_in_cents))
            ⊎ ((id ≢ c.id) × (r.received_in_cents ≡ standing (repo.payments id s))))
  save-rows c old v s s' b w same h f id r g = elim (save_row c old v s s' id r h f g) [
    | inl (e, m) ↦ rw m (ground arith, inl (e, refl))
    | inr (ne, k) ↦ ((b id r k).0, inr (ne, (b id r k).1))
  ]

  mutate-parts :
      (access : AccessContext) (p : ChangeReceivableParams) (now : Date)
      (op : ReceivableProps → Result ReceivableError ReceivableProps) (s s' : S)
      (w : ReceivableView)
      → mutate repo access p now op s ≡ ok (w, s')
      → (r : ReceivableProps) × (c : ReceivableProps) × (repo.find_by_id p.receivable_id s ≡ some r)
        × (assert_version p.version r ≡ ok tt)
        × (op r ≡ ok c)
        × (save repo c p now s ≡ ok (w, s'))
  unfolding mutate run load
  mutate-parts access p now op s s' w h = ground arith

  pub record_change-SameAccount :
      (user : EntityId) (now : Date) (r c : ReceivableProps)
      → record_change user now r ≡ ok c
      → SameAccount r c × (c.received_in_cents ≡ r.received_in_cents)
  unfolding record_change
  record_change-SameAccount user now r c h = ground arith

  abbrev KeepsBalance : (ReceivableProps → Result ReceivableError ReceivableProps) → Type 0
  KeepsBalance op =
      (r c : ReceivableProps)
      → IsValid r
      → op r ≡ ok c
      → IsValid c × SameAccount r c × (c.received_in_cents ≡ r.received_in_cents)

  mutate-IsBalanced :
      (access : AccessContext) (p : ChangeReceivableParams) (now : Date)
      (op : ReceivableProps → Result ReceivableError ReceivableProps) (s s' : S)
      (w : ReceivableView)
      → KeepsBalance op
      → IsBalanced s
      → mutate repo access p now op s ≡ ok (w, s')
      → IsBalanced s'
  mutate-IsBalanced access p now op s s' w keeps b h id r g =
      let (r0, c, found, vsn, done, saved) = mutate-parts access p now op s s' w h in
      let (d, changed, stored, shown) = save-parts c p now s s' w saved in
      let b0 = b p.receivable_id r0 found in
      let k = keeps r0 c b0.0 done in
      let t = record_change-SameAccount p.user_id now c d changed in
      let key = laws.find-id p.receivable_id s r0 found in
      let dkey : d.id ≡ p.receivable_id = ground arith in
      let f = ap (λ (i : EntityId). repo.find_by_id i s) dkey ∙ found in
      let rows =
        save-rows d r0 p.version s s' b (record_change-IsValid p.user_id now k.0 changed)
          (ground arith) stored f id r g in
      let money = laws.save-payments d p.version s s' id stored in
      (
        rows.0,
        elim rows.1 [
          | inl (e, q) ↦
              q
              ∙ t.1
              ∙ k.2
              ∙ b0.1
              ∙ ap (λ (i : EntityId). standing (repo.payments i s)) (sym (e ∙ dkey))
              ∙ ap standing (sym money)
          | inr (ne, q) ↦ q ∙ ap standing (sym money)
        ],
      )

  update-KeepsBalance : (d : ReceivableDetails) → KeepsBalance (update d)
  unfolding update
  update-KeepsBalance d r c v h = (update-IsValid d v h, ground arith, ground arith)

  cancel-KeepsBalance :
      (user : EntityId) (reason : Text) (now : Date) → KeepsBalance (cancel user reason now)
  unfolding cancel
  cancel-KeepsBalance user reason now r c v h =
      (cancel-IsValid user reason now v h, ground arith, ground arith)

  -- A successful update or cancellation of a receivable keeps the books balanced: when in the store
  -- every receivable is valid and has received the sum of its payments that are not reversed, the
  -- same holds afterwards.
  pub edit-IsBalanced :
      (access : AccessContext) (p : ChangeReceivableParams) (d : ReceivableDetails) (reason : Text)
      (now : Date) (s s' : S) (w : ReceivableView)
      → IsBalanced s
      → (update_receivable repo access p d now s ≡ ok (w, s'))
        ⊎ (cancel_receivable repo access p reason now s ≡ ok (w, s'))
      → IsBalanced s'
  unfolding update_receivable cancel_receivable
  edit-IsBalanced access p d reason now s s' w b (inl h) =
      mutate-IsBalanced access p now (update d) s s' w (update-KeepsBalance d) b h
  edit-IsBalanced access p d reason now s s' w b (inr h) =
      mutate-IsBalanced access p now (cancel p.user_id reason now) s s' w
        (cancel-KeepsBalance p.user_id reason now) b h
