-- ===== src/Receivable/Billed.antt =====
-- About the calls of the automation on a store of receivables: Receivable/Automation.
use bom_trato_api.Prelude.{
  max_int, true, false, ◌≤◌, nat, ℕ, ◌+◌, ◌≡◌, refl, sym, ap, ◌∙◌, Option, none, some, EntityId,
  arith, value,
}
use bom_trato_api.Prelude.Result.{Result, ok}
use bom_trato_api.Prelude.Transaction.{bind-parts, lift-parts, write-parts}
use bom_trato_api.Prelude.Text.{Text}
use bom_trato_api.Prelude.Date.{Date, is_valid}
use bom_trato_api.Quote.Types.{QuoteStatus, brl}
use bom_trato_api.Quote.Invariant.{IsValid}
use bom_trato_api.Receivable.Types.{
  ReceivableKind, ReceivableSource, ReceivableProps, ReceivableError, ReceivableView,
}
use bom_trato_api.Receivable.Entity.{CreateReceivableParams, created, create, view, order_canceled}
use bom_trato_api.Receivable.Validation.{assert_amount, assert_date}
use bom_trato_api.Receivable.Repository.{Repository}
use bom_trato_api.Receivable.Service.{ensure_receivable}
use bom_trato_api.Receivable.Charge.{Charge, assert_same_amount, initial_charge, final_charge}
use bom_trato_api.Receivable.Automation.{
  AutomatedReceivableParams, ensure_charge, ensure_initial_receivable, ensure_final_receivable,
}
use bom_trato_api.Receivable.Charges.{amount_of, Within, charges-total, charge-create}

abbrev pub billed : Option ReceivableView → ℕ
billed none = 0
billed (some view) = view.props.amount_in_cents

create-amount :
    (p : CreateReceivableParams) (now : Date) (r : ReceivableProps)
    → create p now ≡ ok r
    → r.amount_in_cents ≡ value p.amount_in_cents
unfolding create created assert_amount assert_date
create-amount p now r h = ground arith

view-props : (now : Date) (r : ReceivableProps) → (view now r).props ≡ r
unfolding view
view-props now r = refl

Pair-parts :
    {A S : Type 0} {a b : A} {s t : S}
    → ◌≡◌ {A = Result ReceivableError (A × S)} (ok (a, s)) (ok (b, t))
    → a ≡ b
Pair-parts h = cc

ok-eq : {A : Type 0} {a b : A} → ◌≡◌ {A = Result ReceivableError A} (ok a) (ok b) → a ≡ b
ok-eq h = cc

module _ {S : Type 0} (repo : Repository S) where
  -- The order has no receivable yet of the kind that is to be charged.
  abbrev pub Unbilled : EntityId → Result ReceivableError (Option Charge) → S → Type 0
  Unbilled id asked s =
      (c : Charge) → asked ≡ ok (some c) → repo.find_by_work_order_id_and_kind id c.kind s ≡ none

  ensure_receivable-amount :
      (organization user : EntityId) (source : ReceivableSource) (kind : ReceivableKind)
      (amount : ℕ) (due : Date) (notes : Option (Option Text)) (fresh : EntityId) (now : Date)
      (s s' : S) (v : ReceivableView)
      → repo.find_by_work_order_id_and_kind source.id kind s ≡ none
      → ensure_receivable repo organization user source kind amount due notes fresh now s
        ≡ ok (v, s')
      → v.props.amount_in_cents ≡ amount
  unfolding ensure_receivable
  ensure_receivable-amount organization user source kind amount due notes fresh now s s' v n h =
      let h1 = rw n at h in
      let (r, e, h2) = lift-parts (create _ now) _ s h1 in
      let (_, _, h3) = write-parts (repo.create r) _ s h2 in
      let k : view now r ≡ v = Pair-parts h3 in
      ap (λ x. x.props.amount_in_cents) (sym k)
      ∙ ap (λ x. x.amount_in_cents) (view-props now r)
      ∙ create-amount _ now r e

  ensure_charge-amount :
      (p : AutomatedReceivableParams) (due : Date) (charge : Option Charge) (s s' : S)
      (v : Option ReceivableView)
      → Unbilled p.source.id (ok charge) s
      → ensure_charge repo p due charge s ≡ ok (v, s')
      → billed v ≡ amount_of charge
  unfolding ensure_charge
  ensure_charge-amount p due none s s' v u h = ap billed (sym (Pair-parts h))
  ensure_charge-amount p due (some c) s s' v u h =
      let ((w, t), e, h1) =
        bind-parts
          (ensure_receivable repo p.organization_id p.user_id p.source c.kind c.amount_in_cents due
            (some none) p.fresh_id p.now)
          _ s h in
      ap billed (sym (Pair-parts h1))
      ∙ ensure_receivable-amount p.organization_id p.user_id p.source c.kind c.amount_in_cents due
          (some none) p.fresh_id p.now s t w (u c refl) e

  initial-billed :
      (p : AutomatedReceivableParams) (s s' : S) (v : Option ReceivableView)
      → Unbilled p.source.id (initial_charge p.quote) s
      → ensure_initial_receivable repo p s ≡ ok (v, s')
      → (c : Option Charge) × (initial_charge p.quote ≡ ok c) × (billed v ≡ amount_of c)
  unfolding ensure_initial_receivable
  initial-billed p s s' v u h =
      let (_, _, h1) = lift-parts (assert_same_amount p.source p.quote) _ s h in
      let (c, e, h2) = lift-parts (initial_charge p.quote) _ s h1 in
      (c, e, ensure_charge-amount p p.now c s s' v (λ k q. u k (e ∙ q)) h2)

  final-billed :
      (p : AutomatedReceivableParams) (due : Date) (s s' : S) (v : Option ReceivableView)
      → Unbilled p.source.id (final_charge p.quote) s
      → ensure_final_receivable repo p due s ≡ ok (v, s')
      → (c : Option Charge) × (final_charge p.quote ≡ ok c) × (billed v ≡ amount_of c)
  unfolding ensure_final_receivable
  final-billed p due s s' v u h =
      let (_, _, h1) = lift-parts (assert_same_amount p.source p.quote) _ s h in
      let (c, e, h2) = lift-parts (final_charge p.quote) _ s h1 in
      (c, e, ensure_charge-amount p due c s s' v (λ k q. u k (e ∙ q)) h2)

  -- For an approved quote in a valid state: when the approval and later the completion each find
  -- no receivable of their kind and succeed, what they bill is together the total of the quote.
  pub billed-total :
      (p : AutomatedReceivableParams) (s s1 : S) (first : Option ReceivableView)
      (p' : AutomatedReceivableParams) (due : Date) (t t1 : S) (second : Option ReceivableView)
      → IsValid p.quote
      → p.quote.status ≡ QuoteStatus.approved
      → p'.quote ≡ p.quote
      → Unbilled p.source.id (initial_charge p.quote) s
      → Unbilled p'.source.id (final_charge p'.quote) t
      → ensure_initial_receivable repo p s ≡ ok (first, s1)
      → ensure_final_receivable repo p' due t ≡ ok (second, t1)
      → billed first + billed second ≡ p.quote.total_in_cents
  billed-total p s s1 first p' due t t1 second v a same u u' h h' =
      let (c, e, b) = initial-billed p s s1 first u h in
      let (c', e', b') = final-billed p' due t t1 second u' h' in
      let (x, y, ex, ey, sum, _, _) = charges-total p.quote v a in
      let k : c ≡ x = ok-eq (sym e ∙ ex) in
      let k' : c' ≡ y = ok-eq (sym e' ∙ ap final_charge same ∙ ey) in rw (b, b', k, k') sum

  -- The table takes the receivable that `create` makes for the order and the customer, in the
  -- organization of the repository and under an identifier that no row has, as long as the order
  -- has none of its kind.
  abbrev pub Accepts : EntityId → EntityId → EntityId → EntityId → EntityId → S → Type 0
  Accepts organization user fresh order customer s =
      (p : CreateReceivableParams) (now : Date) (r : ReceivableProps)
      → p.organization_id ≡ organization
      → p.user_id ≡ user
      → p.id ≡ fresh
      → p.source.id ≡ order
      → p.source.customer_id ≡ customer
      → is_valid now ≡ true
      → create p now ≡ ok r
      → repo.find_by_work_order_id_and_kind order p.kind s ≡ none
      → (s' : S) × (repo.create r s ≡ ok s')

  -- A charge within the total of the order is booked when it is a new one.
  pub ensure_charge-new :
      (p : AutomatedReceivableParams) (due : Date) (s : S) (c : Option Charge)
      → p.source.organization_id ≡ p.organization_id
      → order_canceled p.source.status ≡ false
      → p.source.currency ≡ brl
      → p.source.total_in_cents ≤ max_int
      → is_valid due ≡ true
      → is_valid p.now ≡ true
      → Unbilled p.source.id (ok c) s
      → Accepts p.organization_id p.user_id p.fresh_id p.source.id p.source.customer_id s
      → Within p.source.total_in_cents c
      → (v : Option ReceivableView) × (s' : S) × (ensure_charge repo p due c s ≡ ok (v, s'))
        × (billed v ≡ amount_of c)
  unfolding ensure_charge ensure_receivable view
  ensure_charge-new p due s none o k b t d n f a w = (none, s, refl, refl)
  ensure_charge-new p due s (some c) o k b t d n f a w =
      let params : CreateReceivableParams = record {
        id = p.fresh_id;
        organization_id = p.organization_id;
        user_id = p.user_id;
        source = p.source;
        kind = c.kind;
        amount_in_cents = nat c.amount_in_cents;
        due_at = due;
        notes = some none;
      } in
      let (r, e, x, _, _) = charge-create params p.now c o k b t d n refl w refl in
      let (s', g) = a params p.now r refl refl refl refl refl n e (f c refl) in
      (some (view p.now r), s', rw (f c refl, e, g) refl, x)
