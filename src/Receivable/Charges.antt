-- ===== src/Receivable/Charges.antt =====
-- About the two charges of a quote and the receivable made of one: Receivable/Charge and the
-- `create` of Receivable/Entity.
use mathlib.Core.Path.{subst}
use bom_trato_api.Prelude.{
  ℕ, ◌+◌, ◌-◌, ◌≤◌, ◌<◌, ◌≡◌, ◌⊎◌, ◌≢◌, inl, inr, refl, true, false, Option, none, some, arith,
  max_int, nat, ap, ◌∙◌, leb, Bool-cases,
}
use bom_trato_api.Prelude.Result.{ok}
use bom_trato_api.Prelude.Text.{text_eq_refl}
use bom_trato_api.Prelude.Date.{Date, is_valid}
use bom_trato_api.Quote.Types.{
  approved, PaymentCondition, upfront, after_completion, down_payment_and_balance, QuoteProps, brl,
}
use bom_trato_api.Quote.Entity.{down_payment}
use bom_trato_api.Quote.Invariant.{IsValid, Fits, Splits, Offered}
use bom_trato_api.Receivable.Types.{ReceivableKind, ReceivableProps}
use bom_trato_api.Receivable.Validation.{assert_amount, assert_date, normalize_text}
use bom_trato_api.Receivable.Entity.{CreateReceivableParams, created, create, order_canceled}
use bom_trato_api.Receivable.Charge.{Charge, down_payment_amount, initial_charge, final_charge}

abbrev pub amount_of : Option Charge → ℕ
amount_of none = 0
amount_of (some c) = c.amount_in_cents

-- A charge is for something, and for no more than the total.
abbrev pub Within : ℕ → Option Charge → Type 0
Within total none = Unit {0}
Within total (some c) = (0 < c.amount_in_cents) × (c.amount_in_cents ≤ total)

-- What an accepted quote has: its payment condition can be met.
Payable : PaymentCondition → Option ℕ → ℕ → Type 0
Payable c p total =
    (c ≢ down_payment_and_balance)
    ⊎ ((k : ℕ) × (p ≡ some k)
        × (1 ≤ k)
        × (k ≤ 99)
        × (0 < down_payment total k)
        × (down_payment total k < total))

Payable-of :
    (c : PaymentCondition) (p : Option ℕ) (total : ℕ)
    → Fits c p
    → Splits c p total
    → Payable c p total
unfolding Payable
Payable-of after_completion p total f s = inl (λ e. cc)
Payable-of upfront p total f s = inl (λ e. cc)
Payable-of down_payment_and_balance none total f s = absurd f
Payable-of down_payment_and_balance (some k) total f s = inr (k, refl, f.0, f.1, s.0, s.1)

offered-Payable :
    (q : QuoteProps)
    → IsValid q
    → q.status ≡ approved
    → Payable q.payment_condition q.down_payment_percentage q.total_in_cents
offered-Payable q v e =
    let o : Offered approved q = subst (λ s. Offered s q) e v.offered in
    Payable-of q.payment_condition q.down_payment_percentage q.total_in_cents v.percentage o.1

down_payment_amount-some :
    (total k : ℕ)
    → 1 ≤ k
    → k ≤ 99
    → 0 < down_payment total k
    → down_payment total k < total
    → down_payment_amount total (some k) ≡ ok (down_payment total k)
unfolding down_payment_amount
down_payment_amount-some total k a b c d = ground arith

-- The two charges of a quote.
record Charged (q : QuoteProps) : Type 0 where
  pub first : Option Charge
  pub second : Option Charge
  pub first_made : initial_charge q ≡ ok first
  pub second_made : final_charge q ≡ ok second
  pub summed : amount_of first + amount_of second ≡ q.total_in_cents
  pub first_within : Within q.total_in_cents first
  pub second_within : Within q.total_in_cents second

charges :
    (q : QuoteProps) (c : PaymentCondition)
    → q.payment_condition ≡ c
    → Payable c q.down_payment_percentage q.total_in_cents
    → Charged q
unfolding Payable initial_charge final_charge
charges q after_completion e h = elim (Bool-cases (leb q.total_in_cents 0)) [
  | inl z ↦ record {
    first = none;
    second = none;
    first_made = ground arith;
    second_made = ground arith;
    summed = ground arith;
    first_within = tt;
    second_within = tt;
  }
  | inr z ↦ record {
    first = none;
    second = some (record { kind = ReceivableKind.full; amount_in_cents = q.total_in_cents });
    first_made = ground arith;
    second_made = ground arith;
    summed = ground arith;
    first_within = tt;
    second_within = ground arith;
  }
]
charges q upfront e h = elim (Bool-cases (leb q.total_in_cents 0)) [
  | inl z ↦ record {
    first = none;
    second = none;
    first_made = ground arith;
    second_made = ground arith;
    summed = ground arith;
    first_within = tt;
    second_within = tt;
  }
  | inr z ↦ record {
    first = some (record { kind = ReceivableKind.full; amount_in_cents = q.total_in_cents });
    second = none;
    first_made = ground arith;
    second_made = ground arith;
    summed = ground arith;
    first_within = ground arith;
    second_within = tt;
  }
]
charges q down_payment_and_balance e (inl n) = absurd (n refl)
charges q down_payment_and_balance e (inr (k, ep, a, b, c, d)) =
    let f =
      ap (down_payment_amount q.total_in_cents) ep
      ∙ down_payment_amount-some q.total_in_cents k a b c d in
    record {
      first = some (record {
        kind = ReceivableKind.down_payment;
        amount_in_cents = down_payment q.total_in_cents k;
      });
      second = some (record {
        kind = ReceivableKind.remaining_balance;
        amount_in_cents = q.total_in_cents - down_payment q.total_in_cents k;
      });
      first_made = rw (e, f) ground arith;
      second_made = rw (e, f) ground arith;
      summed = ground arith;
      first_within = ground arith;
      second_within = ground arith;
    }

-- For every approved quote in a valid state, under every payment condition, both charges are
-- found without an error, and what is asked at the approval and at the completion adds up to the
-- total of the quote; each charge is of more than nothing and of no more than the total.
pub charges-total :
    (q : QuoteProps)
    → IsValid q
    → q.status ≡ approved
    → (first : Option Charge) × (second : Option Charge) × (initial_charge q ≡ ok first)
      × (final_charge q ≡ ok second)
      × (amount_of first + amount_of second ≡ q.total_in_cents)
      × Within q.total_in_cents first
      × Within q.total_in_cents second
charges-total q v e =
    let c = charges q q.payment_condition refl (offered-Payable q v e) in
    (c.first, c.second, c.first_made, c.second_made, c.summed, c.first_within, c.second_within)

-- A charge within the total of an order that is not canceled, in the currency of the program, and
-- on valid dates, always makes a receivable: of that amount, with nothing received.
pub charge-create :
    (p : CreateReceivableParams) (now : Date) (charge : Charge)
    → p.source.organization_id ≡ p.organization_id
    → order_canceled p.source.status ≡ false
    → p.source.currency ≡ brl
    → p.source.total_in_cents ≤ max_int
    → is_valid p.due_at ≡ true
    → is_valid now ≡ true
    → p.notes ≡ some none
    → Within p.source.total_in_cents (some charge)
    → p.amount_in_cents ≡ nat charge.amount_in_cents
    → (r : ReceivableProps) × (create p now ≡ ok r)
      × (r.amount_in_cents ≡ charge.amount_in_cents)
      × (r.received_in_cents ≡ 0)
      × (r.work_order_id ≡ p.source.id)
unfolding create created assert_amount assert_date normalize_text
charge-create p now charge o c b t d n k w a =
    let x = text_eq_refl brl in
    (created p none now, rw (o, c, b, a, d, n, k, x) ground arith, rw a refl, refl, refl)
