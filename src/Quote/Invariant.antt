-- ===== src/Quote/Invariant.antt =====
-- The states of a quote between two calls of its methods, on Quote/Entity.
use bom_trato_api.Prelude.{
  ℕ, suc, ◌+◌, ◌≤◌, ◌<◌, ◌≡◌, refl, not, Option, none, some, List, [], ◌∷◌, ◌++◌, map, arith,
  length, length-append, length-keep, keep, max_int, EntityId, ◌==◌, Num, nat, value,
}
use mathlib.Core.Option
use bom_trato_api.Prelude.Result.{ok}
use bom_trato_api.Prelude.Text.{trim, trim_twice}
use bom_trato_api.Prelude.Date.{Date}
use bom_trato_api.Quote.Types.{
  QuoteStatus, draft, sent, approved, declined, canceled, PaymentCondition, after_completion,
  upfront, down_payment_and_balance, QuoteItemProps, QuoteDetails, QuoteProps,
}
use bom_trato_api.Quote.Entity.{
  sum_totals, number_items, record_change, totals, set_items, update, CreateQuoteParams, create,
  add_item, swap_item, replace_item, remove_item, down_payment, mark_sent, approve, decline, cancel,
  given_or, create_details, blank_quote, assert_draft, normalize_down_payment_percentage,
}

-- The percentage of the down payment is there, from 1 to 99, exactly under the condition that has
-- one.
abbrev pub Fits : PaymentCondition → Option ℕ → Type 0
Fits down_payment_and_balance (some p) = (1 ≤ p) × (p ≤ 99)
Fits down_payment_and_balance none = ⊥
Fits after_completion none = Unit {0}
Fits after_completion (some p) = ⊥
Fits upfront none = Unit {0}
Fits upfront (some p) = ⊥

-- Both parts of a split payment are more than nothing.
abbrev pub Splits : PaymentCondition → Option ℕ → ℕ → Type 0
Splits down_payment_and_balance (some p) total =
    (0 < down_payment total p) × (down_payment total p < total)
Splits down_payment_and_balance none total = ⊥
Splits _ _ total = Unit {0}

-- The dates that are set are those of the events that led to the status.
abbrev pub Dated : QuoteStatus → Option Date → Option Date → Option Date → Type 0
Dated draft none none none = Unit {0}
Dated sent (some _) none none = Unit {0}
Dated approved (some _) (some _) none = Unit {0}
Dated declined (some _) (some _) none = Unit {0}
Dated canceled _ none (some _) = Unit {0}
Dated _ _ _ _ = ⊥

abbrev pub NonEmpty {ℓ} : {A : Type ℓ} → List A → Type 0
NonEmpty [] = ⊥
NonEmpty (x ∷ xs) = Unit {0}

-- What `markSent` has checked holds from then on.
abbrev pub Offered : QuoteStatus → QuoteProps → Type 0
Offered draft q = Unit {0}
Offered canceled q = Unit {0}
Offered _ q =
    NonEmpty q.items × Splits q.payment_condition q.down_payment_percentage q.total_in_cents

pub record IsValid (q : QuoteProps) : Type 0 where
  pub summed : q.subtotal_in_cents ≡ sum_totals q.items
  pub discounted : q.total_in_cents + q.discount_in_cents ≡ q.subtotal_in_cents
  pub bounded : q.subtotal_in_cents ≤ max_int
  pub few : length q.items ≤ 100
  pub numbered : number_items 0 q.items ≡ q.items
  pub titled : (2 ≤ length q.title) × (length q.title ≤ 150)
  pub trimmed_title : trim q.title ≡ q.title
  pub percentage : Fits q.payment_condition q.down_payment_percentage
  pub dated : Dated q.status q.sent_at q.decided_at q.canceled_at
  pub offered : Offered q.status q

sum_totals-number_items :
    (n : ℕ) (items : List QuoteItemProps) → sum_totals (number_items n items) ≡ sum_totals items
sum_totals-number_items n [] = refl
sum_totals-number_items n (x ∷ xs) = omega (arith, sum_totals-number_items (suc n) xs)

length-number_items :
    (n : ℕ) (items : List QuoteItemProps) → length (number_items n items) ≡ length items
length-number_items n [] = refl
length-number_items n (x ∷ xs) = omega (arith, length-number_items (suc n) xs)

number_items_twice :
    (n m : ℕ) (items : List QuoteItemProps)
    → number_items n (number_items m items) ≡ number_items n items
number_items_twice n m [] = refl
number_items_twice n m (x ∷ xs) = cc (number_items_twice (suc n) (suc m) xs)

length-map_swap :
    (id : EntityId) (item : QuoteItemProps) (items : List QuoteItemProps)
    → length (map (swap_item id item) items) ≡ length items
length-map_swap id item [] = refl
length-map_swap id item (x ∷ xs) = omega (arith, length-map_swap id item xs)

-- A draft whose items are replaced by at most a hundred others stays valid.
set_items-IsValid :
    (items : List QuoteItemProps) (q q' : QuoteProps)
    → IsValid q
    → q.status ≡ draft
    → length items ≤ 100
    → set_items items q ≡ ok q'
    → IsValid q'
unfolding set_items
set_items-IsValid items q q' v d few h = ground (
  arith,
  sum_totals-number_items 0 items,
  length-number_items 0 items,
  number_items_twice 0 0 items,
)

pub add_item-IsValid :
    (item : QuoteItemProps) {q q' : QuoteProps} → IsValid q → add_item item q ≡ ok q' → IsValid q'
unfolding add_item
add_item-IsValid item {q} {q'} v h =
    ground
      (arith, length-append q.items (item ∷ []), set_items-IsValid (q.items ++ item ∷ []) q q' v)

pub replace_item-IsValid :
    (id : EntityId) (item : QuoteItemProps) {q q' : QuoteProps}
    → IsValid q
    → replace_item id item q ≡ ok q'
    → IsValid q'
unfolding replace_item
replace_item-IsValid id item {q} {q'} v h = ground (
  arith,
  length-map_swap id item q.items,
  set_items-IsValid (map (swap_item id item) q.items) q q' v,
)

pub remove_item-IsValid :
    (id : EntityId) {q q' : QuoteProps} → IsValid q → remove_item id q ≡ ok q' → IsValid q'
unfolding remove_item
remove_item-IsValid id {q} {q'} v h =
    let rest = keep (λ (item : QuoteItemProps). not (item.id == id)) q.items in
    ground (
      arith,
      length-keep (λ (item : QuoteItemProps). not (item.id == id)) q.items,
      set_items-IsValid rest q q' v,
    )

pub record_change-IsValid :
    (user : Option EntityId) (now : Date) {q q' : QuoteProps}
    → IsValid q
    → record_change user now q ≡ ok q'
    → IsValid q'
unfolding record_change
record_change-IsValid user now v h = ground arith

pub mark_sent-IsValid :
    (now : Date) {q q' : QuoteProps} → IsValid q → mark_sent now q ≡ ok q' → IsValid q'
unfolding mark_sent
mark_sent-IsValid now {q} v h = ground arith

pub approve-IsValid :
    (now : Date) {q q' : QuoteProps} → IsValid q → approve now q ≡ ok q' → IsValid q'
unfolding approve
approve-IsValid now v h = ground arith

pub decline-IsValid :
    (now : Date) {q q' : QuoteProps} → IsValid q → decline now q ≡ ok q' → IsValid q'
unfolding decline
decline-IsValid now v h = ground arith

pub cancel-IsValid :
    (now : Date) {q q' : QuoteProps} → IsValid q → cancel now q ≡ ok q' → IsValid q'
unfolding cancel
cancel-IsValid now v h = ground arith

abbrev new_condition : QuoteDetails → QuoteProps → PaymentCondition
new_condition d q = given_or d.payment_condition q.payment_condition

abbrev new_percentage : QuoteDetails → QuoteProps → Option Num
new_percentage d q = given_or d.down_payment_percentage (Option.map nat q.down_payment_percentage)

abbrev new_discount : QuoteDetails → QuoteProps → Num
new_discount d q = given_or d.discount_in_cents (nat q.discount_in_cents)

-- What an update that succeeds has checked and set.
record Updated (d : QuoteDetails) (q q' : QuoteProps) : Type 0 where
  is_editable : assert_draft q ≡ ok tt
  percentage_set :
      normalize_down_payment_percentage (new_condition d q) (new_percentage d q)
      ≡ ok q'.down_payment_percentage
  totals_set : totals q.items (new_discount d q) ≡ ok (q'.subtotal_in_cents, q'.total_in_cents)
  discount_set : q'.discount_in_cents ≡ value (new_discount d q)
  condition_set : q'.payment_condition ≡ new_condition d q
  title_set : q'.title ≡ trim (given_or d.title q.title)
  title_bounded : (2 ≤ length q'.title) × (length q'.title ≤ 150)
  items_same : q'.items ≡ q.items
  status_same : q'.status ≡ q.status
  dates_same :
      (q'.sent_at ≡ q.sent_at) × (q'.decided_at ≡ q.decided_at) × (q'.canceled_at ≡ q.canceled_at)

update-Updated :
    (d : QuoteDetails) (now : Date) (q q' : QuoteProps) → update d now q ≡ ok q' → Updated d q q'
unfolding update
update-Updated d now q q' h = ground arith

normalize-Fits :
    (c : PaymentCondition) (p : Option Num) (r : Option ℕ)
    → normalize_down_payment_percentage c p ≡ ok r
    → Fits c r
unfolding normalize_down_payment_percentage
normalize-Fits c p r h = ground arith

totals-split :
    (items : List QuoteItemProps) (discount : Num) (subtotal total : ℕ)
    → totals items discount ≡ ok (subtotal, total)
    → (subtotal ≡ sum_totals items) × (total + value discount ≡ subtotal) × (subtotal ≤ max_int)
unfolding totals
totals-split items discount subtotal total h = ground arith

pub update-IsValid :
    (d : QuoteDetails) (now : Date) {q q' : QuoteProps}
    → IsValid q
    → update d now q ≡ ok q'
    → IsValid q'
unfolding assert_draft
update-IsValid d now {q} {q'} v h =
    let u = update-Updated d now q q' h in
    ground (
      arith,
      trim_twice (given_or d.title q.title),
      normalize-Fits (new_condition d q) (new_percentage d q) q'.down_payment_percentage,
      totals-split q.items (new_discount d q) q'.subtotal_in_cents q'.total_in_cents,
    )

create-Updated :
    (p : CreateQuoteParams) (now : Date) (q : QuoteProps)
    → create p now ≡ ok q
    → Updated (create_details p) (blank_quote p now) q
unfolding create
create-Updated p now q h = update-Updated (create_details p) now (blank_quote p now) q h

-- A new quote is a valid draft with no items, no amount and no discount.
pub create-IsValid :
    (p : CreateQuoteParams) (now : Date) {q : QuoteProps}
    → create p now ≡ ok q
    → IsValid q × (q.status ≡ draft) × (q.items ≡ []) × (q.total_in_cents ≡ 0)
unfolding given_or
create-IsValid p now {q} h =
    let d = create_details p in
    let u = create-Updated p now q h in
    ground (
      arith,
      trim_twice p.title,
      normalize-Fits (new_condition d (blank_quote p now)) (new_percentage d (blank_quote p now))
          q.down_payment_percentage,
      totals-split [] (nat 0) q.subtotal_in_cents q.total_in_cents,
    )
