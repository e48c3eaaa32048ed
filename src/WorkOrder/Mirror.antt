-- ===== src/WorkOrder/Mirror.antt =====
-- About the order that is made for an approved quote: WorkOrder/Creation.
use mathlib.Core.Path.{subst}
use bom_trato_api.Prelude.{
  ℕ, suc, ◌+◌, ◌≤◌, ◌<◌, ◌≡◌, ◌⊎◌, inl, inr, refl, Option, none, some, List, [], ◌∷◌, EntityId,
  length, arith, map, ◌∙◌, ap, sym, Option-cases,
}
use bom_trato_api.Prelude.Result.{ok}
use bom_trato_api.Prelude.Text.{Text, trim, nonempty}
use bom_trato_api.Quote.Types.{QuoteStatus, ServiceUnit, QuoteProps, QuoteItemProps}
use bom_trato_api.Quote.Entity.{sum_totals}
use bom_trato_api.Quote.Invariant.{IsValid, NonEmpty, Offered}
use bom_trato_api.WorkOrder.Types.{opened, WorkOrderProps, WorkOrderItemProps}
use bom_trato_api.WorkOrder.Entity.{
  CreateWorkOrderParams, created, create, update, assign, assert_planning, normalize_text,
  updated_text, order_items,
}
use bom_trato_api.WorkOrder.Store.{Orders}
use bom_trato_api.WorkOrder.Creation.{
  EnsureWorkOrderParams, with_address, with_assignee, new_order, find_by_quote_id, ensure_or_create,
  ensure_work_order,
}

pub sum_order_totals : List WorkOrderItemProps → ℕ
sum_order_totals [] = 0
sum_order_totals (x ∷ xs) = x.total_in_cents + sum_order_totals xs

-- What an item of an order has of that of the quote.
pub record ItemCopy : Type 0 where
  pub source : EntityId
  pub name : Text
  pub description : Option Text
  pub unit_of : ServiceUnit
  pub quantity_in_thousandths : ℕ
  pub unit_amount_in_cents : ℕ
  pub total_in_cents : ℕ

abbrev pub of_quote : QuoteItemProps → ItemCopy
of_quote i = record {
  source = i.id;
  name = i.name;
  description = i.description;
  unit_of = i.unit_of;
  quantity_in_thousandths = i.quantity_in_thousandths;
  unit_amount_in_cents = i.unit_amount_in_cents;
  total_in_cents = i.total_in_cents;
}

abbrev pub of_order : WorkOrderItemProps → ItemCopy
of_order i = record {
  source = i.source_quote_item_id;
  name = i.name;
  description = i.description;
  unit_of = i.unit_of;
  quantity_in_thousandths = i.quantity_in_thousandths;
  unit_amount_in_cents = i.unit_amount_in_cents;
  total_in_cents = i.total_in_cents;
}

-- The positions count up from the given one.
abbrev pub CountUp : ℕ → List WorkOrderItemProps → Type 0
CountUp n [] = Unit {0}
CountUp n (i ∷ items) = (i.position ≡ n) × CountUp (suc n) items

-- What an order takes over from the quote.
pub record Mirrors (q : QuoteProps) (w : WorkOrderProps) : Type 0 where
  pub same_quote : w.quote_id ≡ q.id
  pub same_organization : w.organization_id ≡ q.organization_id
  pub same_customer : w.customer_id ≡ q.customer_id
  pub same_customer_name : w.customer_name ≡ q.customer_name
  pub same_customer_email : w.customer_email ≡ q.customer_email
  pub same_customer_phone : w.customer_phone ≡ q.customer_phone
  pub same_notes : w.instructions ≡ q.notes
  pub same_subtotal : w.subtotal_in_cents ≡ q.subtotal_in_cents
  pub same_discount : w.discount_in_cents ≡ q.discount_in_cents
  pub same_title : w.title ≡ q.title
  pub same_currency : w.currency ≡ q.currency
  pub same_total : w.total_in_cents ≡ q.total_in_cents
  pub same_items : map of_order w.items ≡ map of_quote q.items
  pub positions : CountUp 0 w.items
  pub same_sum : sum_order_totals w.items ≡ q.subtotal_in_cents
  pub is_open : w.status ≡ opened

order_items-copies :
    (ids : List EntityId) (items : List QuoteItemProps) (n : ℕ)
    → length ids ≡ length items
    → map of_order (order_items ids items n) ≡ map of_quote items
order_items-copies [] [] n h = refl
order_items-copies (i ∷ ids) (x ∷ items) n h =
    ap (λ t. of_quote x ∷ t) (order_items-copies ids items (suc n) (omega (arith, h)))
order_items-copies [] (x ∷ items) n h = absurd (omega (arith, h))
order_items-copies (i ∷ ids) [] n h = absurd (omega (arith, h))

order_items-CountUp :
    (ids : List EntityId) (items : List QuoteItemProps) (n : ℕ)
    → CountUp n (order_items ids items n)
order_items-CountUp [] items n = tt
order_items-CountUp (i ∷ ids) [] n = tt
order_items-CountUp (i ∷ ids) (x ∷ items) n = (refl, order_items-CountUp ids items (suc n))

order_items-sum :
    (ids : List EntityId) (items : List QuoteItemProps) (n : ℕ)
    → length ids ≡ length items
    → sum_order_totals (order_items ids items n) ≡ sum_totals items
unfolding sum_order_totals
order_items-sum [] [] n h = refl
order_items-sum (i ∷ ids) (x ∷ items) n h =
    ap (λ t. x.total_in_cents + t) (order_items-sum ids items (suc n) (omega (arith, h)))
order_items-sum [] (x ∷ items) n h = absurd (omega (arith, h))
order_items-sum (i ∷ ids) [] n h = absurd (omega (arith, h))

abbrev pub FitsAddress : Option Text → Type 0
FitsAddress none = Unit {0}
FitsAddress (some address) = length (trim address) ≤ 500

-- What holds of the order while it is made.
record Made (q : QuoteProps) (id : EntityId) (w : WorkOrderProps) : Type 0 where
  pub mirrors : Mirrors q w
  pub made_id : w.id ≡ id

abbrev params_of : EnsureWorkOrderParams → CreateWorkOrderParams
params_of p = record {
  id = p.fresh_id;
  organization_id = p.quote.organization_id;
  user_id = p.created_by_id;
  quote = p.quote;
  item_ids = p.item_ids;
}

NonEmpty-length : {A : Type 0} (xs : List A) → NonEmpty xs → 0 < length xs
NonEmpty-length [] n = absurd n
NonEmpty-length (x ∷ xs) n = omega arith

create-Made :
    (p : EnsureWorkOrderParams)
    → p.quote.status ≡ QuoteStatus.approved
    → NonEmpty p.quote.items
    → IsValid p.quote
    → length p.item_ids ≡ length p.quote.items
    → (w : WorkOrderProps) × (create (params_of p) p.now ≡ ok w) × Made p.quote p.fresh_id w
unfolding create created
create-Made p e n v h = (
  created (params_of p) p.now,
  let l = NonEmpty-length p.quote.items n in ground arith,
  record {
    mirrors = record {
      same_quote = refl;
      same_organization = refl;
      same_customer = refl;
      same_customer_name = refl;
      same_customer_email = refl;
      same_customer_phone = refl;
      same_notes = refl;
      same_subtotal = refl;
      same_discount = refl;
      same_title = refl;
      same_currency = refl;
      same_total = refl;
      same_items = order_items-copies p.item_ids p.quote.items 0 h;
      positions = order_items-CountUp p.item_ids p.quote.items 0;
      same_sum = order_items-sum p.item_ids p.quote.items 0 h ∙ sym v.summed;
      is_open = refl;
    };
    made_id = refl;
  },
)

with_address-Made :
    (q : QuoteProps) (id : EntityId) (address : Option Text) (w : WorkOrderProps)
    → IsValid q
    → FitsAddress address
    → Made q id w
    → (w' : WorkOrderProps) × (with_address address w ≡ ok w') × Made q id w'
unfolding with_address update updated_text normalize_text assert_planning
with_address-Made q id none w v f m = (w, refl, m)
with_address-Made q id (some a) w v f m =
    let t : trim w.title ≡ q.title = ap trim m.mirrors.same_title ∙ v.trimmed_title in
    let l : length (trim w.title) ≡ length q.title = ap length t in
    let o = m.mirrors.is_open in
    let b = v.titled in
    (
      record w { title = trim w.title; service_address = nonempty (trim a) },
      ground arith,
      ground arith,
    )

with_assignee-Made :
    (q : QuoteProps) (id : EntityId) (user : Option EntityId) (w : WorkOrderProps)
    → Made q id w
    → (w' : WorkOrderProps) × (with_assignee user w ≡ ok w') × Made q id w'
unfolding with_assignee assign assert_planning
with_assignee-Made q id none w m = (w, refl, m)
with_assignee-Made q id (some u) w m =
    let o = m.mirrors.is_open in (record w { assigned_to_id = some u }, ground arith, ground arith)

approved-NonEmpty :
    (q : QuoteProps) → IsValid q → q.status ≡ QuoteStatus.approved → NonEmpty q.items
approved-NonEmpty q v e =
    let o : Offered QuoteStatus.approved q = subst (λ s. Offered s q) e v.offered in o.0

new_order-Made :
    (p : EnsureWorkOrderParams)
    → p.quote.status ≡ QuoteStatus.approved
    → IsValid p.quote
    → length p.item_ids ≡ length p.quote.items
    → FitsAddress p.service_address
    → (w : WorkOrderProps) × (new_order p ≡ ok w) × Made p.quote p.fresh_id w
unfolding new_order
new_order-Made p e v h f =
    let (a, ea, ma) = create-Made p e (approved-NonEmpty p.quote v e) v h in
    let (b, eb, mb) = with_address-Made p.quote p.fresh_id p.service_address a v f ma in
    let (c, ec, mc) = with_assignee-Made p.quote p.fresh_id p.assigned_to_id b mb in
    (c, rw (ea, eb, ec) refl, mc)

-- For an approved quote in a valid state, with a fresh identifier for each item and a service
-- address of at most 500 characters or none, the call succeeds. When the quote has an order, that
-- order is returned and nothing is written; otherwise one open order is added under the fresh
-- identifier. It has the customer, the title, the notes, the currency, the subtotal, the discount
-- and the total of the quote, and a copy of each of its items in their order, with its source, name,
-- description, unit, quantity and amounts, at the positions from zero on; the items add up to the
-- subtotal.
pub ensure_work_order-Mirrors :
    (p : EnsureWorkOrderParams) (rows : Orders)
    → p.quote.status ≡ QuoteStatus.approved
    → IsValid p.quote
    → length p.item_ids ≡ length p.quote.items
    → FitsAddress p.service_address
    → ((existing : WorkOrderProps) × (find_by_quote_id p.quote.id rows ≡ some existing)
        × (ensure_work_order p rows ≡ ok (existing, rows)))
      ⊎ ((order : WorkOrderProps) × (find_by_quote_id p.quote.id rows ≡ none)
          × (ensure_work_order p rows ≡ ok (order, order ∷ rows))
          × Mirrors p.quote order
          × (order.id ≡ p.fresh_id))
unfolding ensure_work_order ensure_or_create
ensure_work_order-Mirrors p rows e v h f = elim (Option-cases (find_by_quote_id p.quote.id rows)) [
  | inl n ↦
      let (w, ew, m) = new_order-Made p e v h f in inr (w, n, rw (n, ew) refl, m.mirrors, m.made_id)
  | inr (o, k) ↦ inl (o, k, rw k refl)
]
