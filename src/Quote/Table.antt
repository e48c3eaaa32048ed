-- ===== src/Quote/Table.antt =====
-- About the use cases of Quote/Service on the table of quotes.
use mathlib.Core.Path.{subst}
use bom_trato_api.Prelude.{
  find-Mem, ◌==◌, ◌≡◌, inl, inr, ap, Bool-cases, some, List, ◌∷◌, Memᴰ, map, map-Mem, EntityId, Num,
  arith,
}
use bom_trato_api.Prelude.Result.{ok, or_throw, or_throw-some, >>=-eq_ok, ok-eq}
use bom_trato_api.Prelude.Date.{Date}
use bom_trato_api.Organization.Access.{AccessContext, assert_can_operate}
use bom_trato_api.Customer.{CustomerProps}
use bom_trato_api.Quote.Types.{
  QuoteStatus, draft, sent, approved, declined, canceled, QuoteProps, quote_not_found,
}
use bom_trato_api.Quote.Entity.{assert_version, record_change, create}
use bom_trato_api.Quote.Invariant.{
  Offered, IsValid, mark_sent-IsValid, cancel-IsValid, decline-IsValid, update-IsValid,
  add_item-IsValid, replace_item-IsValid, remove_item-IsValid, record_change-IsValid,
  create-IsValid,
}
use bom_trato_api.Quote.Store.{
  find_quote, save_quote, saved_quote, written_quote, is_expected_quote,
}
use bom_trato_api.Quote.Service.{
  quote_denied, ChangeQuoteParams, load_quote, mutate_quote, find_customer, CatalogService,
  quote_item, AddQuoteItemInput, QuoteChange, send_it, cancel_it, decline_it, update_it, add_to_it,
  replace_in_it, remove_from_it, send, add, replace, operation, change_quote, CreateQuoteInput,
  create_params, create_quote,
}

-- The table holds valid quotes.
pub record AreValid (rows : List QuoteProps) : Type 0 where
  pub each : (q : QuoteProps) → Memᴰ q rows → IsValid q

written-Offered :
    (state row : QuoteProps) (x : QuoteStatus)
    → Offered x state
    → Offered x (written_quote state row)
unfolding written_quote
written-Offered state row draft o = o
written-Offered state row sent o = o
written-Offered state row approved o = o
written-Offered state row declined o = o
written-Offered state row canceled o = o

written-IsValid : (state row : QuoteProps) → IsValid state → IsValid (written_quote state row)
unfolding written_quote
written-IsValid state row v = record {
  summed = v.summed;
  discounted = v.discounted;
  bounded = v.bounded;
  few = v.few;
  numbered = v.numbered;
  titled = v.titled;
  trimmed_title = v.trimmed_title;
  percentage = v.percentage;
  dated = v.dated;
  offered = written-Offered state row state.status v.offered;
}

saved-IsValid :
    (state : QuoteProps) (expected : Num) (row : QuoteProps)
    → IsValid state
    → IsValid row
    → IsValid (saved_quote state expected row)
unfolding saved_quote
saved-IsValid state expected row v w = elim (Bool-cases (is_expected_quote state.id expected row)) [
  | inl t ↦ rw t (written-IsValid state row v)
  | inr f ↦ rw f w
]

pub save-AreValid :
    (state : QuoteProps) (expected : Num) (rows rows' : List QuoteProps)
    → IsValid state
    → AreValid rows
    → save_quote state expected rows ≡ ok rows'
    → AreValid rows'
unfolding save_quote
save-AreValid state expected rows rows' v a h =
    let e : rows' ≡ map (saved_quote state expected) rows = ground arith in
    rw e (record {
      each = λ q m.
          let (row, n, i) = map-Mem (saved_quote state expected) rows m in
          rw i (saved-IsValid state expected row v (a.each row n));
    })

pub cons-AreValid :
    (q : QuoteProps) (rows : List QuoteProps) → IsValid q → AreValid rows → AreValid (q ∷ rows)
cons-AreValid q rows v a = record { each = consed }
  where
    consed : (y : QuoteProps) → Memᴰ y (q ∷ rows) → IsValid y
    consed y (Memᴰ.head e) = rw e v
    consed y (Memᴰ.tail m) = a.each y m

pub found-IsValid :
    (id : EntityId) (rows : List QuoteProps) (q : QuoteProps)
    → AreValid rows
    → find_quote id rows ≡ some q
    → IsValid q
unfolding find_quote
found-IsValid id rows q a h = a.each q (find-Mem (λ (row : QuoteProps). row.id == id) rows q h).0

module _ (customers : List CustomerProps) (services : List CatalogService) where
  send-IsValid :
      (now : Date) (q q' : QuoteProps)
      → IsValid q
      → send customers services now q ≡ ok q'
      → IsValid q'
  unfolding send
  send-IsValid now q q' v h =
      let (_, _, k) = >>=-eq_ok (find_customer q.customer_id customers) _ h in
      mark_sent-IsValid now v k

  add-IsValid :
      (id : EntityId) (input : AddQuoteItemInput) (q q' : QuoteProps)
      → IsValid q
      → add customers services id input q ≡ ok q'
      → IsValid q'
  unfolding add
  add-IsValid id input q q' v h =
      let (item, _, k) = >>=-eq_ok (quote_item id input services) _ h in add_item-IsValid item v k

  replace-IsValid :
      (id : EntityId) (input : AddQuoteItemInput) (q q' : QuoteProps)
      → IsValid q
      → replace customers services id input q ≡ ok q'
      → IsValid q'
  unfolding replace
  replace-IsValid id input q q' v h =
      let (item, _, k) = >>=-eq_ok (quote_item id input services) _ h in
      replace_item-IsValid id item v k

  operation-IsValid :
      (c : QuoteChange) (now : Date) (q q' : QuoteProps)
      → IsValid q
      → operation customers services c now q ≡ ok q'
      → IsValid q'
  unfolding operation
  operation-IsValid send_it now q q' v h = send-IsValid now q q' v h
  operation-IsValid cancel_it now q q' v h = cancel-IsValid now v h
  operation-IsValid decline_it now q q' v h = decline-IsValid now v h
  operation-IsValid (update_it d) now q q' v h = update-IsValid d now v h
  operation-IsValid (add_to_it id input) now q q' v h = add-IsValid id input q q' v h
  operation-IsValid (replace_in_it id input) now q q' v h = replace-IsValid id input q q' v h
  operation-IsValid (remove_from_it id) now q q' v h = remove_item-IsValid id v h

  -- What a change has read and saved.
  pub change-AreValid :
      (access : AccessContext) (p : ChangeQuoteParams) (c : QuoteChange)
      (rows rows' : List QuoteProps) (q : QuoteProps)
      → AreValid rows
      → change_quote customers services access p c rows ≡ ok (q, rows')
      → AreValid rows'
  unfolding change_quote mutate_quote load_quote find_quote
  change-AreValid access p c rows rows' q a h =
      let (_, e0, k0) = >>=-eq_ok (assert_can_operate access quote_denied) _ h in
      let (x, e1, k1) = >>=-eq_ok (or_throw (find_quote p.quote_id rows) quote_not_found) _ k0 in
      let (_, e2, k2) = >>=-eq_ok (assert_version p.version x) _ k1 in
      let (y, e3, k3) = >>=-eq_ok (operation customers services c p.now x) _ k2 in
      let (z, e4, k4) = >>=-eq_ok (record_change (some p.user_id) p.now y) _ k3 in
      let (r, e5, k5) = >>=-eq_ok (save_quote z p.version rows) _ k4 in
      let f = or_throw-some (find_quote p.quote_id rows) quote_not_found e1 in
      let (m, _) = find-Mem (λ (row : QuoteProps). row.id == p.quote_id) rows x f in
      let v = operation-IsValid c p.now x y (a.each x m) e3 in
      let w = record_change-IsValid (some p.user_id) p.now v e4 in
      subst AreValid (ap (λ (t : QuoteProps × List QuoteProps). t.1) (ok-eq k5))
        (save-AreValid z p.version rows r w a e5)

  pub create-AreValid :
      (access : AccessContext) (input : CreateQuoteInput) (now : Date)
      (rows rows' : List QuoteProps) (q : QuoteProps)
      → AreValid rows
      → create_quote customers services access input now rows ≡ ok (q, rows')
      → AreValid rows'
  unfolding create_quote
  create-AreValid access input now rows rows' q a h =
      let (_, e0, k0) = >>=-eq_ok (assert_can_operate access quote_denied) _ h in
      let (c, e1, k1) = >>=-eq_ok (find_customer input.customer_id customers) _ k0 in
      let (x, e2, k2) = >>=-eq_ok (create (create_params input c) now) _ k1 in
      let v = (create-IsValid (create_params input c) now e2).0 in
      subst AreValid (ap (λ (t : QuoteProps × List QuoteProps). t.1) (ok-eq k2))
        (cons-AreValid x rows v a)
