-- ===== src/Quote/Lifecycle.antt =====
-- The calls of the methods of a quote as steps, on Quote/Entity.
use bom_trato_api.Prelude.{◌≡◌, ◌≢◌, refl, false, Option, none, some, arith, EntityId, ◌↔◌, ◌∙◌}
use bom_trato_api.Prelude.Result.{ok}
use bom_trato_api.Prelude.Date.{Date, date_le}
use bom_trato_api.Quote.Types.{
  QuoteStatus, draft, sent, approved, declined, canceled, QuoteItemProps, QuoteDetails, QuoteProps,
}
use bom_trato_api.Quote.Entity.{
  record_change, set_items, update, CreateQuoteParams, create, add_item, replace_item, remove_item,
  mark_sent, approve, decline, cancel, assert_draft,
}
use bom_trato_api.Quote.Invariant.{
  IsValid, create-IsValid, update-IsValid, add_item-IsValid, replace_item-IsValid,
  remove_item-IsValid, mark_sent-IsValid, approve-IsValid, decline-IsValid, cancel-IsValid,
  record_change-IsValid,
}

-- One call of a method that changes the quote and does not throw.
pub data Step (q q' : QuoteProps) : Type 0 where
  updated : (d : QuoteDetails) (now : Date) → update d now q ≡ ok q' → Step q q'
  item_added : (item : QuoteItemProps) → add_item item q ≡ ok q' → Step q q'
  item_replaced :
      (id : EntityId) (item : QuoteItemProps) → replace_item id item q ≡ ok q' → Step q q'
  item_removed : (id : EntityId) → remove_item id q ≡ ok q' → Step q q'
  was_sent : (now : Date) → mark_sent now q ≡ ok q' → Step q q'
  was_approved : (now : Date) → approve now q ≡ ok q' → Step q q'
  was_declined : (now : Date) → decline now q ≡ ok q' → Step q q'
  was_canceled : (now : Date) → cancel now q ≡ ok q' → Step q q'
  recorded : (user : Option EntityId) (now : Date) → record_change user now q ≡ ok q' → Step q q'

pub data Reach (q : QuoteProps) : QuoteProps → Type 0 where
  here : Reach q q
  next : {r s : QuoteProps} → Reach q r → Step r s → Reach q s

Step-IsValid : {q q' : QuoteProps} → IsValid q → Step q q' → IsValid q'
Step-IsValid v (updated d now h) = update-IsValid d now v h
Step-IsValid v (item_added item h) = add_item-IsValid item v h
Step-IsValid v (item_replaced id item h) = replace_item-IsValid id item v h
Step-IsValid v (item_removed id h) = remove_item-IsValid id v h
Step-IsValid v (was_sent now h) = mark_sent-IsValid now v h
Step-IsValid v (was_approved now h) = approve-IsValid now v h
Step-IsValid v (was_declined now h) = decline-IsValid now v h
Step-IsValid v (was_canceled now h) = cancel-IsValid now v h
Step-IsValid v (recorded user now h) = record_change-IsValid user now v h

Reach-IsValid : {q q' : QuoteProps} → IsValid q → Reach q q' → IsValid q'
Reach-IsValid v here = v
Reach-IsValid v (next r s) = Step-IsValid (Reach-IsValid v r) s

-- Whatever methods are called on a new quote, in whatever order, its amounts agree with its
-- items, its positions count the items, and its payment condition and dates fit its status.
pub reachable-IsValid :
    (p : CreateQuoteParams) (now : Date) {q q' : QuoteProps}
    → create p now ≡ ok q
    → Reach q q'
    → IsValid q'
reachable-IsValid p now h r = Reach-IsValid (create-IsValid p now h).0 r

-- The edges of the life of a quote.
pub data Edge : QuoteStatus → QuoteStatus → Type 0 where
  stay : {s : QuoteStatus} → Edge s s
  send : Edge draft sent
  accept : Edge sent approved
  refuse : Edge sent declined
  withdraw : Edge draft canceled
  take_back : Edge sent canceled

-- What a customer sees of an offer.
pub record SameOffer (q q' : QuoteProps) : Type 0 where
  pub items_same : q'.items ≡ q.items
  pub subtotal_same : q'.subtotal_in_cents ≡ q.subtotal_in_cents
  pub discount_same : q'.discount_in_cents ≡ q.discount_in_cents
  pub total_same : q'.total_in_cents ≡ q.total_in_cents
  pub condition_same : q'.payment_condition ≡ q.payment_condition
  pub percentage_same : q'.down_payment_percentage ≡ q.down_payment_percentage
  pub title_same : q'.title ≡ q.title
  pub notes_same : q'.notes ≡ q.notes
  pub validity_same : q'.valid_until ≡ q.valid_until

update-draft :
    (d : QuoteDetails) (now : Date) (q q' : QuoteProps)
    → update d now q ≡ ok q'
    → (q.status ≡ draft) × (q'.status ≡ draft)
unfolding update assert_draft
update-draft d now q q' h = ground arith

-- Every method moves the status along an edge, or leaves it.
pub Step-Edge : {q q' : QuoteProps} → Step q q' → Edge q.status q'.status
unfolding add_item set_items replace_item remove_item mark_sent approve decline cancel record_change
Step-Edge {q} {q'} (updated d now h) = let (a, b) = update-draft d now q q' h in rw (a, b) stay
Step-Edge {q} {q'} (item_added item h) = let e : q'.status ≡ q.status = ground arith in rw e stay
Step-Edge {q} {q'} (item_replaced id item h) =
    let e : q'.status ≡ q.status = ground arith in rw e stay
Step-Edge {q} {q'} (item_removed id h) = let e : q'.status ≡ q.status = ground arith in rw e stay
Step-Edge {q} {q'} (was_sent now h) =
    let e : (q.status ≡ draft) × (q'.status ≡ sent) = ground arith in rw (e.0, e.1) send
Step-Edge {q} {q'} (was_approved now h) =
    let e : (q.status ≡ sent) × (q'.status ≡ approved) = ground arith in rw (e.0, e.1) accept
Step-Edge {q} {q'} (was_declined now h) =
    let e : (q.status ≡ sent) × (q'.status ≡ declined) = ground arith in rw (e.0, e.1) refuse
Step-Edge {q} {q'} (was_canceled now h) = grind (arith, withdraw, take_back)
Step-Edge {q} {q'} (recorded user now h) = let e : q'.status ≡ q.status = ground arith in rw e stay

-- Once a quote has left the draft, no method changes the offer.
pub Step-SameOffer : {q q' : QuoteProps} → q.status ≢ draft → Step q q' → SameOffer q q'
unfolding add_item replace_item remove_item mark_sent approve decline cancel record_change
Step-SameOffer {q} {q'} n (updated d now h) = absurd (n (update-draft d now q q' h).0)
Step-SameOffer n (item_added item h) = ground arith
Step-SameOffer n (item_replaced id item h) = ground arith
Step-SameOffer n (item_removed id h) = ground arith
Step-SameOffer n (was_sent now h) = ground arith
Step-SameOffer n (was_approved now h) = ground arith
Step-SameOffer n (was_declined now h) = ground arith
Step-SameOffer n (was_canceled now h) = ground arith
Step-SameOffer n (recorded user now h) = ground arith

Edge-ne_draft : {s t : QuoteStatus} → Edge s t → s ≢ draft → t ≢ draft
Edge-ne_draft stay n = n
Edge-ne_draft send n = λ e. n refl
Edge-ne_draft accept n = λ e. cc
Edge-ne_draft refuse n = λ e. cc
Edge-ne_draft withdraw n = λ e. n refl
Edge-ne_draft take_back n = λ e. cc

SameOffer-trans : {q r s : QuoteProps} → SameOffer q r → SameOffer r s → SameOffer q s
SameOffer-trans a b = ground arith

Reach-ne_draft : {q q' : QuoteProps} → Reach q q' → q.status ≢ draft → q'.status ≢ draft
Reach-ne_draft here n = n
Reach-ne_draft (next r s) n = Edge-ne_draft (Step-Edge s) (Reach-ne_draft r n)

-- Once a quote has left the draft, its items, amounts, payment condition, texts and validity
-- never change again, whatever methods are called.
pub Reach-SameOffer : {q q' : QuoteProps} → q.status ≢ draft → Reach q q' → SameOffer q q'
Reach-SameOffer n here = ground arith
Reach-SameOffer n (next r s) =
    SameOffer-trans (Reach-SameOffer n r) (Step-SameOffer (Reach-ne_draft r n) s)

abbrev pub IsFinal : QuoteStatus → Type 0
IsFinal draft = ⊥
IsFinal sent = ⊥
IsFinal _ = Unit {0}

Edge-final : {s t : QuoteStatus} → Edge s t → IsFinal s → t ≡ s
Edge-final stay f = refl
Edge-final send f = absurd f
Edge-final accept f = absurd f
Edge-final refuse f = absurd f
Edge-final withdraw f = absurd f
Edge-final take_back f = absurd f

SameDates : QuoteProps → QuoteProps → Type 0
SameDates q q' =
    (q'.sent_at ≡ q.sent_at) × (q'.decided_at ≡ q.decided_at) × (q'.canceled_at ≡ q.canceled_at)

Step-final_dates : {q q' : QuoteProps} → IsFinal q.status → Step q q' → SameDates q q'
unfolding add_item replace_item remove_item mark_sent approve decline cancel record_change SameDates
Step-final_dates {q} {q'} f (updated d now h) = absurd (rw (update-draft d now q q' h).0 at f)
Step-final_dates f (item_added item h) = ground arith
Step-final_dates f (item_replaced id item h) = ground arith
Step-final_dates f (item_removed id h) = ground arith
Step-final_dates f (was_sent now h) = ground arith
Step-final_dates f (was_approved now h) = ground arith
Step-final_dates f (was_declined now h) = ground arith
Step-final_dates f (was_canceled now h) = ground arith
Step-final_dates f (recorded user now h) = ground arith

-- An approved, declined or canceled quote keeps its status and the dates of its decision for
-- ever: it is decided at most once, and no decision is taken back.
pub Reach-final :
    {q q' : QuoteProps}
    → IsFinal q.status
    → Reach q q'
    → (q'.status ≡ q.status)
      × (q'.sent_at ≡ q.sent_at)
      × (q'.decided_at ≡ q.decided_at)
      × (q'.canceled_at ≡ q.canceled_at)
unfolding SameDates
Reach-final f here = (refl, refl, refl, refl)
Reach-final {q} f (next {r} r' s) =
    let ih = Reach-final f r' in
    let f' = rw (← ih.0) at f in
    let e = Edge-final (Step-Edge s) f' in
    let d = Step-final_dates f' s in (e ∙ ih.0, d.0 ∙ ih.1, d.1 ∙ ih.2, d.2 ∙ ih.3)

abbrev pub Unexpired : Option Date → Date → Type 0
Unexpired none now = Unit {0}
Unexpired (some limit) now = date_le limit now ≡ false

-- An approval, and likewise a refusal, succeeds exactly on a sent quote that has not expired.
pub decision_iff :
    (now : Date) (q : QuoteProps)
    → (((q' : QuoteProps) × (approve now q ≡ ok q'))
        ↔ ((q.status ≡ sent) × Unexpired q.valid_until now))
      × (((q' : QuoteProps) × (decline now q ≡ ok q'))
          ↔ ((q.status ≡ sent) × Unexpired q.valid_until now))
unfolding approve decline
decision_iff now q = (
  (
    λ (q', h). ground arith,
    λ h. (record q { status = approved; decided_at = some now }, ground arith),
  ),
  (
    λ (q', h). ground arith,
    λ h. (record q { status = declined; decided_at = some now }, ground arith),
  ),
)
