-- ===== src/Webhook/Owner.antt =====
-- About several workers at the table of Webhook/Queue: who settles an event, and what becomes of
-- one that is settled.
use mathlib.Core.Path.{subst}
use bom_trato_api.Prelude.{
  ℕ, ◌≡◌, ◌≢◌, inl, inr, refl, sym, ap, ◌∙◌, Bool, true, false, Option, none, some, List, [], ◌∷◌,
  Memᴰ, Bool-cases, ◌==◌, ==_refl, ==→eq, EntityId, any, update_where, update_where-Mem, some-eq,
  none-some,
}
use bom_trato_api.Prelude.Date.{Date}
use bom_trato_api.Webhook.Queue.{
  WebhookEvent, WebhookNotice, WebhookOutcome, complete, defer, retry, new_event, enqueue, leased,
  claim_candidate, claim_event, has_token, is_held, renew_event_lease, settled, settle_event,
  renewed_event, retry_event,
}

-- No row of the event has the token.
pub record NotHeld (id token : EntityId) (rows : List WebhookEvent) : Type 0 where
  pub lacks :
      {row : WebhookEvent} → Memᴰ row rows → row.id ≡ id → has_token row.lease_token token ≡ false

-- A statement while the worker with token `a` is at work: any, but no other worker claims an event
-- with that token.
pub data Statement (a : EntityId) (rows rows' : List WebhookEvent) : Type 0 where
  claimed_by :
      (b : EntityId) (now : Date)
      → b ≢ a
      → (claim_event b now rows).1 ≡ rows'
      → Statement a rows rows'
  enqueued_or :
      (n : WebhookNotice) (now : Date) → enqueue n now rows ≡ rows' → Statement a rows rows'
  renewed_by :
      (id token : EntityId) (now : Date)
      → (renew_event_lease id token now rows).1 ≡ rows'
      → Statement a rows rows'
  ended_by :
      (id token : EntityId) (attempts : ℕ) (outcome : WebhookOutcome) (now : Date)
      → (settle_event id token attempts outcome now rows).1 ≡ rows'
      → Statement a rows rows'
  reopened_by :
      (id : EntityId) (now : Date) → (retry_event id now rows).1 ≡ rows' → Statement a rows rows'

pub data Meanwhile (a : EntityId) (rows : List WebhookEvent) : List WebhookEvent → Type 0 where
  here : Meanwhile a rows rows
  next :
      {mid rows' : List WebhookEvent}
      → Meanwhile a rows mid
      → Statement a mid rows'
      → Meanwhile a rows rows'

other : (x y : EntityId) → x ≢ y → (x == y) ≡ false
other x y n = elim (Bool-cases (x == y)) [ inl e ↦ absurd (n (==→eq x y e)) | inr e ↦ e ]

-- An update that leaves the identifiers alone and gives no row the token.
update-NotHeld :
    (id a : EntityId) (test : WebhookEvent → Bool) (change : WebhookEvent → WebhookEvent)
    (rows : List WebhookEvent)
    → ((row : WebhookEvent) → (change row).id ≡ row.id)
    → ((row : WebhookEvent)
        → has_token row.lease_token a ≡ false
        → has_token (change row).lease_token a ≡ false)
    → NotHeld id a rows
    → NotHeld id a (update_where test change rows)
update-NotHeld id a test change rows same lacking h = record {
  lacks = λ {row = row'} m i.
      let (row, n, e) = update_where-Mem test change rows m in
      elim (Bool-cases (test row)) [
        | inl t ↦
            let k : row' ≡ change row = e ∙ rw t refl in
            let j : row.id ≡ id = sym (same row) ∙ ap (λ (x : WebhookEvent). x.id) (sym k) ∙ i in
            rw k (lacking row (h.lacks n j))
        | inr f ↦
            let k : row' ≡ row = e ∙ rw f refl in
            rw k (h.lacks n (ap (λ (x : WebhookEvent). x.id) (sym k) ∙ i))
      ];
}

claim-NotHeld :
    (id a b : EntityId) (now : Date) (c : Option WebhookEvent) (rows : List WebhookEvent)
    → b ≢ a
    → NotHeld id a rows
    → NotHeld id a (claim_candidate b now c rows).1
unfolding claim_candidate
claim-NotHeld id a b now none rows n h = h
claim-NotHeld id a b now (some c) rows n h =
    update-NotHeld id a _ (leased b now) rows (λ row. refl) (λ row l. other b a n) h

settled-id :
    (attempts : ℕ) (outcome : WebhookOutcome) (now : Date) (row : WebhookEvent)
    → ((settled attempts outcome now row).id ≡ row.id)
      × ((settled attempts outcome now row).lease_token ≡ none)
unfolding settled
settled-id attempts complete now row = (refl, refl)
settled-id attempts defer now row = (refl, refl)
settled-id attempts (retry code) now row = (refl, refl)

enqueue-NotHeld :
    (id a : EntityId) (n : WebhookNotice) (now : Date) (rows : List WebhookEvent)
    → NotHeld id a rows
    → NotHeld id a (enqueue n now rows)
unfolding enqueue
enqueue-NotHeld id a n now rows h = elim (Bool-cases (any (λ row. row.id == n.id) rows)) [
  | inl t ↦ rw t h
  | inr f ↦ rw f (record { lacks = λ m i. consed m i })
]
  where
    consed :
        {row : WebhookEvent}
        → Memᴰ row (new_event n now ∷ rows)
        → row.id ≡ id
        → has_token row.lease_token a ≡ false
    consed (Memᴰ.head e) i = rw e refl
    consed (Memᴰ.tail m) i = h.lacks m i

Statement-NotHeld :
    {id a : EntityId} {rows rows' : List WebhookEvent}
    → Statement a rows rows'
    → NotHeld id a rows
    → NotHeld id a rows'
unfolding claim_event renew_event_lease settle_event retry_event
Statement-NotHeld {id} {a} {rows} (claimed_by b now n e) h =
    subst (λ x. NotHeld id a x) e (claim-NotHeld id a b now _ rows n h)
Statement-NotHeld {id} {a} {rows} (enqueued_or n now e) h =
    subst (λ x. NotHeld id a x) e (enqueue-NotHeld id a n now rows h)
Statement-NotHeld {id} {a} {rows} (renewed_by i token now e) h =
    subst (λ x. NotHeld id a x) e (update-NotHeld id a _ _ rows (λ row. refl) (λ row l. l) h)
Statement-NotHeld {id} {a} {rows} (ended_by i token attempts outcome now e) h =
    subst (λ x. NotHeld id a x) e
      (update-NotHeld id a _ (settled attempts outcome now) rows
        (λ row. (settled-id attempts outcome now row).0)
        (λ row l. ap (λ x. has_token x a) (settled-id attempts outcome now row).1) h)
Statement-NotHeld {id} {a} {rows} (reopened_by i now e) h =
    subst (λ x. NotHeld id a x) e
      (update-NotHeld id a _ (renewed_event now) rows (λ row. refl) (λ row l. refl) h)

pub Meanwhile-NotHeld :
    {id a : EntityId} {rows rows' : List WebhookEvent}
    → Meanwhile a rows rows'
    → NotHeld id a rows
    → NotHeld id a rows'
Meanwhile-NotHeld here h = h
Meanwhile-NotHeld (next r s) h = Statement-NotHeld s (Meanwhile-NotHeld r h)

-- No row of the list is found by a test that holds of none.
any-none :
    (test : WebhookEvent → Bool) (rows : List WebhookEvent)
    → ((row : WebhookEvent) → Memᴰ row rows → test row ≡ false)
    → any test rows ≡ false
any-none test [] h = refl
any-none test (row ∷ rows) h =
    rw (h row (Memᴰ.head refl)) (any-none test rows (λ x m. h x (Memᴰ.tail m)))

not-held :
    (id a : EntityId) (now : Date) (row : WebhookEvent)
    → (row.id ≡ id → has_token row.lease_token a ≡ false)
    → is_held id a now row ≡ false
unfolding is_held
not-held id a now row h = elim (Bool-cases (row.id == id)) [
  | inr f ↦ rw f refl
  | inl t ↦ rw (t, h (==→eq row.id id t)) refl
]

unchanged :
    (test : WebhookEvent → Bool) (change : WebhookEvent → WebhookEvent) (rows : List WebhookEvent)
    → ((row : WebhookEvent) → Memᴰ row rows → test row ≡ false)
    → update_where test change rows ≡ rows
unchanged test change [] h = refl
unchanged test change (row ∷ rows) h =
    rw (h row (Memᴰ.head refl))
      (ap (λ x. row ∷ x) (unchanged test change rows (λ x m. h x (Memᴰ.tail m))))

settle-unheld :
    (id a : EntityId) (attempts : ℕ) (outcome : WebhookOutcome) (now : Date)
    (rows : List WebhookEvent)
    → NotHeld id a rows
    → settle_event id a attempts outcome now rows ≡ (false, rows)
unfolding settle_event
settle-unheld id a attempts outcome now rows h =
    let nobody =
      λ (row : WebhookEvent) (m : Memᴰ row rows). not-held id a now row (λ i. h.lacks m i) in
    rw
      (
        any-none (is_held id a now) rows nobody,
        unchanged (is_held id a now) (settled attempts outcome now) rows nobody,
      )
      refl

not-false : ◌≡◌ {A = Bool} false true → ⊥
not-false h = cc

-- After a claim every row of the event has the token of the claim.
claimed-NotHeld :
    (a b : EntityId) (now : Date) (c : Option WebhookEvent) (event : WebhookEvent)
    (rows : List WebhookEvent)
    → b ≢ a
    → (claim_candidate b now c rows).0 ≡ some event
    → NotHeld event.id a (claim_candidate b now c rows).1
unfolding claim_candidate
claimed-NotHeld a b now none event rows n h = absurd (none-some h)
claimed-NotHeld a b now (some c) event rows n h = record {
  lacks = λ {row = row'} m i.
      let (row, k, e) = update_where-Mem (λ r. r.id == c.id) (leased b now) rows m in
      let j : c.id ≡ event.id = ap (λ (x : WebhookEvent). x.id) (some-eq h) in
      elim (Bool-cases (row.id == c.id)) [
        | inl t ↦ let own : row' ≡ leased b now row = e ∙ rw t refl in rw own (other b a n)
        | inr f ↦
            let q : row' ≡ row = e ∙ rw f refl in
            let same : row.id ≡ c.id = sym (ap (λ (x : WebhookEvent). x.id) q) ∙ i ∙ sym j in
            absurd (not-false (sym f ∙ ap (λ x. x == c.id) same ∙ ==_refl c.id))
      ];
}

-- An event is settled by one worker. When another worker has claimed the event of a worker,
-- then, whatever is done on the table since, the first one settles it no more: its statement
-- changes no row of the table, whatever outcome it reports.
pub settle_event-excludes :
    (a b : EntityId) (attempts : ℕ) (outcome : WebhookOutcome) (now later : Date)
    (event : WebhookEvent) (rows last : List WebhookEvent)
    → b ≢ a
    → (claim_event b now rows).0 ≡ some event
    → Meanwhile a (claim_event b now rows).1 last
    → settle_event event.id a attempts outcome later last ≡ (false, last)
unfolding claim_event
settle_event-excludes a b attempts outcome now later event rows last n h since =
    let start = claimed-NotHeld a b now _ event rows n h in
    let end = Meanwhile-NotHeld since start in
    settle-unheld event.id a attempts outcome later last end
