-- ===== src/Webhook/Closed.antt =====
-- About the events of Webhook/Queue that are processed.
use mathlib.Core.Path.{subst}
use bom_trato_api.Prelude.{
  ◌≡◌, ◌≢◌, inl, inr, refl, sym, ap, ◌∙◌, Bool, true, false, Option, none, some, List, Memᴰ,
  Bool-cases, ◌==◌, ==→eq, EntityId, is_some, any, keep, keep-Mem, update_where, arith, some-eq,
  none-some, false-true,
}
use bom_trato_api.Prelude.Date.{Date, add_ms}
use bom_trato_api.Prelude.Keyed.{IsKeyed, update-IsKeyed, cons-IsKeyed, update-keeps}
use bom_trato_api.Webhook.Queue.{
  WebhookEvent, WebhookNotice, WebhookOutcome, complete, defer, retry, new_event, enqueue, is_due,
  first_due, leased, claim_candidate, claim_event, is_held, renew_event_lease, settled,
  settle_event, lease_ms, is_retriable, renewed_event, retry_event,
}
use bom_trato_api.Webhook.Life.{
  Step, enqueued, claimed, renewed, settled_by, reopened, Reach, here, next, first_due-Mem,
}

settled-id :
    (attempts : EntityId) (outcome : WebhookOutcome) (now : Date) (row : WebhookEvent)
    → (settled attempts outcome now row).id ≡ row.id
unfolding settled
settled-id attempts complete now row = refl
settled-id attempts defer now row = refl
settled-id attempts (retry code) now row = refl

-- The primary key of the table.
abbrev pub event_id : WebhookEvent → EntityId
event_id row = row.id

-- The event is in the table and processed, and the table is keyed.
pub record IsProcessed (row : WebhookEvent) (rows : List WebhookEvent) : Type 0 where
  pub keyed : IsKeyed event_id rows
  pub there : Memᴰ row rows
  pub processed : is_some row.processed_at ≡ true

update-IsProcessed :
    (test : WebhookEvent → Bool) (change : WebhookEvent → WebhookEvent) (rows : List WebhookEvent)
    (row : WebhookEvent)
    → ((x : WebhookEvent) → (change x).id ≡ x.id)
    → (test row ≡ true → is_some row.processed_at ≡ false)
    → IsProcessed row rows
    → IsProcessed row (update_where test change rows)
update-IsProcessed test change rows row same opened c = record {
  keyed = update-IsKeyed event_id test change rows same c.keyed;
  there = elim (Bool-cases (test row)) [
    | inl t ↦ absurd (false-true (sym (opened t) ∙ c.processed))
    | inr f ↦ update-keeps test change rows row c.there f
  ];
  processed = c.processed;
}

due-unprocessed :
    (now : Date) (row : WebhookEvent) → is_due now row ≡ true → is_some row.processed_at ≡ false
unfolding is_due
due-unprocessed now row h = ground arith

held-unprocessed :
    (id token : EntityId) (now : Date) (row : WebhookEvent)
    → is_held id token now row ≡ true
    → is_some row.processed_at ≡ false
unfolding is_held
held-unprocessed id token now row h = ground arith

retriable-unprocessed :
    (id : EntityId) (now : Date) (row : WebhookEvent)
    → is_retriable id now row ≡ true
    → is_some row.processed_at ≡ false
unfolding is_retriable
retriable-unprocessed id now row h = ground arith

claim-IsProcessed :
    (token : EntityId) (now : Date) (rows : List WebhookEvent) (row : WebhookEvent)
    (c : Option WebhookEvent)
    → first_due (keep (is_due now) rows) ≡ c
    → IsProcessed row rows
    → IsProcessed row (claim_candidate token now c rows).1
unfolding claim_candidate
claim-IsProcessed token now rows row none e k = k
claim-IsProcessed token now rows row (some c) e k =
    let due = keep-Mem (is_due now) rows c (first_due-Mem (keep (is_due now) rows) c e) in
    update-IsProcessed (λ r. r.id == c.id) (leased token now) rows row (λ x. refl)
      (λ t.
        let same : row ≡ c = k.keyed.one_each k.there due.0 (==→eq row.id c.id t) in
        rw same (due-unprocessed now c due.1))
      k

enqueue-IsProcessed :
    (n : WebhookNotice) (now : Date) (rows : List WebhookEvent) (row : WebhookEvent)
    → IsProcessed row rows
    → IsProcessed row (enqueue n now rows)
unfolding enqueue
enqueue-IsProcessed n now rows row k = elim (Bool-cases (any (λ r. r.id == n.id) rows)) [
  | inl t ↦ rw t k
  | inr f ↦ rw f (record {
    keyed = cons-IsKeyed event_id (new_event n now) rows f k.keyed;
    there = Memᴰ.tail k.there;
    processed = k.processed;
  })
]

Step-IsProcessed :
    {rows rows' : List WebhookEvent} (row : WebhookEvent)
    → Step rows rows'
    → IsProcessed row rows
    → IsProcessed row rows'
unfolding claim_event renew_event_lease settle_event retry_event
Step-IsProcessed {rows} row (enqueued n now e) k =
    subst (λ x. IsProcessed row x) e (enqueue-IsProcessed n now rows row k)
Step-IsProcessed {rows} row (claimed token now e) k =
    subst (λ x. IsProcessed row x) e (claim-IsProcessed token now rows row _ refl k)
Step-IsProcessed {rows} row (renewed id token now e) k =
    subst (λ x. IsProcessed row x) e
      (update-IsProcessed (is_held id token now)
        (λ r. record r { lease_expires_at = some (add_ms now lease_ms) }) rows row (λ x. refl)
        (held-unprocessed id token now row) k)
Step-IsProcessed {rows} row (settled_by id token attempts outcome now e) k =
    subst (λ x. IsProcessed row x) e
      (update-IsProcessed (is_held id token now) (settled attempts outcome now) rows row
        (settled-id attempts outcome now) (held-unprocessed id token now row) k)
Step-IsProcessed {rows} row (reopened id now e) k =
    subst (λ x. IsProcessed row x) e
      (update-IsProcessed (is_retriable id now) (renewed_event now) rows row (λ x. refl)
        (retriable-unprocessed id now row) k)

Reach-IsProcessed :
    {rows rows' : List WebhookEvent} (row : WebhookEvent)
    → Reach rows rows'
    → IsProcessed row rows
    → IsProcessed row rows'
Reach-IsProcessed row here k = k
Reach-IsProcessed row (next r s) k = Step-IsProcessed row s (Reach-IsProcessed row r k)

claimed-unprocessed :
    (token : EntityId) (now : Date) (rows : List WebhookEvent) (c : Option WebhookEvent)
    (event : WebhookEvent)
    → first_due (keep (is_due now) rows) ≡ c
    → (claim_candidate token now c rows).0 ≡ some event
    → (row : WebhookEvent) × Memᴰ row rows
      × (is_some row.processed_at ≡ false)
      × (row.id ≡ event.id)
unfolding claim_candidate
claimed-unprocessed token now rows none event e h = absurd (none-some h)
claimed-unprocessed token now rows (some c) event e h =
    let due = keep-Mem (is_due now) rows c (first_due-Mem (keep (is_due now) rows) c e) in
    (c, due.0, due-unprocessed now c due.1, ap (λ (x : WebhookEvent). x.id) (some-eq h))

-- An event that is processed stays so: in a table with one row for each event, whatever the
-- statements of workers, of the endpoint of the provider and of the command that opens events again
-- do later, in any order, its row stays as it is, and no worker claims the event again.
pub Reach-processed_event :
    {rows rows' : List WebhookEvent} (row event : WebhookEvent) (token : EntityId) (now : Date)
    → IsProcessed row rows
    → Reach rows rows'
    → event.id ≡ row.id
    → Memᴰ row rows' × ((claim_event token now rows').0 ≢ some event)
unfolding claim_event
Reach-processed_event {rows} {rows'} row event token now k r i =
    let k' = Reach-IsProcessed row r k in
    (
      k'.there,
      λ h.
          let (x, m, o, j) = claimed-unprocessed token now rows' _ event refl h in
          let same : row ≡ x = k'.keyed.one_each k'.there m (sym i ∙ sym j) in
          false-true
            (sym o ∙ ap (λ (x : WebhookEvent). is_some x.processed_at) (sym same) ∙ k'.processed),
    )
