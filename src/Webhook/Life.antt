-- ===== src/Webhook/Life.antt =====
-- About the statements of Webhook/Queue in any order.
use mathlib.Core.Path.{subst}
use bom_trato_api.Prelude.{
  ℕ, ◌≤◌, ◌<◌, ◌≡◌, ◌⊎◌, inl, inr, refl, sym, ap, ◌∙◌, true, false, Option, none, some, List, [],
  ◌∷◌, Memᴰ, Bool-cases, ◌==◌, EntityId, is_some, any, update_where-Mem, arith, some-eq, none-some,
}
use bom_trato_api.Prelude.Date.{Date, add_ms}
use bom_trato_api.Webhook.Queue.{
  WebhookEvent, WebhookNotice, WebhookOutcome, complete, defer, retry, new_event, enqueue, is_open,
  sooner, first_due, leased, claim_candidate, claim_event, is_held, renew_event_lease, settled,
  settle_event, lease_ms, is_retriable, renewed_event, retry_event,
}

-- One statement of a worker, of the endpoint of the provider or of an operator.
pub data Step (rows rows' : List WebhookEvent) : Type 0 where
  enqueued : (n : WebhookNotice) (now : Date) → enqueue n now rows ≡ rows' → Step rows rows'
  claimed :
      (token : EntityId) (now : Date) → (claim_event token now rows).1 ≡ rows' → Step rows rows'
  renewed :
      (id token : EntityId) (now : Date)
      → (renew_event_lease id token now rows).1 ≡ rows'
      → Step rows rows'
  settled_by :
      (id token : EntityId) (attempts : ℕ) (outcome : WebhookOutcome) (now : Date)
      → (settle_event id token attempts outcome now rows).1 ≡ rows'
      → Step rows rows'
  reopened : (id : EntityId) (now : Date) → (retry_event id now rows).1 ≡ rows' → Step rows rows'

pub data Reach (rows : List WebhookEvent) : List WebhookEvent → Type 0 where
  here : Reach rows rows
  next : {mid rows' : List WebhookEvent} → Reach rows mid → Step mid rows' → Reach rows rows'

sooner-cases :
    (row : WebhookEvent) (o : Option WebhookEvent)
    → (sooner row o ≡ row) ⊎ (o ≡ some (sooner row o))
sooner-cases row none = inl refl
sooner-cases row (some other) = ground arith

pub first_due-Mem :
    (rows : List WebhookEvent) (c : WebhookEvent) → first_due rows ≡ some c → Memᴰ c rows
unfolding first_due
first_due-Mem [] c h = absurd (none-some h)
first_due-Mem (row ∷ rows) c h =
    let e : sooner row (first_due rows) ≡ c = some-eq h in
    elim (sooner-cases row (first_due rows)) [
      | inl i ↦ Memᴰ.head (sym e ∙ i)
      | inr i ↦ Memᴰ.tail (first_due-Mem rows c (i ∙ ap (λ x. some x) e))
    ]

-- What a statement may have made of a row.
pub data Change (row row' : WebhookEvent) : Type 0 where
  kept : row' ≡ row → Change row row'
  was_leased : (token : EntityId) (now : Date) → row' ≡ leased token now row → Change row row'
  lease_renewed : (t : Option Date) → row' ≡ record row { lease_expires_at = t } → Change row row'
  was_settled :
      (attempts : ℕ) (outcome : WebhookOutcome) (now : Date)
      → is_open row ≡ true
      → row' ≡ settled attempts outcome now row
      → Change row row'
  was_reopened : (now : Date) → row' ≡ renewed_event now row → Change row row'

-- Where a row of the new table comes from.
pub data Origin (rows : List WebhookEvent) (row' : WebhookEvent) : Type 0 where
  from : (row : WebhookEvent) → Memᴰ row rows → Change row row' → Origin rows row'
  new : (n : WebhookNotice) (now : Date) → row' ≡ new_event n now → Origin rows row'

held-open :
    (id token : EntityId) (now : Date) (row : WebhookEvent)
    → is_held id token now row ≡ true
    → is_open row ≡ true
unfolding is_held
held-open id token now row h = ground arith

claim_candidate-Origin :
    (token : EntityId) (now : Date) (c : Option WebhookEvent) (rows : List WebhookEvent)
    (row' : WebhookEvent)
    → Memᴰ row' (claim_candidate token now c rows).1
    → Origin rows row'
unfolding claim_candidate
claim_candidate-Origin token now none rows row' m = from row' m (kept refl)
claim_candidate-Origin token now (some c) rows row' m =
    let (row, n, e) = update_where-Mem (λ r. r.id == c.id) (leased token now) rows m in
    elim (Bool-cases (row.id == c.id)) [
      | inl t ↦ from row n (was_leased token now (e ∙ rw t refl))
      | inr f ↦ from row n (kept (e ∙ rw f refl))
    ]

pub Step-Origin :
    {rows rows' : List WebhookEvent} (row' : WebhookEvent)
    → Step rows rows'
    → Memᴰ row' rows'
    → Origin rows row'
unfolding enqueue claim_event renew_event_lease settle_event retry_event
Step-Origin {rows} row' (enqueued n now e) m =
    elim (Bool-cases (any (λ row. row.id == n.id) rows)) [
      | inl t ↦
          from row' (subst (λ (x : List WebhookEvent). Memᴰ row' x) (sym e ∙ rw t refl) m)
            (kept refl)
      | inr f ↦ consed (subst (λ (x : List WebhookEvent). Memᴰ row' x) (sym e ∙ rw f refl) m)
    ]
  where
    consed : Memᴰ row' (new_event n now ∷ rows) → Origin rows row'
    consed (Memᴰ.head i) = new n now i
    consed (Memᴰ.tail k) = from row' k (kept refl)
Step-Origin {rows} row' (claimed token now e) m =
    claim_candidate-Origin token now _ rows row'
      (subst (λ (x : List WebhookEvent). Memᴰ row' x) (sym e) m)
Step-Origin {rows} row' (renewed id token now e) m =
    let (row, n, i) =
      update_where-Mem (is_held id token now) _ rows
        (subst (λ (x : List WebhookEvent). Memᴰ row' x) (sym e) m) in
    elim (Bool-cases (is_held id token now row)) [
      | inl t ↦ from row n (lease_renewed (some (add_ms now lease_ms)) (i ∙ rw t refl))
      | inr f ↦ from row n (kept (i ∙ rw f refl))
    ]
Step-Origin {rows} row' (settled_by id token attempts outcome now e) m =
    let (row, n, i) =
      update_where-Mem (is_held id token now) (settled attempts outcome now) rows
        (subst (λ (x : List WebhookEvent). Memᴰ row' x) (sym e) m) in
    elim (Bool-cases (is_held id token now row)) [
      | inl t ↦
          from row n
            (was_settled attempts outcome now (held-open id token now row t) (i ∙ rw t refl))
      | inr f ↦ from row n (kept (i ∙ rw f refl))
    ]
Step-Origin {rows} row' (reopened id now e) m =
    let (row, n, i) =
      update_where-Mem (is_retriable id now) (renewed_event now) rows
        (subst (λ (x : List WebhookEvent). Memᴰ row' x) (sym e) m) in
    elim (Bool-cases (is_retriable id now row)) [
      | inl t ↦ from row n (was_reopened now (i ∙ rw t refl))
      | inr f ↦ from row n (kept (i ∙ rw f refl))
    ]

-- An event is processed, or given up after 25 failures, or still open with fewer.
pub record IsValid (row : WebhookEvent) : Type 0 where
  pub tried : row.attempts ≤ 25
  pub given_up : is_some row.failed_at ≡ true → row.attempts ≡ 25
  pub hopeful : is_some row.failed_at ≡ false → row.attempts < 25
  pub one_end : is_some row.processed_at ≡ true → is_some row.failed_at ≡ false

Change-IsValid : {row row' : WebhookEvent} → Change row row' → IsValid row → IsValid row'
unfolding settled
Change-IsValid {row} (kept e) v = rw e v
Change-IsValid (was_reopened now e) v = rw e (ground arith)
Change-IsValid (was_leased token now e) v = rw e (ground arith)
Change-IsValid (lease_renewed t e) v = rw e (ground arith)
Change-IsValid (was_settled attempts complete now o e) v = rw e (ground arith)
Change-IsValid (was_settled attempts defer now o e) v = rw e (ground arith)
Change-IsValid (was_settled attempts (retry code) now o e) v = rw e (ground arith)

Origin-IsValid :
    {rows : List WebhookEvent} (row' : WebhookEvent)
    → ((row : WebhookEvent) → Memᴰ row rows → IsValid row)
    → Origin rows row'
    → IsValid row'
Origin-IsValid row' all (from row m c) = Change-IsValid c (all row m)
Origin-IsValid row' all (new n now e) = rw e (ground arith)

-- Whatever the statements of workers, of the endpoint of the provider and of the command that opens
-- events again do, in any order, from an empty table: the attempts of every event are at most 25, it
-- is given up exactly when they are 25, and it is never both processed and given up.
pub reachable_event-IsValid :
    {rows : List WebhookEvent} (row : WebhookEvent) → Reach [] rows → Memᴰ row rows → IsValid row
reachable_event-IsValid row here m = elim m [ ]
reachable_event-IsValid row (next {mid} r s) m =
    Origin-IsValid row (λ x k. reachable_event-IsValid x r k) (Step-Origin row s m)
