-- ===== src/Webhook/Retry.antt =====
-- About an event of Webhook/Queue whose processing fails, and about the worker of Webhook/Worker.
use Prim.Native.Nat.{min}
use mathlib.Core.Path.{subst}
use bom_trato_api.Prelude.{
  ℕ, zero, suc, ◌+◌, ◌^◌, ◌≤◌, ◌≡◌, inl, inr, refl, sym, ap, ◌∙◌, Bool, true, false, List, Memᴰ,
  Bool-cases, EntityId, is_some, update_where-Mem, arith,
}
use bom_trato_api.Prelude.Result.{err}
use bom_trato_api.Prelude.Date.{Date}
use bom_trato_api.Billing.Types.{BillingError, billing_busy}
use bom_trato_api.Webhook.Queue.{
  WebhookEvent, WebhookOutcome, complete, defer, retry, is_open, is_held, settled, settle_event,
  retry_seconds,
}
use bom_trato_api.Webhook.Worker.{
  Thrown, billing, other, Handlers, Heartbeat, process_body, outcome_of, process_event,
}

below-twelve : (k : ℕ) → 1 ≤ k → k ≤ 12 → (2 ≤ min 3600 (2 ^ k)) × (min 3600 (2 ^ k) ≤ 3600)
below-twelve zero h l = absurd (omega arith)
below-twelve (suc zero) h l = omega arith
below-twelve (suc (suc zero)) h l = omega arith
below-twelve (suc (suc (suc zero))) h l = omega arith
below-twelve (suc (suc (suc (suc zero)))) h l = omega arith
below-twelve (suc (suc (suc (suc (suc zero))))) h l = omega arith
below-twelve (suc (suc (suc (suc (suc (suc zero)))))) h l = omega arith
below-twelve (suc (suc (suc (suc (suc (suc (suc zero))))))) h l = omega arith
below-twelve (suc (suc (suc (suc (suc (suc (suc (suc zero)))))))) h l = omega arith
below-twelve (suc (suc (suc (suc (suc (suc (suc (suc (suc zero))))))))) h l = omega arith
below-twelve (suc (suc (suc (suc (suc (suc (suc (suc (suc (suc zero)))))))))) h l = omega arith
below-twelve (suc (suc (suc (suc (suc (suc (suc (suc (suc (suc (suc zero))))))))))) h l =
    omega arith
below-twelve (suc (suc (suc (suc (suc (suc (suc (suc (suc (suc (suc (suc zero)))))))))))) h l =
    omega arith
below-twelve (suc (suc (suc (suc (suc (suc (suc (suc (suc (suc (suc (suc (suc k))))))))))))) h l =
    absurd (omega arith)

-- The wait before the next attempt, from 2 seconds to an hour.
pub retry_seconds_bounds : (n : ℕ) → (2 ≤ retry_seconds n) × (retry_seconds n ≤ 3600)
unfolding retry_seconds
retry_seconds_bounds n = below-twelve (min (n + 1) 12) (omega arith) (omega arith)

-- Whether an outcome is a completion.
abbrev pub is_complete : WebhookOutcome → Bool
is_complete complete = true
is_complete _ = false

billing-case :
    (b : BillingError) (h : Handlers) (beat : Heartbeat)
    → beat.in_catch ≡ false
    → is_complete (outcome_of h beat (err (billing b))) ≡ false
unfolding outcome_of
billing-case billing_busy h beat c = rw c refl
billing-case b h beat c = rw c refl

failed-outcome :
    (handlers : Handlers) (beat : Heartbeat) (e : Thrown)
    → beat.in_catch ≡ false
    → is_complete (outcome_of handlers beat (err e)) ≡ false
unfolding outcome_of
failed-outcome handlers beat (billing e) h = billing-case e handlers beat h
failed-outcome handlers beat other h = rw h refl

settled-unprocessed :
    (attempts : ℕ) (outcome : WebhookOutcome) (now : Date) (row : WebhookEvent)
    → is_complete outcome ≡ false
    → is_open row ≡ true
    → is_some (settled attempts outcome now row).processed_at ≡ false
unfolding settled
settled-unprocessed attempts complete now row c o = cc
settled-unprocessed attempts defer now row c o = ground arith
settled-unprocessed attempts (retry code) now row c o = ground arith

held-open :
    (id token : EntityId) (now : Date) (row : WebhookEvent)
    → is_held id token now row ≡ true
    → is_open row ≡ true
unfolding is_held
held-open id token now row h = ground arith

not-false : ◌≡◌ {A = Bool} false true → ⊥
not-false h = cc

settle-old :
    (id token : EntityId) (attempts : ℕ) (outcome : WebhookOutcome) (now : Date)
    (rows : List WebhookEvent) (row' : WebhookEvent)
    → is_complete outcome ≡ false
    → Memᴰ row' (settle_event id token attempts outcome now rows).1
    → is_some row'.processed_at ≡ true
    → Memᴰ row' rows
unfolding settle_event
settle-old id token attempts outcome now rows row' c m done =
    let (row, n, e) =
      update_where-Mem (is_held id token now) (settled attempts outcome now) rows m in
    elim (Bool-cases (is_held id token now row)) [
      | inl t ↦
          let k : row' ≡ settled attempts outcome now row = e ∙ rw t refl in
          let u = settled-unprocessed attempts outcome now row c (held-open id token now row t) in
          absurd
            (not-false (sym u ∙ ap (λ (x : WebhookEvent). is_some x.processed_at) (sym k) ∙ done))
      | inr f ↦ let k : row' ≡ row = e ∙ rw f refl in rw k n
    ]

module _ (handlers : Handlers) (beat : Heartbeat) (event : WebhookEvent) (token : EntityId)
    (now : Date) (rows : List WebhookEvent) where
  unsettled : beat.at_end ≡ true → (process_event handlers beat event token now rows).1 ≡ rows
  unfolding process_event
  unsettled lost = rw lost refl

  settles :
      beat.at_end ≡ false
      → (process_event handlers beat event token now rows).1
        ≡ (settle_event event.id token event.attempts
            (outcome_of handlers beat (process_body handlers beat event))
            now
            rows).1
  unfolding process_event
  settles owned = rw owned refl

not_in_catch :
    (beat : Heartbeat)
    → (beat.in_catch ≡ true → beat.at_end ≡ true)
    → beat.at_end ≡ false
    → beat.in_catch ≡ false
not_in_catch beat seen owned = elim (Bool-cases beat.in_catch) [
  | inl t ↦ absurd (not-false (sym owned ∙ seen t))
  | inr f ↦ f
]

-- An event whose processing has thrown is never marked as processed by it: if the loss of the
-- lease, once seen, stays seen, then every row of the table that is marked as processed
-- afterwards was so before.
pub process_event-failed :
    (handlers : Handlers) (beat : Heartbeat) (event row' : WebhookEvent) (token : EntityId)
    (now : Date) (rows : List WebhookEvent) {e : Thrown}
    → (beat.in_catch ≡ true → beat.at_end ≡ true)
    → process_body handlers beat event ≡ err e
    → Memᴰ row' (process_event handlers beat event token now rows).1
    → is_some row'.processed_at ≡ true
    → Memᴰ row' rows
process_event-failed handlers beat event row' token now rows {e} seen threw m done =
    elim (Bool-cases beat.at_end) [
      | inl lost ↦
          subst (λ (x : List WebhookEvent). Memᴰ row' x)
            (unsettled handlers beat event token now rows lost) m
      | inr owned ↦
          settle-old event.id token event.attempts
            (outcome_of handlers beat (process_body handlers beat event)) now rows row'
            (ap (λ x. is_complete (outcome_of handlers beat x)) threw
              ∙ failed-outcome handlers beat e (not_in_catch beat seen owned))
            (subst (λ (x : List WebhookEvent). Memᴰ row' x)
              (settles handlers beat event token now rows owned) m)
            done
    ]
