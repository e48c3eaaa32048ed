-- ===== src/Billing/Acquire.antt =====
-- About `acquire` and `run` of Billing/Mutex when nobody else uses the lock meanwhile.
use mathlib.Core.Path.{subst}
use bom_trato_api.Prelude.{
  ℕ, ◌≡◌, refl, sym, ap, ◌∙◌, Bool, true, false, not, none, some, List, [], ◌∷◌, ◌==◌, ==_refl,
  EntityId,
}
use bom_trato_api.Prelude.Result.{Result, ok, err}
use bom_trato_api.Prelude.Date.{Date, date_lt, date_le, add_ms}
use bom_trato_api.Billing.Types.{billing_busy, billing_reconciliation_required}
use bom_trato_api.Billing.Mutex.{
  BillingMutex, Row, lease_duration_ms, create_mutex, reclaim, renew_lease, mark_recovery,
  delete_mutex, Round, take_over, try_acquire, after_attempt, acquire, Beat, heartbeat, Outcome,
  returned, threw_billing, threw_other, RunFailure, billing, failure, release,
  mark_recovery_required, finish, run_acquired, run,
}

-- Nobody else touches the row in any attempt.
pub record IsQuiet (rounds : ℕ → Round) : Type 0 where
  pub asleep : (delay : ℕ) (x : Row) → (rounds delay).while_asleep x ≡ x
  pub unread : (delay : ℕ) (x : Row) → (rounds delay).before_read x ≡ x
  pub unclaimed : (delay : ℕ) (x : Row) → (rounds delay).before_reclaim x ≡ x

abbrev pub fresh_mutex : EntityId → EntityId → Date → BillingMutex
fresh_mutex key token now = record {
  key = key;
  token = token;
  acquired_at = now;
  lease_until = add_ms now lease_duration_ms;
  recovery_required = false;
}

module _ (key token : EntityId) (rounds : ℕ → Round) (q : IsQuiet rounds) where
  acquire-free :
      (delay : ℕ) (delays : List ℕ)
      → acquire key token rounds (delay ∷ delays) none
        ≡ (ok tt, some (fresh_mutex key token (rounds delay).now))
  unfolding acquire after_attempt try_acquire create_mutex
  acquire-free delay delays = rw (q.asleep delay none) refl

  acquire-marked :
      (m : BillingMutex) (delay : ℕ) (delays : List ℕ)
      → m.recovery_required ≡ true
      → acquire key token rounds (delay ∷ delays) (some m)
        ≡ (err billing_reconciliation_required, some m)
  unfolding acquire after_attempt try_acquire create_mutex take_over
  acquire-marked m delay delays h =
      rw (q.asleep delay (some m)) (rw (q.unread delay (some m)) (rw h refl))

  attempt-busy :
      (m : BillingMutex) (delay : ℕ)
      → m.recovery_required ≡ false
      → date_lt (rounds delay).now m.lease_until ≡ true
      → try_acquire key token (rounds delay) (some m) ≡ (ok false, some m)
  unfolding try_acquire create_mutex take_over
  attempt-busy m delay h leased = rw (q.unread delay (some m)) (simp (h, leased))

  acquire-busy :
      (m : BillingMutex) (delays : List ℕ)
      → m.recovery_required ≡ false
      → ((delay : ℕ) → date_lt (rounds delay).now m.lease_until ≡ true)
      → acquire key token rounds delays (some m) ≡ (err billing_busy, some m)
  unfolding acquire after_attempt
  acquire-busy m [] h leased = refl
  acquire-busy m (delay ∷ delays) h leased =
      rw (q.asleep delay (some m))
        (rw (attempt-busy m delay h (leased delay)) (acquire-busy m delays h leased))

  acquire-expired :
      (m : BillingMutex) (delay : ℕ) (delays : List ℕ)
      → m.recovery_required ≡ false
      → date_lt (rounds delay).now m.lease_until ≡ false
      → date_le m.lease_until (rounds delay).now ≡ true
      → acquire key token rounds (delay ∷ delays) (some m) ≡ (
        ok tt,
        some (record m {
          token = token;
          acquired_at = (rounds delay).now;
          lease_until = add_ms (rounds delay).now lease_duration_ms;
        }),
      )
  unfolding acquire after_attempt try_acquire create_mutex take_over reclaim
  acquire-expired m delay delays h over due = rw (q.asleep delay (some m)) (
      rw (q.unread delay (some m))
        (simp (h, over, q.unclaimed delay (some m), ==_refl m.token, due)))

-- The row is there with the token and without the mark.
abbrev IsHeld : EntityId → Row → Type 0
IsHeld token none = ⊥
IsHeld token (some m) = (m.token ≡ token) × (m.recovery_required ≡ false)

abbrev pub QuietBeats : List Beat → Type 0
QuietBeats [] = Unit {0}
QuietBeats (beat ∷ beats) = ((x : Row) → beat.others x ≡ x) × QuietBeats beats

renew-IsHeld :
    (token : EntityId) (clock : Date) (row : Row)
    → IsHeld token row
    → ((renew_lease token clock row).0 ≡ true) × IsHeld token (renew_lease token clock row).1
unfolding renew_lease
renew-IsHeld token clock none h = absurd h
renew-IsHeld token clock (some m) h =
    let own : (m.token == token) ≡ true = rw h.0 (==_refl token) in
    rw own (simp (h.1) (refl, (h.0, refl)))

heartbeat-cons :
    (token : EntityId) (beat : Beat) (beats : List Beat) (row : Row)
    → heartbeat token (beat ∷ beats) false row
      ≡ heartbeat token beats
          (not (renew_lease token beat.clock (beat.others row)).0)
          (renew_lease token beat.clock (beat.others row)).1
unfolding heartbeat
heartbeat-cons token beat beats row = refl

heartbeat-IsHeld :
    (token : EntityId) (beats : List Beat) (row : Row)
    → QuietBeats beats
    → IsHeld token row
    → ((heartbeat token beats false row).0 ≡ false)
      × IsHeld token (heartbeat token beats false row).1
unfolding heartbeat
heartbeat-IsHeld token [] row q h = (refl, h)
heartbeat-IsHeld token (beat ∷ beats) row q h =
    let (owned, held) = renew-IsHeld token beat.clock row h in
    let e : heartbeat token (beat ∷ beats) false row
        ≡ heartbeat token beats false (renew_lease token beat.clock row).1 =
      heartbeat-cons token beat beats row
      ∙ ap
          (λ x.
            heartbeat token beats (not (renew_lease token beat.clock x).0)
              (renew_lease token beat.clock x).1)
          (q.0 row)
      ∙ ap (λ x. heartbeat token beats (not x) (renew_lease token beat.clock row).1) owned in
    subst (λ (x : Bool × Row). (x.0 ≡ false) × IsHeld token x.1) (sym e)
      (heartbeat-IsHeld token beats (renew_lease token beat.clock row).1 q.1 held)

-- What a run makes of each outcome.
abbrev pub result_of : {A : Type 0} → Outcome A → Result RunFailure A
result_of (returned x) = ok x
result_of (threw_billing e) = err (billing e)
result_of threw_other = err failure

abbrev pub is_free : Row → Bool
is_free none = true
is_free (some _) = false

-- The lock is marked for recovery after a failure, and otherwise free.
abbrev pub IsLeft : {A : Type 0} → Outcome A → Row → Type 0
IsLeft (returned x) row = is_free row ≡ true
IsLeft (threw_billing e) row = is_free row ≡ true
IsLeft threw_other none = ⊥
IsLeft threw_other (some m) = m.recovery_required ≡ true

finish-IsHeld :
    {A : Type 0} (token : EntityId) (outcome : Outcome A) (row : Row)
    → IsHeld token row
    → ((finish token false outcome row).0 ≡ result_of outcome)
      × IsLeft outcome (finish token false outcome row).1
unfolding finish release mark_recovery_required delete_mutex mark_recovery
finish-IsHeld token outcome none h = absurd h
finish-IsHeld token (returned x) (some m) h = rw h.0 (rw (==_refl token) (refl, refl))
finish-IsHeld token (threw_billing e) (some m) h = rw h.0 (rw (==_refl token) (refl, refl))
finish-IsHeld token threw_other (some m) h = rw h.0 (rw (==_refl token) (refl, refl))

-- A run that finds the lock free, and that nobody disturbs, ends as its operation does, for any
-- number of renewals: with its value, with the error of the billing that it threw, or with its
-- failure. The lock is free again afterwards, but after a failure it is marked for recovery.
pub run-undisturbed :
    {A : Type 0} (key token : EntityId) (rounds : ℕ → Round) (beats : List Beat)
    (outcome : Outcome A)
    → IsQuiet rounds
    → QuietBeats beats
    → ((run key token rounds beats outcome (λ x. x) none).0 ≡ result_of outcome)
      × IsLeft outcome (run key token rounds beats outcome (λ x. x) none).1
unfolding run run_acquired
run-undisturbed key token rounds beats outcome q quiet =
    rw (acquire-free key token rounds q 0 (200 ∷ 400 ∷ 700 ∷ 1200 ∷ [])) (
      let h =
        heartbeat-IsHeld token beats (some (fresh_mutex key token (rounds 0).now)) quiet
          (refl, refl) in
      rw h.0 (finish-IsHeld token outcome _ h.1))
