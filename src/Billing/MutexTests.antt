-- ===== src/Billing/MutexTests.antt =====
-- The lock of the billing on concrete rows: a run by itself, one that is overtaken, and one that
-- fails.
use mathlib.Core.Path.{subst}
use bom_trato_api.Prelude.{
  ℕ, ◌+◌, ◌≡◌, ◌≢◌, refl, sym, ap, inr, true, false, none, some, [], ◌∷◌, arith,
}
use bom_trato_api.Prelude.Result.{ok, err}
use bom_trato_api.Prelude.Date.{at}
use bom_trato_api.Billing.Types.{billing_reconciliation_required}
use bom_trato_api.Billing.Mutex.{
  BillingMutex, Row, reclaim, Round, try_acquire, Beat, returned, threw_other, billing, failure,
  finish, mark_recovery_required, mark_recovery, run,
}
use bom_trato_api.Billing.Exclusion
use bom_trato_api.Billing.Exclusion.{Meanwhile, run-excludes, taken-reconciles, failure-shuts}
use bom_trato_api.Billing.Acquire.{IsQuiet, IsLeft, run-undisturbed}

-- The row of the run with token 5, until the time 31000.
abbrev first : BillingMutex
first = record {
  key = 1;
  token = 5;
  acquired_at = at 1000;
  lease_until = at 31000;
  recovery_required = false;
}

-- The run with token 6 has taken it over at the time 40000.
abbrev second : BillingMutex
second = record first { token = 6; acquired_at = at 40000; lease_until = at 70000 }

overtaken : reclaim 6 (at 40000) 5 (some first) ≡ (true, some second)
unfolding reclaim
overtaken = refl

run-excludes_example : finish {A = ℕ} 5 false (returned 3) (some second) ≢ (ok 3, none)
run-excludes_example =
    run-excludes {A = ℕ} 5 6 5 1 (at 40000) false (returned 3) 3 (some first) (some first)
      (some second) (some second) none (omega arith) Exclusion.here (inr overtaken) Exclusion.here

taken-reconciles_example :
    finish {A = ℕ} 5 false (returned 3) (some second)
    ≡ (err (billing billing_reconciliation_required), some second)
taken-reconciles_example =
    taken-reconciles {A = ℕ} 5 6 5 1 (at 40000) false (returned 3) (some first) (some second)
      (some second) (omega arith) (inr overtaken) Exclusion.here

abbrev quiet : ℕ → Round
quiet delay = record {
  now = at (50000 + delay);
  while_asleep = λ x. x;
  before_read = λ x. x;
  before_reclaim = λ x. x;
}

quiet-IsQuiet : IsQuiet quiet
quiet-IsQuiet = record {
  asleep = λ delay x. refl;
  unread = λ delay x. refl;
  unclaimed = λ delay x. refl;
}

abbrev shut : Row
shut = some (record first { recovery_required = true })

failed : finish {A = ℕ} 5 false threw_other (some first) ≡ (err failure, shut)
unfolding finish mark_recovery_required mark_recovery
failed = refl

failure-shuts_example :
    ((finish {A = ℕ} 5 false threw_other (some first)).0 ≡ err failure)
    × (shut ≡ some (record first { recovery_required = true }))
    × (try_acquire 1 6 (quiet 0) shut ≡ (err billing_reconciliation_required, shut))
failure-shuts_example =
    failure-shuts {A = ℕ} 5 6 1 (quiet 0) first shut refl
      (subst (λ x. Meanwhile 5 x shut) (sym (ap (λ x. x.1) failed)) Exclusion.here) (λ x. refl)

abbrev beat : Beat
beat = record { clock = at 60000; others = λ x. x }

run-undisturbed_example :
    ((run {A = ℕ} 1 5 quiet (beat ∷ []) (returned 3) (λ x. x) none).0 ≡ ok 3)
    × IsLeft {A = ℕ} (returned 3) (run {A = ℕ} 1 5 quiet (beat ∷ []) (returned 3) (λ x. x) none).1
run-undisturbed_example =
    run-undisturbed {A = ℕ} 1 5 quiet (beat ∷ []) (returned 3) quiet-IsQuiet ((λ x. refl), tt)
