-- ===== src/Billing/Mutex.antt =====
-- `PostgresBillingLock` (billing/infrastructure/database/postgresBillingLock.ts): the lock of an
-- organization's billing is a row with the token of its holder and the end of its lease. Each
-- statement is atomic; others may come between two statements, which is what a function on the
-- row stands for. The row of the key is `none` if there is none. A statement that the database
-- refuses is not modelled, and the log is left out.
use bom_trato_api.Prelude.{
  ℕ, Bool, true, false, not, ◌&&◌, Option, none, some, List, [], ◌∷◌, ◌==◌, if◌then◌else◌, EntityId,
}
use bom_trato_api.Prelude.Result.{Result, ok, err}
use bom_trato_api.Prelude.Date.{Date, date_lt, date_le, add_ms}
use bom_trato_api.Billing.Types.{BillingError, billing_busy, billing_reconciliation_required}

pub record BillingMutex : Type 0 where
  pub key : EntityId
  pub token : EntityId
  pub acquired_at : Date
  pub lease_until : Date
  pub recovery_required : Bool

abbrev pub Row : Type 0
Row = Option BillingMutex

abbrev pub lease_duration_ms : ℕ
lease_duration_ms = 30000

abbrev pub acquire_retry_delays_ms : List ℕ
acquire_retry_delays_ms = 0 ∷ 200 ∷ 400 ∷ 700 ∷ 1200 ∷ []

-- `createMany` with `skipDuplicates`, and whether it has made the row.
unfoldable pub create_mutex : EntityId → EntityId → Date → Row → Bool × Row
create_mutex key token now none = (
  true,
  some (record {
    key = key;
    token = token;
    acquired_at = now;
    lease_until = add_ms now lease_duration_ms;
    recovery_required = false;
  }),
)
create_mutex key token now (some m) = (false, some m)

-- The update of an expired row, and whether it has changed one.
unfoldable pub reclaim : EntityId → Date → EntityId → Row → Bool × Row
reclaim token now previous none = (false, none)
reclaim token now previous (some m) =
    if m.token == previous && not m.recovery_required && date_le m.lease_until now
    then (
      true,
      some (record m {
        token = token;
        acquired_at = now;
        lease_until = add_ms now lease_duration_ms;
      }),
    )
    else (false, some m)

unfoldable pub renew_lease : EntityId → Date → Row → Bool × Row
renew_lease token clock none = (false, none)
renew_lease token clock (some m) =
    if m.token == token && not m.recovery_required
    then (true, some (record m { lease_until = add_ms clock lease_duration_ms }))
    else (false, some m)

unfoldable pub mark_recovery : EntityId → Row → Bool × Row
mark_recovery token none = (false, none)
mark_recovery token (some m) =
    if m.token == token
    then (true, some (record m { recovery_required = true }))
    else (false, some m)

unfoldable pub delete_mutex : EntityId → Row → Bool × Row
delete_mutex token none = (false, none)
delete_mutex token (some m) = if m.token == token then (true, none) else (false, some m)

-- What others do to the row between the statements of an attempt.
pub record Round : Type 0 where
  pub now : Date
  pub while_asleep : Row → Row
  pub before_read : Row → Row
  pub before_reclaim : Row → Row

-- What follows the `findUnique`.
unfoldable pub take_over : EntityId → Round → Row → Result BillingError Bool × Row
take_over token round none = (ok false, none)
take_over token round (some existing) =
    if existing.recovery_required
    then (err billing_reconciliation_required, some existing)
    else if date_lt round.now existing.lease_until
    then (ok false, some existing)
    else (let (reclaimed, row) =
          reclaim token round.now existing.token (round.before_reclaim (some existing)) in
        (ok reclaimed, row))

unfoldable pub try_acquire : EntityId → EntityId → Round → Row → Result BillingError Bool × Row
try_acquire key token round row =
    let (created, row') = create_mutex key token round.now row in
    if created then (ok true, row') else take_over token round (round.before_read row')

-- How an attempt goes on to the later ones.
unfoldable pub after_attempt :
    Result BillingError Bool × Row
    → (Row → Result BillingError (Unit {0}) × Row)
    → Result BillingError (Unit {0}) × Row
after_attempt (ok true, row) later = (ok tt, row)
after_attempt (ok false, row) later = later row
after_attempt (err e, row) later = (err e, row)

-- The loop over the delays; `rounds` tells what happens in the attempt after each delay.
unfoldable pub acquire :
    EntityId → EntityId → (ℕ → Round) → List ℕ → Row → Result BillingError (Unit {0}) × Row
acquire key token rounds [] row = (err billing_busy, row)
acquire key token rounds (delay ∷ delays) row =
    after_attempt (try_acquire key token (rounds delay) ((rounds delay).while_asleep row))
      (acquire key token rounds delays)

-- One tick of the heartbeat: when, and what others have done before.
pub record Beat : Type 0 where
  pub clock : Date
  pub others : Row → Row

-- Whether the lease was lost, and the row. A tick after the loss does nothing.
unfoldable pub heartbeat : EntityId → List Beat → Bool → Row → Bool × Row
heartbeat token [] lost row = (lost, row)
heartbeat token (beat ∷ beats) true row = heartbeat token beats true (beat.others row)
heartbeat token (beat ∷ beats) false row =
    let (owned, row') = renew_lease token beat.clock (beat.others row) in
    heartbeat token beats (not owned) row'

-- How the operation under the lock has ended.
pub data Outcome (A : Type 0) : Type 0 where
  returned : A → Outcome A
  threw_billing : BillingError → Outcome A
  threw_other : Outcome A

-- What `run` throws: an error of the billing, or the failure of the operation.
pub data RunFailure : Type 0 where
  billing : BillingError → RunFailure
  failure : RunFailure

module _ {A : Type 0} where
  -- `release`, and what follows it.
  unfoldable pub release : EntityId → Result RunFailure A → Row → Result RunFailure A × Row
  release token result row =
      let (deleted, row') = delete_mutex token row in
      (if deleted then result else err (billing billing_reconciliation_required), row')

  unfoldable pub mark_recovery_required : EntityId → Row → Result RunFailure A × Row
  mark_recovery_required token row =
      let (marked, row') = mark_recovery token row in
      (if marked then err failure else err (billing billing_reconciliation_required), row')

  -- From the end of the operation to that of `run`.
  unfoldable pub finish : EntityId → Bool → Outcome A → Row → Result RunFailure A × Row
  finish token true outcome row = (err (billing billing_reconciliation_required), row)
  finish token false (returned a) row = release token (ok a) row
  finish token false (threw_billing e) row = release token (err (billing e)) row
  finish token false threw_other row = mark_recovery_required token row

  unfoldable pub run_acquired :
      EntityId
      → List Beat
      → Outcome A
      → (Row → Row)
      → Result BillingError (Unit {0}) × Row
      → Result RunFailure A × Row
  run_acquired token beats outcome others (err e, row) = (err (billing e), row)
  run_acquired token beats outcome others (ok _, row) =
      let (lost, row') = heartbeat token beats false row in finish token lost outcome (others row')

  -- `token` is fresh. The outcome is that of the operation, if it is called.
  unfoldable pub run :
      EntityId
      → EntityId
      → (ℕ → Round)
      → List Beat
      → Outcome A
      → (Row → Row)
      → Row
      → Result RunFailure A × Row
  run key token rounds beats outcome others row =
      run_acquired token beats outcome others (acquire key token rounds acquire_retry_delays_ms row)
