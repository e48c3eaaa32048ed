-- ===== src/Billing/Exclusion.antt =====
-- About the lock of Billing/Mutex when several runs use it: interleavings of their statements.
use mathlib.Core.Path.{subst}
use bom_trato_api.Prelude.{
  ◌≡◌, ◌≢◌, ◌⊎◌, inl, inr, refl, sym, ap, ◌∙◌, Bool, true, false, none, some, Bool-cases, ◌==◌,
  ==_refl, ==→eq, EntityId, arith,
}
use bom_trato_api.Prelude.Result.{ok, err}
use bom_trato_api.Prelude.Date.{Date}
use bom_trato_api.Billing.Types.{billing_reconciliation_required}
use bom_trato_api.Billing.Mutex.{
  BillingMutex, Row, create_mutex, reclaim, renew_lease, mark_recovery, delete_mutex, Round,
  take_over, try_acquire, Outcome, returned, threw_billing, threw_other, billing, failure, release,
  mark_recovery_required, finish,
}

-- The row is there with the token.
abbrev pub Holds : EntityId → Row → Type 0
Holds a none = ⊥
Holds a (some m) = m.token ≡ a

-- One statement while the run with token `a` is under way: a statement of another run, whose
-- token is another, or a renewal of the lease of `a`.
pub data Statement (a : EntityId) (row row' : Row) : Type 0 where
  created :
      (key b : EntityId) (now : Date)
      → b ≢ a
      → (create_mutex key b now row).1 ≡ row'
      → Statement a row row'
  reclaimed :
      (b previous : EntityId) (now : Date)
      → b ≢ a
      → (reclaim b now previous row).1 ≡ row'
      → Statement a row row'
  renewed :
      (b : EntityId) (clock : Date) → (renew_lease b clock row).1 ≡ row' → Statement a row row'
  marked : (b : EntityId) → b ≢ a → (mark_recovery b row).1 ≡ row' → Statement a row row'
  deleted : (b : EntityId) → b ≢ a → (delete_mutex b row).1 ≡ row' → Statement a row row'

pub data Meanwhile (a : EntityId) (row : Row) : Row → Type 0 where
  here : Meanwhile a row row
  next : {row' row'' : Row} → Meanwhile a row row' → Statement a row' row'' → Meanwhile a row row''

-- Nobody else puts a token back.
Statement-Holds :
    (a : EntityId) (row row' : Row) → Statement a row row' → Holds a row' → Holds a row
unfolding create_mutex reclaim renew_lease mark_recovery delete_mutex
Statement-Holds a none none s h = h
Statement-Holds a none (some m) (created key b now n e) h = ground arith
Statement-Holds a none (some m) (reclaimed b previous now n e) h = ground arith
Statement-Holds a none (some m) (renewed b clock e) h = ground arith
Statement-Holds a none (some m) (marked b n e) h = ground arith
Statement-Holds a none (some m) (deleted b n e) h = ground arith
Statement-Holds a (some k) none s h = absurd h
Statement-Holds a (some k) (some m) (created key b now n e) h = ground arith
Statement-Holds a (some k) (some m) (reclaimed b previous now n e) h = ground arith
Statement-Holds a (some k) (some m) (renewed b clock e) h = ground arith
Statement-Holds a (some k) (some m) (marked b n e) h = ground arith
Statement-Holds a (some k) (some m) (deleted b n e) h = ground arith

pub Meanwhile-Holds :
    {a : EntityId} {row row' : Row} → Meanwhile a row row' → Holds a row' → Holds a row
Meanwhile-Holds here h = h
Meanwhile-Holds {a} {row} {row'} (next {row' = mid} r s) h =
    Meanwhile-Holds r (Statement-Holds a mid row' s h)

-- A run that ends with the result of its operation held the lock to the end.
finish-Holds :
    {A : Type 0} (a : EntityId) (lost : Bool) (outcome : Outcome A) (row row' : Row) (x : A)
    → finish a lost outcome row ≡ (ok x, row')
    → Holds a row
unfolding finish release mark_recovery_required delete_mutex mark_recovery
finish-Holds a true outcome row row' x h = ground arith
finish-Holds a false (returned y) none row' x h = ground arith
finish-Holds a false (returned y) (some m) row' x h = ground arith
finish-Holds a false (threw_billing e) none row' x h = ground arith
finish-Holds a false (threw_billing e) (some m) row' x h = ground arith
finish-Holds a false threw_other none row' x h = ground arith
finish-Holds a false threw_other (some m) row' x h = ground arith

taken-Holds :
    (b previous key : EntityId) (now : Date) (row row' : Row)
    → (create_mutex key b now row ≡ (true, row')) ⊎ (reclaim b now previous row ≡ (true, row'))
    → Holds b row'
unfolding create_mutex reclaim
taken-Holds b previous key now none row' (inl e) = subst (λ r. Holds b r) (ap (λ x. x.1) e) refl
taken-Holds b previous key now (some m) row' (inl e) = ground arith
taken-Holds b previous key now none row' (inr e) = ground arith
taken-Holds b previous key now (some m) none (inr e) = ground arith
taken-Holds b previous key now (some m) (some k) (inr e) = ground arith

Holds-unique : (a b : EntityId) (row : Row) → Holds a row → Holds b row → a ≡ b
Holds-unique a b none h k = absurd h
Holds-unique a b (some m) h k = sym h ∙ k

-- Mutual exclusion. A run that ends with the result of its operation had the lock to itself: at
-- no time of the run, between any two statements of the others and of its own renewals, did the
-- statements of another run take the lock.
pub run-excludes :
    {A : Type 0} (a b previous key : EntityId) (now : Date) (lost : Bool) (outcome : Outcome A)
    (x : A) (row during taken last row' : Row)
    → b ≢ a
    → Meanwhile a row during
    → (create_mutex key b now during ≡ (true, taken))
      ⊎ (reclaim b now previous during ≡ (true, taken))
    → Meanwhile a taken last
    → finish a lost outcome last ≢ (ok x, row')
run-excludes a b previous key now lost outcome x row during taken last row' n before took after h =
    let mine = Meanwhile-Holds after (finish-Holds a lost outcome last row' x h) in
    n (Holds-unique b a taken (taken-Holds b previous key now during taken took) mine)

other : (x y : EntityId) → x ≢ y → (x == y) ≡ false
other x y n = elim (Bool-cases (x == y)) [ inl e ↦ absurd (n (==→eq x y e)) | inr e ↦ e ]

-- What `finish` does to a row that is not its own.
finish-foreign :
    {A : Type 0} (a : EntityId) (lost : Bool) (outcome : Outcome A) (row : Row)
    → (Holds a row → ⊥)
    → finish a lost outcome row ≡ (err (billing billing_reconciliation_required), row)
unfolding finish release mark_recovery_required delete_mutex mark_recovery
finish-foreign a true outcome row n = refl
finish-foreign a false (returned y) none n = refl
finish-foreign a false (threw_billing e) none n = refl
finish-foreign a false threw_other none n = refl
finish-foreign a false (returned y) (some m) n = rw (other m.token a n) refl
finish-foreign a false (threw_billing e) (some m) n = rw (other m.token a n) refl
finish-foreign a false threw_other (some m) n = rw (other m.token a n) refl

-- When another run takes the lock of a run that is under way, that run ends, whatever its operation
-- did and whether or not its heartbeat has noticed, with the error that asks for a
-- reconciliation, and leaves the lock as it is.
pub taken-reconciles :
    {A : Type 0} (a b previous key : EntityId) (now : Date) (lost : Bool) (outcome : Outcome A)
    (during taken last : Row)
    → b ≢ a
    → (create_mutex key b now during ≡ (true, taken))
      ⊎ (reclaim b now previous during ≡ (true, taken))
    → Meanwhile a taken last
    → finish a lost outcome last ≡ (err (billing billing_reconciliation_required), last)
taken-reconciles a b previous key now lost outcome during taken last n took after =
    finish-foreign a lost outcome last (λ mine. n (
      Holds-unique b a taken (taken-Holds b previous key now during taken took)
        (Meanwhile-Holds after mine)))

-- The row is marked for recovery.
abbrev pub IsMarked : EntityId → Row → Type 0
IsMarked a none = ⊥
IsMarked a (some m) = (m.token ≡ a) × (m.recovery_required ≡ true)

Statement-IsMarked :
    (a : EntityId) (row row' : Row) → Statement a row row' → IsMarked a row → row' ≡ row
unfolding create_mutex reclaim renew_lease mark_recovery delete_mutex
Statement-IsMarked a none row' s h = absurd h
Statement-IsMarked a (some m) row' (created key b now n e) h = sym e
Statement-IsMarked a (some m) row' (reclaimed b previous now n e) h = let r = h.1 in ground arith
Statement-IsMarked a (some m) row' (renewed b clock e) h = ground arith
Statement-IsMarked a (some m) row' (marked b n e) h =
    sym e ∙ rw (other m.token b (λ i. n (sym i ∙ h.0))) refl
Statement-IsMarked a (some m) row' (deleted b n e) h =
    sym e ∙ rw (other m.token b (λ i. n (sym i ∙ h.0))) refl

Meanwhile-IsMarked :
    {a : EntityId} {row row' : Row} → Meanwhile a row row' → IsMarked a row → row' ≡ row
Meanwhile-IsMarked here h = refl
Meanwhile-IsMarked {a} {row} {row'} (next {row' = mid} r s) h =
    let e = Meanwhile-IsMarked r h in
    Statement-IsMarked a mid row' s (subst (λ x. IsMarked a x) (sym e) h) ∙ e

marked-refused :
    (a b key : EntityId) (round : Round) (row : Row)
    → IsMarked a row
    → ((x : Row) → round.before_read x ≡ x)
    → try_acquire key b round row ≡ (err billing_reconciliation_required, row)
unfolding try_acquire create_mutex take_over
marked-refused a b key round none h quiet = absurd h
marked-refused a b key round (some m) h quiet = rw (quiet (some m)) (rw h.1 refl)

-- When an operation fails with an error that is not one of the billing, while its run holds the
-- lock and its heartbeat has not lost it, then the run throws that failure on and the lock is shut:
-- whatever the statements of the other runs do, the row stays as it is, marked for recovery, and
-- every attempt to take the lock is answered with the error that asks for a reconciliation.
pub failure-shuts :
    {A : Type 0} (a b key : EntityId) (round : Round) (m : BillingMutex) (later : Row)
    → m.token ≡ a
    → Meanwhile a (finish {A = A} a false threw_other (some m)).1 later
    → ((x : Row) → round.before_read x ≡ x)
    → ((finish {A = A} a false threw_other (some m)).0 ≡ err failure)
      × (later ≡ some (record m { recovery_required = true }))
      × (try_acquire key b round later ≡ (err billing_reconciliation_required, later))
unfolding finish mark_recovery_required mark_recovery
failure-shuts {A} a b key round m later own since quiet =
    let k : finish {A = A} a false threw_other (some m)
        ≡ (err failure, some (record m { recovery_required = true })) =
      rw own (rw (==_refl a) refl) in
    let e = ap (λ x. x.1) k in
    let d = subst (λ x. IsMarked a x) (sym e) (own, refl) in
    let s = Meanwhile-IsMarked since d in
    (
      ap (λ x. x.0) k,
      s ∙ e,
      marked-refused a b key round later (subst (λ x. IsMarked a x) (sym s) d) quiet,
    )
