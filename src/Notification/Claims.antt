-- ===== src/Notification/Claims.antt =====
-- About the rows that the statements of Notification/Outbox change, and counts of sendings.
use bom_trato_api.Prelude.{
  ℕ, ◌+◌, ◌≤◌, ◌≡◌, ◌⊎◌, inl, inr, refl, sym, ap, ◌∙◌, Bool, true, false, Option, none, some, List,
  [], ◌∷◌, ◌++◌, Memᴰ, Bool-cases, ◌==◌, ◌&&◌, leb, ==→eq, EntityId, is_some, keep, keep-Mem,
  Option-cases, update_where, arith, some-eq, none-some, if◌then◌else◌,
}
use bom_trato_api.Prelude.Date.{Date}
use bom_trato_api.Notification.Outbox.{
  NotificationRow, sooner, first_claimable, is_claimable, claimed_row, claim_candidate, claim,
  Ending, finish, send_again, accept, ended,
}

abbrev pub count : EntityId → List EntityId → ℕ
count id [] = 0
count id (x ∷ xs) = (if x == id then 1 else 0) + count id xs

abbrev pub noted {ℓ} : {M : Type ℓ} → EntityId → Option M → List EntityId → List EntityId
noted id none log = log
noted id (some m) log = id ∷ log

-- What an ending leaves alone.
pub ended-same :
    (e : Ending) (now : Date) (row : NotificationRow)
    → ((ended e now row).id ≡ row.id) × ((ended e now row).attempts ≡ row.attempts)
unfolding ended
ended-same (finish status code) now row = (refl, refl)
ended-same (send_again when code) now row = (refl, refl)
ended-same (accept provider) now row = (refl, refl)

pub changed-same :
    (test : NotificationRow → Bool) (e : Ending) (now : Date) (row : NotificationRow)
    → ((if test row then ended e now row else row).id ≡ row.id)
      × ((if test row then ended e now row else row).attempts ≡ row.attempts)
changed-same test e now row = elim (Bool-cases (test row)) [
  | inl t ↦ rw t (ended-same e now row)
  | inr f ↦ rw f (refl, refl)
]

sooner-cases :
    (row : NotificationRow) (o : Option NotificationRow)
    → (sooner row o ≡ row) ⊎ (o ≡ some (sooner row o))
sooner-cases row none = inl refl
sooner-cases row (some other) = ground arith

pub first_claimable-Mem :
    (rows : List NotificationRow) (c : NotificationRow)
    → first_claimable rows ≡ some c
    → Memᴰ c rows
unfolding first_claimable
first_claimable-Mem [] c h = absurd (none-some h)
first_claimable-Mem (row ∷ rows) c h =
    let e : sooner row (first_claimable rows) ≡ c = some-eq h in
    elim (sooner-cases row (first_claimable rows)) [
      | inl i ↦ Memᴰ.head (sym e ∙ i)
      | inr i ↦ Memᴰ.tail (first_claimable-Mem rows c (i ∙ ap (λ x. some x) e))
    ]

-- What a claim has done: it took a row of the table.
pub claim-parts :
    (token : EntityId) (now : Date) (rows : List NotificationRow) (job : NotificationRow)
    → (claim token now rows).0 ≡ some job
    → (c : NotificationRow) × Memᴰ c rows
      × (is_claimable now c ≡ true)
      × (job ≡ claimed_row token now c)
      × ((claim token now rows).1
          ≡ update_where (λ row. row.id == c.id) (claimed_row token now) rows)
unfolding claim claim_candidate
claim-parts token now rows job h =
    elim (Option-cases (first_claimable (keep (is_claimable now) rows))) [
      | inl n ↦ absurd (none-some (ap (λ x. (claim_candidate token now x rows).0) (sym n) ∙ h))
      | inr (c, e) ↦
          let (m, t) = keep-Mem (is_claimable now) rows c (first_claimable-Mem _ c e) in
          (
            c,
            m,
            t,
            sym (some-eq (ap (λ x. (claim_candidate token now x rows).0) (sym e) ∙ h)),
            ap (λ x. (claim_candidate token now x rows).1) e,
          )
    ]

pub claimed-same :
    (token : EntityId) (now : Date) (row : NotificationRow)
    → ((claimed_row token now row).id ≡ row.id)
      × ((claimed_row token now row).attempts ≡ row.attempts + 1)
unfolding claimed_row
claimed-same token now row = (refl, refl)

-- What a job in the hands of a worker may add to the sendings of an identifier.
abbrev pub weigh : EntityId → NotificationRow → ℕ
weigh id job = if job.id == id && leb job.attempts 16 then 1 else 0

abbrev pub in_hand : EntityId → List NotificationRow → ℕ
in_hand id [] = 0
in_hand id (job ∷ jobs) = weigh id job + in_hand id jobs

pub in_hand-out :
    (id : EntityId) (before after : List NotificationRow) (job : NotificationRow)
    → in_hand id (before ++ job ∷ after) ≡ weigh id job + in_hand id (before ++ after)
in_hand-out id [] after job = refl
in_hand-out id (x ∷ before) after job = let h = in_hand-out id before after job in omega arith

-- A job that is sent in one of its first sixteen attempts adds no more than it weighs.
pub noted-weighed :
    {M : Type 0} (id : EntityId) (job : NotificationRow) (o : Option M) (log : List EntityId)
    → (is_some o ≡ true → job.attempts ≤ 16)
    → count id (noted job.id o log) ≤ weigh id job + count id log
noted-weighed id job none log h = omega arith
noted-weighed id job (some m) log h = let k = h refl in ground arith

pub weigh-other :
    (id : EntityId) (job : NotificationRow) → (job.id == id) ≡ false → weigh id job ≡ 0
weigh-other id job h = rw h refl

pub weigh-few : (id : EntityId) (job : NotificationRow) → weigh id job ≤ 1
weigh-few id job = ground arith

-- A job that weighs something is that of the identifier, in one of its first sixteen attempts.
pub weigh-cases :
    (id : EntityId) (job : NotificationRow)
    → (weigh id job ≡ 0) ⊎ ((job.id ≡ id) × (job.attempts ≤ 16))
weigh-cases id job = elim (Bool-cases (job.id == id)) [
  | inr f ↦ inl (weigh-other id job f)
  | inl t ↦ elim (Bool-cases (leb job.attempts 16)) [
    | inr f ↦ inl (rw (t, f) refl)
    | inl l ↦ inr (==→eq job.id id t, ground arith)
  ]
]

pub ==_flip : (a b : ℕ) → (a == b) ≡ false → (b == a) ≡ false
==_flip a b h = ground arith
