-- ===== src/Notification/Limit.antt =====
-- About the statements of Notification/Outbox that workers make on the table in any order, each
-- deciding what becomes of its job by `work` of Notification/Worker.
use mathlib.Core.Path.{subst}
use bom_trato_api.Prelude.{
  ℕ, ◌+◌, ◌≤◌, ◌≡◌, inl, inr, refl, sym, ap, ◌∙◌, Bool, true, false, Option, none, some, List, [],
  ◌∷◌, ◌++◌, Memᴰ, Bool-cases, ◌==◌, ◌||◌, EntityId, is_some, any, keep-Mem, update_where-Mem,
  arith, false-true, ltb,
}
use bom_trato_api.Prelude.Result.{Result}
use bom_trato_api.Prelude.Text.{Text, text_eq}
use bom_trato_api.Prelude.Date.{Date, date_le}
use bom_trato_api.Notification.Outbox.{
  NotificationRow, EnqueueNotification, new_row, insert, claimed_row, claim, is_mine, Ending, ended,
  end_job, cleanup,
}
use bom_trato_api.Notification.Automation.{Records}
use bom_trato_api.Notification.Worker.{deadline, SendFailure, Clock, work}
use bom_trato_api.Notification.Claims.{
  count, noted, changed-same, claim-parts, claimed-same, weigh, in_hand, in_hand-out, noted-weighed,
  weigh-cases, weigh-few, weigh-other, ==_flip,
}

-- The table, with the jobs that workers have claimed and may still send, and what they have sent so
-- far: the identifiers of the jobs, the last one first.
pub record Outbox : Type 0 where
  pub rows : List NotificationRow
  pub held : List NotificationRow
  pub sent : List EntityId

-- What has been sent of an identifier or may still be.
abbrev pub total : EntityId → Outbox → ℕ
total id o = in_hand id o.held + count id o.sent

module _ {M : Type 0} (decrypt : EntityId → Text → Option M)
    (send : EntityId → M → Result SendFailure Text) where
  -- One step of any process. A new notification has a fresh identifier. A worker that has claimed a
  -- job works on it later or never, whatever has become of its lease meanwhile, and if it comes to
  -- that, sends its message once; what it does with the row afterwards is a statement of its own,
  -- which may come late or never. Other rows may be read, and other answers given, at each time.
  pub data Step (o o' : Outbox) : Type 0 where
    inserted :
        (input : EnqueueNotification) (now : Date)
        → total input.id o ≡ 0
        → o' ≡ record o { rows = insert input now o.rows }
        → Step o o'
    claimed :
        (token : EntityId) (now : Date) (job : NotificationRow)
        → (claim token now o.rows).0 ≡ some job
        → o' ≡ record o { rows = (claim token now o.rows).1; held = job ∷ o.held }
        → Step o o'
    worked :
        (before after : List NotificationRow) (job : NotificationRow) (clock : Clock) (r : Records)
        → o.held ≡ before ++ job ∷ after
        → o' ≡ record o {
          held = before ++ after;
          sent = noted job.id (work decrypt send job clock r).0 o.sent;
        }
        → Step o o'
    let_go :
        (job : NotificationRow) (clock : Clock) (r : Records) (now : Date)
        → o' ≡ record o { rows = end_job job (work decrypt send job clock r).1 now o.rows }
        → Step o o'
    cleaned :
        (now : Date) (takes : NotificationRow → Bool)
        → o' ≡ record o { rows = cleanup now takes o.rows }
        → Step o o'

  pub data Reach (o : Outbox) : Outbox → Type 0 where
    here : Reach o o
    next : {mid o' : Outbox} → Reach o mid → Step mid o' → Reach o o'

  work-late :
      (job : NotificationRow) (clock : Clock) (r : Records)
      → ltb 16 job.attempts ≡ true
      → (work decrypt send job clock r).0 ≡ none
  unfolding work
  work-late job clock r h =
      elim (Bool-cases (date_le (deadline job clock.checked_at) clock.checked_at)) [
        | inl t ↦ rw t refl
        | inr f ↦ rw (f, h) refl
      ]

  -- A job is sent only in one of its first sixteen attempts.
  work-sent :
      (job : NotificationRow) (clock : Clock) (r : Records)
      → is_some (work decrypt send job clock r).0 ≡ true
      → job.attempts ≤ 16
  work-sent job clock r h = elim (Bool-cases (ltb 16 job.attempts)) [
    | inl t ↦ absurd (false-true (sym (ap is_some (work-late job clock r t)) ∙ h))
    | inr f ↦ ground arith
  ]

  -- What is known of the sendings: at most sixteen of each identifier are made or may still be,
  -- and at most as many as its row has had attempts.
  pub record Limited (o : Outbox) : Type 0 where
    pub few : (id : EntityId) → total id o ≤ 16
    pub tried : (row : NotificationRow) → Memᴰ row o.rows → total row.id o ≤ row.attempts

  inserted-Limited :
      (input : EnqueueNotification) (now : Date) (o : Outbox)
      → total input.id o ≡ 0
      → Limited o
      → Limited (record o { rows = insert input now o.rows })
  unfolding insert
  inserted-Limited input now o z l =
      elim (Bool-cases (any (λ row. row.id == input.id || text_eq row.key input.key) o.rows)) [
        | inl t ↦ rw t l
        | inr f ↦ rw f (record { few = l.few; tried = consed })
      ]
    where
      consed :
          (row : NotificationRow)
          → Memᴰ row (new_row input now ∷ o.rows)
          → total row.id o ≤ row.attempts
      consed row (Memᴰ.head e) = rw e (rw z (omega arith))
      consed row (Memᴰ.tail m) = l.tried row m

  let_go-Limited :
      (job : NotificationRow) (e : Ending) (now : Date) (o : Outbox)
      → Limited o
      → Limited (record o { rows = end_job job e now o.rows })
  unfolding end_job
  let_go-Limited job e now o l = record {
    few = l.few;
    tried = λ row' m.
        let (row, n, i) = update_where-Mem (is_mine job) (ended e now) o.rows m in
        let (same, tries) = changed-same (is_mine job) e now row in
        let a : row'.id ≡ row.id = ap (λ (x : NotificationRow). x.id) i ∙ same in
        let b : row'.attempts ≡ row.attempts = ap (λ (x : NotificationRow). x.attempts) i ∙ tries in
        let k = l.tried row n in
        let c : total row'.id o ≡ total row.id o = ap (λ x. total x o) a in omega arith;
  }

  cleaned-Limited :
      (now : Date) (takes : NotificationRow → Bool) (o : Outbox)
      → Limited o
      → Limited (record o { rows = cleanup now takes o.rows })
  unfolding cleanup
  cleaned-Limited now takes o l = record {
    few = l.few;
    tried = λ row m. l.tried row (keep-Mem _ o.rows row m).0;
  }

  pub worked-total :
      (before after : List NotificationRow) (job : NotificationRow) (clock : Clock) (r : Records)
      (o : Outbox) (id : EntityId)
      → o.held ≡ before ++ job ∷ after
      → in_hand id (before ++ after)
          + count id (noted job.id (work decrypt send job clock r).0 o.sent)
        ≤ total id o
  worked-total before after job clock r o id h =
      let a : in_hand id o.held ≡ weigh id job + in_hand id (before ++ after) =
        ap (in_hand id) h ∙ in_hand-out id before after job in
      let b =
        noted-weighed id job (work decrypt send job clock r).0 o.sent (work-sent job clock r) in
      omega arith

  claimed-Limited :
      (token : EntityId) (now : Date) (job : NotificationRow) (o : Outbox)
      → (claim token now o.rows).0 ≡ some job
      → Limited o
      → Limited (record o { rows = (claim token now o.rows).1; held = job ∷ o.held })
  claimed-Limited token now job o h l =
      let (c, m, t, e, u) = claim-parts token now o.rows job h in
      let same : job.id ≡ c.id =
        ap (λ (x : NotificationRow). x.id) e ∙ (claimed-same token now c).0 in
      let more : job.attempts ≡ c.attempts + 1 =
        ap (λ (x : NotificationRow). x.attempts) e ∙ (claimed-same token now c).1 in
      rw u (record {
        few = λ id. elim (weigh-cases id job) [
          | inl z ↦ let k = l.few id in omega arith
          | inr (i, s) ↦
              let k = l.tried c m in
              let w = weigh-few id job in
              let q : total c.id o ≡ total id o = ap (λ x. total x o) (sym same ∙ i) in omega arith
        ];
        tried = λ row' n.
            let (row, n', i) =
              update_where-Mem (λ row. row.id == c.id) (claimed_row token now) o.rows n in
            let k = l.tried row n' in
            elim (Bool-cases (row.id == c.id)) [
              | inl t ↦
                  let j : row' ≡ claimed_row token now row = i ∙ rw t refl in
                  let w = weigh-few row'.id job in
                  let a : row'.id ≡ row.id =
                    ap (λ (x : NotificationRow). x.id) j ∙ (claimed-same token now row).0 in
                  let b : row'.attempts ≡ row.attempts + 1 =
                    ap (λ (x : NotificationRow). x.attempts) j ∙ (claimed-same token now row).1 in
                  let q : total row'.id o ≡ total row.id o = ap (λ x. total x o) a in omega arith
              | inr f ↦
                  let j : row' ≡ row = i ∙ rw f refl in
                  let a : row'.id ≡ row.id = ap (λ (x : NotificationRow). x.id) j in
                  let b : row'.attempts ≡ row.attempts =
                    ap (λ (x : NotificationRow). x.attempts) j in
                  let apart : (job.id == row'.id) ≡ false =
                    ap (λ x. x == row'.id) same ∙ ap (λ x. c.id == x) a ∙ ==_flip row.id c.id f in
                  let w = weigh-other row'.id job apart in
                  let q : total row'.id o ≡ total row.id o = ap (λ x. total x o) a in omega arith
            ];
      })

  Step-Limited : {o o' : Outbox} → Step o o' → Limited o → Limited o'
  Step-Limited {o} (inserted input now z e) l =
      subst Limited (sym e) (inserted-Limited input now o z l)
  Step-Limited {o} (claimed token now job h e) l =
      subst Limited (sym e) (claimed-Limited token now job o h l)
  Step-Limited {o} (worked before after job clock r h e) l = subst Limited (sym e) (record {
    few = λ id.
        let k = l.few id in let w = worked-total before after job clock r o id h in omega arith;
    tried = λ row m.
        let k = l.tried row m in
        let w = worked-total before after job clock r o row.id h in omega arith;
  })
  Step-Limited {o} (let_go job clock r now e) l =
      subst Limited (sym e) (let_go-Limited job _ now o l)
  Step-Limited {o} (cleaned now takes e) l = subst Limited (sym e) (cleaned-Limited now takes o l)

  Reach-Limited : {o o' : Outbox} → Reach o o' → Limited o → Limited o'
  Reach-Limited here l = l
  Reach-Limited (next r s) l = Step-Limited s (Reach-Limited r l)

-- No notification is handed to the provider more than sixteen times, in however many processes the
-- worker runs, wherever it stops, however late it sends what it has claimed, and whatever is
-- answered: from the empty table, after any insertions under fresh identifiers, claims, sendings,
-- endings and clean-ups in any order, the sendings of each identifier are at most sixteen, and for a
-- row of the table at most as many as its attempts.
pub sent-limit :
    {M : Type 0} (decrypt : EntityId → Text → Option M)
    (send : EntityId → M → Result SendFailure Text) (o : Outbox)
    → Reach decrypt send (record { rows = []; held = []; sent = [] }) o
    → ((id : EntityId) → count id o.sent ≤ 16)
      × ((row : NotificationRow) → Memᴰ row o.rows → count row.id o.sent ≤ row.attempts)
sent-limit decrypt send o reach =
    let l =
      Reach-Limited decrypt send reach
        (record { few = λ id. omega arith; tried = λ row m. elim m [ ] }) in
    (λ id. let k = l.few id in omega arith, λ row m. let k = l.tried row m in omega arith)
