-- ===== src/Notification/Finished.antt =====
-- About the notifications of Notification/Outbox that are delivered, given up or dropped.
use mathlib.Core.Path.{subst}
use bom_trato_api.Prelude.{
  ℕ, ◌+◌, ◌≤◌, ◌≡◌, ◌⊎◌, inl, inr, refl, sym, ap, ◌∙◌, Bool, true, false, Option, none, some, List,
  [], ◌∷◌, Memᴰ, Bool-cases, ◌==◌, ◌||◌, ==→eq, EntityId, any, any-false, keep, keep-Mem, arith,
  false-true, update_where,
}
use bom_trato_api.Prelude.Keyed.{IsKeyed, update-IsKeyed, cons-IsKeyed, update-keeps}
use bom_trato_api.Prelude.Result.{Result}
use bom_trato_api.Prelude.Text.{Text, text_eq}
use bom_trato_api.Prelude.Date.{Date}
use bom_trato_api.Notification.Outbox.{
  NotificationStatus, pending, processing, NotificationRow, EnqueueNotification, new_row, insert,
  is_claimable, claimed_row, claim, is_mine, Ending, ended, end_job, cleanup,
}
use bom_trato_api.Notification.Worker.{SendFailure, work}
use bom_trato_api.Notification.Claims.{
  count, noted, ended-same, claim-parts, claimed-same, in_hand, weigh-other,
}
use bom_trato_api.Notification.Limit.{
  Outbox, total, Step, inserted, claimed, worked, let_go, cleaned, Reach, here, next, worked-total,
}

abbrev pub notification_id : NotificationRow → EntityId
notification_id row = row.id

-- Delivered, given up or dropped.
abbrev pub is_finished : NotificationStatus → Bool
is_finished pending = false
is_finished processing = false
is_finished _ = true

-- Whether a row has the identifier.
abbrev pub has_row : EntityId → List NotificationRow → Bool
has_row id rows = any (λ (row : NotificationRow). row.id == id) rows

-- The finished row is in the keyed table as it was, or no row has its identifier; the notification
-- has been sent, and no more sendings than told are made or may still be.
pub record IsFinished (row : NotificationRow) (n : ℕ) (o : Outbox) : Type 0 where
  pub keyed : IsKeyed notification_id o.rows
  pub place : Memᴰ row o.rows ⊎ (has_row row.id o.rows ≡ false)
  pub was_sent : 1 ≤ count row.id o.sent
  pub at_most : total row.id o ≤ n

any-weaker :
    (p q : NotificationRow → Bool) (rows : List NotificationRow)
    → any (λ row. p row || q row) rows ≡ false
    → any p rows ≡ false
any-weaker p q [] h = refl
any-weaker p q (row ∷ rows) h = ground (arith, any-weaker p q rows)

has_row-update :
    (id : EntityId) (test : NotificationRow → Bool) (change : NotificationRow → NotificationRow)
    (rows : List NotificationRow)
    → ((row : NotificationRow) → (change row).id ≡ row.id)
    → has_row id rows ≡ false
    → has_row id (update_where test change rows) ≡ false
has_row-update id test change [] same h = refl
has_row-update id test change (row ∷ rows) same h =
    ground (arith, same row, has_row-update id test change rows same)

has_row-none :
    (id : EntityId) (rows : List NotificationRow)
    → ((row : NotificationRow) → Memᴰ row rows → (row.id == id) ≡ false)
    → has_row id rows ≡ false
has_row-none id [] h = refl
has_row-none id (row ∷ rows) h =
    rw (h row (Memᴰ.head refl)) (has_row-none id rows (λ x m. h x (Memᴰ.tail m)))

kept-Mem :
    (test : NotificationRow → Bool) (rows : List NotificationRow) (row : NotificationRow)
    → Memᴰ row rows
    → test row ≡ true
    → Memᴰ row (keep test rows)
kept-Mem test [] row m t = elim m [ ]
kept-Mem test (x ∷ xs) row (Memᴰ.head e) t =
    let u : test x ≡ true = ap test (sym e) ∙ t in rw u (Memᴰ.head e)
kept-Mem test (x ∷ xs) row (Memᴰ.tail m) t = elim (Bool-cases (test x)) [
  | inl u ↦ rw u (Memᴰ.tail (kept-Mem test xs row m t))
  | inr u ↦ rw u (kept-Mem test xs row m t)
]

claimable-unfinished :
    (now : Date) (row : NotificationRow)
    → is_claimable now row ≡ true
    → is_finished row.status ≡ false
unfolding is_claimable
claimable-unfinished now row h = ground arith

mine-unfinished :
    (job row : NotificationRow) → is_mine job row ≡ true → is_finished row.status ≡ false
unfolding is_mine
mine-unfinished job row h = ground arith

-- A row that is claimed is another one.
claimed-apart :
    (now : Date) (c row : NotificationRow) (n : ℕ) (o : Outbox)
    → IsFinished row n o
    → Memᴰ c o.rows
    → is_finished row.status ≡ true
    → is_claimable now c ≡ true
    → (c.id == row.id) ≡ false
claimed-apart now c row n o k m f t = elim (Bool-cases (c.id == row.id)) [
  | inr i ↦ i
  | inl i ↦ elim k.place [
    | inr gone ↦ absurd (false-true (sym (any-false (λ x. x.id == row.id) o.rows gone m) ∙ i))
    | inl there ↦
        let same : row ≡ c = k.keyed.one_each there m (sym (==→eq c.id row.id i)) in
        absurd (
          false-true (
            sym (claimable-unfinished now c t)
            ∙ ap (λ (x : NotificationRow). is_finished x.status) (sym same)
            ∙ f))
  ]
]

flip : (a b : ℕ) → (a == b) ≡ false → (b == a) ≡ false
flip a b h = ground arith

count-noted :
    {M : Type 0} (id job : EntityId) (o : Option M) (log : List EntityId)
    → count id log ≤ count id (noted job o log)
count-noted id job none log = omega arith
count-noted id job (some m) log = omega arith

module _ {M : Type 0} (decrypt : EntityId → Text → Option M)
    (send : EntityId → M → Result SendFailure Text) where
  inserted-IsFinished :
      (input : EnqueueNotification) (now : Date) (row : NotificationRow) (n : ℕ) (o : Outbox)
      → total input.id o ≡ 0
      → IsFinished row n o
      → IsFinished row n (record o { rows = insert input now o.rows })
  unfolding insert
  inserted-IsFinished input now row n o z k =
      elim (Bool-cases (any (λ row. row.id == input.id || text_eq row.key input.key) o.rows)) [
        | inl t ↦ rw t k
        | inr f ↦ rw f (record {
          keyed =
              cons-IsKeyed notification_id (new_row input now) o.rows
                (any-weaker (λ row. row.id == input.id) (λ row. text_eq row.key input.key) o.rows f)
                k.keyed;
          place = elim k.place [
            | inl there ↦ inl (Memᴰ.tail there)
            | inr gone ↦ inr (rw (apart, gone) refl)
          ];
          was_sent = k.was_sent;
          at_most = k.at_most;
        })
      ]
    where
      apart : (input.id == row.id) ≡ false
      apart = elim (Bool-cases (input.id == row.id)) [
        | inr f ↦ f
        | inl t ↦
            let e : total input.id o ≡ total row.id o =
              ap (λ x. total x o) (==→eq input.id row.id t) in
            let w = k.was_sent in absurd (omega arith)
      ]

  claimed-IsFinished :
      (token : EntityId) (now : Date) (job row : NotificationRow) (n : ℕ) (o : Outbox)
      → is_finished row.status ≡ true
      → (claim token now o.rows).0 ≡ some job
      → IsFinished row n o
      → IsFinished row n (record o { rows = (claim token now o.rows).1; held = job ∷ o.held })
  claimed-IsFinished token now job row n o f h k =
      let (c, m, t, e, u) = claim-parts token now o.rows job h in
      let apart = claimed-apart now c row n o k m f t in
      let same : job.id ≡ c.id =
        ap (λ (x : NotificationRow). x.id) e ∙ (claimed-same token now c).0 in
      let w = weigh-other row.id job (ap (λ x. x == row.id) same ∙ apart) in
      rw u (record {
        keyed =
            update-IsKeyed notification_id (λ row. row.id == c.id) (claimed_row token now) o.rows
              (λ row. (claimed-same token now row).0) k.keyed;
        place = elim k.place [
          | inl there ↦ inl (
              update-keeps (λ row. row.id == c.id) (claimed_row token now) o.rows row there
                (flip c.id row.id apart))
          | inr gone ↦ inr (
              has_row-update row.id (λ row. row.id == c.id) (claimed_row token now) o.rows
                (λ row. (claimed-same token now row).0) gone)
        ];
        was_sent = k.was_sent;
        at_most = let b = k.at_most in omega arith;
      })

  let_go-IsFinished :
      (job : NotificationRow) (e : Ending) (now : Date) (row : NotificationRow) (n : ℕ) (o : Outbox)
      → is_finished row.status ≡ true
      → IsFinished row n o
      → IsFinished row n (record o { rows = end_job job e now o.rows })
  unfolding end_job
  let_go-IsFinished job e now row n o f k = record {
    keyed =
        update-IsKeyed notification_id (is_mine job) (ended e now) o.rows
          (λ row. (ended-same e now row).0) k.keyed;
    place = elim k.place [
      | inr gone ↦ inr (
          has_row-update row.id (is_mine job) (ended e now) o.rows (λ row. (ended-same e now row).0)
            gone)
      | inl there ↦ elim (Bool-cases (is_mine job row)) [
        | inl t ↦ absurd (false-true (sym (mine-unfinished job row t) ∙ f))
        | inr x ↦ inl (update-keeps (is_mine job) (ended e now) o.rows row there x)
      ]
    ];
    was_sent = k.was_sent;
    at_most = k.at_most;
  }

  kept-place :
      (test : NotificationRow → Bool) (row : NotificationRow) (rows : List NotificationRow)
      → IsKeyed notification_id rows
      → Memᴰ row rows ⊎ (has_row row.id rows ≡ false)
      → Memᴰ row (keep test rows) ⊎ (has_row row.id (keep test rows) ≡ false)
  kept-place test row rows k (inr gone) = inr (
      has_row-none row.id (keep test rows)
        (λ x m. any-false (λ y. y.id == row.id) rows gone (keep-Mem test rows x m).0))
  kept-place test row rows k (inl there) = elim (Bool-cases (test row)) [
    | inl t ↦ inl (kept-Mem test rows row there t)
    | inr f ↦ inr (
        has_row-none row.id (keep test rows) (λ x m.
          let (n, t) = keep-Mem test rows x m in
          elim (Bool-cases (x.id == row.id)) [
            | inr other ↦ other
            | inl i ↦
                let same : x ≡ row = k.one_each n there (==→eq x.id row.id i) in
                absurd (false-true (sym f ∙ ap test (sym same) ∙ t))
          ]))
  ]

  cleaned-IsFinished :
      (now : Date) (takes : NotificationRow → Bool) (row : NotificationRow) (n : ℕ) (o : Outbox)
      → IsFinished row n o
      → IsFinished row n (record o { rows = cleanup now takes o.rows })
  unfolding cleanup
  cleaned-IsFinished now takes row n o k = record {
    keyed = record {
      one_each =
          λ {a} {b} x y i. k.keyed.one_each (keep-Mem _ o.rows a x).0 (keep-Mem _ o.rows b y).0 i;
    };
    place = kept-place _ row o.rows k.keyed k.place;
    was_sent = k.was_sent;
    at_most = k.at_most;
  }

  Step-IsFinished :
      {o o' : Outbox} (row : NotificationRow) (n : ℕ)
      → is_finished row.status ≡ true
      → Step decrypt send o o'
      → IsFinished row n o
      → IsFinished row n o'
  Step-IsFinished {o} row n f (inserted input now z e) k =
      subst (IsFinished row n) (sym e) (inserted-IsFinished input now row n o z k)
  Step-IsFinished {o} row n f (claimed token now job h e) k =
      subst (IsFinished row n) (sym e) (claimed-IsFinished token now job row n o f h k)
  Step-IsFinished {o} row n f (worked before after job clock r h e) k =
      subst (IsFinished row n) (sym e) (record {
        keyed = k.keyed;
        place = k.place;
        was_sent =
            let a = count-noted row.id job.id (work decrypt send job clock r).0 o.sent in
            let b = k.was_sent in omega arith;
        at_most =
            let a = worked-total decrypt send before after job clock r o row.id h in
            let b = k.at_most in omega arith;
      })
  Step-IsFinished {o} row n f (let_go job clock r now e) k =
      subst (IsFinished row n) (sym e) (let_go-IsFinished job _ now row n o f k)
  Step-IsFinished {o} row n f (cleaned now takes e) k =
      subst (IsFinished row n) (sym e) (cleaned-IsFinished now takes row n o k)

  Reach-IsFinished :
      {o o' : Outbox} (row : NotificationRow) (n : ℕ)
      → is_finished row.status ≡ true
      → Reach decrypt send o o'
      → IsFinished row n o
      → IsFinished row n o'
  Reach-IsFinished row n f here k = k
  Reach-IsFinished row n f (next r s) k = Step-IsFinished row n f s (Reach-IsFinished row n f r k)

-- A notification that was sent and is finished stays so until it is deleted: in a table with one row for each identifier, whatever insertions under fresh
-- identifiers, claims, sendings, endings and clean-ups come later, in any order, its row is there
-- as it was or no row has its identifier, and it is sent at most as often again as workers hold it
-- from earlier claims.
pub Reach-finished :
    {M : Type 0} (decrypt : EntityId → Text → Option M)
    (send : EntityId → M → Result SendFailure Text) (row : NotificationRow) (o o' : Outbox)
    → IsKeyed notification_id o.rows
    → Memᴰ row o.rows
    → is_finished row.status ≡ true
    → 1 ≤ count row.id o.sent
    → Reach decrypt send o o'
    → (Memᴰ row o'.rows ⊎ (has_row row.id o'.rows ≡ false))
      × (count row.id o'.sent ≤ count row.id o.sent + in_hand row.id o.held)
Reach-finished decrypt send row o o' keyed m f s reach =
    let k =
      Reach-IsFinished decrypt send row (total row.id o) f reach
        (record { keyed = keyed; place = inl m; was_sent = s; at_most = omega arith }) in
    (k.place, let b = k.at_most in omega arith)
