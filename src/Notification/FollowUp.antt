-- ===== src/Notification/FollowUp.antt =====
-- About the follow-up of a quote in Notification/Automation, beside the public link of Quote/Share.
use bom_trato_api.Prelude.{
  ℕ, ◌+◌, ◌<◌, ◌≡◌, refl, sym, ap, ◌∙◌, Bool, true, false, ◌&&◌, Option, none, some, Memᴰ, EntityId,
  nat, found-false, false-true, find, find-Mem, max_int, arith, ◌==◌, ==_refl,
}
use bom_trato_api.Prelude.Result.{ok}
use bom_trato_api.Prelude.Date.{Date, date_lt, date_le}
use bom_trato_api.Quote.Types.{QuoteStatus, QuoteProps, sent}
use bom_trato_api.Quote.Entity.{approve, decline, record_change}
use bom_trato_api.Quote.Share.{
  QuoteShareProps, Decision, approve_it, decline_it, assert_readable, decide_first, decide_share,
  decision_status, decide_quote,
}
use bom_trato_api.Quote.Sharing.{Whole, IsWhole}
use bom_trato_api.Notification.Outbox.{AutomationType, quote_follow_up, NotificationRow}
use bom_trato_api.Notification.Automation.{
  Records, is_followed, shared_quote, is_past, is_settled, skips_follow_up, skips_kind, skips_of,
  should_skip_automation,
}

-- A share that is followed, and its quote when it is not settled, are as a decision wants them.
pub record Offered (now : Date) (s : QuoteShareProps) (q : QuoteProps) : Type 0 where
  pub quote_of : q.id ≡ s.quote_id
  pub organization_of : q.organization_id ≡ s.organization_id
  pub unrevoked : s.revoked_at ≡ none
  pub undecided : s.decision ≡ none
  pub no_request : s.change_requested_at ≡ none
  pub unexpired : date_lt now s.expires_at ≡ true
  pub offered : q.status ≡ sent
  pub same_version : q.version ≡ s.quote_version
  pub open_quote : is_past q.valid_until now ≡ false

Offered-parts :
    (organization quote context : EntityId) (now : Date) (s : QuoteShareProps) (q : QuoteProps)
    → is_followed organization quote context now s ≡ true
    → (q.id == s.quote_id && q.organization_id == s.organization_id) ≡ true
    → is_settled now s q ≡ false
    → Offered now s q
unfolding is_followed is_settled
Offered-parts organization quote context now s q f k n = record {
  quote_of = ground arith;
  organization_of = ground arith;
  unrevoked = ground arith;
  undecided = ground arith;
  no_request = ground arith;
  unexpired = ground arith;
  offered = ground arith;
  same_version = ground arith;
  open_quote = ground arith;
}

not-over : (now t : Date) → date_lt now t ≡ true → date_le t now ≡ false
not-over now t h = ground arith

Whole-none :
    (x : Option QuoteStatus) (t : Option Date) (v : Option ℕ) → Whole x t v → x ≡ none → v ≡ none
Whole-none x t v w h = ground arith

readable-Offered :
    (now : Date) (s : QuoteShareProps) (q : QuoteProps)
    → Offered now s q
    → IsWhole s
    → assert_readable q now s ≡ ok tt
unfolding assert_readable
readable-Offered now s q o w =
    let e = not-over now s.expires_at o.unexpired in
    let v = Whole-none s.decision s.decided_at s.decided_version w o.undecided in
    rw
      (
        o.unrevoked,
        e,
        o.quote_of,
        o.organization_of,
        v,
        o.same_version,
        o.undecided,
        o.offered,
        ==_refl s.quote_id,
        ==_refl s.organization_id,
        ==_refl s.quote_version,
      )
      refl

-- The quote as a decision through the link leaves it.
abbrev decided_quote : Decision → Date → QuoteProps → QuoteProps
decided_quote d now q = record q {
  status = decision_status d;
  decided_at = some now;
  version = q.version + 1;
  updated_by_id = none;
  updated_at = now;
}

decide_quote-open :
    (d : Decision) (now : Date) (q : QuoteProps)
    → q.status ≡ sent
    → is_past q.valid_until now ≡ false
    → decide_quote d now q ≡ ok (record q { status = decision_status d; decided_at = some now })
unfolding approve decline
decide_quote-open approve_it now q e u = ground arith
decide_quote-open decline_it now q e u = ground arith

stamp-decided :
    (d : Decision) (now : Date) (q : QuoteProps)
    → q.version < max_int
    → record_change none now (record q { status = decision_status d; decided_at = some now })
      ≡ ok (decided_quote d now q)
unfolding record_change
stamp-decided d now q h = ground arith

decides-Offered :
    (d : Decision) (now : Date) (s : QuoteShareProps) (q : QuoteProps)
    → Offered now s q
    → IsWhole s
    → q.version < max_int
    → (q' : QuoteProps) × (s' : QuoteShareProps) × (decide_share q d (nat s.quote_version) now s
        ≡ ok (true, q', s'))
unfolding decide_share decide_first
decides-Offered d now s q o w l =
    let r = readable-Offered now s q o w in
    let e = decide_quote-open d now q o.offered o.open_quote in
    let f = stamp-decided d now q l in
    (
      decided_quote d now q,
      record s {
        decision = some (decision_status d);
        decided_at = some now;
        decided_version = some (q.version + 1);
      },
      simp (r, ==_refl s.quote_version, o.no_request, o.undecided, e, f),
    )

asked-of :
    (organization quote : Option EntityId) (job : NotificationRow) (now : Date) (r : Records)
    → skips_of quote_follow_up organization quote job now r ≡ false
    → (o : EntityId) × (e : EntityId) × (context : EntityId) × (job.automation_context_id
        ≡ some context)
      × (skips_follow_up o e context now r ≡ false)
unfolding skips_of skips_kind
asked-of (some o) (some e) job now r h =
    let (context, i, f) =
      found-false job.automation_context_id (λ c. skips_follow_up o e c now r) h in
    (o, e, context, i, f)
asked-of none e job now r h = absurd (false-true (sym h))
asked-of (some o) none job now r h = absurd (false-true (sym h))

follow_up-asked :
    (job : NotificationRow) (now : Date) (r : Records)
    → job.automation_type ≡ some quote_follow_up
    → should_skip_automation job now r ≡ false
    → (organization : EntityId) × (quote : EntityId) × (context : EntityId)
      × (job.automation_context_id ≡ some context)
      × (skips_follow_up organization quote context now r ≡ false)
unfolding should_skip_automation
follow_up-asked job now r k h = asked-of job.organization_id job.automation_entity_id job now r (
    ap
      (λ (x : Option AutomationType). elim x as (λ y. Bool) [
        | none ↦ false
        | some kind ↦ skips_of kind job.organization_id job.automation_entity_id job now r
      ])
      (sym k)
    ∙ h)

-- What a follow-up that is not skipped has found.
follow_up-found :
    (organization quote context : EntityId) (now : Date) (r : Records)
    → skips_follow_up organization quote context now r ≡ false
    → (s : QuoteShareProps) × (q : QuoteProps) × Memᴰ s r.shares
      × Memᴰ q r.quotes
      × (s.id ≡ context)
      × Offered now s q
unfolding skips_follow_up is_followed
follow_up-found organization quote context now r h =
    let (s, e, f) = found-false (find (is_followed organization quote context now) r.shares) _ h in
    let (q, i, g) = found-false (shared_quote s r.quotes) (is_settled now s) f in
    let (m, a) = find-Mem (is_followed organization quote context now) r.shares s e in
    let (n, b) =
      find-Mem (λ (q : QuoteProps). q.id == s.quote_id && q.organization_id == s.organization_id)
        r.quotes q i in
    (s, q, m, n, ground arith, Offered-parts organization quote context now s q a b g)

-- A mail that reminds a customer of a quote is sent only while its link works. When the follow-up
-- of a notification is not skipped, then its context is a share of the table, with its quote, on
-- which the customer can decide at that moment: either decision succeeds and changes the share.
-- The shares hold whole decisions, and the versions of the quotes are below the largest integer.
pub follow_up-decidable :
    (job : NotificationRow) (now : Date) (r : Records) (d : Decision)
    → job.automation_type ≡ some quote_follow_up
    → ((s : QuoteShareProps) → Memᴰ s r.shares → IsWhole s)
    → ((q : QuoteProps) → Memᴰ q r.quotes → q.version < max_int)
    → should_skip_automation job now r ≡ false
    → (s : QuoteShareProps) × (q : QuoteProps) × Memᴰ s r.shares
      × Memᴰ q r.quotes
      × (job.automation_context_id ≡ some s.id)
      × ((q' : QuoteProps) × (s' : QuoteShareProps) × (decide_share q d (nat s.quote_version) now s
            ≡ ok (true, q', s')))
unfolding should_skip_automation skips_of skips_kind
follow_up-decidable job now r d k whole counted h =
    let (organization, quote, context, c, f) = follow_up-asked job now r k h in
    let (s, q, m, n, i, o) = follow_up-found organization quote context now r f in
    (s, q, m, n, c ∙ ap some (sym i), decides-Offered d now s q o (whole s m) (counted q n))
