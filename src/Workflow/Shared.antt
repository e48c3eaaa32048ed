-- ===== src/Workflow/Shared.antt =====
-- About the links and the follow-ups of Workflow/Sharing, beside Notification/Automation.
use mathlib.Core.Path.{subst}
use bom_trato_api.Prelude.{
  ◌≡◌, ◌≢◌, inl, inr, refl, sym, ap, ◌∙◌, Bool, Bool-cases, true, false, ◌&&◌, ◌||◌, Option, none,
  some, List, [], ◌∷◌, Memᴰ, EntityId, any, find, find-Mem, is_some, if◌then◌else◌,
  update_where-Mem, arith, ◌==◌, ==_refl, ==→eq, false-true, some-eq, none-some,
}
use bom_trato_api.Prelude.Result.{
  ok, or_throw, or_throw-some, rethrow, rethrow-eq_ok, >>=-eq_ok, ok-eq,
}
use bom_trato_api.Prelude.Text.{text_eq}
use bom_trato_api.Prelude.Date.{Date, date_lt}
use bom_trato_api.Organization.Access.{AccessContext, assert_can_operate}
use bom_trato_api.Quote.Types.{QuoteProps, sent, quote_not_found, organization_not_found}
use bom_trato_api.Quote.Entity.{assert_version}
use bom_trato_api.Quote.Store.{find_quote}
use bom_trato_api.Quote.Share.{
  QuoteShareProps, CreateShareParams, create_share, quote_error, beyond_limit,
}
use bom_trato_api.Notification.Outbox.{NotificationRow, insert, new_row}
use bom_trato_api.Notification.Automation.{
  Records, is_followed, is_settled, is_past, shared_quote, skips_follow_up, skips_kind, skips_of,
  should_skip_automation,
}
use bom_trato_api.Workflow.Approval.{quote_denied}
use bom_trato_api.Workflow.Sharing.{
  ShareTables, ShareParams, is_unrevoked, revoked, revoke_for_quote, follow_up_at, wants_follow_up,
  follow_up, share_loaded, create_quote_share,
}

-- What a new link is like.
record Issued (p : CreateShareParams) (q : QuoteProps) (s : QuoteShareProps) : Type 0 where
  pub own_id : s.id ≡ p.id
  pub of_quote : s.quote_id ≡ q.id
  pub of_organization : s.organization_id ≡ q.organization_id
  pub own_version : s.quote_version ≡ q.version
  pub unrevoked : s.revoked_at ≡ none
  pub undecided : s.decision ≡ none
  pub no_request : s.change_requested_at ≡ none
  pub offered : q.status ≡ sent
  pub within : beyond_limit s.expires_at q.valid_until ≡ false

create_share-Issued :
    (p : CreateShareParams) (q : QuoteProps) (now : Date) (s : QuoteShareProps)
    → create_share p q now ≡ ok s
    → Issued p q s
unfolding create_share
create_share-Issued p q now s h = record {
  own_id = ground arith;
  of_quote = ground arith;
  of_organization = ground arith;
  own_version = ground arith;
  unrevoked = ground arith;
  undecided = ground arith;
  no_request = ground arith;
  offered = ground arith;
  within = ground arith;
}

find-both :
    (id organization : EntityId) (rows : List QuoteProps) (q : QuoteProps)
    → find (λ row. row.id == id) rows ≡ some q
    → q.organization_id ≡ organization
    → find (λ row. row.id == id && row.organization_id == organization) rows ≡ some q
find-both id organization [] q h o = ground arith
find-both id organization (row ∷ rows) q h o = elim (Bool-cases (row.id == id)) [
  | inl t ↦
      let same : row ≡ q = ground arith in
      let own : (row.organization_id == organization) ≡ true =
        ap (λ (x : QuoteProps). x.organization_id == organization) same
        ∙ ap (λ x. x == organization) o
        ∙ ==_refl organization in
      rw (t, own) (ap some same)
  | inr f ↦
      let rest : find (λ (x : QuoteProps). x.id == id) rows ≡ some q = ground arith in
      rw f (find-both id organization rows q rest o)
]

not-past :
    (later expires : Date) (limit : Option Date)
    → beyond_limit expires limit ≡ false
    → date_lt later expires ≡ true
    → is_past limit later ≡ false
not-past later expires none b l = refl
not-past later expires (some limit) b l = ground arith

-- The tables as the worker of notifications reads them.
abbrev pub records_of : ShareTables → Records
records_of t = record {
  shares = t.shares;
  quotes = t.quotes;
  orders = [];
  receivables = [];
  invitations = [];
  reviewed = [];
}

followed :
    (p : ShareParams) (q : QuoteProps) (s : QuoteShareProps) (later : Date)
    → Issued p.share q s
    → date_lt later s.expires_at ≡ true
    → is_followed q.organization_id q.id s.id later s ≡ true
unfolding is_followed
followed p q s later i l =
    rw
      (
        ==_refl s.id,
        i.of_quote,
        i.of_organization,
        ==_refl q.id,
        ==_refl q.organization_id,
        i.unrevoked,
        i.undecided,
        i.no_request,
        l,
      )
      refl

unsettled :
    (p : ShareParams) (q : QuoteProps) (s : QuoteShareProps) (later : Date)
    → Issued p.share q s
    → date_lt later s.expires_at ≡ true
    → is_settled later s q ≡ false
unfolding is_settled
unsettled p q s later i l =
    let past = not-past later s.expires_at q.valid_until i.within l in
    rw (i.offered, i.own_version, ==_refl q.version, past) refl

quote-there :
    (p : ShareParams) (q : QuoteProps) (s : QuoteShareProps) (quotes : List QuoteProps)
    → Issued p.share q s
    → find_quote p.quote_id quotes ≡ some q
    → shared_quote s quotes ≡ some q
unfolding find_quote
quote-there p q s quotes i f =
    let (m, e) = find-Mem (λ (row : QuoteProps). row.id == p.quote_id) quotes q f in
    let same : s.quote_id ≡ p.quote_id = i.of_quote ∙ ==→eq q.id p.quote_id e in
    find-both s.quote_id s.organization_id quotes q
      (ap (λ x. find (λ (row : QuoteProps). row.id == x) quotes) same ∙ f) (sym i.of_organization)

wanted :
    (p : ShareParams) (q : QuoteProps) (s : QuoteShareProps) (rest : List QuoteShareProps)
    (t : ShareTables) (later : Date)
    → Issued p.share q s
    → find_quote p.quote_id t.quotes ≡ some q
    → t.shares ≡ s ∷ rest
    → date_lt later s.expires_at ≡ true
    → should_skip_automation (new_row (follow_up p q s) p.now) later (records_of t) ≡ false
unfolding should_skip_automation skips_of skips_kind skips_follow_up
wanted p q s rest t later i f e l =
    let test = is_followed q.organization_id q.id s.id later in
    let a : test s ≡ true = followed p q s later i l in
    let b : find test t.shares ≡ some s =
      ap (find test) e ∙ ap (λ x. if x then some s else find test rest) a in
    let c = quote-there p q s t.quotes i f in
    let d = unsettled p q s later i l in
    ap
      (λ (x : Option QuoteShareProps). elim x as (λ y. Bool) [
        | none ↦ true
        | some y ↦ elim (shared_quote y t.quotes) as (λ z. Bool) [
          | none ↦ true
          | some z ↦ is_settled later y z
        ]
      ])
      b
    ∙ ap
        (λ (x : Option QuoteProps). elim x as (λ z. Bool) [
          | none ↦ true
          | some z ↦ is_settled later s z
        ])
        c
    ∙ d

abbrev share_tables : ShareParams → ShareTables → Bool → QuoteProps → QuoteShareProps → ShareTables
share_tables p t enabled q s = record {
  quotes = t.quotes;
  shares = s ∷ revoke_for_quote p.quote_id p.now t.shares;
  outbox =
      if wants_follow_up p enabled q s then insert (follow_up p q s) p.now t.outbox else t.outbox;
}

-- What the call has done.
share-parts :
    (access : AccessContext) (p : ShareParams) (t t' : ShareTables) (s : QuoteShareProps)
    → create_quote_share access p t ≡ ok (s, t')
    → (q : QuoteProps) × (enabled : Bool) × (find_quote p.quote_id t.quotes ≡ some q)
      × Issued p.share q s
      × (p.auto_follow_up ≡ some enabled)
      × (t' ≡ record {
        quotes = t.quotes;
        shares = s ∷ revoke_for_quote p.quote_id p.now t.shares;
        outbox =
            if wants_follow_up p enabled q s
            then insert (follow_up p q s) p.now t.outbox
            else t.outbox;
      })
unfolding create_quote_share share_loaded
share-parts access p t t' s h =
    let (_, e0, k0) =
      >>=-eq_ok (rethrow quote_error (assert_can_operate access quote_denied)) _ h in
    let (q, e1, k1) =
      >>=-eq_ok (rethrow quote_error (or_throw (find_quote p.quote_id t.quotes) quote_not_found)) _
        k0 in
    let (_, e2, k2) = >>=-eq_ok (rethrow quote_error (assert_version p.version q)) _ k1 in
    let (x, e3, k3) = >>=-eq_ok (create_share p.share q p.now) _ k2 in
    let (enabled, e4, k4) =
      >>=-eq_ok (or_throw p.auto_follow_up (quote_error organization_not_found)) _ k3 in
    let same : x ≡ s = ap (λ (y : QuoteShareProps × ShareTables). y.0) (ok-eq k4) in
    let made = share_tables p t enabled q in
    (
      q,
      enabled,
      or_throw-some (find_quote p.quote_id t.quotes) quote_not_found
          (rethrow-eq_ok quote_error _ e1),
      subst (Issued p.share q) same (create_share-Issued p.share q p.now x e3),
      or_throw-some p.auto_follow_up (quote_error organization_not_found) e4,
      ap (λ (y : QuoteShareProps × ShareTables). y.1) (sym (ok-eq k4)) ∙ ap made same,
    )

unrevoked-of :
    (quote : EntityId) (row : QuoteShareProps)
    → row.quote_id ≡ quote
    → row.revoked_at ≡ none
    → is_unrevoked quote row ≡ true
unrevoked-of quote row a b = rw (a, b, ==_refl quote) refl

still-open :
    (quote : EntityId) (now : Date) (row row' : QuoteShareProps)
    → row' ≡ (if is_unrevoked quote row then revoked now row else row)
    → row'.quote_id ≡ quote
    → row'.revoked_at ≢ none
still-open quote now row row' e q n = elim (Bool-cases (is_unrevoked quote row)) [
  | inl t ↦
      let k : row' ≡ revoked now row = e ∙ rw t refl in
      none-some (sym n ∙ ap (λ (x : QuoteShareProps). x.revoked_at) k)
  | inr f ↦
      let k : row' ≡ row = e ∙ rw f refl in
      let a : row.quote_id ≡ quote = ap (λ (x : QuoteShareProps). x.quote_id) (sym k) ∙ q in
      let b : row.revoked_at ≡ none = ap (λ (x : QuoteShareProps). x.revoked_at) (sym k) ∙ n in
      false-true (sym f ∙ unrevoked-of quote row a b)
]

-- A revocation leaves no open link of the quote.
revoked-closed :
    (quote : EntityId) (now : Date) (rows : List QuoteShareProps) (row : QuoteShareProps)
    → Memᴰ row (revoke_for_quote quote now rows)
    → row.quote_id ≡ quote
    → row.revoked_at ≢ none
unfolding revoke_for_quote
revoked-closed quote now rows row' m q n =
    let (row, k, e) = update_where-Mem (is_unrevoked quote) (revoked now) rows m in
    still-open quote now row row' e q n

-- When a link is created, every other link of its quote is revoked: of the links that the call
-- leaves, the only one that belongs to the quote and is not revoked is the new one.
pub create_quote_share-one_link :
    (access : AccessContext) (p : ShareParams) (t t' : ShareTables) (s row : QuoteShareProps)
    → create_quote_share access p t ≡ ok (s, t')
    → Memᴰ row t'.shares
    → row.quote_id ≡ p.quote_id
    → row.revoked_at ≡ none
    → row ≡ s
create_quote_share-one_link access p t t' s row h m q n =
    let (_, _, _, _, _, e) = share-parts access p t t' s h in
    one (subst (λ (x : ShareTables). Memᴰ row x.shares) e m)
  where
    one : Memᴰ row (s ∷ revoke_for_quote p.quote_id p.now t.shares) → row ≡ s
    one (Memᴰ.head k) = k
    one (Memᴰ.tail k) = absurd (revoked-closed p.quote_id p.now t.shares row k q n)

-- The follow-up of a link is queued and wanted. When a link is created, the organization has
-- follow-ups turned on, the customer has an address, the link lasts longer than two days, and the
-- identifier and the key of the notification are new to the outbox, then the notification is in the
-- outbox, with the rest of it as it was, and on the tables that the call leaves
-- `should_skip_automation` does not skip the new row at any time before the link expires.
pub create_quote_share-follow_up :
    (access : AccessContext) (p : ShareParams) (t t' : ShareTables) (s : QuoteShareProps)
    (q : QuoteProps) (later : Date)
    → create_quote_share access p t ≡ ok (s, t')
    → find_quote p.quote_id t.quotes ≡ some q
    → p.auto_follow_up ≡ some true
    → is_some q.customer_email ≡ true
    → date_lt (follow_up_at p) s.expires_at ≡ true
    → any
        (λ (row : NotificationRow).
          row.id == p.notification_id || text_eq row.key p.notification_key)
        t.outbox
      ≡ false
    → date_lt later s.expires_at ≡ true
    → (t'.outbox ≡ new_row (follow_up p q s) p.now ∷ t.outbox)
      × (should_skip_automation (new_row (follow_up p q s) p.now) later (records_of t') ≡ false)
unfolding wants_follow_up insert
create_quote_share-follow_up access p t t' s q later h found on mail long fresh l =
    let (x, enabled, f, i, a, e) = share-parts access p t t' s h in
    let same : x ≡ q = some-eq (sym f ∙ found) in
    let i' = subst (λ y. Issued p.share y s) same i in
    let yes : enabled ≡ true = some-eq (sym a ∙ on) in
    let quotes : t'.quotes ≡ t.quotes = ap (λ (y : ShareTables). y.quotes) e in
    let wants : wants_follow_up p enabled x s ≡ true =
      ap (λ y. wants_follow_up p enabled y s) same
      ∙ ap (λ y. wants_follow_up p y q s) yes
      ∙ rw (mail, long) refl in
    (
      ap (λ (y : ShareTables). y.outbox) e
          ∙ ap (λ y. if y then insert (follow_up p x s) p.now t.outbox else t.outbox) wants
          ∙ ap (λ y. insert (follow_up p y s) p.now t.outbox) same
          ∙ rw fresh refl,
      wanted p q s (revoke_for_quote p.quote_id p.now t.shares) t' later i'
          (ap (find_quote p.quote_id) quotes ∙ found) (ap (λ (y : ShareTables). y.shares) e) l,
    )
