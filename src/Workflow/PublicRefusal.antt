-- ===== src/Workflow/PublicRefusal.antt =====
-- About a request for a change through the public link: Workflow/PublicRequest beside
-- Workflow/PublicDecision.
use bom_trato_api.Prelude.{
  ◌≡◌, ◌≢◌, inl, inr, refl, sym, ap, ◌∙◌, Bool, Bool-cases, true, false, none, some, Num,
  if◌then◌else◌, update_where, arith, ==_refl, find-update_where, none-some, some-eq,
}
use bom_trato_api.Prelude.Result.{
  ok, or_throw, or_throw-some, rethrow, rethrow-eq_ok, >>=-eq_ok, ok-eq,
}
use bom_trato_api.Prelude.Text.{Text, text_eq}
use bom_trato_api.Prelude.Date.{Date}
use bom_trato_api.Quote.Types.{QuoteProps}
use bom_trato_api.Quote.Share.{
  QuoteShareProps, Decision, assert_readable, request_change, decide_share,
}
use bom_trato_api.Quote.Store.{find_quote}
use bom_trato_api.Receivable.Repository.{Repository}
use bom_trato_api.Workflow.PublicDecision.{
  share_failure, not_recorded, PublicTables, DecideParams, DecisionResult, share_missing,
  find_share, is_undecided, public_load, public_decide,
}
use bom_trato_api.Workflow.PublicRequest.{
  ChangeParams, requested_row, save_change_request, save_if_requested, public_request_change,
}

-- What a request leaves of the share.
requested-share :
    (q : QuoteProps) (version : Num) (message : Text) (now : Date) (s s' : QuoteShareProps)
    (changed : Bool)
    → request_change q version message now s ≡ ok (changed, s')
    → (changed ≡ is_undecided s.id s) × (changed ≡ false → s' ≡ s) × (s'.id ≡ s.id)
unfolding request_change is_undecided assert_readable
requested-share q version message now s s' changed h = ground (arith, ==_refl s.id)

-- What the request has read and done: the share it found, and whether it changed it.
request-parts :
    {S : Type 0} (p : ChangeParams) (t t' : PublicTables S) (requested : Date)
    → public_request_change p t ≡ ok (requested, t')
    → (q : QuoteProps) × (s : QuoteShareProps) × (changed : Bool) × (s' : QuoteShareProps)
      × (find_share p.token_hash t.shares ≡ some s)
      × (request_change q p.version p.message p.requested_at s ≡ ok (changed, s'))
      × (s'.change_requested_at ≡ some requested)
      × (save_if_requested p changed s' t ≡ ok t')
unfolding public_request_change public_load
request-parts {S = S} p t t' requested h =
    let ((q, s), e, k) = >>=-eq_ok (public_load p.token_hash p.loaded_at t) _ h in
    let (s0, e0, k0) = >>=-eq_ok (or_throw (find_share p.token_hash t.shares) share_missing) _ e in
    let (q0, e1, k1) =
      >>=-eq_ok (or_throw (find_quote s0.quote_id t.company.quotes) share_missing) _ k0 in
    let (_, e2, k2) = >>=-eq_ok (rethrow share_failure (assert_readable q0 p.loaded_at s0)) _ k1 in
    let same : s0 ≡ s = ap (λ (x : QuoteProps × QuoteShareProps). x.1) (ok-eq k2) in
    let ((changed, s'), e3, k3) =
      >>=-eq_ok (rethrow share_failure (request_change q p.version p.message p.requested_at s)) _
        k in
    let (r, e4, k4) = >>=-eq_ok (or_throw s'.change_requested_at not_recorded) _ k3 in
    let (m, e5, k5) = >>=-eq_ok (or_throw s'.change_request_message not_recorded) _ k4 in
    let (t1, e6, k6) = >>=-eq_ok (save_if_requested p changed s' t) _ k5 in
    let own : r ≡ requested = ap (λ (x : Date × PublicTables S). x.0) (ok-eq k6) in
    let left : t1 ≡ t' = ap (λ (x : Date × PublicTables S). x.1) (ok-eq k6) in
    (
      q,
      s,
      changed,
      s',
      or_throw-some (find_share p.token_hash t.shares) share_missing e0 ∙ ap some same,
      rethrow-eq_ok share_failure _ e3,
      or_throw-some s'.change_requested_at not_recorded e4 ∙ ap some own,
      e6 ∙ ap ok left,
    )

saved-request :
    {S : Type 0} (p : ChangeParams) (s : QuoteShareProps) (t t' : PublicTables S)
    → save_if_requested p true s t ≡ ok t'
    → (t'.company ≡ t.company)
      × (t'.shares ≡ update_where (is_undecided s.id) (requested_row s) t.shares)
unfolding save_if_requested save_change_request
saved-request p s t t' h = ground arith

unsaved-request :
    {S : Type 0} (p : ChangeParams) (s : QuoteShareProps) (t t' : PublicTables S)
    → save_if_requested p false s t ≡ ok t'
    → t ≡ t'
unfolding save_if_requested
unsaved-request p s t t' h = ok-eq h

-- The link that a request has found, afterwards: it holds the request.
pub asked-share :
    {S : Type 0} (p : ChangeParams) (t t' : PublicTables S) (requested : Date)
    → public_request_change p t ≡ ok (requested, t')
    → (t'.company ≡ t.company)
      × ((s : QuoteShareProps) × (find_share p.token_hash t'.shares ≡ some s)
          × (s.change_requested_at ≡ some requested))
unfolding find_share
asked-share {S = S} p t t' requested h =
    let (q, s, changed, s', found, asked, noted, saved) = request-parts p t t' requested h in
    let (fresh, kept, same) =
      requested-share q p.version p.message p.requested_at s s' changed asked in
    elim (Bool-cases changed) [
      | inl c ↦
          let (company, shares) =
            saved-request p s' t t' (ap (λ x. save_if_requested p x s' t) (sym c) ∙ saved) in
          let e =
            find-update_where (λ (row : QuoteShareProps). text_eq row.token_hash p.token_hash)
              (is_undecided s'.id) (requested_row s') t.shares s (λ row. refl) found in
          let own : is_undecided s'.id s ≡ true = ap (λ x. is_undecided x s) same ∙ sym fresh ∙ c in
          (
            company,
            (
              requested_row s' s,
              ap (λ x. find_share p.token_hash x) shares
                  ∙ e
                  ∙ ap (λ x. some (if x then requested_row s' s else s)) own,
              noted,
            ),
          )
      | inr c ↦
          let left =
            unsaved-request p s' t t' (ap (λ x. save_if_requested p x s' t) (sym c) ∙ saved) in
          (
            ap (λ (x : PublicTables S). x.company) (sym left),
            (
              s,
              ap (λ (x : PublicTables S). find_share p.token_hash x.shares) (sym left) ∙ found,
              ap (λ (x : QuoteShareProps). x.change_requested_at) (sym (kept c)) ∙ noted,
            ),
          )
    ]

decides-unasked :
    (q : QuoteProps) (d : Decision) (version : Num) (now : Date) (s : QuoteShareProps)
    (r : Bool × QuoteProps × QuoteShareProps)
    → decide_share q d version now s ≡ ok r
    → s.change_requested_at ≡ none
unfolding decide_share
decides-unasked q d version now s r h = ground arith

asked-again :
    (q : QuoteProps) (version : Num) (message : Text) (now asked : Date) (s s' : QuoteShareProps)
    (changed : Bool)
    → s.change_requested_at ≡ some asked
    → request_change q version message now s ≡ ok (changed, s')
    → (changed ≡ false) × (s' ≡ s)
unfolding request_change
asked-again q version message now asked s s' changed a h = ground arith

-- A decision has found a share without a request.
decide-unasked :
    {S : Type 0} (repo : Repository S) (d : DecideParams) (t : PublicTables S)
    (r : DecisionResult × PublicTables S)
    → public_decide repo d t ≡ ok r
    → (s : QuoteShareProps) × (find_share d.token_hash t.shares ≡ some s)
      × (s.change_requested_at ≡ none)
unfolding public_decide public_load
decide-unasked {S = S} repo d t r h =
    let ((q, s), e, k) = >>=-eq_ok (public_load d.token_hash d.loaded_at t) _ h in
    let (s0, e0, k0) = >>=-eq_ok (or_throw (find_share d.token_hash t.shares) share_missing) _ e in
    let (q0, e1, k1) =
      >>=-eq_ok (or_throw (find_quote s0.quote_id t.company.quotes) share_missing) _ k0 in
    let (_, e2, k2) = >>=-eq_ok (rethrow share_failure (assert_readable q0 d.loaded_at s0)) _ k1 in
    let same : s0 ≡ s = ap (λ (x : QuoteProps × QuoteShareProps). x.1) (ok-eq k2) in
    let (r3, e3, k3) =
      >>=-eq_ok (rethrow share_failure (decide_share q d.decision d.version d.decided_at s)) _ k in
    (
      s,
      or_throw-some (find_share d.token_hash t.shares) share_missing e0 ∙ ap some same,
      decides-unasked q d.decision d.version d.decided_at s r3 (rethrow-eq_ok share_failure _ e3),
    )

-- A customer's request for a change stops the link: when the call succeeds, it leaves the quotes,
-- the work orders and the receivables as they are, and afterwards no decision through the same link
-- succeeds, whatever it is and whenever it is made.
pub public_request_change-stops :
    {S : Type 0} (repo : Repository S) (p : ChangeParams) (d : DecideParams) (t t' : PublicTables S)
    (requested : Date) (r : DecisionResult × PublicTables S)
    → public_request_change p t ≡ ok (requested, t')
    → d.token_hash ≡ p.token_hash
    → (t'.company ≡ t.company) × (public_decide repo d t' ≢ ok r)
public_request_change-stops repo p d t t' requested r h i =
    let (company, (s, found, noted)) = asked-share p t t' requested h in
    (
      company,
      λ m.
          let (s4, found4, none4) = decide-unasked repo d t' r m in
          let same : s ≡ s4 =
            some-eq (sym found ∙ ap (λ x. find_share x t'.shares) (sym i) ∙ found4) in
          none-some
            (sym none4 ∙ ap (λ (x : QuoteShareProps). x.change_requested_at) (sym same) ∙ noted),
    )

-- A request that is sent again through the link and succeeds changes nothing, and answers with the
-- time of the first one.
pub public_request_change-again :
    {S : Type 0} (p again : ChangeParams) (t t' t2 : PublicTables S) (requested later : Date)
    → public_request_change p t ≡ ok (requested, t')
    → again.token_hash ≡ p.token_hash
    → public_request_change again t' ≡ ok (later, t2)
    → (later ≡ requested) × (t2 ≡ t')
public_request_change-again p again t t' t2 requested later h j k =
    let (company, (s, found, noted)) = asked-share p t t' requested h in
    let (q, s2, changed, s3, found2, asked2, noted2, saved2) = request-parts again t' t2 later k in
    let same : s ≡ s2 = some-eq (sym found ∙ ap (λ x. find_share x t'.shares) (sym j) ∙ found2) in
    let first = ap (λ (x : QuoteShareProps). x.change_requested_at) (sym same) ∙ noted in
    let (c, e) =
      asked-again q again.version again.message again.requested_at requested s2 s3 changed first
        asked2 in
    (
      some-eq (sym noted2 ∙ ap (λ (x : QuoteShareProps). x.change_requested_at) e ∙ first),
      sym (
          unsaved-request again s3 t' t2
            (ap (λ x. save_if_requested again x s3 t') (sym c) ∙ saved2)),
    )
