-- ===== src/Quote/Sharing.antt =====
-- About the public link of a quote: Quote/Share.
use bom_trato_api.Prelude.{
  ℕ, ◌+◌, ◌≡◌, refl, true, false, Option, none, some, arith, EntityId, Num, num_is,
}
use bom_trato_api.Prelude.Result.{ok, err, rethrow, >>=-eq_ok, rethrow-eq_ok}
use bom_trato_api.Prelude.Text.{Text, trim}
use bom_trato_api.Prelude.Date.{Date, date_le}
use bom_trato_api.Quote.Types.{
  QuoteStatus, sent, approved, declined, quote_version_conflict, QuoteProps,
}
use bom_trato_api.Quote.Entity.{approve, decline, record_change}
use bom_trato_api.Quote.Invariant.{IsValid, approve-IsValid, decline-IsValid, record_change-IsValid}
use bom_trato_api.Quote.Share.{
  QuoteShareProps, quote_error, share_error, quote_share_already_decided,
  quote_share_change_already_requested, Decision, approve_it, decline_it, decision_status,
  CreateShareParams, create_share, assert_readable, decide_first, decide_share, request_change,
  decide_quote, same_status,
}

abbrev pub Whole : Option QuoteStatus → Option Date → Option ℕ → Type 0
Whole none none none = Unit {0}
Whole (some approved) (some t) (some v) = Unit {0}
Whole (some declined) (some t) (some v) = Unit {0}
Whole _ _ _ = ⊥

-- A share has its decision together with the time and the version of it, or none of the three.
abbrev pub IsWhole : QuoteShareProps → Type 0
IsWhole s = Whole s.decision s.decided_at s.decided_version

-- A new link can be read at the time of its creation, and carries the version of the quote.
pub create_share-readable :
    (p : CreateShareParams) (q : QuoteProps) (now : Date) {s : QuoteShareProps}
    → create_share p q now ≡ ok s
    → (assert_readable q now s ≡ ok tt) × (s.quote_version ≡ q.version) × IsWhole s
unfolding create_share assert_readable
create_share-readable p q now h = ground arith

-- The steps of a first decision.
decide_first-parts :
    (q q' : QuoteProps) (s s' : QuoteShareProps) (d : Decision) (now : Date)
    → decide_first q d now s ≡ ok (true, q', s')
    → (r : QuoteProps) × (decide_quote d now q ≡ ok r)
      × (record_change none now r ≡ ok q')
      × (s' ≡ record s {
        decision = some (decision_status d);
        decided_at = some now;
        decided_version = some q'.version;
      })
unfolding decide_first
decide_first-parts q q' s s' d now h =
    let (r, e, k) = >>=-eq_ok (rethrow quote_error (decide_quote d now q)) _ h in
    let (t, f, m) = >>=-eq_ok (rethrow quote_error (record_change none now r)) _ k in
    (
      r,
      rethrow-eq_ok quote_error (decide_quote d now q) e,
      ground (arith, rethrow-eq_ok quote_error (record_change none now r) f),
      ground arith,
    )

-- What a call of `decide` that changes something has checked.
decide_share-parts :
    (q q' : QuoteProps) (s s' : QuoteShareProps) (d : Decision) (version : Num) (now : Date)
    → decide_share q d version now s ≡ ok (true, q', s')
    → (assert_readable q now s ≡ ok tt)
      × (num_is version s.quote_version ≡ true)
      × (s.change_requested_at ≡ none)
      × (s.decision ≡ none)
      × (decide_first q d now s ≡ ok (true, q', s'))
unfolding decide_share
decide_share-parts q q' s s' d version now h = ground arith

decide_quote-IsValid :
    (d : Decision) (now : Date) {q r : QuoteProps}
    → IsValid q
    → decide_quote d now q ≡ ok r
    → IsValid r
decide_quote-IsValid approve_it now v h = approve-IsValid now v h
decide_quote-IsValid decline_it now v h = decline-IsValid now v h

decide_quote_lem :
    (d : Decision) (now : Date) (q r : QuoteProps)
    → decide_quote d now q ≡ ok r
    → (q.status ≡ sent) × (r ≡ record q { status = decision_status d; decided_at = some now })
unfolding approve decline
decide_quote_lem approve_it now q r h = ground arith
decide_quote_lem decline_it now q r h = ground arith

record_change_lem :
    (user : Option EntityId) (now : Date) (q r : QuoteProps)
    → record_change user now q ≡ ok r
    → r ≡ record q { version = q.version + 1; updated_by_id = user; updated_at = now }
unfolding record_change
record_change_lem user now q r h = ground arith

-- The first decision decides the quote, raises its version by one, keeps the decision with that
-- version in the share, and keeps the quote valid.
pub decide_share-first :
    (q q' : QuoteProps) (s s' : QuoteShareProps) (d : Decision) (version : Num) (now : Date)
    → IsValid q
    → decide_share q d version now s ≡ ok (true, q', s')
    → (q.status ≡ sent)
      × (q'.status ≡ decision_status d)
      × (q'.decided_at ≡ some now)
      × (q'.version ≡ q.version + 1)
      × (s'.decision ≡ some (decision_status d))
      × (s'.decided_at ≡ some now)
      × (s'.decided_version ≡ some q'.version)
      × IsValid q'
decide_share-first q q' s s' d version now v h =
    let p = decide_share-parts q q' s s' d version now h in
    let (r, e, f, g) = decide_first-parts q q' s s' d now p.4 in
    let (a, b) = decide_quote_lem d now q r e in
    let c = record_change_lem none now r q' f in
    let w = record_change-IsValid none now (decide_quote-IsValid d now v e) f in
    (a, ground arith, ground arith, ground arith, ground arith, ground arith, ground arith, w)

abbrev pub other : Decision → Decision
other approve_it = decline_it
other decline_it = approve_it

-- A link that could be read can be read until it expires, if only the request for a change is
-- new.
readable_later :
    (q : QuoteProps) (s : QuoteShareProps) (x : Option Date) (m : Option Text) (now later : Date)
    → assert_readable q now s ≡ ok tt
    → date_le s.expires_at later ≡ false
    → assert_readable q later (record s { change_requested_at = x; change_request_message = m })
      ≡ ok tt
unfolding assert_readable
readable_later q s x m now later h unexpired = ground arith

same_status_refl : (x : QuoteStatus) → same_status x x ≡ true
same_status_refl x = ground arith

-- After its first decision the link can be read until it expires.
readable_decided :
    (q q' : QuoteProps) (s : QuoteShareProps) (x : QuoteStatus) (t : Date) (now later : Date)
    → assert_readable q now s ≡ ok tt
    → q'.id ≡ q.id
    → q'.organization_id ≡ q.organization_id
    → q'.status ≡ x
    → date_le s.expires_at later ≡ false
    → assert_readable q' later
        (record s { decision = some x; decided_at = some t; decided_version = some q'.version })
      ≡ ok tt
unfolding assert_readable
readable_decided q q' s x t now later h id org status unexpired = ground (arith, same_status_refl x)

request_change-parts :
    (q : QuoteProps) (s s' : QuoteShareProps) (version : Num) (message : Text) (now : Date)
    → request_change q version message now s ≡ ok (true, s')
    → (assert_readable q now s ≡ ok tt)
      × (num_is version s.quote_version ≡ true)
      × (s.decision ≡ none)
      × (s' ≡ record s {
        change_requested_at = some now;
        change_request_message = some (trim message);
      })
unfolding request_change
request_change-parts q s s' version message now h = ground arith

-- After a decision, and as long as the link has not expired, the same request again succeeds and
-- changes nothing, and the opposite one is refused.
pub decide_share-again :
    (q q' : QuoteProps) (s s' : QuoteShareProps) (d : Decision) (version : Num) (now later : Date)
    → decide_share q d version now s ≡ ok (true, q', s')
    → date_le s.expires_at later ≡ false
    → (decide_share q' d version later s' ≡ ok (false, q', s'))
      × (decide_share q' (other d) version later s' ≡ err (share_error quote_share_already_decided))
unfolding decide_share
decide_share-again q q' s s' d version now later h unexpired =
    let p = decide_share-parts q q' s s' d version now h in
    let (r, e, f, g) = decide_first-parts q q' s s' d now p.4 in
    let (a, b) = decide_quote_lem d now q r e in
    let c = record_change_lem none now r q' f in
    let readable =
      readable_decided q q' s (decision_status d) now now later p.0 (ground arith) (ground arith)
        (ground arith) unexpired in
    rw g (ground arith, ground arith)

-- A request for a change is noted once, blocks every decision through the link from then on, and
-- repeated changes nothing.
pub request_change-blocks :
    (q : QuoteProps) (s s' : QuoteShareProps) (version : Num) (message again : Text) (d : Decision)
    (now later : Date)
    → request_change q version message now s ≡ ok (true, s')
    → date_le s.expires_at later ≡ false
    → (decide_share q d version later s' ≡ err (share_error quote_share_change_already_requested))
      × (request_change q version again later s' ≡ ok (false, s'))
      × (s'.change_requested_at ≡ some now)
unfolding decide_share request_change
request_change-blocks q s s' version message again d now later h unexpired =
    let p = request_change-parts q s s' version message now h in
    let readable = readable_later q s (some now) (some (trim message)) now later p.0 unexpired in
    rw p.3 (ground arith, ground arith, refl)

-- When a member changes the quote behind an undecided link, whatever the change, the version of
-- the quote moves on and the link answers with a conflict.
pub stale_link :
    (q q' r : QuoteProps) (s : QuoteShareProps) (user : Option EntityId) (now later : Date)
    → assert_readable q now s ≡ ok tt
    → IsWhole s
    → s.decision ≡ none
    → r.version ≡ q.version
    → r.id ≡ q.id
    → r.organization_id ≡ q.organization_id
    → record_change user later r ≡ ok q'
    → date_le s.expires_at later ≡ false
    → assert_readable q' later s ≡ err (quote_error quote_version_conflict)
unfolding assert_readable record_change
stale_link q q' r s user now later h whole undecided same id org change unexpired = ground arith
