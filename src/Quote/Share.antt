-- ===== src/Quote/Share.antt =====
-- `class QuoteShare` (quotes/domain/entities/quoteShare.entity.ts): the public link by which a
-- customer reads a sent quote, decides on it once, or asks for a change.
use bom_trato_api.Prelude.{
  ℕ, Bool, true, false, not, ◌||◌, Option, none, some, ltb, ◌==◌, if◌then◌else◌, EntityId, length,
  is_some, or_else, Num, num_is,
}
use bom_trato_api.Prelude.Result.{Result, ok, ◌>>=◌, ◌>>◌, throw_if, rethrow}
use bom_trato_api.Prelude.Text.{Text, trim}
use bom_trato_api.Prelude.Date.{Date, is_valid, date_le, date_lt, longer_than}
use bom_trato_api.Quote.Types.{
  QuoteStatus, sent, approved, declined, QuoteError, quote_version_conflict,
  invalid_quote_transition, quote_expired, QuoteProps,
}
use bom_trato_api.Quote.Entity.{is_sent, approve, decline, record_change}

pub data QuoteShareError : Type 0 where
  quote_share_not_found invalid_quote_share_expiration quote_share_already_decided : QuoteShareError
  quote_share_change_already_requested invalid_quote_change_request : QuoteShareError

-- The methods throw errors of two classes.
pub data ShareFailure : Type 0 where
  quote_error : QuoteError → ShareFailure
  share_error : QuoteShareError → ShareFailure

pub record QuoteShareProps : Type 0 where
  pub id : EntityId
  pub organization_id : EntityId
  pub quote_id : EntityId
  pub quote_version : ℕ
  pub token_hash : Text
  pub created_by_id : EntityId
  pub created_at : Date
  pub expires_at : Date
  pub revoked_at : Option Date
  pub decision : Option QuoteStatus
  pub decided_at : Option Date
  pub decided_version : Option ℕ
  pub change_requested_at : Option Date
  pub change_request_message : Option Text

-- `'APPROVED' | 'DECLINED'`
pub data Decision : Type 0 where
  approve_it decline_it : Decision

abbrev pub decision_status : Decision → QuoteStatus
decision_status approve_it = approved
decision_status decline_it = declined

abbrev pub same_status : QuoteStatus → QuoteStatus → Bool
same_status QuoteStatus.draft QuoteStatus.draft = true
same_status QuoteStatus.sent QuoteStatus.sent = true
same_status QuoteStatus.approved QuoteStatus.approved = true
same_status QuoteStatus.declined QuoteStatus.declined = true
same_status QuoteStatus.canceled QuoteStatus.canceled = true
same_status _ _ = false

-- `7 * 86400000`
abbrev pub seven_days : ℕ
seven_days = 604800000

abbrev pub limit_reached : Option Date → Date → Bool
limit_reached none now = false
limit_reached (some limit) now = date_le limit now

abbrev pub beyond_limit : Date → Option Date → Bool
beyond_limit expires_at none = false
beyond_limit expires_at (some limit) = date_lt limit expires_at

pub record CreateShareParams : Type 0 where
  pub id : EntityId
  pub token_hash : Text
  pub user_id : EntityId
  pub expires_at : Date

unfoldable pub create_share :
    CreateShareParams → QuoteProps → Date → Result ShareFailure QuoteShareProps
create_share p q now = do
  throw_if (not (is_sent q.status)) (quote_error invalid_quote_transition)
  throw_if (limit_reached q.valid_until now) (quote_error quote_expired)
  throw_if
      (not (is_valid p.expires_at)
        || date_le p.expires_at now
        || longer_than now p.expires_at seven_days
        || beyond_limit p.expires_at q.valid_until)
      (share_error invalid_quote_share_expiration)
  ok (record {
    id = p.id;
    organization_id = q.organization_id;
    quote_id = q.id;
    quote_version = q.version;
    token_hash = p.token_hash;
    created_by_id = p.user_id;
    created_at = now;
    expires_at = p.expires_at;
    revoked_at = none;
    decision = none;
    decided_at = none;
    decided_version = none;
    change_requested_at = none;
    change_request_message = none;
  })

unfoldable pub assert_readable :
    QuoteProps → Date → QuoteShareProps → Result ShareFailure (Unit {0})
assert_readable q now s = do
  throw_if
      (is_some s.revoked_at
        || date_le s.expires_at now
        || not (q.id == s.quote_id)
        || not (q.organization_id == s.organization_id))
      (share_error quote_share_not_found)
  throw_if (not (q.version == or_else s.decided_version s.quote_version))
      (quote_error quote_version_conflict)
  throw_if (not (same_status q.status (or_else s.decision sent)))
      (share_error quote_share_not_found)

abbrev pub decide_quote : Decision → Date → QuoteProps → Result QuoteError QuoteProps
decide_quote approve_it = approve
decide_quote decline_it = decline

-- The decision on a share that has none: the quote is decided, its version grows, and the share
-- keeps the decision with the new version.
unfoldable pub decide_first :
    QuoteProps
    → Decision
    → Date
    → QuoteShareProps
    → Result ShareFailure (Bool × QuoteProps × QuoteShareProps)
decide_first q d now s = do
  decided ← rethrow quote_error (decide_quote d now q)
  q' ← rethrow quote_error (record_change none now decided)
  ok (
    true,
    q',
    record s {
      decision = some (decision_status d);
      decided_at = some now;
      decided_version = some q'.version;
    },
  )

abbrev pub decide_again :
    QuoteStatus
    → QuoteProps
    → Decision
    → QuoteShareProps
    → Result ShareFailure (Bool × QuoteProps × QuoteShareProps)
decide_again earlier q d s = do
  throw_if (not (same_status earlier (decision_status d))) (share_error quote_share_already_decided)
  ok (false, q, s)

-- Whether something changed, with the quote and the share afterwards.
unfoldable pub decide_share :
    QuoteProps
    → Decision
    → Num
    → Date
    → QuoteShareProps
    → Result ShareFailure (Bool × QuoteProps × QuoteShareProps)
decide_share q d version now s = do
  assert_readable q now s
  throw_if (not (num_is version s.quote_version)) (quote_error quote_version_conflict)
  throw_if (is_some s.change_requested_at) (share_error quote_share_change_already_requested)
  elim s.decision [ none ↦ decide_first q d now s | some earlier ↦ decide_again earlier q d s ]

unfoldable pub request_change :
    QuoteProps → Num → Text → Date → QuoteShareProps → Result ShareFailure (Bool × QuoteShareProps)
request_change q version message now s = do
  assert_readable q now s
  throw_if (not (num_is version s.quote_version)) (quote_error quote_version_conflict)
  throw_if (is_some s.decision) (share_error quote_share_already_decided)
  if is_some s.change_requested_at then ok (false, s) else (do
    let text = trim message
    throw_if (ltb (length text) 5 || ltb 2000 (length text))
        (share_error invalid_quote_change_request)
    ok (true, record s { change_requested_at = some now; change_request_message = some text }))
