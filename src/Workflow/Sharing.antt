-- ===== src/Workflow/Sharing.antt =====
-- `CreateQuoteShareUseCase` and `RevokeQuoteShareUseCase` (quotes/application/useCases) over the
-- quotes, the public links and the outbox of notifications.
use bom_trato_api.Prelude.{
  ◌==◌, Bool, not, ◌&&◌, Option, none, some, List, ◌∷◌, EntityId, ℕ, Num, is_some, if◌then◌else◌,
  update_where,
}
use bom_trato_api.Prelude.Result.{Result, ok, or_throw, rethrow, ◌>>=◌, ◌>>◌}
use bom_trato_api.Prelude.Text.{Text}
use bom_trato_api.Prelude.Date.{Date, add_ms, date_lt}
use bom_trato_api.Organization.Access.{AccessContext, assert_can_operate, assert_verified_member}
use bom_trato_api.Quote.Types.{QuoteError, quote_not_found, organization_not_found, QuoteProps}
use bom_trato_api.Quote.Entity.{assert_version}
use bom_trato_api.Quote.Store.{find_quote}
use bom_trato_api.Quote.Share.{
  ShareFailure, quote_error, QuoteShareProps, CreateShareParams, create_share,
}
use bom_trato_api.Notification.Outbox.{
  quote_follow_up, NotificationRow, EnqueueNotification, insert,
}
use bom_trato_api.Workflow.Approval.{quote_denied}

pub record ShareTables : Type 0 where
  pub quotes : List QuoteProps
  pub shares : List QuoteShareProps
  pub outbox : List NotificationRow

-- The request, with what the organization has set (`none` when it is not found), the fresh
-- identifiers and the token, and the message of the follow-up as it is encrypted.
pub record ShareParams : Type 0 where
  pub quote_id : EntityId
  pub version : Num
  pub share : CreateShareParams
  pub auto_follow_up : Option Bool
  pub notification_id : EntityId
  pub notification_key : Text
  pub encrypted_payload : Text
  pub now : Date

-- The columns of a link that is revoked.
abbrev pub revoked : Date → QuoteShareProps → QuoteShareProps
revoked now row = record row { revoked_at = some now }

abbrev pub is_unrevoked : EntityId → QuoteShareProps → Bool
is_unrevoked quote_id row = row.quote_id == quote_id && not (is_some row.revoked_at)

unfoldable pub revoke_for_quote : EntityId → Date → List QuoteShareProps → List QuoteShareProps
revoke_for_quote quote_id now rows = update_where (is_unrevoked quote_id) (revoked now) rows

-- `48 * 60 * 60 * 1000`
abbrev pub follow_up_delay_ms : ℕ
follow_up_delay_ms = 172800000

abbrev pub follow_up_at : ShareParams → Date
follow_up_at p = add_ms p.now follow_up_delay_ms

-- Whether a follow-up is queued.
unfoldable pub wants_follow_up : ShareParams → Bool → QuoteProps → QuoteShareProps → Bool
wants_follow_up p enabled q s =
    enabled && is_some q.customer_email && date_lt (follow_up_at p) s.expires_at

abbrev pub follow_up : ShareParams → QuoteProps → QuoteShareProps → EnqueueNotification
follow_up p q s = record {
  id = p.notification_id;
  key = p.notification_key;
  encrypted_payload = p.encrypted_payload;
  available_at = some (follow_up_at p);
  expires_at = s.expires_at;
  automation = some (record {
    organization_id = q.organization_id;
    kind = quote_follow_up;
    entity_id = q.id;
    context_id = some s.id;
    reference_at = none;
  });
}

-- From the loaded quote on; the answer is the link.
unfoldable pub share_loaded :
    ShareParams → QuoteProps → ShareTables → Result ShareFailure (QuoteShareProps × ShareTables)
share_loaded p q t = do
  rethrow quote_error (assert_version p.version q)
  s ← create_share p.share q p.now
  enabled ← or_throw p.auto_follow_up (quote_error organization_not_found)
  let outbox =
      if wants_follow_up p enabled q s then insert (follow_up p q s) p.now t.outbox else t.outbox
  ok (s, record t { shares = s ∷ revoke_for_quote p.quote_id p.now t.shares; outbox = outbox })

unfoldable pub create_quote_share :
    AccessContext → ShareParams → ShareTables → Result ShareFailure (QuoteShareProps × ShareTables)
create_quote_share access p t = do
  rethrow quote_error (assert_can_operate access quote_denied)
  q ← rethrow quote_error (or_throw (find_quote p.quote_id t.quotes) quote_not_found)
  share_loaded p q t

unfoldable pub revoke_quote_share :
    AccessContext → EntityId → Date → ShareTables → Result QuoteError ShareTables
revoke_quote_share access quote_id now t = do
  assert_verified_member access quote_denied
  q ← or_throw (find_quote quote_id t.quotes) quote_not_found
  ok (record t { shares = revoke_for_quote quote_id now t.shares })
