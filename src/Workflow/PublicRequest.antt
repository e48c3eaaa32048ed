-- ===== src/Workflow/PublicRequest.antt =====
-- `PublicQuoteApplicationService.requestChange` (quotes/application/services), over the tables of
-- Workflow/PublicDecision. The notification to the owner is left out.
use bom_trato_api.Prelude.{Bool, true, false, not, Option, List, EntityId, Num, any, update_where}
use bom_trato_api.Prelude.Result.{Result, ok, or_throw, rethrow, throw_if, ◌>>=◌, ◌>>◌}
use bom_trato_api.Prelude.Text.{Text}
use bom_trato_api.Prelude.Date.{Date}
use bom_trato_api.Quote.Share.{
  QuoteShareError, quote_share_change_already_requested, share_error, QuoteShareProps,
  request_change,
}
use bom_trato_api.Workflow.PublicDecision.{
  PublicFailure, share_failure, not_recorded, PublicTables, share_missing, is_undecided,
  public_load,
}

-- The request, with the two readings of the clock and the owner of the organization.
pub record ChangeParams : Type 0 where
  pub token_hash : Text
  pub version : Num
  pub message : Text
  pub owner_id : Option EntityId
  pub loaded_at : Date
  pub requested_at : Date

abbrev pub requested_row : QuoteShareProps → QuoteShareProps → QuoteShareProps
requested_row state row = record row {
  change_requested_at = state.change_requested_at;
  change_request_message = state.change_request_message;
}

unfoldable pub save_change_request :
    QuoteShareProps → List QuoteShareProps → Result QuoteShareError (List QuoteShareProps)
save_change_request state rows = do
  throw_if (not (any (is_undecided state.id) rows)) quote_share_change_already_requested
  ok (update_where (is_undecided state.id) (requested_row state) rows)

unfoldable pub save_if_requested :
    {S : Type 0}
    → ChangeParams
    → Bool
    → QuoteShareProps
    → PublicTables S
    → Result PublicFailure (PublicTables S)
save_if_requested p false s t = ok t
save_if_requested p true s t = do
  shares ← rethrow (λ e. share_failure (share_error e)) (save_change_request s t.shares)
  owner ← or_throw p.owner_id share_missing
  ok (record t { shares = shares })

-- The answer is the time of the request that the share holds after the call.
unfoldable pub public_request_change :
    {S : Type 0} → ChangeParams → PublicTables S → Result PublicFailure (Date × PublicTables S)
public_request_change p t = do
  (q, s) ← public_load p.token_hash p.loaded_at t
  (changed, s') ← rethrow share_failure (request_change q p.version p.message p.requested_at s)
  requested ← or_throw s'.change_requested_at not_recorded
  text ← or_throw s'.change_request_message not_recorded
  t' ← save_if_requested p changed s' t
  ok (requested, t')
