-- ===== src/Workflow/PublicDecision.antt =====
-- `PublicQuoteApplicationService.decide` (quotes/application/services) over the tables of an
-- organization, with the share's rows as `PrismaQuoteShareRepository` reads and saves them. The
-- notification to the owner is left out.
use bom_trato_api.Prelude.{
  ◌==◌, Bool, true, false, not, ◌&&◌, Option, List, EntityId, ℕ, Num, nat, any, find, is_some,
  update_where,
}
use bom_trato_api.Prelude.Result.{Result, ok, err, or_throw, rethrow, throw_if, ◌>>=◌, ◌>>◌}
use bom_trato_api.Prelude.Text.{Text, text_eq}
use bom_trato_api.Prelude.Date.{Date}
use bom_trato_api.Quote.Types.{QuoteStatus, approved, declined, QuoteProps}
use bom_trato_api.Quote.Share.{
  QuoteShareError, quote_share_not_found, quote_share_already_decided, ShareFailure, share_error,
  QuoteShareProps, Decision, approve_it, decline_it, assert_readable, decide_share,
}
use bom_trato_api.Quote.Store.{find_quote, save_quote}
use bom_trato_api.Receivable.Repository.{Repository}
use bom_trato_api.Workflow.Approval.{WorkflowError, quote_error, Tables, ApprovalParams, start_work}

-- What the service throws: errors of the share and the quote, of the work that is started, or that
-- nothing was recorded.
pub data PublicFailure : Type 0 where
  share_failure : ShareFailure → PublicFailure
  work_failure : WorkflowError → PublicFailure
  not_recorded : PublicFailure

pub record PublicTables (S : Type 0) : Type 0 where
  pub company : Tables S
  pub shares : List QuoteShareProps

-- The request, with the three readings of the clock, what the transaction answers (the owner of the
-- organization, its only assignable member, the default address of the customer), and the fresh
-- identifiers.
pub record DecideParams : Type 0 where
  pub token_hash : Text
  pub version : Num
  pub decision : Decision
  pub owner_id : Option EntityId
  pub assigned_to_id : Option EntityId
  pub service_address : Option Text
  pub order_id : EntityId
  pub item_ids : List EntityId
  pub receivable_id : EntityId
  pub loaded_at : Date
  pub decided_at : Date
  pub started_at : Date

pub record DecisionResult : Type 0 where
  pub status : QuoteStatus
  pub decided_at : Date
  pub version : ℕ

abbrev pub share_missing : PublicFailure
share_missing = share_failure (share_error quote_share_not_found)

unfoldable pub find_share : Text → List QuoteShareProps → Option QuoteShareProps
find_share hash rows = find (λ row. text_eq row.token_hash hash) rows

-- The `where` of `saveDecision`.
unfoldable pub is_undecided : EntityId → QuoteShareProps → Bool
is_undecided id row =
    row.id == id
    && not (is_some row.revoked_at)
    && not (is_some row.decision)
    && not (is_some row.change_requested_at)

abbrev pub decided_row : QuoteShareProps → QuoteShareProps → QuoteShareProps
decided_row state row = record row {
  decision = state.decision;
  decided_at = state.decided_at;
  decided_version = state.decided_version;
}

unfoldable pub save_decision :
    QuoteShareProps → List QuoteShareProps → Result QuoteShareError (List QuoteShareProps)
save_decision state rows = do
  throw_if (not (any (is_undecided state.id) rows)) quote_share_already_decided
  ok (update_where (is_undecided state.id) (decided_row state) rows)

-- The owner starts the work that a customer has approved.
abbrev pub owner_params : DecideParams → EntityId → QuoteProps → ApprovalParams
owner_params p owner q = record {
  user_id = owner;
  quote_id = q.id;
  version = p.version;
  assigned_to_id = p.assigned_to_id;
  service_address = p.service_address;
  order_id = p.order_id;
  item_ids = p.item_ids;
  receivable_id = p.receivable_id;
  now = p.started_at;
}

-- What the service answers, from the share as it is after the call.
unfoldable pub decision_result : QuoteShareProps → Result PublicFailure DecisionResult
decision_result s = do
  status ← or_throw s.decision not_recorded
  decided ← or_throw s.decided_at not_recorded
  version ← or_throw s.decided_version not_recorded
  (elim status [
    | approved ↦ ok (record { status = approved; decided_at = decided; version = version })
    | declined ↦ ok (record { status = declined; decided_at = decided; version = version })
    | _ ↦ err not_recorded
  ])

-- What both calls through the link begin with.
unfoldable pub public_load :
    {S : Type 0}
    → Text
    → Date
    → PublicTables S
    → Result PublicFailure (QuoteProps × QuoteShareProps)
public_load hash now t = do
  s ← or_throw (find_share hash t.shares) share_missing
  q ← or_throw (find_quote s.quote_id t.company.quotes) share_missing
  rethrow share_failure (assert_readable q now s)
  ok (q, s)

module _ {S : Type 0} (repo : Repository S) where
  unfoldable pub start_decided :
      DecideParams → EntityId → QuoteProps → Tables S → Result PublicFailure (Tables S)
  start_decided p owner q t = elim p.decision [
    | approve_it ↦ rethrow work_failure (start_work repo (owner_params p owner q) q t)
    | decline_it ↦ ok t
  ]

  -- What follows a decision that changes something; `version` is that of the quote before it.
  unfoldable pub save_decided :
      DecideParams
      → ℕ
      → QuoteProps
      → QuoteShareProps
      → PublicTables S
      → Result PublicFailure (PublicTables S)
  save_decided p version q s t = do
    quotes ←
        rethrow (λ e. work_failure (quote_error e)) (save_quote q (nat version) t.company.quotes)
    shares ← rethrow (λ e. share_failure (share_error e)) (save_decision s t.shares)
    owner ← or_throw p.owner_id share_missing
    company ← start_decided p owner q (record t.company { quotes = quotes })
    ok (record { company = company; shares = shares })

  unfoldable pub save_if_changed :
      DecideParams
      → ℕ
      → Bool
      → QuoteProps
      → QuoteShareProps
      → PublicTables S
      → Result PublicFailure (PublicTables S)
  save_if_changed p version true q s t = save_decided p version q s t
  save_if_changed p version false q s t = ok t

  unfoldable pub public_decide :
      DecideParams → PublicTables S → Result PublicFailure (DecisionResult × PublicTables S)
  public_decide p t = do
    (q, s) ← public_load p.token_hash p.loaded_at t
    (changed, q', s') ← rethrow share_failure (decide_share q p.decision p.version p.decided_at s)
    t' ← save_if_changed p q.version changed q' s' t
    answer ← decision_result s'
    ok (answer, t')
