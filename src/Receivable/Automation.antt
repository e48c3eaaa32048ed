-- ===== src/Receivable/Automation.antt =====
-- The receivables that the approval of a quote and the completion of its work order make
-- (receivables/application/services/receivableAutomation.service.ts), over the repository.
use bom_trato_api.Prelude.{Option, none, some, EntityId}
use bom_trato_api.Prelude.Transaction.{Tx, ◌>>=◌, ◌>>◌, pure, lift}
use bom_trato_api.Prelude.Date.{Date}
use bom_trato_api.Quote.Types.{QuoteProps}
use bom_trato_api.Receivable.Types.{ReceivableError, ReceivableSource, ReceivableView}
use bom_trato_api.Receivable.Repository.{Repository}
use bom_trato_api.Receivable.Service.{ensure_receivable}
use bom_trato_api.Receivable.Charge.{Charge, assert_same_amount, initial_charge, final_charge}

pub record AutomatedReceivableParams : Type 0 where
  pub organization_id : EntityId
  pub user_id : EntityId
  pub source : ReceivableSource
  pub quote : QuoteProps
  pub fresh_id : EntityId
  pub now : Date

module _ {S : Type 0} (repo : Repository S) where
  unfoldable pub ensure_charge :
      AutomatedReceivableParams
      → Date
      → Option Charge
      → Tx ReceivableError S (Option ReceivableView)
  ensure_charge p due_at none = pure none
  ensure_charge p due_at (some charge) = do
    view ←
        ensure_receivable repo p.organization_id p.user_id p.source charge.kind
          charge.amount_in_cents due_at (some none) p.fresh_id p.now
    pure (some view)

  unfoldable pub ensure_initial_receivable :
      AutomatedReceivableParams → Tx ReceivableError S (Option ReceivableView)
  ensure_initial_receivable p = do
    lift (assert_same_amount p.source p.quote)
    charge ← lift (initial_charge p.quote)
    ensure_charge p p.now charge

  unfoldable pub ensure_final_receivable :
      AutomatedReceivableParams → Date → Tx ReceivableError S (Option ReceivableView)
  ensure_final_receivable p due_at = do
    lift (assert_same_amount p.source p.quote)
    charge ← lift (final_charge p.quote)
    ensure_charge p due_at charge
