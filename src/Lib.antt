-- ===== src/Lib.antt =====
-- The business core of an API for service companies: a company sends quotes to its customers, an
-- approved quote becomes a work order, and the work order is charged by receivables that the
-- customer pays; the company subscribes to a plan.
--
-- The parts, and the code that each models (paths from the root of the repository):
--   * Quote: the quote, its items and its public link, src/modules/quotes/domain/entities. Types
--     and errors are in Quote/Types, `QuoteItem` in Item, `Quote` in Entity, `QuoteShare` in
--     Share; the rows are in Store, `QuoteApplicationService` with the use cases in Service.
--   * WorkOrder: src/modules/workOrders. `WorkOrder` is in WorkOrder/Entity, the rows of the table
--     with the search for conflicts in Store, `WorkOrderApplicationService.mutate` in Service, the
--     order that an approval makes in Creation.
--   * Receivable: src/modules/receivables. The entities are in Receivable/Entity, Payment and
--     Validation, the port of the repository with its laws in Repository, the use cases in
--     Service, the charges of quotes and orders (receivableAutomation.service.ts) in Charge and
--     Automation.
--   * Billing: src/modules/billing. `PlanChange`, `PaymentMethodUpdate` and `Subscription` have a
--     file each, `PlanChangeProcessor` is in Processor.
--   * Organization: src/modules/organizations/domain: the policies are in Access, the invitation
--     in Invitation. Onboarding: src/modules/onboarding/domain/policies.
--   * Workflow: the use cases across the tables of quotes, orders and receivables:
--     `ApproveQuoteUseCase` (src/modules/quotes/application) in Workflow/Approval and
--     `CompleteWorkOrderUseCase` (src/modules/workOrders/application) in Workflow/Completion,
--     `CancelWorkOrderUseCase` in Cancellation, each inside the `mutate` of its service.
--     `PublicQuoteApplicationService` (src/modules/quotes/application/services), by which a
--     customer decides or asks for a change, is in Workflow/PublicDecision and PublicRequest; the
--     creation and the revocation of a link, with the follow-up that is queued, are in
--     Workflow/Sharing.
--   * Auth: src/modules/auth and the `User` of src/modules/users. Types are in Auth/Types, the
--     entities in User, Session and Identity, the tables in Store, and the transactions of
--     `PrismaAuthRepository` in Sessions, Rotation, Actions and Identity; the hourly clean-up is in
--     Maintenance.
--   * Billing/Mutex: `PostgresBillingLock`, and Webhook: `PrismaBillingWebhookRepository` in
--     Webhook/Queue and `processEvent` of `BillingWebhookWorker` in Webhook/Worker, all under
--     src/modules/billing/infrastructure; the command `retry-event` of
--     src/scripts/billing/recoverBilling.ts is in Webhook/Queue too.
--   * Lead: src/modules/leads. `Lead` is in Lead/Entity, its table and the request of a visitor in
--     Intake, `ConvertLeadUseCase` in Conversion, which makes a `Customer` (src/modules/customers,
--     in Customer) and a quote. Contact: src/shared/text, in Contact/Email and Contact/Phone.
--   * Notification: src/modules/notifications. The table and its statements are in
--     Notification/Outbox, `NotificationWorker` in Worker, its `shouldSkipAutomation` in
--     Automation.
--   * Prelude: lists, results, texts, numbers, dates and transactions.
-- The parts meet as in the code: `approve_quote` calls `ensure_work_order` and
-- `ensure_initial_receivable`, `complete_work_order` calls `ensure_final_receivable`; every use case
-- asks `assert_can_operate` first. A mail that was queued for a quote, an order or a receivable is
-- sent only when `should_skip_automation` finds it still wanted in their tables.
--
-- How the code is read. An object of a class is its `props`; a method that changes it returns the
-- new ones or the error that it throws, after which the caller drops the object. The body of a
-- transaction is a function on the store that gives a new store or an error, with which the
-- database rolls back. The clock and fresh identifiers are arguments. Identifiers, and the hashes
-- of tokens and passwords that are only compared, are numbers. A text is its list of UTF-16 code
-- units. A number of the language that the code validates is a `Num`; values that its types rule
-- out are not modelled. A date is a count of milliseconds from the earliest date of the language,
-- or invalid. `undefined` in a partial update is an outer `none`, `null` an inner one.
--
-- Bounds. Amounts are natural numbers whose bound of 2 ^ 31 - 1 the code checks; `Math.round(total
-- * p / 100)` is `(total * p + 50) / 100`, which is exact for such totals. All recursion is on
-- lists, no fuel is used.
--
-- What is outside. The database of the receivables is a port with laws, which a store of two lists
-- satisfies (Receivable/ListStore); the tables of quotes and of work orders are lists of rows. The
-- lower case of a text and the answers of the payment provider are parameters. The writing
-- transactions of one organization run one after another, since each locks the row of the
-- organization first (organizationTransaction.ts), so that a use case is one step on the tables.
-- A lock or a queue that several processes use is modelled by its single statements, each atomic,
-- in any order; what the other processes do between two statements of one, what the timer of a
-- lease has found, and what the use cases that the worker calls answer, are parameters.
-- Not modelled: HTTP, the text of mails, the notices in the application, pages of lists, histories,
-- hashing and signing, the use cases of customers, the catalog, reviews, checkout, the copy of the
-- state of the payment provider, and the release of a billing lock by hand, which an operator makes
-- with all workers stopped (src/scripts/billing/recoverBilling.ts).
pub mod Prelude
pub mod Organization
pub mod Quote
pub mod WorkOrder
pub mod Receivable
pub mod Workflow
pub mod Billing
pub mod Onboarding
pub mod Auth
pub mod Contact
pub mod Customer
pub mod Lead
pub mod Notification
pub mod Webhook
