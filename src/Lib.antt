-- ===== src/Lib.antt =====
-- A verification library for the payment gateway.
--
-- The gateway takes payments in cryptocurrency for merchants. A payment intent is created, quoted,
-- paid by a transfer on a chain, confirmed, routed and settled. The intent service drives an intent
-- through its states by the repository, which keeps a row and an append-only log of events for
-- each; webhooks tell the merchant. The worker runs what is asynchronous from a durable job queue.
-- The settlement service pays the merchant and records the payout in a double-entry ledger. A
-- rate lock fixes an exchange rate for an intent, and a circuit breaker guards the calls to liquidity
-- providers.
--
-- Which file models which code:
-- - Prelude and its children: Boolean tests, lists, tables by key, signed integers, and actions
--   that may throw. A `throw` keeps earlier writes, and a transaction undoes them.
-- - Intent.State: packages/shared/src/types/payment-intent.ts (VALID_TRANSITIONS),
--   isValidTransition of packages/shared/src/utils/index.ts and getExpectedNextState.
-- - Intent.Data: the rows of those tables and the store that holds them.
-- - Intent.Repository: packages/payment-intent/src/payment-intent.repository.ts. `create`,
--   `transition` and `update_quote` are its writes.
-- - Intent.Webhook: packages/payment-intent/src/webhook-delivery.service.ts. `deliver_webhook` and
--   `process_retries` are its entries; `sent` collects the requests that leave the process.
-- - Intent.Service and Intent.Deposits: packages/payment-intent/src/payment-intent.service.ts, the
--   second for `detectDeposit` and `recordDeposit`; Intent.Lifecycle is about the creation and the
--   way to settlement.
-- - Jobs: packages/worker/src/job-queue.ts. Jobs.Worker has the handlers, of which each is any
--   function of the job and a world, and one batch.
-- - Ledger: packages/settlement/src/ledger.repository.ts and ledger.service.ts; Ledger.Queries has
--   what only reads.
-- - Settlement.Repository and Settlement.Service: packages/settlement/src/settlement.repository.ts
--   and settlement.service.ts.
-- - Reconciliation: packages/reconciliation/src/reconciliation.service.ts. Reconciliation.Checks has
--   the five checks, Reconciliation.Run the run of a period and the export, Reconciliation.Reports
--   the reports, and Reconciliation.Spec what a period must satisfy.
-- - Compliance: packages/compliance/src. Compliance.Velocity is velocity-checker.ts,
--   Compliance.Records, Compliance.Orchestrator and Compliance.Audit are
--   compliance-orchestrator.ts; the risk scorer is a parameter. Compliance.Gate is compliance-gate.ts
--   of packages/rate-lock/src, Compliance.Factors and Compliance.BasicScorer basic-risk-scorer.ts.
-- - Chains: packages/chain-abstraction/src/chain-registry.ts.
-- - Gas and Gas.Service: packages/gas-abstraction/src/gas-abstraction.service.ts, with the amounts of a
--   floating-point number in whole units.
-- - Recovery: packages/recovery/src, with recovery.repository.ts in Recovery and
--   recovery.service.ts in Recovery.Detection and Recovery.Service.
-- - Worker: packages/worker/src. Worker.Handlers is job-handlers.ts, Worker.Watcher deposit-watcher.ts
--   and Worker.Tracker confirmation-tracker.ts. They run over the store of the intents and the
--   table of the jobs.
-- - Routing.CircuitBreaker: packages/routing-engine/src/circuit-breaker.ts. `enter` and `leave`
--   are the parts of `execute` around its wait.
-- - Routing.Scorer, Routing.Registry and Routing.Engine: route-scorer.ts, provider-registry.ts,
--   base-route-provider.ts and route-engine.ts of packages/routing-engine/src, over the types of
--   Routing.Quotes (packages/shared/src/types/routing.ts). A provider's network calls are its fields.
-- - RateLock: packages/rate-lock/src/rate-lock.service.ts.
-- - Examples: inputs, and each theorem with conditions applied to one of them.
--
-- How the code is read:
-- - Amounts are integers of 10⁻⁸ units, the scale of the DECIMAL columns, where the code has
--   floating-point numbers; a fee is in hundredths of a percent. Comparisons with a tolerance are
--   multiplied out. Rounding errors of floating point are not modelled.
-- - Identifiers, addresses, chains, assets and hashes are numbers, and 0 is the empty string.
-- - The clock is an argument, read once in a method; a generated identifier is an argument too.
-- - Tables are lists in the order of insertion, which is the order of created_at; the intents are
--   kept newest first. A query does not fail unless a definition says so; the settlement takes the
--   answer to each of the ledger's two writes as a parameter. A statement, and a transaction, is one
--   step.
--   Workers that skip each other's locked rows are read as one claim after the other.
-- - Random jitter is an argument. Chain clients, the HMAC and merchants' servers are parameters.
-- - The polling loop of the settlement runs on fuel: 151 passes of at least two seconds are more
--   than its five minutes, and a theorem says that this is enough.
--
-- Not modelled: the HTTP clients of the route providers, the price oracle,
-- the clients of risk scorers, the chain clients, the
-- timers of the worker, HTTP routes, authentication and the dashboard.
pub mod Prelude
pub mod Intent
pub mod Jobs
pub mod Ledger
pub mod Settlement
pub mod RateLock
pub mod Routing
pub mod Worker
pub mod Reconciliation
pub mod Chains
pub mod Gas
pub mod Compliance
pub mod Recovery
pub mod Examples
