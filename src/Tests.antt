-- ===== src/Tests.antt =====
-- Runs of the model, and the theorems at concrete inputs.
mod Samples
mod PolicyRuns
mod LedgerRuns
mod PaymentRuns
mod EscrowRuns
mod PageRuns
mod CheckoutRuns
mod RateRuns
mod OrchestrationRuns
mod ParseRuns
mod WebhookRuns
mod AccessRuns
mod QrRuns
mod ReceiptRuns
mod AgentRuns
mod EnforcementRuns
