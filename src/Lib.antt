-- ===== src/Lib.antt =====
-- FINAL: payment requests in USDC on Arc, settled by memo transactions.
--
-- The program's core is a set of pure decisions over stored documents, each wrapped in a loop that reads
-- a document, evaluates it and writes it back by compare-and-set. Merchants register payment rows
-- (src/lib/payStore.ts); a verified chain proof settles a row; machine payments pass the merchant's
-- policies (src/lib/paymentPolicy.ts) and reserve their amount in a ledger (src/lib/policyLedger.ts)
-- before they are stored, and are settled by a proof that binds their terms
-- (src/lib/agentPayments.ts); escrows (src/lib/escrowTerms.ts) follow the logs of their contract.
--
-- Files, and the code they model:
--
--   Base          texts as lists of code units, JavaScript's dictionaries and integers, the address
--                 functions of viem as an interface
--   Policy        src/lib/paymentPolicy.ts: `evaluatePaymentPolicy` is `evaluate_payment_policy`; each
--                 rule of its loop is a function from the rule to the reasons that it pushes;
--                 `parsePolicyRules` is `parse_policy_rules` (Policy/Parse)
--   Ledger        src/lib/policyLedger.ts: `recoverReservations`, `committedForCap`; below it the store
--                 with its compare-and-set (Ledger/Store), `reserveSpendAtomically` (Ledger/Reserve),
--                 `transitionReservation` (Ledger/Transition), and the rounds of any callers on one
--                 store (Ledger/Interleaving)
--   Payments      src/lib/payStore.ts: what becomes of a row, `applySettlementToStore` and the other
--                 mutators of rows (Payments/Settle)
--   Orchestration src/lib/settlement.ts: `settleAndEnqueue` with the outbox of `payment.paid`
--                 (Orchestration/Enqueue) and `submitTransactionHash` (Orchestration/Submit)
--   Checkout      src/lib/checkoutState.ts, src/lib/paySheetStatus.ts and the phases of
--                 src/lib/payRequest.ts: what a payer is shown and offered
--   RateLimit     src/lib/publicRateLimit.ts: `FixedWindowLimiter`; the Redis counter of
--                 src/lib/distributedRateLimit.ts (RateLimit/Redis), and `legacyAllow` and
--                 `requestClientKey` (RateLimit/Legacy)
--   Escrow        src/lib/escrowTerms.ts: `applyEscrowTransition`, and `matchEscrowEvent` (Escrow/Events)
--   LogPages      src/lib/logPages.ts: `logBlockPages`
--   Webhooks      src/lib/webhooks.ts and src/lib/webhooksCatalog.ts: the mutators of the deliveries
--                 (Webhooks/Queue) and when a row is due (Webhooks/Schedule); where a request may go,
--                 with `isBlockedIp` and `assertSafeWebhookDestination` (Webhooks/Destination);
--                 `deliverOnce` (Webhooks/Deliver) and `processDueWebhookDeliveries` (Webhooks/Due)
--   Access        src/lib/apiKeys.ts and src/lib/walletNonce.ts: `recoverWalletMerchant` and
--                 `consumeWalletNonce` (Access/Wallet), `authenticateAuthorization` (Access/Keys),
--                 `createKey` (Access/Caps)
--   Qr            src/lib/paymentQr.ts: the bit buffer (Qr/Bits), versions (Qr/Version), the data bits of
--                 `encodeData` (Qr/Payload), the finite field and `rsEncode` (Qr/Field)
--   Receipts      src/lib/finalRequest.ts: `validateFinalRequest`, `recoverFinalRequestSigner`;
--                 src/lib/receipt.ts: the decoding of logs (Receipts/Logs), `bindTransfer`
--                 (Receipts/Window), `parseMemoReceipt` and `verifyReceiptForRequest`
--                 (Receipts/Verify); src/lib/arcProof.ts: `verifyArcTransaction` (Receipts/ArcProof)
--   Agents        src/lib/agentPayments.ts: the rows of intents, `canonicalJson` (Agents/Canonical),
--                 `persistTouched` and `remember` (Agents/Section), `bindProof` and what follows a proof
--                 (Agents/Proof), the reading of a request and `loadOwned` (Agents/Load),
--                 `submitAgentPaymentIntent` (Agents/Submit) and the handlers (Agents/Handlers);
--                 `findStoredRequest` of src/lib/developerApi.ts (Agents/Load)
--   Enforcement   src/lib/paymentPolicies.ts: `decideMachinePolicy` (Enforcement/Decide)
--   Tests         runs on concrete inputs, and each theorem at one of them
--
-- Texts are lists of code units, and lower case is that of ASCII: the program lowers hexadecimal ids,
-- hashes and addresses only. Numbers are integers, natural numbers where the source has `bigint` or a
-- count, so a fraction or NaN is outside of the model except as a `Value`. A missing property, `null` and
-- `undefined` are `none`. Stored rows are typed records: the `typeof` tests of their readers hold by type,
-- and the tests that a type does not settle are in the model. An empty transaction hash does not occur.
-- Amounts that the source hands to `BigInt` unchecked are read as decimal digits. In the ledger, the JSON
-- text of a document is a type with an equality test, a parser and a printer, whose round trip is a
-- hypothesis where it is needed. Other callers and failures of the connection are events that happen
-- before each operation of one caller, so a run of a caller is a run in any interleaving. Of the two
-- ledgers the Redis one is modelled; the file ledger compares in the same way within one process.
--
-- `sha256`, the printing of numbers and dates, random ids and the JSON text of a webhook's envelope are
-- parameters; that random ids are new and never repeat is a hypothesis where it is needed. The limiters'
-- clocks are whole seconds, and a Redis counter is its value and the second at which it expires. A request
-- to such a counter may fail before or after Redis has run it. A call
-- of `mutatePayStoreBlob` is one step on the store; the check of a transaction on the chain is an
-- argument of `submit_transaction_hash`, as it is in the source, and other writers may change the store
-- between its steps.
--
-- A webhook's run is a chain of steps on the store: before each step, other callers may change the store
-- in any way, given by a function of the step's number; the clock, random ids, the resolver and the
-- answers of the receivers are functions of that number too. Two readings of the clock with no step
-- between them agree. Webhook times are whole seconds since 1970, `toISOString` and `Date.parse` are a
-- `WebhookClock`, and stored times and lease tokens are not empty. A stored delivery that `asDelivery` cannot read has no
-- fields in the model, so `hasDelivery` of src/lib/settlement.ts, which would compare the fields of such a
-- row, passes it over. The order in which the source sorts rows
-- leaves ties open, so the sorts are arguments. The URL parser, `isIP`, the resolver, HMAC, the
-- decryption of a webhook's secret and the parser of stored bodies are parameters. In Access, hashing, the
-- recovery of a signer, the shared counters and the digests that name buckets are parameters.
--
-- viem is an interface in Receipts: the decoders of logs, the encoders, hashing, the units of amounts and
-- the recovery of a signer. A request with fields of other types than its own is refused by type. In
-- Agents, a stored value is a row that its reader accepts or any other value; how
-- `authenticateAuthorization` ends (it is `authenticate_authorization` of Access), the stored links of
-- payment requests and the answer of the chain are part of what a call takes from outside. Others may
-- write the store between a call's read of it and its write, and the write may fail, or be done with its
-- answer lost. The clock stands still during a call. The JSON text of a string and of an integer are
-- parameters. In Enforcement, a stored policy is one that `readStoredPolicy` accepts or another object
-- with its merchant.
--
-- Loops over collections are recursions on lists. `reserve_loop` and `transition_loop` recur on the
-- attempts left, as the bounded `for` loops of the source do. `pages_loop` takes fuel, one more than the
-- latest block, and each round moves at least one block down. `blocked_within` takes the depth of the
-- recursion of `isBlockedIp`, and depth two is enough. `poly_mod_within` takes turns, and the length of
-- the dividend is enough for a divisor that begins with one. `align` takes eight turns, enough for a byte.
--
-- Not modelled: the management of webhook endpoints, the handlers of API keys and workspace sessions, the
-- interleaving of blocks and the matrix of a QR code, `createAgentPaymentIntent` and the handlers of
-- payment requests and policies, the escrow service, pages, signatures and hashing, the RPC client, the
-- SDK and the user interface.
pub mod Base
pub mod Checkout
pub mod RateLimit
pub mod Policy
pub mod Ledger
pub mod Payments
pub mod Webhooks
pub mod Access
pub mod Qr
pub mod Receipts
pub mod Agents
pub mod Enforcement
pub mod Orchestration
pub mod Escrow
pub mod LogPages
pub mod Tests
