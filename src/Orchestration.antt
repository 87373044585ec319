-- ===== src/Orchestration.antt =====
-- src/lib/settlement.ts: a settlement and its `payment.paid` deliveries in one write of the store,
-- and the path of a submitted transaction hash.
pub mod Enqueue
pub mod Submit
pub mod Deliveries
pub mod Proofs
pub mod Refines
