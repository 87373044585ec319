-- ===== src/Access.antt =====
-- Who may call: src/lib/apiKeys.ts, src/lib/walletNonce.ts and src/lib/apiScopes.ts.
pub mod Wallet
pub mod Nonces
pub mod Replay
pub mod Keys
pub mod Admission
pub mod Caps
use final_arc.Base.{ℕ, Text, Entries}

-- The nonces of `WalletAuthStoreSection` (src/lib/payStore.ts), each with the second at which it may
-- be forgotten.
abbrev pub Nonces : Type 0
Nonces = Entries ℕ
