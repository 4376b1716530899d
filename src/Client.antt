-- ===== src/Client.antt =====
-- DataProxyClient.cpp: named requests, the transaction that they run in, and the check of the
-- configuration.
pub mod Transaction
pub mod Requests
pub mod Cycles
pub mod Initialize
pub mod Termination
pub mod Settle
pub mod Invariant
pub mod History
pub mod Completion
pub mod Tests
