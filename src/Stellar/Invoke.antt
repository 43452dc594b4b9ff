-- ===== src/Stellar/Invoke.antt =====
-- internal/stellar/invoke.go: simulating a call (`Simulate`), preparing and signing a transaction
-- (`Prepare`), and submitting it and waiting for its outcome (`Submit`, `Poll`).
pub mod Node
pub mod Poll
pub mod Decode
pub mod Simulate
pub mod Prepare
pub mod Planned
pub mod Submit
mod Tests
