-- ===== src/Poststorage.antt =====
-- internal/workflows/poststorage.go. The activities stand in `Events`, the stages of `SessionHandler`
-- in `Session`, and the loop over the sessions in `Execute`.
pub mod Events
pub mod Session
pub mod Execute
pub mod Invariant
pub mod Sessions
pub mod Delivery
pub mod Retries
pub mod Tests
