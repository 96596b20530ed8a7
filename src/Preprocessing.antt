-- ===== src/Preprocessing.antt =====
-- internal/workflows/preprocessing.go. The activities stand in `Events`, the stages of `Execute` in
-- the other children.
pub mod Events
pub mod Intake
pub mod Validation
pub mod Import
pub mod Packaging
pub mod Execute
pub mod Safety
pub mod Completion
pub mod Decision
pub mod Tests
pub mod Trace
pub mod Invariant
