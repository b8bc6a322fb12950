-- ===== src/Execution.antt =====
-- The coordination of plan executions: backend/app/services/execution_plan_claim.py,
-- execution_plan_progress.py and execution_plan_cancellation.py over one database.
pub mod Database
pub mod Retry
pub mod Answers
pub mod Errors
pub mod Claim
pub mod Progress
pub mod Cancellation
pub mod Interleaving
mod Tests
