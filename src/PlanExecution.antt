-- ===== src/PlanExecution.antt =====
-- PlanExecutionService of backend/app/services/plan_execution.py: one execution of a plan by one
-- worker, over the coordination services and the HTTP executor, while other workers interfere.
pub mod Surroundings
pub mod Headers
pub mod Sending
pub mod Preflight
pub mod Traces
pub mod Releases
pub mod Revocation
mod Tests
