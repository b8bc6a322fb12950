-- ===== src/Plans.antt =====
-- backend/app/services/execution_plan.py and execution_plan_approval.py: the creation of a plan, its
-- digest, and the decisions on it.
pub mod Secrets
pub mod Digest
pub mod Creation
pub mod Approval
pub mod Created
pub mod Intact
pub mod Safe
pub mod Admissible
pub mod Tests
