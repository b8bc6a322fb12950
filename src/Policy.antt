-- ===== src/Policy.antt =====
-- backend/app/policies/scope_policy.py: which requests the scope policy lets through.
pub mod Python
pub mod Origin
pub mod Paths
pub mod Engine
pub mod Tests
