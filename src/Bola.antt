-- ===== src/Bola.antt =====
-- Broken object level authorization: which test cases are planned (backend/app/generators,
-- backend/app/domain/ownership.py) and how their runs are judged (backend/app/analyzers/bola.py).
pub mod Ownership
pub mod Generator
pub mod Matrix
pub mod Json
pub mod Analyzer
mod Tests
