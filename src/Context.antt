-- ===== src/Context.antt =====
-- The selection of context assets: backend/career_harness/core/context/compiler.py and models.py.
pub mod Model
pub mod Select
pub mod Dispositions
pub mod Boundary
pub mod Unordered
mod Examples
