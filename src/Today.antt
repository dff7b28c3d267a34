-- ===== src/Today.antt =====
-- The Today queue: backend/career_harness/core/today/policy.py and models.py.
pub mod Refs
pub mod Model
pub mod Policy
pub mod Queue
pub mod Distinct
pub mod Unordered
pub mod Canonical
pub mod Made
pub mod Provenance
pub mod Sources
mod Examples
