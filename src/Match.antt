-- ===== src/Match.antt =====
-- The match policy: backend/career_harness/core/match_gap/policy.py and models.py, with the parts of
-- core/capability/models.py, core/job/models.py and core/project/models.py that it reads.
pub mod Reasons
pub mod Scopes
pub mod Model
pub mod Assess
pub mod Sets
pub mod Coverage
pub mod Verdict
pub mod Support
pub mod Validate
pub mod Assessment
pub mod Sourced
pub mod Manifest
pub mod Total
pub mod Complete
mod Examples
