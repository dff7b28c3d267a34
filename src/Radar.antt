-- ===== src/Radar.antt =====
-- The opportunity radar: the policy of a job source
-- (backend/career_harness/db/job_staging_repository.py) and the search that keeps to it
-- (backend/career_harness/services/opportunity_radar_service.py).
pub mod Policy
pub mod Valid
pub mod Search
pub mod Ended
pub mod Rounds
pub mod Bounds
pub mod History
mod Examples
