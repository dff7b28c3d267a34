-- ===== src/Commands.antt =====
-- The command service: backend/career_harness/services/command_service.py, with core/commands.py,
-- core/revisions.py and the tables that it writes (db/models.py).
pub mod Model
pub mod Commit
pub mod Effects
pub mod Machine
pub mod Append
pub mod Refinement
pub mod Replay
pub mod Total
pub mod ReadBack
mod Examples
