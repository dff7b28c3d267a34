-- ===== src/Tasks.antt =====
-- The durable task queue: backend/career_harness/core/tasks/models.py,
-- backend/career_harness/db/task_repository.py, backend/career_harness/services/task_service.py,
-- and the constraints of migrations/versions/0027_task_queue.py.
pub mod Payload
pub mod Model
pub mod Enqueue
pub mod Lease
pub mod Control
pub mod Writes
pub mod Effects
pub mod Outcomes
pub mod Selection
pub mod Machine
pub mod Refinement
pub mod Invariant
pub mod Fencing
pub mod Races
pub mod Overtaken
pub mod Leases
pub mod Claims
pub mod Retries
pub mod Service
pub mod Release
pub mod Dispatch
pub mod Cycle
mod Dispatched
mod Examples
