-- ===== src/Tools.antt =====
-- The tool registry: backend/career_harness/core/tools/registry.py, with the audit of
-- backend/career_harness/db/tool_audit.py.
pub mod Schema
pub mod Model
pub mod Registry
pub mod Coerce
pub mod Typed
pub mod Guard
pub mod History
mod Examples
