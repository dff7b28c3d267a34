-- ===== src/Market.antt =====
-- The broad market trend: backend/career_harness/core/market/trend.py.
pub mod Trend
pub mod Sets
pub mod Sorted
pub mod Groups
pub mod Canonical
pub mod Accepted
pub mod Total
mod Examples
