-- ===== src/Memory.antt =====
-- The in-memory trace storage, internal/storage/v2/memory.
pub mod Clock
pub mod Match
pub mod Reshuffle
pub mod Tenant
pub mod Dependencies
pub mod Sampling
pub mod Store
pub mod Ring
pub mod Reads
pub mod Search
pub mod Spread
pub mod Grouping
pub mod Window
