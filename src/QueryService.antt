-- ===== src/QueryService.antt =====
-- cmd/jaeger/internal/extension/jaegerquery/querysvc: what the query service makes of a search
-- before it reaches a storage, and of the traces that come back.
pub mod Errors
pub mod Reader
pub mod Envelope
pub mod Interceptor
pub mod Prepare
pub mod Served
pub mod Hooks
pub mod Restriction
pub mod Bounds
pub mod Steps
pub mod Dispatch
pub mod Archive
pub mod Writes
pub mod Summary
pub mod Counts
