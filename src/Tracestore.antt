-- ===== src/Tracestore.antt =====
-- internal/storage/v2/api/tracestore: the query type of the storage API, and the structured filter
-- that a query may carry. The filter's terms are those of the package expression of jaeger-idl.
pub mod Expression
pub mod Errors
pub mod Pattern
pub mod Validate
pub mod Check
pub mod Resolve
pub mod Comparison
pub mod Typed
pub mod Settled
pub mod Pairwise
pub mod Final
pub mod Finalize
pub mod Question
pub mod Elements
pub mod Query
pub mod Shape
pub mod Conjuncts
pub mod Legacy
pub mod Admission
pub mod Declared
pub mod Rewrite
