-- ===== src/Jptrace.antt =====
-- internal/jptrace: helpers over traces that the other components share. The children model
-- warning.go, spaniter.go with traces.go, aggregator.go and the sanitizers.
pub mod Warning
pub mod Convert
pub mod Names
pub mod Sanitizer
pub mod Spans
pub mod Decimal
pub mod Aggregator
