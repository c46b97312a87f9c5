-- ===== src/CriticalPath.antt =====
-- The critical path of a trace, as an agent's tool computes it:
-- cmd/jaeger/internal/extension/jaegerquery/internal/mcptools/internal/criticalpath.
-- `Spans` models cpspan.go, `Sanitize` sanitize.go, `Compute` find_lfc.go and criticalpath.go.
pub mod Spans
pub mod Sanitize
pub mod Compute
pub mod Latest
pub mod Forest
pub mod Walk
pub mod Diverges
pub mod Fit
pub mod Nesting
