-- ===== src/Tests.antt =====
-- Runs of the definitions on small inputs, and the theorems at inputs that meet their hypotheses.
mod Data
mod Memory
mod Jptrace
mod CriticalPath
mod Skew
mod Sanitizer
mod Filter
mod Query
