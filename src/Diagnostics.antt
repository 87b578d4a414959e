-- ===== src/Diagnostics.antt =====
-- The diagnostics that the browsers send: internal/application/client_diagnostics.go and
-- internal/domain/client_diagnostics.go.
pub mod Limits
pub mod Details
pub mod Bounds
pub mod Redaction
pub mod Names
pub mod Shrink
pub mod Largest
pub mod Shrunk
pub mod Recorder
pub mod Tallies
pub mod Throttle
pub mod Sources
pub mod Repeats
