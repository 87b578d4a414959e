-- ===== src/Live.antt =====
-- When the live analysis of a meeting runs: internal/application/ai_live_scheduler.go and the parts
-- of internal/application/ai_analysis.go that change the same state. Every operation holds the
-- mutex of the service, so an interleaving is a sequence of operations on one session's state.
pub mod State
pub mod Texts
pub mod Queue
pub mod Timing
pub mod Trigger
pub mod Dispatch
pub mod Rounds
pub mod Bounds
pub mod Starts
pub mod Arms
pub mod Steps
pub mod Once
pub mod Pending
pub mod Distinct
