-- ===== src/Session.antt =====
-- internal/application/meeting_session.go: the service that owns the life of a meeting session.
pub mod Input
pub mod Policy
pub mod Titles
pub mod Rows
pub mod Repository
pub mod RowFind
pub mod RowWrites
pub mod RowLaws
pub mod State
pub mod Update
pub mod Service
pub mod Ending
pub mod Queries
pub mod Failures
pub mod Freshness
pub mod Finalization
pub mod Single
pub mod Stamps
pub mod TitleRank
pub mod Revival
pub mod Away
