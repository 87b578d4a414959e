-- ===== src/Health.antt =====
-- The health of the bot and of the media of a meeting, of internal/application:
-- transcript_activity.go, bot_media_metrics.go, bot_media_health.go and meeting_session_watchdog.go.
pub mod Activity
pub mod Metrics
pub mod Media
pub mod Gap
pub mod Watchdog
pub mod Verdicts
pub mod Reports
pub mod Scans
