-- ===== src/Health/Metrics.antt =====
-- internal/application/bot_media_metrics.go: the last measurements that a bot reported. The ones
-- that are only shown to a client are left out.
use deciscope_api.Base.{String, Bool, Dict, insert, remove, is_blank, if◌then◌else◌}
use deciscope_api.Base.Clock.{Time}

pub record BotMediaMetrics : Type 0 where
  pub received_at : Time
  pub last_audio_frame_at : Time
  pub last_non_zero_audio_at : Time
  pub last_non_empty_transcript_at : Time
  pub last_audio_socket_receive_stall_at : Time
  pub audio_is_stalled : Bool
  pub has_metrics : Bool

-- `BotMediaMetricsStore.Record`
unfoldable pub record_metrics :
    Time → String → BotMediaMetrics → Dict BotMediaMetrics → Dict BotMediaMetrics
record_metrics now id m metrics =
    if is_blank id then metrics else insert id (record m { received_at = now }) metrics

-- `BotMediaMetricsStore.Forget`
unfoldable pub forget_metrics : String → Dict BotMediaMetrics → Dict BotMediaMetrics
forget_metrics = remove
