-- ===== src/Health/Gap.antt =====
-- What a gap in the transcript of a session means
-- (internal/application/meeting_session_watchdog.go).
use deciscope_api.Base.{
  Bool, true, false, not, ◌&&◌, ◌||◌, Option, none, some, pos, ltb_ℤ, leb_ℤ, if◌then◌else◌,
}
use deciscope_api.Base.Clock.{Time, Duration, is_zero, sub}
use deciscope_api.Health.Metrics.{BotMediaMetrics}

-- `MeetingSessionWatchdogConfig`, less the interval of the ticker.
pub record Config : Type 0 where
  pub lost_after : Duration
  pub end_after : Duration
  pub delayed_after : Duration
  pub stalled_after : Duration
  pub audio_silence_after : Duration
  pub audio_stalled_after : Duration
  pub speech_stalled_after : Duration

-- The texts of the transcript health.
pub data TranscriptHealth : Type 0 where
  health_ok transcript_delayed transcript_stalled : TranscriptHealth
  silent audio_stalled speech_stalled : TranscriptHealth

abbrev pub eq_health : TranscriptHealth → TranscriptHealth → Bool
eq_health health_ok health_ok = true
eq_health transcript_delayed transcript_delayed = true
eq_health transcript_stalled transcript_stalled = true
eq_health silent silent = true
eq_health audio_stalled audio_stalled = true
eq_health speech_stalled speech_stalled = true
eq_health _ _ = false

-- A set instant that is less than `d` ago.
unfoldable pub is_recent : Time → Time → Duration → Bool
is_recent now t d = not (is_zero t) && ltb_ℤ (sub now t) d

-- A set instant that is at least `d` ago.
unfoldable pub is_aged : Time → Time → Duration → Bool
is_aged now t d = not (is_zero t) && leb_ℤ d (sub now t)

-- An instant that is not set or at least `d` ago.
unfoldable pub is_missed : Time → Time → Duration → Bool
is_missed now t d = is_zero t || leb_ℤ d (sub now t)

-- `classifyBotMediaGap`
unfoldable pub classify_bot_media_gap : BotMediaMetrics → Time → Config → Option TranscriptHealth
unfolding is_recent is_aged is_missed
classify_bot_media_gap m now c =
    if m.audio_is_stalled
      || is_recent now m.last_audio_socket_receive_stall_at c.stalled_after
      || is_aged now m.last_audio_frame_at c.audio_stalled_after
    then some audio_stalled
    else if is_missed now m.last_non_zero_audio_at c.audio_silence_after
        && is_recent now m.last_audio_frame_at c.audio_stalled_after
    then some silent
    else if is_recent now m.last_non_zero_audio_at c.audio_silence_after
        && is_missed now m.last_non_empty_transcript_at c.speech_stalled_after
    then some speech_stalled
    else none

-- Not negative.
abbrev pub at_least_zero : Duration → Duration
at_least_zero d = if ltb_ℤ d (pos 0) then pos 0 else d

-- The fall back on the thresholds.
unfoldable pub by_threshold : Config → Duration → TranscriptHealth
by_threshold c since =
    if ltb_ℤ (pos 0) c.stalled_after && leb_ℤ c.stalled_after since
    then transcript_stalled
    else if ltb_ℤ (pos 0) c.delayed_after && leb_ℤ c.delayed_after since
    then transcript_delayed
    else health_ok

abbrev pub is_fresh : Config → Time → BotMediaMetrics → Bool
is_fresh c now m =
    m.has_metrics
    && not (is_zero m.received_at)
    && (ltb_ℤ (pos 0) c.lost_after && ltb_ℤ (at_least_zero (sub now m.received_at)) c.lost_after)

abbrev pub or_threshold : Config → Duration → Option TranscriptHealth → TranscriptHealth
or_threshold c since none = by_threshold c since
or_threshold c since (some state) = state

-- `classifyTranscriptGap` on what the metrics reader has of the session.
unfoldable pub classify_transcript_gap :
    Config → Option BotMediaMetrics → Time → Duration → TranscriptHealth
classify_transcript_gap c none now since = by_threshold c since
classify_transcript_gap c (some m) now since =
    if is_fresh c now m
    then or_threshold c since (classify_bot_media_gap m now c)
    else by_threshold c since
