-- ===== src/Health/Verdicts.antt =====
-- When the watchdog says what of a gap in the transcript
-- (internal/application/meeting_session_watchdog.go).
use deciscope_api.Base.{◌≡◌, ◌≢◌, ap, true, Option, none, some, pos, ltb_ℤ, leb_ℤ, arith, if-case}
use deciscope_api.Base.Clock.{Time, Duration}
use deciscope_api.Health.Metrics.{BotMediaMetrics}
use deciscope_api.Health.Gap.{
  Config, TranscriptHealth, health_ok, is_fresh, or_threshold, classify_bot_media_gap, by_threshold,
  classify_transcript_gap,
}

classify_bot_media_gap-not_ok :
    (m : BotMediaMetrics) (now : Time) (c : Config)
    → classify_bot_media_gap m now c ≢ some health_ok
unfolding classify_bot_media_gap
classify_bot_media_gap-not_ok m now c e = ground (arith, e)

or_threshold-not_ok :
    (c : Config) (since : Duration) (o : Option TranscriptHealth)
    → by_threshold c since ≢ health_ok
    → o ≢ some health_ok
    → or_threshold c since o ≢ health_ok
or_threshold-not_ok c since none h k e = h e
or_threshold-not_ok c since (some state) h k e = k (ap some e)

by_threshold-not_ok :
    (c : Config) (since : Duration)
    → ltb_ℤ (pos 0) c.delayed_after ≡ true
    → leb_ℤ c.delayed_after since ≡ true
    → by_threshold c since ≢ health_ok
unfolding by_threshold
by_threshold-not_ok c since p e h = ground (arith, p, e, h)

-- A gap that reaches the positive threshold is never called healthy, whatever the bot reports.
pub gap-not_ok :
    (c : Config) (m : Option BotMediaMetrics) (now : Time) (since : Duration)
    → ltb_ℤ (pos 0) c.delayed_after ≡ true
    → leb_ℤ c.delayed_after since ≡ true
    → classify_transcript_gap c m now since ≢ health_ok
unfolding classify_transcript_gap
gap-not_ok c none now since p e = by_threshold-not_ok c since p e
gap-not_ok c (some m) now since p e =
    if-case (λ h. h ≢ health_ok) (is_fresh c now m) _ _
      (λ _.
        or_threshold-not_ok c since _ (by_threshold-not_ok c since p e)
          (classify_bot_media_gap-not_ok m now c))
      (λ _. by_threshold-not_ok c since p e)
