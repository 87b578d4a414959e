-- ===== src/Scenarios/Bots.antt =====
-- Scenarios of the watchdog and of the media health.
use deciscope_api.Base.{
  trim, ◌≤◌, ◌≡◌, ◌≢◌, refl, Bool, true, false, some, [], ◌∷◌, ok, pos, lookup,
}
use deciscope_api.Base.Clock.{zero_time}
use deciscope_api.Domain.{joined, recording}
use deciscope_api.Session.Policy.{is_joined_or_beyond}
use deciscope_api.Health.Gap.{classify_transcript_gap, health_ok}
use deciscope_api.Health.Media.{MediaUpdate, MediaHealth, record_media}
use deciscope_api.Health.Metrics.{BotMediaMetrics}
use deciscope_api.Health.Watchdog.{Ports, run_once}
use deciscope_api.Health.Verdicts.{gap-not_ok}
use deciscope_api.Health.Reports.{record_media-later, record_media-once, last_report}
use deciscope_api.Health.Scans.{run_once-tells, IsTold}
use deciscope_api.Scenarios.Data.{seconds, session_in, watchdog_config, watchdog}

-- A world whose list has one session, whose bot was seen after 100 seconds.
abbrev one_session : Ports Bool
one_session = record {
  list_for_watchdog = λ w. (ok (session_in "s1" recording ∷ []), w);
  update_meeting_session_status = λ input w. (ok (session_in "s1" recording), w);
  duration_text = λ d. "2m0s";
}

run_once-tells_example :
    IsTold "s1" (run_once watchdog_config one_session (seconds 140) (watchdog true)).1
    × ((run_once watchdog_config one_session (seconds 140) (watchdog true)).1.world ≡ true)
unfolding is_joined_or_beyond lookup
run_once-tells_example =
    run_once-tells watchdog_config one_session (seconds 140) (session_in "s1" recording ∷ []) "s1"
      (watchdog true) refl (refl, tt) refl refl

-- Frames came a second ago, with a sound 40 seconds ago.
abbrev quiet : BotMediaMetrics
quiet = record {
  received_at = seconds 199;
  last_audio_frame_at = seconds 199;
  last_non_zero_audio_at = seconds 160;
  last_non_empty_transcript_at = seconds 150;
  last_audio_socket_receive_stall_at = zero_time;
  audio_is_stalled = false;
  has_metrics = true;
}

abbrev speaking : BotMediaMetrics
speaking = record quiet { last_non_zero_audio_at = seconds 199 }

gap-not_ok_example :
    classify_transcript_gap watchdog_config (some quiet) (seconds 200) (pos (seconds 50))
    ≢ health_ok
gap-not_ok_example =
    gap-not_ok watchdog_config (some quiet) (seconds 200) (pos (seconds 50)) refl refl

abbrev stalled : MediaUpdate
stalled = record {
  event_id = "e1";
  bot_call_id = "call1";
  state = "audio_receive_stalled";
  event = "started";
  source = "bot";
  occurred_at = seconds 50;
  started_at = zero_time;
  last_audio_frame_at = seconds 40;
  duration_milliseconds = pos 0;
}

abbrev no_media : MediaHealth
no_media = record { states = []; published = [] }

record_media-later_example :
    last_report "s1" no_media
    ≤ last_report "s1" (record_media (seconds 60) (session_in "s1" joined) stalled no_media).1
record_media-later_example =
    record_media-later (seconds 60) (session_in "s1" joined) stalled no_media "s1"

record_media-once_example :
    (record_media
      (seconds 61)
      (session_in "s1" joined)
      stalled
      (record_media (seconds 60) (session_in "s1" joined) stalled no_media).1).1
    ≡ (record_media (seconds 60) (session_in "s1" joined) stalled no_media).1
unfolding trim
record_media-once_example =
    record_media-once (seconds 60) (seconds 61) (session_in "s1" joined) stalled no_media refl refl
      refl
