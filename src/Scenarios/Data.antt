-- ===== src/Scenarios/Data.antt =====
-- The data of the scenarios.
use deciscope_api.Base.{String, true, false, List, [], ◌∷◌, pos, ℕ, ◌*◌}
use deciscope_api.Base.Clock.{before, zero_time, second}
use deciscope_api.Domain.{Status, Metadata, MeetingSession, TranscriptSegment}
use deciscope_api.Session.Rows.{Database}
use deciscope_api.Session.RowLaws.{steady}
use deciscope_api.Session.State.{Service, Parts}
use deciscope_api.Health.Gap.{Config}
use deciscope_api.Health.Watchdog.{Watchdog}
use deciscope_api.Live.State.{LiveState, LiveConfig, new_state}
use deciscope_api.Live.Texts.{Texts}

abbrev pub seconds : ℕ → ℕ
seconds n = n * second

abbrev pub no_metadata : Metadata
no_metadata = record {
  title = "";
  title_source = "";
  title_updated_at = zero_time;
  user_provided_title = "";
  graph_title = "";
  provider = "teams";
  external_meeting_id = "";
  join_meeting_id = "";
  join_web_url = "";
  canonical_join_web_url = "";
  thread_id = "";
  organizer_id = "";
  organizer_name = "";
  organizer_email = "";
  scheduled_start_at = zero_time;
  scheduled_end_at = zero_time;
  title_resolution_error_code = "";
  title_resolution_error_message = "";
  title_resolved_at = zero_time;
  purpose = "";
  context = "";
  agenda = "";
  decision_points = "";
  concerns = "";
  expected_output = "";
  custom_instruction = "";
}

-- A session whose bot was seen after 100 seconds.
abbrev pub session_in : String → Status → MeetingSession
session_in key status = record {
  id = key;
  workspace_id = "w1";
  created_by_user_id = "u1";
  meeting_id = "m1";
  join_url = "https://example.test/join";
  join_url_hash = "h1";
  metadata = no_metadata;
  status = status;
  bot_call_id = "call1";
  requested_at = seconds 1;
  command_sent_at = seconds 2;
  joined_at = seconds 3;
  ended_at = zero_time;
  end_reason = "";
  last_bot_status_at = seconds 100;
  last_error = "";
  created_at = seconds 1;
  updated_at = seconds 100;
}

abbrev pub database : List MeetingSession → Database
database rows = record { rows = rows; faults = [] }

abbrev pub service : List MeetingSession → Service Database
service rows = record {
  store = database rows;
  published = [];
  in_flight = [];
  jobs = [];
  fallbacks = [];
}

abbrev pub parts : Parts Database
parts = record { repository = steady before; has_commander = true; has_observer = true }

abbrev pub watchdog_config : Config
watchdog_config = record {
  lost_after = pos (seconds 30);
  end_after = pos (seconds 120);
  delayed_after = pos (seconds 20);
  stalled_after = pos (seconds 60);
  audio_silence_after = pos (seconds 15);
  audio_stalled_after = pos (seconds 10);
  speech_stalled_after = pos (seconds 20);
}

abbrev pub watchdog : {W : Type 0} → W → Watchdog W
watchdog world = record {
  world = world;
  healthy = [];
  transcript_health = [];
  activity = [];
  metrics = [];
  bot_events = [];
  transcript_events = [];
}

abbrev pub live_config : LiveConfig
live_config = record {
  live_active = true;
  is_started = true;
  live_min_chars = 10;
  live_debounce = pos (seconds 2);
  live_cooldown = pos (seconds 8);
  live_max_wait = pos (seconds 18);
  live_interval = pos (seconds 10);
}

-- No cue in any text.
abbrev pub texts : Texts
texts = record {
  features = λ text. record {
    subject_present = false;
    predicate_present = false;
    sentence_complete = false;
    correction_cue_present = false;
    decision_cue_present = false;
    risk_cue_present = false;
    todo_cue_present = false;
    hypothesis_cue_present = false;
    unresolved_cue_present = false;
    completed_action_present = false;
    confirmed_state_present = false;
    specific_entity_present = false;
  };
  is_skipped = λ c. false;
  lower = λ c. c;
}

abbrev pub segment : ℕ → TranscriptSegment
segment n = record {
  session_id = "s1";
  event_id = "";
  call_id = "call1";
  sequence_no = n;
  speaker_id = "p1";
  speaker_name = "A";
  recognized_at_utc = seconds 100;
  offset_ticks = 0;
  duration_ticks = 0;
  text = "the release is on friday";
  received_at_utc = seconds 100;
  is_final = true;
}

-- One segment waits, and the timer of generation 1 ends after 102 seconds.
abbrev pub waiting : LiveState
waiting = record new_state {
  pending = segment 1 ∷ [];
  pending_chars = 24;
  oldest_pending_final_at = seconds 100;
  latest_pending_final_at = seconds 100;
  highest_available = 1;
  analysis_scheduled = true;
  schedule_generation = 1;
  scheduled_at = seconds 102;
}
