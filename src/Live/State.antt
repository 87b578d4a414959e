-- ===== src/Live/State.antt =====
-- The part of `liveAnalysisSessionState` that decides when an analysis runs
-- (internal/application/ai_analysis.go), and the constants of
-- internal/application/ai_live_scheduler.go. Timer handles are numbered by their generation; the
-- identifier that a round carries into the log is left out.
use deciscope_api.Base.{ℕ, Bool, false, List, []}
use deciscope_api.Base.Clock.{Time, Duration, zero_time}
use deciscope_api.Domain.{TranscriptSegment}

-- The trigger texts; `no_trigger` is the empty text.
pub data Trigger : Type 0 where
  no_trigger final_transcript periodic_tick context_ready completed_rerun : Trigger
  max_wait_trigger finalization_flush scheduled_timer : Trigger

-- The reason texts; `no_reason` is the empty text.
pub data Reason : Type 0 where
  no_reason scheduler_not_started analysis_running already_scheduled : Reason
  below_minimum_input context_not_ready meeting_finalizing meeting_stopped low_information : Reason
  retry_is_blocked session_status_unavailable immediate_catch_up debounced cooling : Reason
  max_wait_reached backing_off : Reason

pub record Deferred : Type 0 where
  pub segment : TranscriptSegment
  pub retry_after_sequence_no : ℕ

pub record LiveState : Type 0 where
  pub pending : List TranscriptSegment
  pub pending_chars : ℕ
  pub oldest_pending_final_at : Time
  pub latest_pending_final_at : Time
  pub highest_available : ℕ
  pub running : Bool
  pub finalizing : Bool
  pub stopped : Bool
  pub analysis_scheduled : Bool
  -- the callbacks that `AfterFunc` was given, by generation and delay, the newest first; a stopped
  -- timer stays, since its callback may already run
  pub timers : List (ℕ × Duration)
  pub schedule_generation : ℕ
  pub scheduled_at : Time
  pub scheduled_trigger : Trigger
  pub rerun_requested : Bool
  pub catch_up_requested : Bool
  pub coalesced_trigger_count : ℕ
  pub last_analysis_started_at : Time
  pub last_analysis_completed_at : Time
  pub last_trigger : Trigger
  pub last_deferred_reason : Reason
  pub running_oldest_pending_at : Time
  pub running_latest_final_at : Time
  pub running_target_from : ℕ
  pub running_target_through : ℕ
  pub running_trigger : Trigger
  pub running_coalesced_trigger_count : ℕ
  pub live_run_counter : ℕ
  pub running_generation : ℕ
  pub superseded_generation : ℕ
  pub deferred_unreflected : List Deferred
  pub failure_count : ℕ
  pub next_attempt_at : Time
  pub retry_blocked : Bool
  pub last_activity_at : Time
  -- `contextStatus == "pending"`, and `contextStatus != ""`
  pub context_pending : Bool
  pub context_planned : Bool

-- `&liveAnalysisSessionState{}`, which `sessionStateLocked` stores for a new session.
abbrev pub new_state : LiveState
new_state = record {
  pending = [];
  pending_chars = 0;
  oldest_pending_final_at = zero_time;
  latest_pending_final_at = zero_time;
  highest_available = 0;
  running = false;
  finalizing = false;
  stopped = false;
  analysis_scheduled = false;
  timers = [];
  schedule_generation = 0;
  scheduled_at = zero_time;
  scheduled_trigger = no_trigger;
  rerun_requested = false;
  catch_up_requested = false;
  coalesced_trigger_count = 0;
  last_analysis_started_at = zero_time;
  last_analysis_completed_at = zero_time;
  last_trigger = no_trigger;
  last_deferred_reason = no_reason;
  running_oldest_pending_at = zero_time;
  running_latest_final_at = zero_time;
  running_target_from = 0;
  running_target_through = 0;
  running_trigger = no_trigger;
  running_coalesced_trigger_count = 0;
  live_run_counter = 0;
  running_generation = 0;
  superseded_generation = 0;
  deferred_unreflected = [];
  failure_count = 0;
  next_attempt_at = zero_time;
  retry_blocked = false;
  last_activity_at = zero_time;
  context_pending = false;
  context_planned = false;
}

-- The configuration of the live analysis. `is_started` says that `runCtx` is set.
pub record LiveConfig : Type 0 where
  pub live_active : Bool
  pub is_started : Bool
  pub live_min_chars : ℕ
  pub live_debounce : Duration
  pub live_cooldown : Duration
  pub live_max_wait : Duration
  pub live_interval : Duration
