-- ===== src/Live/Dispatch.antt =====
-- `dispatchScheduledLiveAnalysis` of internal/application/ai_live_scheduler.go: what the callback of
-- a timer does. Panics are not modelled.
use deciscope_api.Base.{
  ℕ, suc, ltb, ◌==◌, String, true, false, not, ◌&&◌, ◌||◌, Option, none, some, List, [], is_empty,
  Result, ok, err, not_found, leb_ℤ, if◌then◌else◌,
}
use deciscope_api.Base.Clock.{Time, zero_time, is_zero, after, sub}
use deciscope_api.Domain.{Status, ending, ended, failed, stale, MeetingSession, TranscriptSegment}
use deciscope_api.Live.Texts.{Texts}
use deciscope_api.Live.State.{
  Trigger, no_trigger, max_wait_trigger, scheduled_timer, Reason, no_reason, context_not_ready,
  low_information, meeting_finalizing, meeting_stopped, retry_is_blocked,
  session_status_unavailable, LiveState, LiveConfig,
}
use deciscope_api.Live.Queue.{sequence_range}
use deciscope_api.Live.Timing.{semantic_complete, is_substantive, next_time}
use deciscope_api.Live.Trigger.{deferred, evaluate_trigger}

pub data Allowance : Type 0 where
  allowed : Allowance
  refused : Reason → Allowance
  lookup_failed : Allowance

abbrev pub by_status : Status → Allowance
by_status ending = refused meeting_finalizing
by_status ended = refused meeting_stopped
by_status failed = refused meeting_stopped
by_status stale = refused meeting_stopped
by_status _ = allowed

-- `liveSessionStatusAllowsAnalysis`, on the answer of the session repository.
unfoldable pub status_allows : Result MeetingSession → Allowance
status_allows (err not_found) = allowed
status_allows (err _) = lookup_failed
status_allows (ok m) = by_status m.status

-- `beginLiveRunLocked`
unfoldable pub begin_run : Trigger → ℕ × ℕ → LiveState → LiveState
begin_run trigger (from, through) s = record s {
  live_run_counter = suc s.live_run_counter;
  running_generation = suc s.live_run_counter;
  running = true;
  running_trigger = trigger;
  running_target_from = from;
  running_target_through = through;
}

abbrev or_timer : Trigger → Trigger
or_timer no_trigger = scheduled_timer
or_timer trigger = trigger

unfoldable pub run_trigger : LiveConfig → Texts → Time → LiveState → Trigger
unfolding semantic_complete
run_trigger c t now s =
    if (ltb s.pending_chars c.live_min_chars && not (semantic_complete t s.pending))
      || (not (is_zero s.oldest_pending_final_at)
          && leb_ℤ c.live_max_wait (sub now s.oldest_pending_final_at))
    then max_wait_trigger
    else or_timer s.scheduled_trigger

-- Seals a round on all pending segments.
unfoldable pub start_round : Trigger → Time → LiveState → LiveState
unfolding begin_run sequence_range
start_round trigger now s =
    let run = begin_run trigger (sequence_range s.pending) (record s {
      pending = [];
      pending_chars = 0;
      oldest_pending_final_at = zero_time;
      latest_pending_final_at = zero_time;
    }) in
    record run {
      rerun_requested = false;
      catch_up_requested = false;
      last_analysis_started_at = now;
      last_trigger = trigger;
      last_deferred_reason = no_reason;
      running_oldest_pending_at = s.oldest_pending_final_at;
      running_latest_final_at = s.latest_pending_final_at;
      running_coalesced_trigger_count = s.coalesced_trigger_count;
      coalesced_trigger_count = 0;
      scheduled_trigger = no_trigger;
    }

-- What the callback did: the state, and the segments that a new round analyses.
abbrev pub Dispatched : Type 0
Dispatched = LiveState × Option (List TranscriptSegment)

-- The part from the `switch` on. A trigger that is evaluated again reads the clock again.
unfoldable pub dispatch_allowed : LiveConfig → Texts → String → Time → Time → LiveState → Dispatched
unfolding start_round evaluate_trigger is_substantive run_trigger
dispatch_allowed c t id now later s =
    let next = next_time c t now s in
    if s.stopped
    then (s, none)
    else if s.finalizing
    then (s, none)
    else if is_empty s.pending
    then (s, none)
    else if s.running
    then (record s { rerun_requested = true; catch_up_requested = true }, none)
    else if s.context_pending
    then (deferred context_not_ready s, none)
    else if s.retry_blocked
    then (deferred retry_is_blocked s, none)
    else if not (is_substantive t s.pending)
    then (deferred low_information s, none)
    else if after next.0 now
    then (evaluate_trigger c t id scheduled_timer later (deferred next.1 s), none)
    else (start_round (run_trigger c t now s) now s, some s.pending)

abbrev pub fired : LiveState → LiveState
fired s = record s { analysis_scheduled = false; scheduled_at = zero_time }

unfoldable pub dispatch_by :
    LiveConfig → Texts → String → Allowance → Time → Time → LiveState → Dispatched
unfolding dispatch_allowed
dispatch_by c t id lookup_failed now later s = (deferred session_status_unavailable s, none)
dispatch_by c t id (refused why) now later s =
    (record s { stopped = true; last_deferred_reason = why }, none)
dispatch_by c t id allowed now later s = dispatch_allowed c t id now later s

-- `dispatchScheduledLiveAnalysis` on the answer of the status lookup.
unfoldable pub dispatch :
    LiveConfig → Texts → String → ℕ → Result MeetingSession → Time → Time → LiveState → Dispatched
unfolding dispatch_by status_allows
dispatch c t id generation answer now later s =
    if not s.analysis_scheduled || not (s.schedule_generation == generation)
    then (s, none)
    else dispatch_by c t id (status_allows answer) now later (fired s)
