-- ===== src/Live/Trigger.antt =====
-- `evaluateLiveAnalysisTrigger` of internal/application/ai_live_scheduler.go: arms the timer of the
-- next analysis of a session.
use deciscope_api.Base.{
  suc, String, true, false, not, ◌&&◌, ◌∷◌, is_empty, pos, ltb_ℤ, is_blank, trim, if◌then◌else◌,
}
use deciscope_api.Base.Clock.{Time, Duration, zero_time, before, sub}
use deciscope_api.Live.Texts.{Texts}
use deciscope_api.Live.State.{
  Trigger, no_trigger, Reason, scheduler_not_started, analysis_running, already_scheduled,
  context_not_ready, low_information, retry_is_blocked, LiveState, LiveConfig,
}
use deciscope_api.Live.Timing.{is_substantive, next_time}

-- `cancelLiveAnalysisTimerLocked`
unfoldable pub cancel_timer : LiveState → LiveState
cancel_timer s = if not s.analysis_scheduled then s else record s {
  analysis_scheduled = false;
  scheduled_at = zero_time;
  scheduled_trigger = no_trigger;
  schedule_generation = suc s.schedule_generation;
}

abbrev pub deferred : Reason → LiveState → LiveState
deferred reason s = record s { last_deferred_reason = reason }

-- Not negative.
abbrev pub delay_until : Time → Time → Duration
delay_until at now = if ltb_ℤ (sub at now) (pos 0) then pos 0 else sub at now

-- Arms the timer.
abbrev pub arm : Trigger → Time → Reason → Time → LiveState → LiveState
arm trigger at reason now s = record s {
  analysis_scheduled = true;
  scheduled_at = at;
  scheduled_trigger = trigger;
  schedule_generation = suc s.schedule_generation;
  last_trigger = trigger;
  last_deferred_reason = reason;
  timers = (suc s.schedule_generation, delay_until at now) ∷ s.timers;
}

-- The part after the checks, with the time of the next analysis.
unfoldable pub schedule : LiveConfig → Trigger → Time × Reason → Time → LiveState → LiveState
unfolding cancel_timer
schedule c trigger (at, reason) now s =
    if s.analysis_scheduled && not (before at s.scheduled_at)
    then record s {
      coalesced_trigger_count = suc s.coalesced_trigger_count;
      last_deferred_reason = already_scheduled;
    }
    else if not c.is_started
    then deferred scheduler_not_started (cancel_timer s)
    else arm trigger at reason now (cancel_timer s)

-- `evaluateLiveAnalysisTrigger` on the state of a session, under its mutex.
unfoldable pub evaluate_state : LiveConfig → Texts → Trigger → Time → LiveState → LiveState
unfolding schedule cancel_timer is_substantive
evaluate_state c t trigger now s =
    if s.stopped
    then s
    else if s.finalizing
    then s
    else if is_empty s.pending
    then s
    else if s.running
    then record s {
      rerun_requested = true;
      catch_up_requested = true;
      coalesced_trigger_count = suc s.coalesced_trigger_count;
      last_deferred_reason = analysis_running;
    }
    else if s.retry_blocked
    then deferred retry_is_blocked s
    else if s.context_pending
    then deferred context_not_ready s
    else if not (is_substantive t s.pending)
    then deferred low_information (cancel_timer s)
    else schedule c trigger (next_time c t now s) now s

-- `evaluateLiveAnalysisTrigger`
unfoldable pub evaluate_trigger :
    LiveConfig → Texts → String → Trigger → Time → LiveState → LiveState
unfolding evaluate_state
evaluate_trigger c t id trigger now s =
    if c.live_active && not (is_blank (trim id)) then evaluate_state c t trigger now s else s
