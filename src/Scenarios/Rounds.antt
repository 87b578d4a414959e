-- ===== src/Scenarios/Rounds.antt =====
-- Scenarios of the timers and the rounds of the live analysis.
use deciscope_api.Base.{
  ◌^◌, ◌*◌, ◌≤◌, ◌≡◌, refl, true, none, [], ◌∷◌, arith, ◌-◌, ok, pos, negsuc, min, max, trim,
  filter_runes,
}
use deciscope_api.Base.Clock.{add}
use deciscope_api.Domain.{recording}
use deciscope_api.Live.State.{LiveState, new_state}
use deciscope_api.Live.Timing.{next_time, live_backoff, base_interval, max_backoff}
use deciscope_api.Live.Dispatch.{dispatch}
use deciscope_api.Live.Rounds.{begin_finalizing}
use deciscope_api.Live.Bounds.{next_time-window, live_backoff-min}
use deciscope_api.Live.Starts.{dispatch-starts, IsReady, IsAnalysable, IsStarted}
use deciscope_api.Live.Steps.{no_step, then_step, finalization_begins}
use deciscope_api.Live.Once.{timer-starts_once}
use deciscope_api.Scenarios.Data.{seconds, session_in, live_config, texts, segment, waiting}

-- The state after the timer of `waiting` has started a round.
abbrev started : LiveState
started =
    (dispatch live_config texts "s1" 1 (ok (session_in "s1" recording)) (seconds 118) (seconds 118)
      waiting).0

timer-starts_once_example :
    dispatch live_config texts "s1" 1
      (ok (session_in "s1" recording))
      (seconds 119)
      (seconds 119)
      (begin_finalizing started)
    ≡ (begin_finalizing started, none)
unfolding dispatch filter_runes trim next_time
timer-starts_once_example =
    timer-starts_once live_config texts "s1" 1 (ok (session_in "s1" recording))
      (ok (session_in "s1" recording)) (seconds 118) (seconds 118) (seconds 119) (seconds 119)
      waiting (begin_finalizing started) (segment 1 ∷ []) refl
      (then_step (no_step started) (finalization_begins started))

dispatch-starts_example :
    ((waiting.analysis_scheduled ≡ true)
      × (waiting.schedule_generation ≡ 1)
      × IsReady texts waiting
      × IsAnalysable (ok (session_in "s1" recording))
      × (waiting.next_attempt_at ≤ seconds 118))
    × ((segment 1 ∷ []) ≡ waiting.pending)
    × IsStarted waiting started
unfolding dispatch filter_runes trim next_time
dispatch-starts_example =
    dispatch-starts live_config texts "s1" 1 (ok (session_in "s1" recording)) (seconds 118)
      (seconds 118) waiting (segment 1 ∷ []) refl

-- A new session whose context was planned.
abbrev planned : LiveState
planned = record new_state { context_planned = true }

next_time-window_example :
    (seconds 110 ≤ (next_time live_config texts (seconds 110) waiting).0)
    × (waiting.next_attempt_at ≤ (next_time live_config texts (seconds 110) waiting).0)
    × ((next_time live_config texts (seconds 110) waiting).0
        ≤ max
            (seconds 110)
            (max waiting.next_attempt_at (add waiting.oldest_pending_final_at (pos (seconds 18)))))
next_time-window_example = next_time-window live_config texts (seconds 110) waiting

live_backoff-min_example :
    live_backoff (pos (seconds 10)) 2
    ≡ pos (min max_backoff (base_interval (pos (seconds 10)) * 2 ^ 2))
live_backoff-min_example = live_backoff-min (pos (seconds 10)) 1 (omega arith)

-- An interval of 2^62 nanoseconds overflows: the back-off is negative.
overflowing : live_backoff (pos (2 ^ 62)) 1 ≡ negsuc (2 ^ 63 - 1)
unfolding live_backoff
overflowing = refl
