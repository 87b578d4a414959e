-- ===== src/Live/Once.antt =====
-- The callbacks of one timer (internal/application/ai_live_scheduler.go).
use deciscope_api.Base.{
  ℕ, ◌≤◌, ◌==◌, ◌≡◌, String, false, ◌&&◌, none, some, List, Result, arith, sym, subst,
}
use deciscope_api.Base.Clock.{Time}
use deciscope_api.Domain.{MeetingSession, TranscriptSegment}
use deciscope_api.Live.Texts.{Texts}
use deciscope_api.Live.State.{LiveState, LiveConfig}
use deciscope_api.Live.Trigger.{cancel_timer}
use deciscope_api.Live.Rounds.{
  finish_run, ensure_context, resolve_context, complete_round, begin_finalizing, flush_round,
  finish_finalizing,
}
use deciscope_api.Live.Dispatch.{dispatch, status_allows, fired, begin_run, start_round}
use deciscope_api.Live.Starts.{dispatch-start_round}
use deciscope_api.Live.Steps.{
  Step, Steps, IsLater, publish-IsLater, fail_round-IsLater, dispatch_by-IsLater,
  evaluate_trigger-IsLater, segment_arrives, trigger_fires, timer_fires, round_completes,
  round_fails, finalization_begins, flush_starts, finalization_ends, context_starts,
  context_resolves, service_closes, changes, no_step, then_step,
}

-- The timer of the generation is not armed and never will be.
unfoldable pub IsSpent : ℕ → LiveState → Type 0
IsSpent generation s =
    (generation ≤ s.schedule_generation)
    × ((s.analysis_scheduled && s.schedule_generation == generation) ≡ false)

module _ (c : LiveConfig) (t : Texts) (id : String) where
  dispatch-IsLater :
      (generation : ℕ) (answer : Result MeetingSession) (now later : Time) (s : LiveState)
      → IsLater s (dispatch c t id generation answer now later s).0
  unfolding dispatch IsLater
  dispatch-IsLater generation answer now later s =
      grind (arith, dispatch_by-IsLater c t id (status_allows answer) now later (fired s))

  Step-IsLater : (s u : LiveState) → Step c t id s u → IsLater s u
  unfolding IsLater complete_round finish_run begin_finalizing flush_round finish_finalizing
      cancel_timer begin_run ensure_context resolve_context
  Step-IsLater _ _ (segment_arrives segment now later s) = publish-IsLater c t segment now later s
  Step-IsLater _ _ (trigger_fires trigger now s) = evaluate_trigger-IsLater c t id trigger now s
  Step-IsLater _ _ (timer_fires generation answer now later s) =
      dispatch-IsLater generation answer now later s
  Step-IsLater _ _ (round_completes generation segments later now s) = ground arith
  Step-IsLater _ _ (round_fails retryable generation segments now s) =
      fail_round-IsLater c retryable generation segments now s
  Step-IsLater _ _ (finalization_begins s) = ground arith
  Step-IsLater _ _ (flush_starts segments now s) = ground arith
  Step-IsLater _ _ (finalization_ends s) = ground arith
  Step-IsLater _ _ (context_starts s) = ground arith
  Step-IsLater _ _ (context_resolves s) = ground arith
  Step-IsLater _ _ (service_closes s) = ground arith
  Step-IsLater _ _ (changes s u g a) = ground (arith, g, a)

  Steps-IsSpent :
      (generation : ℕ) (s u : LiveState)
      → Steps c t id s u
      → IsSpent generation s
      → IsSpent generation u
  unfolding IsSpent IsLater
  Steps-IsSpent generation s _ (no_step _) h = h
  Steps-IsSpent generation s _ (then_step {u = u} {v = v} steps step) h =
      let k = Steps-IsSpent generation s u steps h in
      let l = Step-IsLater u v step in grind (arith, k, l)

  starts-IsSpent :
      (generation : ℕ) (answer : Result MeetingSession) (now later : Time) (s : LiveState)
      (round : List TranscriptSegment)
      → (dispatch c t id generation answer now later s).1 ≡ some round
      → IsSpent generation (dispatch c t id generation answer now later s).0
  unfolding IsSpent start_round begin_run
  starts-IsSpent generation answer now later s round e =
      let d = dispatch-start_round c t id generation answer now later s round e in
      subst (λ u. IsSpent generation u) (sym d.5) (ground (arith, d.1), ground arith)

  IsSpent-dispatch :
      (generation : ℕ) (answer : Result MeetingSession) (now later : Time) (u : LiveState)
      → IsSpent generation u
      → dispatch c t id generation answer now later u ≡ (u, none)
  unfolding IsSpent dispatch
  IsSpent-dispatch generation answer now later u h = ground (arith, h)

  -- After the callback of a timer has started a round, the callback of its generation starts no other
  -- one and changes nothing, whatever operations come between, as long as the state of the session is
  -- kept: segments, triggers, other timers, the end or the failure of rounds, the finalization, the
  -- planning of the context, the closing of the service, and any change that leaves the timer alone.
  pub timer-starts_once :
      (generation : ℕ) (answer again : Result MeetingSession) (now later now' later' : Time)
      (s u : LiveState) (round : List TranscriptSegment)
      → (dispatch c t id generation answer now later s).1 ≡ some round
      → Steps c t id (dispatch c t id generation answer now later s).0 u
      → dispatch c t id generation again now' later' u ≡ (u, none)
  timer-starts_once generation answer again now later now' later' s u round e steps =
      IsSpent-dispatch generation again now' later' u (
        Steps-IsSpent generation (dispatch c t id generation answer now later s).0 u steps
          (starts-IsSpent generation answer now later s round e))
