-- ===== src/Live/Steps.antt =====
-- The operations on the state of a session in any order, and what a timer may do under them
-- (internal/application/ai_live_scheduler.go and ai_analysis.go).
use deciscope_api.Base.{
  if-case, is_empty, inr, not, refl, ℕ, ltb, ◌<◌, ◌≡◌, String, Bool, true, false, not, ◌&&◌, List,
  [], ◌∷◌, Result, arith, refl, ◌∙◌, ◌⊎◌, if◌then◌else◌,
}
use deciscope_api.Base.Clock.{after, Time}
use deciscope_api.Domain.{MeetingSession, TranscriptSegment}
use deciscope_api.Live.Texts.{Texts}
use deciscope_api.Live.State.{
  scheduled_timer, final_transcript, LiveState, LiveConfig, Trigger, Deferred, Reason,
}
use deciscope_api.Live.Queue.{
  append_pending, append_all, restore_pending, requeue_all, requeue_deferred,
}
use deciscope_api.Live.Timing.{next_time, is_substantive}
use deciscope_api.Live.Trigger.{deferred, evaluate_trigger, evaluate_state, schedule, cancel_timer}
use deciscope_api.Live.Rounds.{
  receive_segment, publish_transcript_segment, finish_run, fail_round, note_failure, complete_round,
  begin_finalizing, flush_round, finish_finalizing, ensure_context, resolve_context,
}
use deciscope_api.Live.Dispatch.{
  run_trigger, Dispatched, dispatch, dispatch_by, dispatch_allowed, allowed, Allowance, refused,
  lookup_failed, start_round, begin_run,
}

-- One operation on a session whose state is kept. The tick drops the state of a session that was
-- silent for long; the next operation then starts from `new_state`, which is no step.
pub data Step (c : LiveConfig) (t : Texts) (id : String) : LiveState → LiveState → Type 0 where
  segment_arrives :
      (segment : TranscriptSegment) (now later : Time) (s : LiveState)
      → Step c t id s (publish_transcript_segment c t segment now later s)
  trigger_fires :
      (trigger : Trigger) (now : Time) (s : LiveState)
      → Step c t id s (evaluate_trigger c t id trigger now s)
  timer_fires :
      (generation : ℕ) (answer : Result MeetingSession) (now later : Time) (s : LiveState)
      → Step c t id s (dispatch c t id generation answer now later s).0
  round_completes :
      (generation : ℕ) (segments : List TranscriptSegment) (later : List Deferred) (now : Time)
      (s : LiveState)
      → Step c t id s (complete_round generation segments later now s)
  round_fails :
      (retryable : Bool) (generation : ℕ) (segments : List TranscriptSegment) (now : Time)
      (s : LiveState)
      → Step c t id s (fail_round c retryable generation segments now s)
  finalization_begins : (s : LiveState) → Step c t id s (begin_finalizing s)
  flush_starts :
      (segments : List TranscriptSegment) (now : Time) (s : LiveState)
      → Step c t id s (flush_round segments now s)
  finalization_ends : (s : LiveState) → Step c t id s (finish_finalizing s)
  context_starts : (s : LiveState) → Step c t id s (ensure_context s)
  context_resolves : (s : LiveState) → Step c t id s (resolve_context s)
  service_closes : (s : LiveState) → Step c t id s (cancel_timer (record s { stopped = true }))
  -- Any other change that leaves the timer alone: the recovery of the final segments, a retry of the
  -- finalization, the audit of the tree.
  changes :
      (s u : LiveState)
      → u.schedule_generation ≡ s.schedule_generation
      → u.analysis_scheduled ≡ s.analysis_scheduled
      → Step c t id s u

pub data Steps (c : LiveConfig) (t : Texts) (id : String) : LiveState → LiveState → Type 0 where
  no_step : (s : LiveState) → Steps c t id s s
  then_step : {s u v : LiveState} → Steps c t id s u → Step c t id u v → Steps c t id s v

-- A newer timer generation, or no timer where there was none.
unfoldable pub IsLater : LiveState → LiveState → Type 0
IsLater s u =
    (s.schedule_generation < u.schedule_generation)
    ⊎ ((u.schedule_generation ≡ s.schedule_generation)
        × ((u.analysis_scheduled && not s.analysis_scheduled) ≡ false))

cancel_timer-IsLater : (s : LiveState) → IsLater s (cancel_timer s)
unfolding IsLater cancel_timer
cancel_timer-IsLater s = ground arith

schedule-IsLater :
    (c : LiveConfig) (cause : Trigger) (next : Time × Reason) (now : Time) (s : LiveState)
    → IsLater s (schedule c cause next now s)
unfolding IsLater cancel_timer schedule
schedule-IsLater c cause next now s = ground arith

pub evaluate_trigger-IsLater :
    (c : LiveConfig) (t : Texts) (id : String) (trigger : Trigger) (now : Time) (s : LiveState)
    → IsLater s (evaluate_trigger c t id trigger now s)
unfolding IsLater evaluate_trigger evaluate_state
evaluate_trigger-IsLater c t id trigger now s =
    grind (arith, cancel_timer-IsLater s, schedule-IsLater c trigger (next_time c t now s) now s)

append_pending-timer :
    (segment : TranscriptSegment) (at : Time) (s : LiveState)
    → ((append_pending segment at s).schedule_generation ≡ s.schedule_generation)
      × ((append_pending segment at s).analysis_scheduled ≡ s.analysis_scheduled)
unfolding append_pending
append_pending-timer segment at s = (ground arith, ground arith)

append_all-timer :
    (segments : List TranscriptSegment) (at : Time) (s : LiveState)
    → ((append_all segments at s).schedule_generation ≡ s.schedule_generation)
      × ((append_all segments at s).analysis_scheduled ≡ s.analysis_scheduled)
unfolding append_all
append_all-timer [] at s = (refl, refl)
append_all-timer (x ∷ segments) at s =
    let a = append_pending-timer x at s in
    let b = append_all-timer segments at (append_pending x at s) in (b.0 ∙ a.0, b.1 ∙ a.1)

requeue_all-timer :
    (n : ℕ) (ds : List Deferred) (at : Time) (s : LiveState)
    → ((requeue_all n ds at s).schedule_generation ≡ s.schedule_generation)
      × ((requeue_all n ds at s).analysis_scheduled ≡ s.analysis_scheduled)
unfolding requeue_all
requeue_all-timer n [] at s = (refl, refl)
requeue_all-timer n (d ∷ ds) at s =
    let a = append_pending-timer d.segment at s in
    let next = if ltb d.retry_after_sequence_no n then append_pending d.segment at s else s in
    let b = requeue_all-timer n ds at next in (ground (arith, a, b), ground (arith, a, b))

receive_segment-timer :
    (segment : TranscriptSegment) (now : Time) (s : LiveState)
    → ((receive_segment segment now s).schedule_generation ≡ s.schedule_generation)
      × ((receive_segment segment now s).analysis_scheduled ≡ s.analysis_scheduled)
unfolding receive_segment requeue_deferred
receive_segment-timer segment now s =
    let r = requeue_all-timer segment.sequence_no s.deferred_unreflected now s in
    let a = append_pending-timer segment now (requeue_deferred segment.sequence_no now s) in
    (ground (arith, a, r), ground (arith, a, r))

ensure_context-timer :
    (s : LiveState)
    → ((ensure_context s).schedule_generation ≡ s.schedule_generation)
      × ((ensure_context s).analysis_scheduled ≡ s.analysis_scheduled)
unfolding ensure_context
ensure_context-timer s = (ground arith, ground arith)

IsLater-same :
    (s u v : LiveState)
    → u.schedule_generation ≡ s.schedule_generation
    → u.analysis_scheduled ≡ s.analysis_scheduled
    → IsLater u v
    → IsLater s v
unfolding IsLater
IsLater-same s u v g a h = grind (arith, g, a, h)

IsLater-self : (s : LiveState) → IsLater s s
unfolding IsLater
IsLater-self s = ground arith

pub publish-IsLater :
    (c : LiveConfig) (t : Texts) (segment : TranscriptSegment) (now later : Time) (s : LiveState)
    → IsLater s (publish_transcript_segment c t segment now later s)
unfolding publish_transcript_segment
publish-IsLater c t segment now later s =
    let received = receive_segment segment now s in
    let r = receive_segment-timer segment now s in
    let k = ensure_context-timer received in
    if-case (IsLater s) _ _ _
      (λ _. IsLater-same s (ensure_context received) _ (k.0 ∙ r.0) (k.1 ∙ r.1) (
        evaluate_trigger-IsLater c t segment.session_id final_transcript later
          (ensure_context received)))
      (λ _. IsLater-self s)

pub fail_round-IsLater :
    (c : LiveConfig) (retryable : Bool) (generation : ℕ) (segments : List TranscriptSegment)
    (now : Time) (s : LiveState)
    → IsLater s (fail_round c retryable generation segments now s)
unfolding fail_round restore_pending note_failure finish_run IsLater
fail_round-IsLater c retryable generation segments now s =
    grind (arith, append_all-timer segments now (finish_run generation s))

start_round-IsLater :
    (cause : Trigger) (now : Time) (s : LiveState) → IsLater s (start_round cause now s)
unfolding start_round begin_run IsLater
start_round-IsLater cause now s = ground arith

dispatch_allowed-IsLater :
    (c : LiveConfig) (t : Texts) (id : String) (now later : Time) (s : LiveState)
    → IsLater s (dispatch_allowed c t id now later s).0
unfolding dispatch_allowed IsLater
dispatch_allowed-IsLater c t id now later s =
    let P = λ (d : Dispatched). IsLater s d.0 in
    let same = inr (refl, ground arith) in
    let next = next_time c t now s in
    if-case P s.stopped _ _ (λ _. same)
      (λ _.
        if-case P s.finalizing _ _ (λ _. same)
          (λ _.
            if-case P (is_empty s.pending) _ _ (λ _. same)
              (λ _.
                if-case P s.running _ _ (λ _. same)
                  (λ _.
                    if-case P s.context_pending _ _ (λ _. same)
                      (λ _.
                        if-case P s.retry_blocked _ _ (λ _. same)
                          (λ _.
                            if-case P (not (is_substantive t s.pending)) _ _ (λ _. same)
                              (λ _.
                                if-case P (after next.0 now) _ _
                                  (λ _.
                                    evaluate_trigger-IsLater c t id scheduled_timer later
                                      (deferred next.1 s))
                                  (λ _. start_round-IsLater (run_trigger c t now s) now s))))))))

pub dispatch_by-IsLater :
    (c : LiveConfig) (t : Texts) (id : String) (a : Allowance) (now later : Time) (s : LiveState)
    → IsLater s (dispatch_by c t id a now later s).0
unfolding dispatch_by IsLater
dispatch_by-IsLater c t id allowed now later s = dispatch_allowed-IsLater c t id now later s
dispatch_by-IsLater c t id (refused why) now later s = ground arith
dispatch_by-IsLater c t id lookup_failed now later s = ground arith
