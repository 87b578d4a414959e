-- ===== src/Live/Rounds.antt =====
-- The rounds of the live analysis (internal/application/ai_analysis.go): a final segment arrives, a
-- round ends or fails, the finalization of the meeting takes the session over.
use deciscope_api.Base.{
  is_empty, ℕ, suc, ◌==◌, leb, Bool, true, false, not, ◌&&◌, ◌||◌, List, is_blank, trim,
  if◌then◌else◌,
}
use deciscope_api.Base.Clock.{Time, zero_time, is_zero, add}
use deciscope_api.Domain.{TranscriptSegment}
use deciscope_api.Live.Texts.{Texts}
use deciscope_api.Live.State.{final_transcript, finalization_flush, Deferred, LiveState, LiveConfig}
use deciscope_api.Live.Queue.{
  append_pending, count_chars, restore_pending, requeue_deferred, remove_covered, segment_chars,
  sequence_range,
}
use deciscope_api.Live.Timing.{live_backoff}
use deciscope_api.Live.Dispatch.{begin_run}
use deciscope_api.Live.Trigger.{cancel_timer, evaluate_trigger}

-- The state change of `PublishTranscriptSegment` under the mutex.
unfoldable pub receive_segment : TranscriptSegment → Time → LiveState → LiveState
unfolding append_pending requeue_deferred
receive_segment segment now s =
    let queued =
      count_chars (append_pending segment now (requeue_deferred segment.sequence_no now s)) in
    record queued {
      retry_blocked = false;
      last_activity_at = now;
      rerun_requested = queued.running || queued.rerun_requested;
      catch_up_requested = queued.running || queued.catch_up_requested;
    }

-- The state change of `ensureMeetingContextPlanning` in the scheduler: the first call starts the
-- planning of the meeting context, which runs beside it.
unfoldable pub ensure_context : LiveState → LiveState
ensure_context s =
    if s.context_planned then s else record s { context_planned = true; context_pending = true }

-- The state change of `completeMeetingContextPlanning` in the scheduler, with a status that is none of
-- "" and "pending": only a pending planning is ended.
unfoldable pub resolve_context : LiveState → LiveState
resolve_context s = if s.context_pending then record s { context_pending = false } else s

-- `PublishTranscriptSegment`; the trigger reads the clock again.
unfoldable pub publish_transcript_segment :
    LiveConfig → Texts → TranscriptSegment → Time → Time → LiveState → LiveState
unfolding receive_segment ensure_context evaluate_trigger
publish_transcript_segment c t segment now later s =
    if c.live_active
      && (segment.is_final
          && (not (is_blank (trim segment.session_id)) && not (is_blank (trim segment.text))))
    then evaluate_trigger c t segment.session_id final_transcript later
        (ensure_context (receive_segment segment now s))
    else s

-- `finishLiveRunLocked`
unfoldable pub finish_run : ℕ → LiveState → LiveState
finish_run generation s =
    if not (generation == 0) && not (s.running_generation == generation)
    then s
    else record s { running = false }

-- `liveRunSuperseded`
unfoldable pub is_superseded : ℕ → LiveState → Bool
is_superseded generation s = not (generation == 0) && leb generation s.superseded_generation

-- What a failure of the provider changes: a schema error blocks, any other error backs off.
unfoldable pub note_failure : LiveConfig → Bool → Time → LiveState → LiveState
unfolding live_backoff
note_failure c retryable failed_at s =
    if retryable
    then record s {
      last_analysis_completed_at = failed_at;
      failure_count = suc s.failure_count;
      next_attempt_at = add failed_at (live_backoff c.live_interval (suc s.failure_count));
      retry_blocked = false;
    }
    else record s {
      last_analysis_completed_at = failed_at;
      next_attempt_at = zero_time;
      retry_blocked = true;
    }

-- The state change of `handleLiveAnalysisFailure` under the mutex.
unfoldable pub fail_round :
    LiveConfig → Bool → ℕ → List TranscriptSegment → Time → LiveState → LiveState
unfolding finish_run restore_pending note_failure
fail_round c retryable generation segments failed_at s =
    note_failure c retryable failed_at
      (restore_pending segments s.running_oldest_pending_at failed_at (finish_run generation s))

-- `finishFinalizing`
unfoldable pub finish_finalizing : LiveState → LiveState
unfolding cancel_timer
finish_finalizing s = cancel_timer (record s { finalizing = false; stopped = true })

-- The state change of `runLiveAnalysis` after a round whose result was stored. Which segments wait
-- for the next one, `later`, is up to the coverage of the tree.
unfoldable pub complete_round :
    ℕ → List TranscriptSegment → List Deferred → Time → LiveState → LiveState
unfolding finish_run remove_covered
complete_round generation segments later now s =
    let left = remove_covered segments s.pending in
    record (finish_run generation s) {
      deferred_unreflected = later;
      pending = left;
      pending_chars = segment_chars left;
      oldest_pending_final_at = if is_empty left then zero_time else s.oldest_pending_final_at;
      latest_pending_final_at = if is_empty left then zero_time else s.latest_pending_final_at;
      failure_count = 0;
      next_attempt_at = zero_time;
      retry_blocked = false;
      last_analysis_completed_at = now;
      rerun_requested = false;
    }

-- The first state change of `prepareFinalization`.
unfoldable pub begin_finalizing : LiveState → LiveState
unfolding cancel_timer
begin_finalizing s = record (cancel_timer s) { finalizing = true }

-- The round that `prepareFinalization` owns, on the final segments that no round covered.
unfoldable pub flush_round : List TranscriptSegment → Time → LiveState → LiveState
unfolding begin_run sequence_range
flush_round segments started_at s =
    record (begin_run finalization_flush (sequence_range segments) s) {
      last_analysis_started_at = started_at;
      running_oldest_pending_at =
          if is_zero s.oldest_pending_final_at then started_at else s.oldest_pending_final_at;
      running_latest_final_at = s.latest_pending_final_at;
    }
