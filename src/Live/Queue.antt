-- ===== src/Live/Queue.antt =====
-- The final segments that wait for an analysis (internal/application/ai_live_scheduler.go and
-- ai_analysis.go).
use deciscope_api.Base.{
  ℕ, ◌+◌, max, ltb, ◌==◌, String, Bool, not, ◌&&◌, ◌||◌, List, [], ◌∷◌, ◌++◌, any, trim, is_blank,
  str_eq, concat, rune_count, decimal, if◌then◌else◌,
}
use deciscope_api.Base.Clock.{Time, is_zero, before}
use deciscope_api.Domain.{TranscriptSegment}
use deciscope_api.Live.State.{Deferred, LiveState}

-- `finalSegmentKey`
abbrev pub final_segment_key : String → ℕ → String
final_segment_key call_id n = concat (trim call_id) (concat "\0" (decimal n))

-- `livePendingSegmentIdentity`
unfoldable pub identity : TranscriptSegment → String
identity segment =
    let event_id = trim segment.event_id in
    if not (segment.sequence_no == 0)
    then final_segment_key segment.call_id segment.sequence_no
    else if is_blank event_id
    then ""
    else concat "event:" event_id

-- The identity is one of a pending segment.
unfoldable pub is_pending : TranscriptSegment → List TranscriptSegment → Bool
is_pending segment pending =
    not (is_blank (identity segment))
    && any (λ other. str_eq (identity other) (identity segment)) pending

-- `appendPendingLiveSegmentLocked`
unfoldable pub append_pending : TranscriptSegment → Time → LiveState → LiveState
unfolding is_pending
append_pending segment at s = if is_pending segment s.pending then s else record s {
  pending = s.pending ++ segment ∷ [];
  oldest_pending_final_at =
      if is_zero s.oldest_pending_final_at then at else s.oldest_pending_final_at;
  latest_pending_final_at = at;
  highest_available = max segment.sequence_no s.highest_available;
}

-- `sumSegmentChars`
unfoldable pub segment_chars : List TranscriptSegment → ℕ
segment_chars [] = 0
segment_chars (segment ∷ segments) = rune_count (trim segment.text) + segment_chars segments

unfoldable pub append_all : List TranscriptSegment → Time → LiveState → LiveState
unfolding append_pending
append_all [] at s = s
append_all (segment ∷ segments) at s = append_all segments at (append_pending segment at s)

-- An oldest instant from before, if it is set and earlier.
abbrev pub earlier_oldest : Time → LiveState → LiveState
earlier_oldest oldest s =
    if not (is_zero oldest)
      && (is_zero s.oldest_pending_final_at || before oldest s.oldest_pending_final_at)
    then record s { oldest_pending_final_at = oldest }
    else s

abbrev pub count_chars : LiveState → LiveState
count_chars s = record s { pending_chars = segment_chars s.pending }

-- `restorePendingLiveSegmentsLocked`
unfoldable pub restore_pending : List TranscriptSegment → Time → Time → LiveState → LiveState
unfolding append_all
restore_pending segments oldest at s =
    count_chars (earlier_oldest oldest (append_all segments at s))

unfoldable pub requeue_all : ℕ → List Deferred → Time → LiveState → LiveState
unfolding append_pending
requeue_all n [] at s = s
requeue_all n (d ∷ ds) at s =
    requeue_all n ds at
      (if ltb d.retry_after_sequence_no n then append_pending d.segment at s else s)

-- `requeueDeferredUnreflectedLocked`
unfoldable pub requeue_deferred : ℕ → Time → LiveState → LiveState
unfolding requeue_all
requeue_deferred n at s = if n == 0 then s else requeue_all n s.deferred_unreflected at s

-- A numbered segment with the key of a covered one.
abbrev pub is_covered : List TranscriptSegment → TranscriptSegment → Bool
is_covered covered segment =
    not (segment.sequence_no == 0)
    && any
        (λ other.
          not (other.sequence_no == 0)
          && str_eq (final_segment_key other.call_id other.sequence_no)
              (final_segment_key segment.call_id segment.sequence_no))
        covered

-- `removeCoveredSegments`
unfoldable pub remove_covered :
    List TranscriptSegment → List TranscriptSegment → List TranscriptSegment
remove_covered covered [] = []
remove_covered covered (segment ∷ pending) =
    let rest = remove_covered covered pending in
    if is_covered covered segment then rest else segment ∷ rest

widen : ℕ → ℕ × ℕ → ℕ × ℕ
widen n (from, through) =
    (if from == 0 || ltb n from then n else from, if ltb through n then n else through)

range_from : List TranscriptSegment → ℕ × ℕ → ℕ × ℕ
unfolding widen
range_from [] range = range
range_from (segment ∷ segments) range =
    range_from segments
      (if segment.sequence_no == 0 then range else widen segment.sequence_no range)

-- `liveAnalysisSequenceRange`
unfoldable pub sequence_range : List TranscriptSegment → ℕ × ℕ
unfolding range_from
sequence_range segments = range_from segments (0, 0)
