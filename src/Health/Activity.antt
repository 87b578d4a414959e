-- ===== src/Health/Activity.antt =====
-- internal/application/transcript_activity.go: when a session last gave a transcript. A session
-- without an entry has the zero entry, as a Go map reads.
use deciscope_api.Base.{
  String, not, Option, none, some, Dict, lookup, insert, remove, is_blank, is_some, trim,
  if◌then◌else◌,
}
use deciscope_api.Base.Clock.{Time, zero_time, is_zero}
use deciscope_api.Domain.{TranscriptSegment}

pub record TranscriptActivity : Type 0 where
  pub last_transcript_at : Time
  pub last_final_transcript_at : Time
  pub last_non_empty_transcript_at : Time

abbrev no_activity : TranscriptActivity
no_activity = record {
  last_transcript_at = zero_time;
  last_final_transcript_at = zero_time;
  last_non_empty_transcript_at = zero_time;
}

abbrev or_zero : Option TranscriptActivity → TranscriptActivity
or_zero none = no_activity
or_zero (some a) = a

abbrev seen_segment : Time → TranscriptSegment → TranscriptActivity → TranscriptActivity
seen_segment at segment entry = record {
  last_transcript_at = at;
  last_final_transcript_at = if segment.is_final then at else entry.last_final_transcript_at;
  last_non_empty_transcript_at =
      if not (is_blank (trim segment.text)) then at else entry.last_non_empty_transcript_at;
}

-- `TranscriptActivityTracker.PublishTranscriptSegment`; `now` is the clock.
unfoldable pub publish_segment :
    Time → TranscriptSegment → Dict TranscriptActivity → Dict TranscriptActivity
publish_segment now segment activity =
    let at = if is_zero segment.received_at_utc then now else segment.received_at_utc in
    if is_blank segment.session_id
    then activity
    else insert segment.session_id
        (seen_segment at segment (or_zero (lookup segment.session_id activity))) activity

-- `EnsureSeen`
unfoldable pub ensure_seen : String → Time → Dict TranscriptActivity → Dict TranscriptActivity
ensure_seen id at activity =
    if is_some (lookup id activity)
    then activity
    else insert id (record no_activity { last_transcript_at = at }) activity

-- `Forget`
unfoldable pub forget_activity : String → Dict TranscriptActivity → Dict TranscriptActivity
forget_activity = remove
