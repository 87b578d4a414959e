-- ===== src/Domain/Segment.antt =====
-- `TranscriptSegment` of internal/domain/model.go. Numbers of the source's int64 that are not
-- negative in a stored segment are natural numbers here.
use deciscope_api.Base.{ℕ, String, Bool}
use deciscope_api.Base.Clock.{Time}

pub record TranscriptSegment : Type 0 where
  pub session_id : String
  pub event_id : String
  pub call_id : String
  pub sequence_no : ℕ
  pub speaker_id : String
  pub speaker_name : String
  pub recognized_at_utc : Time
  pub offset_ticks : ℕ
  pub duration_ticks : ℕ
  pub text : String
  pub received_at_utc : Time
  pub is_final : Bool
