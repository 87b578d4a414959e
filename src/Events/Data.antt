-- ===== src/Events/Data.antt =====
-- Meetings, events and transcript segments (internal/domain/model.go), and the payload of an event
-- (internal/adapter/repository/memory/helpers.go).
use deciscope_api.Base.{String, ℕ, Bool, ◌||◌, Option, some, str_eq, is_blank, if◌then◌else◌}

pub record Meeting : Type 0 where
  pub id : String
  pub workspace_id : String
  pub title : String
  pub status : String
  pub source : String
  pub created_at : String
  pub updated_at : String
  pub ended_at : String

-- `seq` is 0 in an event that is not stored. Sequence numbers do not reach the end of int64.
pub record Event : Type 0 where
  pub kind : String
  pub meeting_id : String
  pub seq : ℕ
  pub ts_ms : ℕ
  pub payload : String

pub record Segment : Type 0 where
  pub meeting_id : String
  pub seq : ℕ
  pub segment_id : String
  pub speaker_label : String
  pub text : String
  pub start_ms : ℕ
  pub end_ms : ℕ
  pub created_at : String

pub record FinalPayload : Type 0 where
  pub segment_id : String
  pub speaker_label : String
  pub text : String
  pub start_ms : ℕ
  pub end_ms : ℕ

abbrev pub meeting_state : String
meeting_state = "meeting.state"

abbrev pub transcript_final : String
transcript_final = "transcript.final"

unfoldable pub is_durable : String → Bool
is_durable kind =
    str_eq kind transcript_final
    || str_eq kind "analysis.delta"
    || str_eq kind "tree.update"
    || str_eq kind "speaker.summary.delta"
    || str_eq kind meeting_state
    || str_eq kind "error"

-- What encoding/json does with the payloads.
pub record Codec (P : Type 0) : Type 0 where
  pub marshal : P → Option String
  pub read_final : String → Option FinalPayload
  -- the field `status` of an object, or the empty text
  pub read_status : String → Option String

pub data Payload (P : Type 0) : Type 0 where
  nothing : Payload P
  raw : String → Payload P
  value : P → Payload P

unfoldable pub json_payload : {P : Type 0} → Codec P → Payload P → Option String
json_payload codec nothing = some "{}"
json_payload codec (raw bytes) = some (if is_blank bytes then "{}" else bytes)
json_payload codec (value p) = codec.marshal p

-- What the clock gives at a call: `NowMS` and the texts of `time.Now().UTC().Format`.
pub record Moment : Type 0 where
  pub ms : ℕ
  pub rfc3339 : String
  pub segment_name : String
