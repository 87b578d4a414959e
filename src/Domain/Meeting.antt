-- ===== src/Domain/Meeting.antt =====
-- `MeetingSession` and its two updates, of internal/domain/model.go. The titles, the identifiers of
-- the provider and the texts that were entered before the meeting stand in a record of their own,
-- since only the metadata update writes most of them.
use deciscope_api.Base.{String, Option}
use deciscope_api.Base.Clock.{Time}
use deciscope_api.Domain.Lifecycle.{Status}

pub record Metadata : Type 0 where
  pub title : String
  pub title_source : String
  pub title_updated_at : Time
  pub user_provided_title : String
  pub graph_title : String
  pub provider : String
  pub external_meeting_id : String
  pub join_meeting_id : String
  pub join_web_url : String
  pub canonical_join_web_url : String
  pub thread_id : String
  pub organizer_id : String
  pub organizer_name : String
  pub organizer_email : String
  pub scheduled_start_at : Time
  pub scheduled_end_at : Time
  pub title_resolution_error_code : String
  pub title_resolution_error_message : String
  pub title_resolved_at : Time
  pub purpose : String
  pub context : String
  pub agenda : String
  pub decision_points : String
  pub concerns : String
  pub expected_output : String
  pub custom_instruction : String

pub record MeetingSession : Type 0 where
  pub id : String
  pub workspace_id : String
  pub created_by_user_id : String
  pub meeting_id : String
  pub join_url : String
  pub join_url_hash : String
  pub metadata : Metadata
  pub status : Status
  pub bot_call_id : String
  pub requested_at : Time
  pub command_sent_at : Time
  pub joined_at : Time
  pub ended_at : Time
  pub end_reason : String
  pub last_bot_status_at : Time
  pub last_error : String
  pub created_at : Time
  pub updated_at : Time

-- A pointer field is `none` where it is nil.
pub record StatusUpdate : Type 0 where
  pub session_id : String
  pub status : Status
  pub bot_call_id : String
  pub title : String
  pub title_source : String
  pub command_sent_at : Option Time
  pub joined_at : Option Time
  pub ended_at : Option Time
  pub end_reason : String
  pub last_bot_status_at : Option Time
  pub last_error : String
  pub updated_at : Time
