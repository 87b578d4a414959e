-- ===== src/Session/Input.antt =====
-- The requests of internal/application/meeting_session.go.
use deciscope_api.Base.{ℕ, String, Bool}

pub record StatusInput : Type 0 where
  pub session_id : String
  pub status : String
  pub bot_call_id : String
  pub message : String
  pub reason : String
  pub error_code : String
  pub source : String
  pub title : String
  pub title_source : String
  pub bot_last_forwarded_final_sequence : ℕ
  pub transcript_queue_drained : Bool

pub record EndInput : Type 0 where
  pub session_id : String
  pub reason : String

-- The zero value, to be filled in by the callers that name a few fields.
abbrev pub no_input : StatusInput
no_input = record {
  session_id = "";
  status = "";
  bot_call_id = "";
  message = "";
  reason = "";
  error_code = "";
  source = "";
  title = "";
  title_source = "";
  bot_last_forwarded_final_sequence = 0;
  transcript_queue_drained = Bool.false;
}
