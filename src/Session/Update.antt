-- ===== src/Session/Update.antt =====
-- The row update that `UpdateMeetingSessionStatus` builds
-- (internal/application/meeting_session.go).
use deciscope_api.Base.{String, Option, none, some, trim, if◌then◌else◌}
use deciscope_api.Base.Clock.{Time}
use deciscope_api.Domain.{
  Status, command_sent, joining, joined, active, recording, speech_error, speech_throttled, ended,
  failed, stale, MeetingSession, StatusUpdate,
}
use deciscope_api.Session.Input.{StatusInput}
use deciscope_api.Session.Policy.{summarize_failure, summarize_end_reason}
use deciscope_api.Session.Titles.{decide_title, applies, normalize_title_source}

-- The pointer fields that the switch of `UpdateMeetingSessionStatus` leaves nil stay `none`.
abbrev pub base_update : String → Status → Time → StatusUpdate
base_update id status now = record {
  session_id = id;
  status = status;
  bot_call_id = "";
  title = "";
  title_source = "";
  command_sent_at = none;
  joined_at = none;
  ended_at = none;
  end_reason = "";
  last_bot_status_at = none;
  last_error = "";
  updated_at = now;
}

-- The `switch status` of `UpdateMeetingSessionStatus`.
unfoldable pub stamp : Time → StatusInput → Status → StatusUpdate → StatusUpdate
stamp now input command_sent u = record u { command_sent_at = some now }
stamp now input joining u = record u { command_sent_at = some now }
stamp now input joined u = record u { joined_at = some now }
stamp now input active u = record u { joined_at = some now }
stamp now input recording u = record u { joined_at = some now }
stamp now input speech_error u = record u {
  joined_at = some now;
  last_error = summarize_failure input;
}
stamp now input speech_throttled u = record u {
  joined_at = some now;
  last_error = summarize_failure input;
}
stamp now input ended u = record u { ended_at = some now; end_reason = summarize_end_reason input }
stamp now input stale u = record u { ended_at = some now; end_reason = summarize_end_reason input }
stamp now input failed u = record u { last_error = summarize_failure input }
stamp now input _ u = u

-- The update that `UpdateMeetingSessionStatus` builds.
unfoldable pub status_update :
    Time → StatusInput → String → Status → Option MeetingSession → StatusUpdate
unfolding stamp
status_update now input id status previous =
    let source = normalize_title_source input.title_source input.title in
    let wins = applies (decide_title previous (trim input.title) source) in
    stamp now input status (record (base_update id status now) {
      bot_call_id = trim input.bot_call_id;
      title = if wins then trim input.title else "";
      title_source = if wins then source else "";
      last_bot_status_at = some now;
    })
