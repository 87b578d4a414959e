-- ===== src/Session/Policy.antt =====
-- Which status updates are suppressed, and the texts that are stored with an update
-- (internal/application/meeting_session.go).
use deciscope_api.Base.{
  String, Bool, true, false, not, List, [], ◌∷◌, ◌++◌, trim, to_lower, is_blank, contains_any,
  truncate, concat, join, str_eq, if◌then◌else◌,
}
use deciscope_api.Domain.{
  Status, joined, active, recording, speech_error, speech_throttled, ending, ended, failed, stale,
  MeetingSession,
}
use deciscope_api.Session.Input.{StatusInput}

-- `isTerminalMeetingSessionStatus`
unfoldable pub is_terminal : Status → Bool
is_terminal ended = true
is_terminal failed = true
is_terminal stale = true
is_terminal _ = false

-- `isJoinedOrBeyondMeetingStatus`
unfoldable pub is_joined_or_beyond : Status → Bool
is_joined_or_beyond joined = true
is_joined_or_beyond active = true
is_joined_or_beyond recording = true
is_joined_or_beyond speech_error = true
is_joined_or_beyond speech_throttled = true
is_joined_or_beyond ending = true
is_joined_or_beyond _ = false

abbrev pub recoverable_markers : List String
recoverable_markers =
    "speech" ∷ "transcription" ∷ "recognizer" ∷ "pipeline" ∷ "acceptingframes" ∷ "accepting_frames"
    ∷ "silent frame" ∷ "audio" ∷ "not_ready" ∷ "not ready" ∷ []

abbrev pub fatal_markers : List String
fatal_markers =
    "call_disconnected" ∷ "call disconnected" ∷ "graph_call_disconnected"
    ∷ "graph call disconnected" ∷ "call_terminated" ∷ "call terminated" ∷ "call ended"
    ∷ "graph_call_ended" ∷ "permission_denied" ∷ "permission denied" ∷ "meeting_not_found"
    ∷ "meeting not found" ∷ "graph_join_failed" ∷ "join_failed" ∷ "fatal" ∷ []

abbrev pub failure_text : StatusInput → String
failure_text input =
    trim (to_lower (join " " (input.reason ∷ input.error_code ∷ input.source ∷ input.message ∷ [])))

-- `isFatalMeetingFailure`
unfoldable pub is_fatal_failure : StatusInput → Bool
is_fatal_failure input =
    let text = failure_text input in
    if is_blank text
    then false
    else if contains_any text recoverable_markers
    then false
    else contains_any text fatal_markers

-- `shouldSuppressMeetingSessionFailure`. The status is compared as it was sent, not trimmed.
unfoldable pub suppress_failure : MeetingSession → StatusInput → Bool
suppress_failure previous input =
    if not (str_eq input.status "failed")
    then false
    else if not (is_joined_or_beyond previous.status)
    then false
    else not (is_fatal_failure input)

-- `shouldSuppressMeetingSessionTerminalRevival`
unfoldable pub suppress_revival : Status → Status → Bool
unfolding is_terminal
suppress_revival previous next =
    if not (is_terminal previous) then false else not (is_terminal next)

part : String → String → List String
part label value = let t = trim value in if is_blank t then [] else concat label t ∷ []

-- `summarizeMeetingSessionFailure`
unfoldable pub summarize_failure : StatusInput → String
unfolding part
summarize_failure input = truncate 300 (
    join " " (
      part "reason=" input.reason
      ++ (part "errorCode=" input.error_code
          ++ (part "source=" input.source ++ part "message=" input.message))))

first_given : List String → String
first_given [] = ""
first_given (v ∷ vs) = let t = trim v in if is_blank t then first_given vs else truncate 300 t

-- `summarizeMeetingSessionEndReason`
unfoldable pub summarize_end_reason : StatusInput → String
unfolding first_given
summarize_end_reason input = first_given (input.reason ∷ input.message ∷ input.source ∷ [])
