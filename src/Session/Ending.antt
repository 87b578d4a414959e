-- ===== src/Session/Ending.antt =====
-- `EndMeetingSession` of internal/application/meeting_session.go: the manual end of a meeting.
use deciscope_api.Base.{
  String, not, ◌&&◌, ◌∷◌, ok, invalid_argument, bot_not_configured, Exec, pure, raise, ◌>>=◌, trim,
  is_blank, concat, if◌then◌else◌,
}
use deciscope_api.Base.Clock.{Time}
use deciscope_api.Domain.{ended, eq_status, MeetingSession}
use deciscope_api.Session.Input.{StatusInput, EndInput, no_input}
use deciscope_api.Session.Policy.{is_terminal}
use deciscope_api.Session.State.{Service, Parts}
use deciscope_api.Session.Service.{on_store, start_finalization, update_meeting_session_status}

-- How the bot answers an end command.
pub data BotAnswer : Type 0 where
  accepted not_configured : BotAnswer
  unreachable : String → BotAnswer

abbrev ended_input : MeetingSession → String → String → String → StatusInput
ended_input previous reason source message = record no_input {
  session_id = previous.id;
  status = "ended";
  bot_call_id = previous.bot_call_id;
  message = message;
  reason = reason;
  source = source;
}

module _ {W : Type 0} (p : Parts W) where
  -- `EndMeetingSession` from the answer of the bot on.
  unfoldable pub after_bot :
      Time → MeetingSession → MeetingSession → String → BotAnswer → Exec (Service W) MeetingSession
  unfolding update_meeting_session_status
  after_bot now previous closing reason not_configured = raise bot_not_configured
  after_bot now previous closing reason (unreachable cause) = update_meeting_session_status p now (
      ended_input previous reason "frontend_manual_end_bot_unreachable"
        (concat reason (concat " (bot end command failed: " (concat cause ")"))))
  after_bot now previous closing reason accepted =
      if p.has_observer
      then (λ s. (ok closing, record s { fallbacks = (previous.id, reason) ∷ s.fallbacks }))
      else update_meeting_session_status p now
          (ended_input previous reason "frontend_manual_end_without_finalizer" reason)

  -- `EndMeetingSession` after the read of the row.
  unfoldable pub end_from :
      Time → Time → String → BotAnswer → MeetingSession → Exec (Service W) MeetingSession
  unfolding after_bot start_finalization update_meeting_session_status is_terminal
  end_from now later reason answer previous =
      if is_terminal previous.status
      then (if eq_status previous.status ended && p.has_observer
          then (λ s. (
            ok previous,
            start_finalization previous (ended_input previous reason "duplicate_end_retry" "") s,
          ))
          else pure previous)
      else if not p.has_commander
      then raise bot_not_configured
      else do
        closing ← update_meeting_session_status p now (record no_input {
          session_id = previous.id;
          status = "ending";
          bot_call_id = previous.bot_call_id;
          message = reason;
          reason = reason;
          source = "frontend_manual_end";
        })
        after_bot later previous closing reason answer

  -- `EndMeetingSession`; the second time is that of the write after the bot's answer.
  unfoldable pub end_meeting_session :
      Time → Time → BotAnswer → EndInput → Exec (Service W) MeetingSession
  unfolding end_from
  end_meeting_session now later answer input =
      let id = trim input.session_id in
      let reason =
        if is_blank (trim input.reason) then "manual_end_requested" else trim input.reason in
      if is_blank id
      then raise invalid_argument
      else do previous ← on_store (p.repository.get id); end_from now later reason answer previous
