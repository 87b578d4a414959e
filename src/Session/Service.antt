-- ===== src/Session/Service.antt =====
-- The status operations of `MeetingSessionService` (internal/application/meeting_session.go). A
-- method is an action on the state of the service; logging is left out. The clock is an argument,
-- and a goroutine is an entry of the state whose end is an operation of its own.
use deciscope_api.Base.{
  String, not, ◌&&◌, Option, none, some, List, [], ◌∷◌, ok, invalid_argument, found, Exec, pure,
  raise, ◌>>=◌, trim, is_blank, concat, take_runes, insert, remove, lookup, is_some, if◌then◌else◌,
  str_eq,
}
use deciscope_api.Base.Clock.{Time}
use deciscope_api.Domain.{
  Status, ending, ended, parse_status, eq_status, MeetingSession, StatusUpdate,
}
use deciscope_api.Session.Input.{StatusInput, no_input}
use deciscope_api.Session.Policy.{
  is_terminal, suppress_failure, suppress_revival, summarize_end_reason,
}
use deciscope_api.Session.Update.{base_update, status_update}
use deciscope_api.Session.State.{Job, Service, Parts}

module _ {W : Type 0} where
  abbrev pub on_store : {A : Type 0} → Exec W A → Exec (Service W) A
  on_store run s = let (r, w) = run s.store in (r, record s { store = w })

  -- A read whose error the caller only logs.
  abbrev pub attempt : {A : Type 0} → Exec W A → Exec (Service W) (Option A)
  attempt run s = let (r, w) = run s.store in (ok (found r), record s { store = w })

  -- `publishStatusChanged`
  abbrev pub publish : MeetingSession → Service W → Service W
  publish m s = record s { published = m ∷ s.published }

  abbrev pub publish_all : List MeetingSession → Service W → Service W
  publish_all [] s = s
  publish_all (m ∷ ms) s = publish_all ms (publish m s)

  -- `startMeetingSessionFinalization`: one goroutine at a time for each session.
  unfoldable pub start_finalization : MeetingSession → StatusInput → Service W → Service W
  start_finalization m input s = if is_some (lookup m.id s.in_flight) then s else record s {
    in_flight = insert m.id tt s.in_flight;
    jobs = record { session = m; input = input } ∷ s.jobs;
  }

-- The goroutine that ended leaves the list.
unfoldable pub drop_job : String → List Job → List Job
drop_job id [] = []
drop_job id (j ∷ js) = if str_eq j.session.id id then js else j ∷ drop_job id js

-- `last_error` after a finalization; `truncateErrorMessage` keeps 240 runes.
failure_message : Option String → String
failure_message none = ""
failure_message (some e) = concat "meeting finalization incomplete: " (take_runes 240 (trim e))

abbrev pub fallback_input : String → String → String → StatusInput
fallback_input id bot_call_id reason = record no_input {
  session_id = id;
  status = "ended";
  bot_call_id = bot_call_id;
  reason = reason;
  source = "finalization_fallback";
  message = "bot drain acknowledgement timeout";
}

module _ {W : Type 0} (p : Parts W) where
  -- An update of the row, and its event.
  unfoldable pub write : StatusUpdate → Exec (Service W) MeetingSession
  write u = do
    updated ← on_store (p.repository.update_status u)
    λ s. (ok updated, publish updated s)

  -- The update to `ending` that comes before a finalization.
  unfoldable pub begin_ending :
      Time → StatusInput → MeetingSession → Exec (Service W) MeetingSession
  unfolding write
  begin_ending now input previous =
      if eq_status previous.status ending
      then pure previous
      else write (record (base_update previous.id ending now) {
        bot_call_id = trim input.bot_call_id;
        last_bot_status_at = some now;
      })

  unfoldable pub start_ending :
      Time → StatusInput → MeetingSession → Exec (Service W) MeetingSession
  unfolding begin_ending start_finalization
  start_ending now input previous = do
    closing ← begin_ending now input previous
    λ s. (ok closing, start_finalization closing input s)

  -- `UpdateMeetingSessionStatus` after the checks of its arguments and the read of the row.
  unfoldable pub update_from :
      Time → StatusInput → String → Status → Option MeetingSession → Exec (Service W) MeetingSession
  unfolding start_ending status_update write
  update_from now input id status none = write (status_update now input id status none)
  update_from now input id status (some previous) =
      if suppress_failure previous input
      then pure previous
      else if suppress_revival previous.status status
      then pure previous
      else if eq_status status ended && (eq_status previous.status ended && p.has_observer)
      then (λ s. (ok previous, start_finalization previous input s))
      else if eq_status status ended && (not (is_terminal previous.status) && p.has_observer)
      then start_ending now input previous
      else write (status_update now input id status (some previous))

  unfoldable pub update_parsed :
      Time → StatusInput → String → Option Status → Exec (Service W) MeetingSession
  unfolding update_from
  update_parsed now input id none = raise invalid_argument
  update_parsed now input id (some status) = do
    previous ← attempt (p.repository.get id)
    update_from now input id status previous

  -- `UpdateMeetingSessionStatus`
  unfoldable pub update_meeting_session_status :
      Time → StatusInput → Exec (Service W) MeetingSession
  unfolding update_parsed
  update_meeting_session_status now input =
      let id = trim input.session_id in
      if is_blank id
      then raise invalid_argument
      else update_parsed now input id (parse_status (trim input.status))

  -- The end of the finalization goroutine of a session, with the text of the observer's error. The
  -- entry of `finalizationInFlight` goes in any case (`defer`).
  unfoldable pub complete_job : Time → Option String → Job → Service W → Service W
  unfolding write drop_job failure_message
  complete_job now failure job s =
      let ended_row = record (base_update job.session.id ended now) {
        bot_call_id = job.session.bot_call_id;
        ended_at = some now;
        end_reason = summarize_end_reason job.input;
        last_error = failure_message failure;
      } in
      let s' = (write ended_row s).1 in
      record s' {
        in_flight = remove job.session.id s'.in_flight;
        jobs = drop_job job.session.id s'.jobs;
      }

  -- The fallback goroutine after its timer.
  unfoldable pub finalize_after_fallback : Time → String → String → Exec (Service W) MeetingSession
  finalize_after_fallback now id reason = do
    m ← on_store (p.repository.get id)
    (if eq_status m.status ending
        then update_meeting_session_status now (fallback_input id m.bot_call_id reason)
        else pure m)
