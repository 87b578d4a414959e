-- ===== src/Session/Single.antt =====
-- The finalizations that run, under the operations of the service
-- (internal/application/meeting_session.go).
use deciscope_api.Base.{
  String, not, ◌&&◌, Option, none, some, List, [], ◌∷◌, Result, Exec, bind-keeps, if-case, trim,
  is_blank,
}
use deciscope_api.Base.Clock.{Time}
use deciscope_api.Domain.{
  Status, ended, ending, eq_status, parse_status, MeetingSession, StatusUpdate,
}
use deciscope_api.Session.Input.{StatusInput, EndInput}
use deciscope_api.Session.Policy.{is_terminal, suppress_failure, suppress_revival}
use deciscope_api.Session.State.{Service, Parts}
use deciscope_api.Session.Service.{
  on_store, attempt, publish, publish_all, write, begin_ending, start_ending, update_from,
  update_parsed, update_meeting_session_status, finalize_after_fallback,
}
use deciscope_api.Session.Ending.{
  BotAnswer, accepted, not_configured, unreachable, after_bot, end_from, end_meeting_session,
}
use deciscope_api.Session.Queries.{
  record_heartbeat, cleanup_stale, get_meeting_session, delete_meeting_session,
}
use deciscope_api.Session.Away.{
  ServiceStep, ServiceSteps, status_arrives, user_ends, job_ends, fallback_fires, heartbeat_arrives,
  cleanup_runs, session_is_read, session_is_deleted, no_step, then_step,
}
use deciscope_api.Session.Finalization.{
  IsSingle, start_finalization-IsSingle, complete_job-IsSingle,
}

module _ {W : Type 0} (p : Parts W) where
  -- The action keeps one finalization for each session.
  abbrev Keeps : Exec (Service W) MeetingSession → Service W → Type 0
  Keeps run s = IsSingle (run s).1

  publish_all-IsSingle :
      (ms : List MeetingSession) (s : Service W) → IsSingle s → IsSingle (publish_all ms s)
  unfolding IsSingle
  publish_all-IsSingle [] s h = h
  publish_all-IsSingle (m ∷ ms) s h = publish_all-IsSingle ms (publish m s) h

  write-IsSingle : (u : StatusUpdate) (s : Service W) → IsSingle s → Keeps (write p u) s
  unfolding write IsSingle
  write-IsSingle u s h =
      bind-keeps IsSingle _ (on_store (p.repository.update_status u)) s h (λ m e. h)

  begin_ending-IsSingle :
      (now : Time) (input : StatusInput) (m : MeetingSession) (s : Service W)
      → IsSingle s
      → Keeps (begin_ending p now input m) s
  unfolding begin_ending
  begin_ending-IsSingle now input m s h =
      if-case (λ (run : Exec (Service W) MeetingSession). Keeps run s) (eq_status m.status ending) _
        _ (λ _. h) (λ _. write-IsSingle _ s h)

  start_ending-IsSingle :
      (now : Time) (input : StatusInput) (m : MeetingSession) (s : Service W)
      → IsSingle s
      → Keeps (start_ending p now input m) s
  unfolding start_ending
  start_ending-IsSingle now input m s h =
      let k = begin_ending-IsSingle now input m s h in
      bind-keeps IsSingle _ (begin_ending p now input m) s k
        (λ closing e. start_finalization-IsSingle closing input (begin_ending p now input m s).1 k)

  update_from-IsSingle :
      (now : Time) (input : StatusInput) (id : String) (status : Status)
      (previous : Option MeetingSession) (s : Service W)
      → IsSingle s
      → Keeps (update_from p now input id status previous) s
  unfolding update_from
  update_from-IsSingle now input id status none s h = write-IsSingle _ s h
  update_from-IsSingle now input id status (some m) s h =
      let P = λ (run : Exec (Service W) MeetingSession). Keeps run s in
      if-case P (suppress_failure m input) _ _ (λ _. h)
        (λ _.
          if-case P (suppress_revival m.status status) _ _ (λ _. h)
            (λ _.
              if-case P (eq_status status ended && (eq_status m.status ended && p.has_observer)) _ _
                (λ _. start_finalization-IsSingle m input s h)
                (λ _.
                  if-case P
                    (eq_status status ended && (not (is_terminal m.status) && p.has_observer)) _ _
                    (λ _. start_ending-IsSingle now input m s h) (λ _. write-IsSingle _ s h))))

  update_parsed-IsSingle :
      (now : Time) (input : StatusInput) (id : String) (status : Option Status) (s : Service W)
      → IsSingle s
      → Keeps (update_parsed p now input id status) s
  unfolding update_parsed IsSingle
  update_parsed-IsSingle now input id none s h = h
  update_parsed-IsSingle now input id (some status) s h =
      bind-keeps IsSingle (update_from p now input id status) (attempt (p.repository.get id)) s h
        (λ previous e.
          update_from-IsSingle now input id status previous (attempt (p.repository.get id) s).1 h)

  update-IsSingle :
      (now : Time) (input : StatusInput) (s : Service W)
      → IsSingle s
      → Keeps (update_meeting_session_status p now input) s
  unfolding update_meeting_session_status
  update-IsSingle now input s h =
      if-case (λ (run : Exec (Service W) MeetingSession). Keeps run s)
        (is_blank (trim input.session_id)) _ _ (λ _. h)
        (λ _.
          update_parsed-IsSingle now input (trim input.session_id)
            (parse_status (trim input.status)) s h)

  fallback-IsSingle :
      (now : Time) (id reason : String) (s : Service W)
      → IsSingle s
      → Keeps (finalize_after_fallback p now id reason) s
  unfolding finalize_after_fallback IsSingle
  fallback-IsSingle now id reason s h =
      let t = (on_store (p.repository.get id) s).1 in
      bind-keeps IsSingle _ (on_store (p.repository.get id)) s h (λ m e.
        if-case (λ (run : Exec (Service W) MeetingSession). Keeps run t) (eq_status m.status ending)
          _ _ (λ _. update-IsSingle now _ t h) (λ _. h))

  after_bot-IsSingle :
      (now : Time) (m closing : MeetingSession) (reason : String) (answer : BotAnswer)
      (s : Service W)
      → IsSingle s
      → Keeps (after_bot p now m closing reason answer) s
  unfolding after_bot IsSingle
  after_bot-IsSingle now m closing reason not_configured s h = h
  after_bot-IsSingle now m closing reason (unreachable cause) s h = update-IsSingle now _ s h
  after_bot-IsSingle now m closing reason accepted s h =
      if-case (λ (run : Exec (Service W) MeetingSession). Keeps run s) p.has_observer _ _ (λ _. h)
        (λ _. update-IsSingle now _ s h)

  end_from-IsSingle :
      (now later : Time) (reason : String) (answer : BotAnswer) (m : MeetingSession) (s : Service W)
      → IsSingle s
      → Keeps (end_from p now later reason answer m) s
  unfolding end_from
  end_from-IsSingle now later reason answer m s h =
      let P = λ (run : Exec (Service W) MeetingSession). Keeps run s in
      if-case P (is_terminal m.status) _ _
        (λ _.
          if-case P (eq_status m.status ended && p.has_observer) _ _
            (λ _. start_finalization-IsSingle m _ s h) (λ _. h))
        (λ _.
          if-case P (not p.has_commander) _ _ (λ _. h)
            (λ _.
              bind-keeps IsSingle _ (update_meeting_session_status p now _) s
                (update-IsSingle now _ s h)
                (λ closing e.
                  after_bot-IsSingle later m closing reason answer _ (update-IsSingle now _ s h))))

  end-IsSingle :
      (now later : Time) (answer : BotAnswer) (input : EndInput) (s : Service W)
      → IsSingle s
      → Keeps (end_meeting_session p now later answer input) s
  unfolding end_meeting_session IsSingle
  end-IsSingle now later answer input s h =
      if-case (λ (run : Exec (Service W) MeetingSession). Keeps run s)
        (is_blank (trim input.session_id)) _ _ (λ _. h)
        (λ _.
          bind-keeps IsSingle _ (on_store (p.repository.get (trim input.session_id))) s h (λ m e.
            end_from-IsSingle now later _ answer m
              (on_store (p.repository.get (trim input.session_id)) s).1 h))

  heartbeat-IsSingle :
      (now : Time) (id : String) (s : Service W) → IsSingle s → Keeps (record_heartbeat p now id) s
  unfolding record_heartbeat IsSingle
  heartbeat-IsSingle now id s h =
      if-case (λ (run : Exec (Service W) MeetingSession). Keeps run s) (is_blank (trim id)) _ _
        (λ _. h)
        (λ _. bind-keeps IsSingle _ (on_store (p.repository.touch (trim id) now)) s h (λ seen e. h))

  cleanup-IsSingle : (now : Time) (s : Service W) → IsSingle s → IsSingle (cleanup_stale p now s).1
  unfolding cleanup_stale IsSingle
  cleanup-IsSingle now s h =
      bind-keeps IsSingle _ (on_store (p.repository.mark_stale _ now)) s h
        (λ ms e. publish_all-IsSingle ms _ h)

  get-IsSingle :
      (now : Time) (id : String) (s : Service W)
      → IsSingle s
      → Keeps (get_meeting_session p now id) s
  unfolding get_meeting_session IsSingle
  get-IsSingle now id s h =
      if-case (λ (out : Result MeetingSession × Service W). IsSingle out.1) (is_blank (trim id)) _ _
        (λ _. h) (λ _. cleanup-IsSingle now s h)

  delete-IsSingle :
      (id : String) (s : Service W) → IsSingle s → IsSingle (delete_meeting_session p id s).1
  unfolding delete_meeting_session IsSingle
  delete-IsSingle id s h =
      let t = (on_store (p.repository.get (trim id)) s).1 in
      if-case (λ (run : Exec (Service W) Unit). IsSingle (run s).1) (is_blank (trim id)) _ _
        (λ _. h)
        (λ _. bind-keeps IsSingle _ (on_store (p.repository.get (trim id))) s h (λ m e.
          if-case (λ (run : Exec (Service W) Unit). IsSingle (run t).1) (not (is_terminal m.status))
            _ _ (λ _. h) (λ _. h)))

  step-IsSingle : (s u : Service W) → ServiceStep p s u → IsSingle s → IsSingle u
  step-IsSingle _ _ (status_arrives now input s) = update-IsSingle now input s
  step-IsSingle _ _ (user_ends now later answer input s) = end-IsSingle now later answer input s
  step-IsSingle _ _ (job_ends now failure job s) = complete_job-IsSingle p now failure job s
  step-IsSingle _ _ (fallback_fires now id reason s) = fallback-IsSingle now id reason s
  step-IsSingle _ _ (heartbeat_arrives now id s) = heartbeat-IsSingle now id s
  step-IsSingle _ _ (cleanup_runs now s) = cleanup-IsSingle now s
  step-IsSingle _ _ (session_is_read now id s) = get-IsSingle now id s
  step-IsSingle _ _ (session_is_deleted id s) = delete-IsSingle id s

  -- No sequence of status updates, ends, finalizations, fallbacks, heartbeats, cleanups, reads and
  -- deletions runs two finalizations of one session at a time: if every session has one that runs
  -- while it is marked as being finalized, and none otherwise, then so it has afterwards.
  pub service-IsSingle : (s u : Service W) → ServiceSteps p s u → IsSingle s → IsSingle u
  service-IsSingle s _ (no_step _) h = h
  service-IsSingle s _ (then_step {u = u} {v = v} steps step) h =
      step-IsSingle u v step (service-IsSingle s u steps h)
