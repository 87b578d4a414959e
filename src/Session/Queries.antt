-- ===== src/Session/Queries.antt =====
-- The other operations of `MeetingSessionService` on the status of a session
-- (internal/application/meeting_session.go): heartbeats, stale sessions, reads and deletion.
use deciscope_api.Base.{
  ℕ, String, not, List, ok, err, invalid_argument, Exec, pure, raise, ◌>>=◌, trim, is_blank, negsuc,
  ◌-◌, ◌*◌, if◌then◌else◌,
}
use deciscope_api.Base.Clock.{Time, add, minute}
use deciscope_api.Domain.{MeetingSession}
use deciscope_api.Session.Policy.{is_terminal}
use deciscope_api.Session.State.{Service, Parts}
use deciscope_api.Session.Service.{on_store, publish_all}

-- `DefaultMeetingSessionStaleAfter`
abbrev pub stale_after : ℕ
stale_after = 120 * minute

module _ {W : Type 0} (p : Parts W) where
  -- `RecordMeetingSessionHeartbeat`
  unfoldable pub record_heartbeat : Time → String → Exec (Service W) MeetingSession
  record_heartbeat now session_id =
      if is_blank (trim session_id)
      then raise invalid_argument
      else do seen ← on_store (p.repository.touch (trim session_id) now); pure seen.0

  -- `CleanupStaleMeetingSessions`
  unfoldable pub cleanup_stale : Time → Exec (Service W) (List MeetingSession)
  cleanup_stale now = do
    marked ← on_store (p.repository.mark_stale (add now (negsuc (stale_after - 1))) now)
    λ s. (ok marked, publish_all marked s)

  -- `GetMeetingSession`: a failed cleanup is only logged.
  unfoldable pub get_meeting_session : Time → String → Exec (Service W) MeetingSession
  unfolding cleanup_stale
  get_meeting_session now session_id s =
      if is_blank (trim session_id)
      then (err invalid_argument, s)
      else on_store (p.repository.get (trim session_id)) (cleanup_stale now s).1

  -- `DeleteMeetingSession`
  unfoldable pub delete_meeting_session : String → Exec (Service W) Unit
  unfolding is_terminal
  delete_meeting_session session_id =
      if is_blank (trim session_id) then raise invalid_argument else do
        m ← on_store (p.repository.get (trim session_id))
        (if not (is_terminal m.status)
            then raise invalid_argument
            else on_store (p.repository.delete (trim session_id)))
