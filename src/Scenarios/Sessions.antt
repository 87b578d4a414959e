-- ===== src/Scenarios/Sessions.antt =====
-- Scenarios of the meeting sessions.
use deciscope_api.Base.{◌+◌, false, ◌≡◌, refl, List, [], ◌∷◌, All, length, trim, to_lower, lookup}
use deciscope_api.Base.Clock.{before}
use deciscope_api.Domain.{joined, recording, ended, stale, MeetingSession, normalize_role, owner}
use deciscope_api.Session.Input.{StatusInput, no_input}
use deciscope_api.Session.Policy.{is_terminal}
use deciscope_api.Session.Rows.{Database, find, mark_rows, marked}
use deciscope_api.Session.RowLaws.{postgres}
use deciscope_api.Session.Repository.{IsRowStore}
use deciscope_api.Session.RowLaws.{row, postgres-IsRowStore, steady-IsRowStore, steady-IsReadable}
use deciscope_api.Session.Revival.{is_live}
use deciscope_api.Session.Away.{
  service-never_revives, no_step, then_step, status_arrives, heartbeat_arrives,
}
use deciscope_api.Session.Finalization.{IsSingle, jobs_of}
use deciscope_api.Session.Single.{service-IsSingle}
use deciscope_api.Session.Freshness.{
  heartbeat-keeps_status, mark_rows-sweeps, status_of, AreSwept, stale_count,
}
use deciscope_api.Session.Service.{update_meeting_session_status}
use deciscope_api.Session.Queries.{record_heartbeat}
use deciscope_api.Session.State.{Service}
use deciscope_api.Scenarios.Data.{seconds, session_in, service, parts}

mixed_case : normalize_role "  Owner\n" ≡ owner
unfolding normalize_role trim to_lower
mixed_case = refl

abbrev ended_service : Service Database
ended_service = service (session_in "s1" ended ∷ session_in "s2" joined ∷ [])

abbrev recording_again : StatusInput
recording_again = record no_input { session_id = "s1"; status = "recording" }

service-never_revives_example :
    is_live (
      row
        (record_heartbeat parts
          (seconds 102)
          "s1"
          (update_meeting_session_status parts
            (seconds 101)
            recording_again
            ended_service).1).1.store
        "s1")
    ≡ false
unfolding find is_terminal
service-never_revives_example =
    service-never_revives parts row (steady-IsRowStore before) (steady-IsReadable before) "s1"
      ended_service _
      (then_step
        (then_step (no_step ended_service)
          (status_arrives (seconds 101) recording_again ended_service))
        (heartbeat_arrives (seconds 102) "s1"
          (update_meeting_session_status parts (seconds 101) recording_again ended_service).1))
      refl

abbrev running : Service Database
running = service (session_in "s1" recording ∷ [])

abbrev end_of : StatusInput
end_of = record no_input { session_id = "s1"; status = "ended"; reason = "call ended" }

abbrev speech_failure : StatusInput
speech_failure = record no_input {
  session_id = "s1";
  status = "failed";
  reason = "Recognizer stopped, call terminated";
}

idle-IsSingle : IsSingle running
unfolding IsSingle jobs_of lookup
idle-IsSingle id = refl

service-IsSingle_example :
    IsSingle (update_meeting_session_status parts (seconds 110) end_of running).1
service-IsSingle_example =
    service-IsSingle parts running _
      (then_step (no_step running) (status_arrives (seconds 110) end_of running)) idle-IsSingle

heartbeat-keeps_status_example :
    status_of (row (record_heartbeat parts (seconds 120) "s1" running).1.store "s1")
    ≡ status_of (row running.store "s1")
heartbeat-keeps_status_example =
    heartbeat-keeps_status parts row (steady-IsRowStore before) "s1" (seconds 120) "s1" running

abbrev old_rows : List MeetingSession
old_rows = session_in "s1" joined ∷ session_in "s2" ended ∷ []

mark_rows-sweeps_example :
    AreSwept before (seconds 200) old_rows (mark_rows before (seconds 200) (seconds 300) old_rows)
    × All (λ m. m.status ≡ stale) (marked before (seconds 200) (seconds 300) old_rows)
    × (stale_count (mark_rows before (seconds 200) (seconds 300) old_rows)
        ≡ stale_count old_rows + length (marked before (seconds 200) (seconds 300) old_rows))
mark_rows-sweeps_example = mark_rows-sweeps before (seconds 200) (seconds 300) old_rows

older_rows : length (marked before (seconds 200) (seconds 300) old_rows) ≡ 1
unfolding marked
older_rows = refl

postgres-IsRowStore_example : IsRowStore (postgres before) row
postgres-IsRowStore_example = postgres-IsRowStore before
