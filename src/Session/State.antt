-- ===== src/Session/State.antt =====
-- The state of `MeetingSessionService` (internal/application/meeting_session.go), over any repository.
use deciscope_api.Base.{String, Bool, List, Dict}
use deciscope_api.Domain.{MeetingSession}
use deciscope_api.Session.Input.{StatusInput}
use deciscope_api.Session.Repository.{Repository}

-- What `startMeetingSessionFinalization` hands to its goroutine.
pub record Job : Type 0 where
  pub session : MeetingSession
  pub input : StatusInput

pub record Service (W : Type 0) : Type 0 where
  pub store : W
  -- what went to `PublishMeetingSessionStatusChanged`, the newest first
  pub published : List MeetingSession
  -- the keys of `finalizationInFlight`
  pub in_flight : Dict (Unit {0})
  -- the finalization goroutines that have not ended
  pub jobs : List Job
  -- the `finalizeAfterFallback` goroutines that were started: session and reason
  pub fallbacks : List (String × String)

-- The optional parts: `commander` and `endedObserver` may be nil.
pub record Parts (W : Type 0) : Type 0 where
  pub repository : Repository W
  pub has_commander : Bool
  pub has_observer : Bool
