-- ===== src/Session/Failures.antt =====
-- Failures that the bot can recover from (internal/application/meeting_session.go).
use deciscope_api.Base.{
  Option, List, [], ◌∷◌, String, true, false, ◌≡◌, some, trim, is_blank, contains_any,
}
use deciscope_api.Base.Clock.{Time}
use deciscope_api.Domain.{MeetingSession}
use deciscope_api.Session.Input.{StatusInput}
use deciscope_api.Session.Policy.{is_joined_or_beyond, failure_text, recoverable_markers}
use deciscope_api.Session.State.{Service, Parts}
use deciscope_api.Session.Service.{update_meeting_session_status}

module _ {W : Type 0} (p : Parts W) where
  -- Updates that arrive one after the other.
  abbrev pub run_updates : List (Time × StatusInput) → Service W → Service W
  run_updates [] s = s
  run_updates ((now, input) ∷ more) s =
      run_updates more (update_meeting_session_status p now input s).1

  module _ (row : W → String → Option MeetingSession) where
    -- A report of a failure that names a recoverable cause, of a session that was joined.
    abbrev pub IsRecoverable : W → StatusInput → Type 0
    IsRecoverable w input =
        (is_blank (trim input.session_id) ≡ false)
        × (input.status ≡ "failed")
        × (contains_any (failure_text input) recoverable_markers ≡ true)
        × ((m : MeetingSession) × (row w (trim input.session_id) ≡ some m)
            × (is_joined_or_beyond m.status ≡ true))

    abbrev pub AreRecoverable : W → List (Time × StatusInput) → Type 0
    AreRecoverable w [] = Unit
    AreRecoverable w ((now, input) ∷ more) = IsRecoverable w input × AreRecoverable w more

    abbrev pub IsKept : Service W → Service W → Type 0
    IsKept s t =
        ((k : String) → row t.store k ≡ row s.store k)
        × (t.published ≡ s.published)
        × (t.in_flight ≡ s.in_flight)
        × (t.jobs ≡ s.jobs)
        × (t.fallbacks ≡ s.fallbacks)
