-- ===== src/Session/Stamps.antt =====
-- What the `switch status` of `UpdateMeetingSessionStatus` leaves as it is
-- (internal/application/meeting_session.go).
use deciscope_api.Base.{String, Option, ◌≡◌, refl, ap, ◌∙◌, trim, if◌then◌else◌}
use deciscope_api.Base.Clock.{Time}
use deciscope_api.Domain.{
  Status, command_sent, joining, joined, active, recording, speech_error, speech_throttled, ended,
  failed, stale, MeetingSession, StatusUpdate,
}
use deciscope_api.Session.Input.{StatusInput}
use deciscope_api.Session.Titles.{applies, decide_title, normalize_title_source}
use deciscope_api.Session.Update.{stamp, status_update}

pub stamp-status :
    (now : Time) (input : StatusInput) (status : Status) (u : StatusUpdate)
    → ((stamp now input status u).status ≡ u.status)
      × ((stamp now input status u).session_id ≡ u.session_id)
unfolding stamp
stamp-status now input command_sent u = (refl, refl)
stamp-status now input joining u = (refl, refl)
stamp-status now input joined u = (refl, refl)
stamp-status now input active u = (refl, refl)
stamp-status now input recording u = (refl, refl)
stamp-status now input speech_error u = (refl, refl)
stamp-status now input speech_throttled u = (refl, refl)
stamp-status now input ended u = (refl, refl)
stamp-status now input stale u = (refl, refl)
stamp-status now input failed u = (refl, refl)
stamp-status now input _ u = (refl, refl)

-- The update is for the session and the status that were asked for.
pub status_update-status :
    (now : Time) (input : StatusInput) (id : String) (status : Status)
    (previous : Option MeetingSession)
    → ((status_update now input id status previous).status ≡ status)
      × ((status_update now input id status previous).session_id ≡ id)
unfolding status_update
status_update-status now input id status previous =
    ((stamp-status now input status _).0, (stamp-status now input status _).1)

pub stamp-title :
    (now : Time) (input : StatusInput) (status : Status) (u : StatusUpdate)
    → ((stamp now input status u).title ≡ u.title)
      × ((stamp now input status u).title_source ≡ u.title_source)
unfolding stamp
stamp-title now input command_sent u = (refl, refl)
stamp-title now input joining u = (refl, refl)
stamp-title now input joined u = (refl, refl)
stamp-title now input active u = (refl, refl)
stamp-title now input recording u = (refl, refl)
stamp-title now input speech_error u = (refl, refl)
stamp-title now input speech_throttled u = (refl, refl)
stamp-title now input ended u = (refl, refl)
stamp-title now input stale u = (refl, refl)
stamp-title now input failed u = (refl, refl)
stamp-title now input _ u = (refl, refl)

-- The title of the update, where it wins against the stored one.
pub status_update-title :
    (now : Time) (input : StatusInput) (id : String) (status : Status)
    (previous : Option MeetingSession) (source : String)
    → normalize_title_source input.title_source input.title ≡ source
    → ((status_update now input id status previous).title ≡ (
        if applies (decide_title previous (trim input.title) source) then trim input.title else ""))
      × ((status_update now input id status previous).title_source
          ≡ (if applies (decide_title previous (trim input.title) source) then source else ""))
unfolding status_update
status_update-title now input id status previous source e =
    let wins = λ (s : String). applies (decide_title previous (trim input.title) s) in
    (
      (stamp-title now input status _).0 ∙ ap (λ s. if wins s then trim input.title else "") e,
      (stamp-title now input status _).1 ∙ ap (λ s. if wins s then s else "") e,
    )
