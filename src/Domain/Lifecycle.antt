-- ===== src/Domain/Lifecycle.antt =====
-- `MeetingSessionStatus` of internal/domain/model.go. Rows hold one of the thirteen values; a
-- request carries a text, which `parse_status` accepts or refuses.
use deciscope_api.Base.{
  ℕ, ◌==◌, ◌≡◌, refl, Bool, String, Option, none, some, List, [], ◌∷◌, any, str_eq, if◌then◌else◌,
}

pub data Status : Type 0 where
  requested pending_join command_sent joining joined active recording : Status
  speech_error speech_throttled ending ended failed stale : Status

pub Status-discrete : Discrete Status
Status-discrete = hlevel

-- The value of the Go constant.
unfoldable pub status_text : Status → String
status_text requested = "requested"
status_text pending_join = "pending_join"
status_text command_sent = "command_sent"
status_text joining = "joining"
status_text joined = "joined"
status_text active = "active"
status_text recording = "recording"
status_text speech_error = "speech_error"
status_text speech_throttled = "speech_throttled"
status_text ending = "ending"
status_text ended = "ended"
status_text failed = "failed"
status_text stale = "stale"

abbrev all_statuses : List Status
all_statuses =
    requested ∷ pending_join ∷ command_sent ∷ joining ∷ joined ∷ active ∷ recording ∷ speech_error
    ∷ speech_throttled ∷ ending ∷ ended ∷ failed ∷ stale ∷ []

parse_from : List Status → String → Option Status
parse_from [] s = none
parse_from (c ∷ cs) s = if str_eq (status_text c) s then some c else parse_from cs s

-- `ValidMeetingSessionStatus`, with the status that a valid text names.
unfoldable pub parse_status : String → Option Status
unfolding parse_from status_text
parse_status s = parse_from all_statuses s

-- The place of a status in the block of constants: different statuses have different texts.
abbrev pub place : Status → ℕ
place requested = 0
place pending_join = 1
place command_sent = 2
place joining = 3
place joined = 4
place active = 5
place recording = 6
place speech_error = 7
place speech_throttled = 8
place ending = 9
place ended = 10
place failed = 11
place stale = 12

-- `a == b`
abbrev pub eq_status : Status → Status → Bool
eq_status a b = place a == place b

abbrev pub reusable_statuses : List Status
reusable_statuses =
    requested ∷ pending_join ∷ command_sent ∷ joining ∷ joined ∷ active ∷ recording ∷ speech_error
    ∷ speech_throttled ∷ []

-- `IsReusableMeetingSessionStatus`
unfoldable pub is_reusable : Status → Bool
is_reusable s = any (eq_status s) reusable_statuses

-- Every status is the one that its text names.
parse_status-status_text : (s : Status) → parse_status (status_text s) ≡ some s
unfolding parse_status
parse_status-status_text requested = refl
parse_status-status_text _ = refl
