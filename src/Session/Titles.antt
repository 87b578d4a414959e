-- ===== src/Session/Titles.antt =====
-- Which title of a meeting wins (internal/application/meeting_session.go). What a user typed comes
-- before what Graph reports, and that before a fallback.
use deciscope_api.Base.{
  ℕ, String, Bool, true, false, ◌||◌, Option, none, some, leb, ◌==◌, trim, to_lower, is_blank,
  str_eq, has_prefix, equal_fold, truncate, if◌then◌else◌,
}
use deciscope_api.Domain.{MeetingSession}

-- `isGraphMeetingTitleSource`
unfoldable pub is_graph_source : String → Bool
is_graph_source source =
    let s = to_lower (trim source) in
    str_eq s "graph_online_meeting"
    || str_eq s "graph_calendar_event"
    || str_eq s "teams_metadata"
    || has_prefix s "graph_"

-- `meetingSessionTitleSourceRank`
unfoldable pub source_rank : String → ℕ
source_rank source =
    if equal_fold (trim source) "user_input"
    then 4
    else if is_graph_source source
    then 3
    else if equal_fold (trim source) "fallback"
    then 1
    else if is_blank (trim source)
    then 0
    else 1

pub data Decision : Type 0 where
  ignore_null overwrite_with_user_input overwrite_with_graph overwrite_with_fallback : Decision
  keep_existing : Decision

abbrev pub applies : Decision → Bool
applies overwrite_with_user_input = true
applies overwrite_with_graph = true
applies overwrite_with_fallback = true
applies _ = false

-- `incomingRank == 0` becomes 1.
abbrev pub raised : ℕ → ℕ
raised rank = if rank == 0 then 1 else rank

unfoldable pub decide_ranks : ℕ → ℕ → Decision
decide_ranks old incoming =
    if leb old incoming
    then (if incoming == 4
        then overwrite_with_user_input
        else if incoming == 3
        then overwrite_with_graph
        else if leb old 1
        then overwrite_with_fallback
        else keep_existing)
    else keep_existing

abbrev pub old_source : Option MeetingSession → String
old_source none = ""
old_source (some previous) = trim previous.metadata.title_source

-- `decideMeetingSessionTitleUpdate`
unfoldable pub decide_title : Option MeetingSession → String → String → Decision
unfolding decide_ranks
decide_title previous title source =
    if is_blank (trim title)
    then ignore_null
    else decide_ranks (source_rank (old_source previous)) (raised (source_rank (trim source)))

-- `normalizeMeetingSessionTitleSource`
unfoldable pub normalize_title_source : String → String → String
normalize_title_source source title =
    let s = trim source in
    if is_blank s then (if is_blank (trim title) then "" else "bot_metadata") else truncate 80 s
