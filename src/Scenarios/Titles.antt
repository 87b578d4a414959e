-- ===== src/Scenarios/Titles.antt =====
-- Scenarios of the title of a session.
use deciscope_api.Base.{◌≤◌, ◌≡◌, ◌⊎◌, some}
use deciscope_api.Domain.{joined, MeetingSession}
use deciscope_api.Session.Input.{StatusInput, no_input}
use deciscope_api.Session.Titles.{source_rank, raised, normalize_title_source}
use deciscope_api.Session.Rows.{apply_update}
use deciscope_api.Session.Update.{status_update}
use deciscope_api.Session.TitleRank.{title-rank}
use deciscope_api.Scenarios.Data.{seconds, session_in, no_metadata}

abbrev named : MeetingSession
named = record (session_in "s1" joined) {
  metadata = record no_metadata { title = "Weekly"; title_source = "user_input" };
}

abbrev graph_title : StatusInput
graph_title = record no_input {
  session_id = "s1";
  status = "joined";
  title = "Teams meeting";
  title_source = "graph_online_meeting";
}

title-rank_example :
    ((apply_update
          (status_update (seconds 110) graph_title "s1" joined (some named))
          named).metadata.title
        ≡ "Weekly"
      ⊎ (raised (source_rank "user_input")
          ≤ raised (source_rank (normalize_title_source "graph_online_meeting" "Teams meeting"))))
    × (raised (source_rank "user_input")
        ≤ raised (
            source_rank
              (apply_update
                (status_update (seconds 110) graph_title "s1" joined (some named))
                named).metadata.title_source))
title-rank_example = title-rank (seconds 110) graph_title "s1" joined named
