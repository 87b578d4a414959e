-- ===== src/Session/Rows.antt =====
-- The rows of the table meeting_sessions under the statements of
-- internal/adapter/repository/postgres/meeting_session.go. A statement may fail as a whole, which
-- `faults` schedules; what fails changes no row.
use deciscope_api.Base.{
  String, Bool, true, false, not, ◌&&◌, Option, none, some, List, [], ◌∷◌, Result, ok, err,
  not_found, unavailable, Exec, str_eq, is_blank, if◌then◌else◌,
}
use deciscope_api.Base.Clock.{Time, is_zero}
use deciscope_api.Domain.{stale, is_reusable, MeetingSession, StatusUpdate}
use deciscope_api.Session.Policy.{is_terminal, is_joined_or_beyond}

pub record Database : Type 0 where
  -- one row for each primary key
  pub rows : List MeetingSession
  -- whether the next statements fail; beyond the list they succeed
  pub faults : List Bool

-- `COALESCE($n, column)` on a parameter from `nullableTimePtr`, which is NULL for a zero time too.
abbrev pub coalesce : Option Time → Time → Time
coalesce none old = old
coalesce (some t) old = if is_zero t then old else t

-- `CASE WHEN $n = '' THEN column ELSE $n END`
abbrev pub given_or : String → String → String
given_or new old = if is_blank new then old else new

-- The columns after the UPDATE of `UpdateMeetingSessionStatus`.
unfoldable pub apply_update : StatusUpdate → MeetingSession → MeetingSession
apply_update u m = record m {
  status = u.status;
  bot_call_id = given_or u.bot_call_id m.bot_call_id;
  command_sent_at = coalesce u.command_sent_at m.command_sent_at;
  joined_at = coalesce u.joined_at m.joined_at;
  ended_at = coalesce u.ended_at m.ended_at;
  last_error = u.last_error;
  updated_at = u.updated_at;
  metadata = record (m.metadata) {
    title = given_or u.title m.metadata.title;
    title_updated_at = if is_blank u.title then m.metadata.title_updated_at else u.updated_at;
    title_source = given_or u.title_source m.metadata.title_source;
  };
  end_reason = given_or u.end_reason m.end_reason;
  last_bot_status_at = coalesce u.last_bot_status_at m.last_bot_status_at;
}

-- `WHERE id = $1`
unfoldable pub find : String → List MeetingSession → Option MeetingSession
find k [] = none
find k (m ∷ rows) = if str_eq m.id k then some m else find k rows

-- Writes the row with the key.
unfoldable pub put : String → MeetingSession → List MeetingSession → List MeetingSession
put k m' [] = []
put k m' (m ∷ rows) = let rest = put k m' rows in if str_eq m.id k then m' ∷ rest else m ∷ rest

unfoldable pub drop : String → List MeetingSession → List MeetingSession
drop k [] = []
drop k (m ∷ rows) = let rest = drop k rows in if str_eq m.id k then rest else m ∷ rest

unfoldable pub scheduled : {A : Type 0} → List Bool → Exec Database A → Exec Database A
scheduled [] run db = run db
scheduled (true ∷ fs) run db = (err unavailable, record db { faults = fs })
scheduled (false ∷ fs) run db = run (record db { faults = fs })

-- Runs a statement, or fails in its place.
unfoldable pub statement : {A : Type 0} → Exec Database A → Exec Database A
unfolding scheduled
statement run db = scheduled db.faults run db

abbrev pub row_of : Option MeetingSession → Result MeetingSession
row_of none = err not_found
row_of (some m) = ok m

unfoldable pub select : String → Exec Database MeetingSession
select key db = (row_of (find key db.rows), db)

-- `GetMeetingSession`
unfoldable pub get : String → Exec Database MeetingSession
unfolding statement select
get key = statement (select key)

unfoldable pub write_row : StatusUpdate → Option MeetingSession → Exec Database MeetingSession
unfolding apply_update put
write_row u none db = (err not_found, db)
write_row u (some m) db =
    let m' = apply_update u m in (ok m', record db { rows = put u.session_id m' db.rows })

-- `UpdateMeetingSessionStatus`
unfoldable pub update_status : StatusUpdate → Exec Database MeetingSession
unfolding statement write_row find put
update_status u = statement (λ db. write_row u (find u.session_id db.rows) db)

-- The row after a heartbeat, unless it is terminal.
unfoldable pub touched : Time → MeetingSession → MeetingSession
touched seen_at m = record m { last_bot_status_at = seen_at; updated_at = seen_at }

unfoldable pub touch_row :
    String → Time → Option MeetingSession → Exec Database (MeetingSession × Bool)
unfolding touched is_terminal put
touch_row key seen_at none db = (err not_found, db)
touch_row key seen_at (some m) db =
    if is_terminal m.status
    then (ok (m, false), db)
    else (ok (touched seen_at m, true), record db { rows = put key (touched seen_at m) db.rows })

-- `TouchMeetingSessionBotSeen`; the read after an update of no row is part of one statement here.
unfoldable pub touch : String → Time → Exec Database (MeetingSession × Bool)
unfolding statement touch_row find put
touch key seen_at = statement (λ db. touch_row key seen_at (find key db.rows) db)

abbrev pub stale_message : String
stale_message = "session marked stale because no update was received before cutoff"

-- The column has the texts of the instants (RFC 3339), and the statement compares texts by the order
-- of the database: `older` is that order, which need not be the one of the instants.
unfoldable pub is_outdated : (Time → Time → Bool) → Time → MeetingSession → Bool
unfolding is_reusable
is_outdated older stale_before m = is_reusable m.status && older m.updated_at stale_before

unfoldable pub stale_row : Time → MeetingSession → MeetingSession
stale_row updated_at m = record m {
  status = stale;
  ended_at = if is_zero m.ended_at then updated_at else m.ended_at;
  end_reason = if is_blank m.end_reason then stale_message else m.end_reason;
  last_error = if is_blank m.last_error then stale_message else m.last_error;
  updated_at = updated_at;
}

unfoldable pub mark_rows :
    (Time → Time → Bool) → Time → Time → List MeetingSession → List MeetingSession
unfolding is_outdated stale_row
mark_rows older stale_before updated_at [] = []
mark_rows older stale_before updated_at (m ∷ rows) =
    let rest = mark_rows older stale_before updated_at rows in
    if is_outdated older stale_before m then stale_row updated_at m ∷ rest else m ∷ rest

unfoldable pub marked :
    (Time → Time → Bool) → Time → Time → List MeetingSession → List MeetingSession
unfolding is_outdated stale_row
marked older stale_before updated_at [] = []
marked older stale_before updated_at (m ∷ rows) =
    let rest = marked older stale_before updated_at rows in
    if is_outdated older stale_before m then stale_row updated_at m ∷ rest else rest

-- `MarkStaleMeetingSessions`
unfoldable pub mark_stale : (Time → Time → Bool) → Time → Time → Exec Database (List MeetingSession)
unfolding statement mark_rows marked
mark_stale older stale_before updated_at = statement λ db. (
  ok (marked older stale_before updated_at db.rows),
  record db { rows = mark_rows older stale_before updated_at db.rows },
)

unfoldable pub delete_row : String → Option MeetingSession → Exec Database Unit
delete_row key none db = (err not_found, db)
delete_row key (some _) db = (ok tt, record db { rows = drop key db.rows })

-- `DeleteMeetingSession`, on this table.
unfoldable pub delete : String → Exec Database Unit
unfolding statement delete_row find drop
delete key = statement (λ db. delete_row key (find key db.rows) db)

is_watched : MeetingSession → Bool
unfolding is_joined_or_beyond
is_watched m = is_joined_or_beyond m.status && not (is_zero m.last_bot_status_at)

watched : List MeetingSession → List MeetingSession
unfolding is_watched
watched [] = []
watched (m ∷ rows) = let rest = watched rows in if is_watched m then m ∷ rest else rest

-- `ListMeetingSessionsForBotWatchdog`
unfoldable pub list_for_watchdog : Exec Database (List MeetingSession)
unfolding statement watched
list_for_watchdog = statement (λ db. (ok (watched db.rows), db))
