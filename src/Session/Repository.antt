-- ===== src/Session/Repository.antt =====
-- The part of the port `MeetingSessionRepository` (internal/application/ports.go) that the status
-- operations use, over an abstract state `W` of the database. Any call may fail, a read too.
use deciscope_api.Base.{
  String, Bool, Option, none, some, false, true, ◌⊎◌, List, ◌≡◌, ok, err, Error, Exec, str_eq,
  if◌then◌else◌,
}
use deciscope_api.Base.Clock.{Time}
use deciscope_api.Domain.{MeetingSession, StatusUpdate}
use deciscope_api.Session.Rows.{apply_update, touched, stale_row, is_outdated}
use deciscope_api.Session.Policy.{is_terminal}

pub record Repository (W : Type 0) : Type 0 where
  pub get : String → Exec W MeetingSession
  pub update_status : StatusUpdate → Exec W MeetingSession
  pub touch : String → Time → Exec W (MeetingSession × Bool)
  -- how the database orders the texts of instants
  pub older : Time → Time → Bool
  pub mark_stale : Time → Time → Exec W (List MeetingSession)
  pub delete : String → Exec W Unit

-- What the callers rely on: each call leaves the rows as its answer says. `row w k` is the row with
-- the primary key `k`.
pub record IsRowStore {W : Type 0} (r : Repository W) (row : W → String → Option MeetingSession)
    : Type 0 where
  pub get_keeps : (k j : String) (w : W) → row (r.get k w).1 j ≡ row w j
  pub get_found :
      (k : String) (w : W) (m : MeetingSession) → (r.get k w).0 ≡ ok m → row w k ≡ some m
  pub update_found :
      (u : StatusUpdate) (w : W) (m : MeetingSession)
      → (r.update_status u w).0 ≡ ok m
      → (old : MeetingSession) × (row w u.session_id ≡ some old) × (m ≡ apply_update u old)
  pub update_rows :
      (u : StatusUpdate) (j : String) (w : W) (m : MeetingSession)
      → (r.update_status u w).0 ≡ ok m
      → row (r.update_status u w).1 j ≡ (if str_eq u.session_id j then some m else row w j)
  pub update_failed :
      (u : StatusUpdate) (j : String) (w : W) (e : Error)
      → (r.update_status u w).0 ≡ err e
      → row (r.update_status u w).1 j ≡ row w j
  pub touch_rows :
      (k j : String) (t : Time) (w : W)
      → (row (r.touch k t w).1 j ≡ row w j)
        ⊎ ((m : MeetingSession) × (row w j ≡ some m)
            × (is_terminal m.status ≡ false)
            × (row (r.touch k t w).1 j ≡ some (touched t m)))
  pub mark_rows :
      (before now : Time) (j : String) (w : W)
      → (row (r.mark_stale before now w).1 j ≡ row w j)
        ⊎ ((m : MeetingSession) × (row w j ≡ some m)
            × (is_outdated r.older before m ≡ true)
            × (row (r.mark_stale before now w).1 j ≡ some (stale_row now m)))
  pub delete_rows :
      (k j : String) (w : W)
      → (row (r.delete k w).1 j ≡ row w j) ⊎ ((k ≡ j) × (row (r.delete k w).1 j ≡ none))
  pub id_of_row : (w : W) (k : String) (m : MeetingSession) → row w k ≡ some m → m.id ≡ k

-- No read fails: a row that is there is found.
pub record IsReadable {W : Type 0} (r : Repository W) (row : W → String → Option MeetingSession)
    : Type 0 where
  pub finds : (k : String) (w : W) (m : MeetingSession) → row w k ≡ some m → (r.get k w).0 ≡ ok m
