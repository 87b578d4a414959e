-- ===== src/Session/RowLaws.antt =====
-- The statements on the table meeting_sessions as a repository
-- (internal/adapter/repository/postgres/meeting_session.go).
use deciscope_api.Base.{
  String, Bool, true, false, ◌≡◌, refl, ap, ◌⊎◌, inl, Option, none, some, List, Result, ok, arith,
}
use deciscope_api.Base.Clock.{Time}
use deciscope_api.Domain.{MeetingSession}
use deciscope_api.Session.Policy.{is_terminal}
use deciscope_api.Session.Rows.{
  Database, find, statement, select, row_of, get, update_status, touched, touch_row, touch,
  is_outdated, stale_row, mark_stale, delete_row, delete,
}
use deciscope_api.Session.RowFind.{find-id, find-mark}
use deciscope_api.Session.RowWrites.{
  scheduled-case, update_status-IsUpdated, updated-found, updated-failed, updated-rows,
  touch_row-rows, delete_row-rows,
}
use deciscope_api.Session.Repository.{Repository, IsRowStore, IsReadable}

abbrev pub row : Database → String → Option MeetingSession
row db k = find k db.rows

-- The statements, and the same with reads that never fail.
abbrev pub postgres : (Time → Time → Bool) → Repository Database
postgres older = record {
  get = get;
  update_status = update_status;
  touch = touch;
  older = older;
  mark_stale = mark_stale older;
  delete = delete;
}

abbrev pub steady : (Time → Time → Bool) → Repository Database
steady older = record {
  get = select;
  update_status = update_status;
  touch = touch;
  older = older;
  mark_stale = mark_stale older;
  delete = delete;
}

select-found : (o : Option MeetingSession) (m : MeetingSession) → row_of o ≡ ok m → o ≡ some m
select-found none m e = ground (arith, e)
select-found (some x) m e = ground (arith, e)

get-keeps : (k j : String) (db : Database) → row (get k db).1 j ≡ row db j
unfolding get statement select
get-keeps k j db =
    scheduled-case (λ (x : Result MeetingSession × Database). find j x.1.rows ≡ find j db.rows)
      (select k) db.faults db (λ gs. refl) (λ gs. refl)

get-finds_row :
    (k : String) (db : Database) (m : MeetingSession) → (get k db).0 ≡ ok m → row db k ≡ some m
unfolding get statement select
get-finds_row k db m =
    scheduled-case (λ (x : Result MeetingSession × Database). x.0 ≡ ok m → find k db.rows ≡ some m)
      (select k) db.faults db (λ gs e. ground (arith, e)) (λ gs. select-found (find k db.rows) m)

touch-rows :
    (k j : String) (t : Time) (db : Database)
    → (row (touch k t db).1 j ≡ row db j)
      ⊎ ((m : MeetingSession) × (row db j ≡ some m)
          × (is_terminal m.status ≡ false)
          × (row (touch k t db).1 j ≡ some (touched t m)))
unfolding touch statement
touch-rows k j t db =
    scheduled-case
      (λ (x : Result (MeetingSession × Bool) × Database).
        (find j x.1.rows ≡ find j db.rows)
        ⊎ ((m : MeetingSession) × (find j db.rows ≡ some m)
            × (is_terminal m.status ≡ false)
            × (find j x.1.rows ≡ some (touched t m))))
      (λ d. touch_row k t (find k d.rows) d) db.faults db (λ gs. inl refl)
      (λ gs. touch_row-rows k j t db _ (find k db.rows) refl refl)

mark_stale-rows :
    (older : Time → Time → Bool) (before now : Time) (j : String) (db : Database)
    → (row (mark_stale older before now db).1 j ≡ row db j)
      ⊎ ((m : MeetingSession) × (row db j ≡ some m)
          × (is_outdated older before m ≡ true)
          × (row (mark_stale older before now db).1 j ≡ some (stale_row now m)))
unfolding mark_stale statement
mark_stale-rows older before now j db =
    scheduled-case
      (λ (x : Result (List MeetingSession) × Database).
        (find j x.1.rows ≡ find j db.rows)
        ⊎ ((m : MeetingSession) × (find j db.rows ≡ some m)
            × (is_outdated older before m ≡ true)
            × (find j x.1.rows ≡ some (stale_row now m))))
      _ db.faults db (λ gs. inl refl) (λ gs. find-mark older before now j db.rows)

delete-rows :
    (k j : String) (db : Database)
    → (row (delete k db).1 j ≡ row db j) ⊎ ((k ≡ j) × (row (delete k db).1 j ≡ none))
unfolding delete statement
delete-rows k j db =
    scheduled-case
      (λ (x : Result (Unit {0}) × Database).
        (find j x.1.rows ≡ find j db.rows) ⊎ ((k ≡ j) × (find j x.1.rows ≡ none)))
      (λ d. delete_row k (find k d.rows) d) db.faults db (λ gs. inl refl)
      (λ gs. delete_row-rows k j db _ (find k db.rows) refl)

-- The statements of the table, any of which may fail, keep its rows as the service relies on, whatever
-- the order of the texts of instants in the database.
pub postgres-IsRowStore : (older : Time → Time → Bool) → IsRowStore (postgres older) row
postgres-IsRowStore older = record {
  get_keeps = get-keeps;
  get_found = get-finds_row;
  update_found = λ u w m e.
      let (old, f, g, _) =
        updated-found u w (update_status u w) m (update_status-IsUpdated u w) e in
      (old, f, g);
  update_rows = λ u j w m. updated-rows u j w (update_status u w) m (update_status-IsUpdated u w);
  update_failed = λ u j w e q.
      ap (find j) (updated-failed u w (update_status u w) e (update_status-IsUpdated u w) q);
  touch_rows = touch-rows;
  mark_rows = mark_stale-rows older;
  delete_rows = delete-rows;
  id_of_row = λ w k. find-id k w.rows;
}

-- So do the same statements where no read fails.
pub steady-IsRowStore : (older : Time → Time → Bool) → IsRowStore (steady older) row
unfolding select
steady-IsRowStore older = record {
  get_keeps = λ k j w. refl;
  get_found = λ k w m. select-found (find k w.rows) m;
  update_found = (postgres-IsRowStore older).update_found;
  update_rows = (postgres-IsRowStore older).update_rows;
  update_failed = (postgres-IsRowStore older).update_failed;
  touch_rows = touch-rows;
  mark_rows = mark_stale-rows older;
  delete_rows = delete-rows;
  id_of_row = λ w k. find-id k w.rows;
}

pub steady-IsReadable : (older : Time → Time → Bool) → IsReadable (steady older) row
unfolding select
steady-IsReadable older = record { finds = λ k w m e. ap row_of e }
