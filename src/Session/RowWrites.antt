-- ===== src/Session/RowWrites.antt =====
-- The rows after the writes of the table meeting_sessions, for each outcome of a statement
-- (internal/adapter/repository/postgres/meeting_session.go).
use deciscope_api.Base.{
  String, Bool, true, false, ◌≡◌, refl, sym, ap, ◌∙◌, ◌⊎◌, inl, inr, Option, none, some, List, [],
  ◌∷◌, Result, ok, err, Error, unavailable, Exec, str_eq, eq_iff, arith, if◌then◌else◌, Bool-cases,
  if-case,
}
use deciscope_api.Base.Clock.{Time}
use deciscope_api.Domain.{MeetingSession, StatusUpdate}
use deciscope_api.Session.Policy.{is_terminal}
use deciscope_api.Session.Rows.{
  Database, find, put, statement, scheduled, apply_update, write_row, update_status, touched,
  touch_row, delete_row,
}
use deciscope_api.Session.RowFind.{find-id, find-put, find-drop}

-- An outcome of a statement, which ran or failed.
pub scheduled-case :
    {A : Type 0} (Q : Result A × Database → Type 0) (run : Exec Database A) (fs : List Bool)
    (db : Database)
    → ((gs : List Bool) → Q (err unavailable, record db { faults = gs }))
    → ((gs : List Bool) → Q (run (record db { faults = gs })))
    → Q (scheduled fs run db)
unfolding scheduled
scheduled-case Q run [] db h k = k db.faults
scheduled-case Q run (true ∷ fs) db h k = h fs
scheduled-case Q run (false ∷ fs) db h k = k fs

-- The laws of an update, for one outcome.
abbrev pub IsUpdated : StatusUpdate → Database → Result MeetingSession × Database → Type 0
IsUpdated u db (err e, db') = db'.rows ≡ db.rows
IsUpdated u db (ok m, db') =
    (old : MeetingSession) × (find u.session_id db.rows ≡ some old)
    × (m ≡ apply_update u old)
    × (db'.rows ≡ put u.session_id m db.rows)

write_row-IsUpdated :
    (u : StatusUpdate) (db db' : Database) (o : Option MeetingSession)
    → db'.rows ≡ db.rows
    → find u.session_id db.rows ≡ o
    → IsUpdated u db (write_row u o db')
unfolding write_row
write_row-IsUpdated u db db' none h e = h
write_row-IsUpdated u db db' (some m) h e =
    (m, e, refl, ap (λ rows. put u.session_id (apply_update u m) rows) h)

pub update_status-IsUpdated :
    (u : StatusUpdate) (db : Database) → IsUpdated u db (update_status u db)
unfolding update_status statement
update_status-IsUpdated u db =
    scheduled-case (IsUpdated u db) (λ d. write_row u (find u.session_id d.rows) d) db.faults db
      (λ gs. refl) (λ gs. write_row-IsUpdated u db _ (find u.session_id db.rows) refl refl)

pub updated-found :
    (u : StatusUpdate) (db : Database) (x : Result MeetingSession × Database) (m : MeetingSession)
    → IsUpdated u db x
    → x.0 ≡ ok m
    → (old : MeetingSession) × (find u.session_id db.rows ≡ some old)
      × (m ≡ apply_update u old)
      × (x.1.rows ≡ put u.session_id m db.rows)
updated-found u db (err e, db') m h q = ground (arith, q)
updated-found u db (ok n, db') m (old, f, g, r) q = (old, f, cc (g, q), r ∙ cc q)

pub updated-failed :
    (u : StatusUpdate) (db : Database) (x : Result MeetingSession × Database) (e : Error)
    → IsUpdated u db x
    → x.0 ≡ err e
    → x.1.rows ≡ db.rows
updated-failed u db (err _, db') e h q = h
updated-failed u db (ok n, db') e h q = ground (arith, q)

apply_update-id : (u : StatusUpdate) (m : MeetingSession) → (apply_update u m).id ≡ m.id
unfolding apply_update
apply_update-id u m = refl

pub updated-rows :
    (u : StatusUpdate) (j : String) (db : Database) (x : Result MeetingSession × Database)
    (m : MeetingSession)
    → IsUpdated u db x
    → x.0 ≡ ok m
    → find j x.1.rows ≡ (if str_eq u.session_id j then some m else find j db.rows)
updated-rows u j db x m h q =
    let (old, f, g, r) = updated-found u db x m h q in
    ap (find j) r
    ∙ find-put u.session_id j m old db.rows
        (ap (λ y. y.id) g ∙ apply_update-id u old ∙ find-id u.session_id db.rows old f) f

pub touch_row-rows :
    (k j : String) (t : Time) (db db' : Database) (o : Option MeetingSession)
    → db'.rows ≡ db.rows
    → find k db.rows ≡ o
    → (find j (touch_row k t o db').1.rows ≡ find j db.rows)
      ⊎ ((m : MeetingSession) × (find j db.rows ≡ some m)
          × (is_terminal m.status ≡ false)
          × (find j (touch_row k t o db').1.rows ≡ some (touched t m)))
unfolding touch_row touched
touch_row-rows k j t db db' none h e = inl (ap (find j) h)
touch_row-rows k j t db db' (some m) h e =
    let P = λ (x : Result (MeetingSession × Bool) × Database).
      (find j x.1.rows ≡ find j db.rows)
      ⊎ ((m : MeetingSession) × (find j db.rows ≡ some m)
          × (is_terminal m.status ≡ false)
          × (find j x.1.rows ≡ some (touched t m))) in
    let rows = find-put k j (touched t m) m db'.rows (find-id k db.rows m e) (ap (find k) h ∙ e) in
    if-case P (is_terminal m.status) _ _ (λ _. inl (ap (find j) h))
      (λ live. elim (Bool-cases (str_eq k j)) [
        | inl q ↦ inr (
          m,
          ap (λ i. find i db.rows) (sym ((eq_iff k j).0 q)) ∙ e,
          live,
          rows ∙ ap (λ b. if b then some (touched t m) else find j db'.rows) q,
        )
        | inr q ↦
            inl
              (rows ∙ ap (λ b. if b then some (touched t m) else find j db'.rows) q ∙ ap (find j) h)
      ])

pub delete_row-rows :
    (k j : String) (db db' : Database) (o : Option MeetingSession)
    → db'.rows ≡ db.rows
    → (find j (delete_row k o db').1.rows ≡ find j db.rows)
      ⊎ ((k ≡ j) × (find j (delete_row k o db').1.rows ≡ none))
unfolding delete_row
delete_row-rows k j db db' none h = inl (ap (find j) h)
delete_row-rows k j db db' (some m) h =
    let rows = find-drop k j db'.rows in
    elim (Bool-cases (str_eq k j)) [
      | inl q ↦ inr ((eq_iff k j).0 q, rows ∙ ap (λ b. if b then none else find j db'.rows) q)
      | inr q ↦ inl (rows ∙ ap (λ b. if b then none else find j db'.rows) q ∙ ap (find j) h)
    ]
