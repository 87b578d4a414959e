-- ===== src/Session/RowFind.antt =====
-- The row with a key after the changes of the table
-- (internal/adapter/repository/postgres/meeting_session.go).
use deciscope_api.Base.{
  Bool, is_some, String, true, ◌≡◌, refl, ap, ◌∙◌, ◌⊎◌, inl, none, some, List, [], ◌∷◌, str_eq,
  eq_iff, arith, if◌then◌else◌,
}
use deciscope_api.Base.Clock.{Time}
use deciscope_api.Domain.{MeetingSession}
use deciscope_api.Session.Rows.{find, put, drop, is_outdated, stale_row, mark_rows}

pub find-id :
    (k : String) (rows : List MeetingSession) (m : MeetingSession) → find k rows ≡ some m → m.id ≡ k
unfolding find
find-id k [] m e = ground (arith, e)
find-id k (x ∷ rows) m e = ground (arith, e, eq_iff x.id k, find-id k rows m)

find-put_cases :
    (k j : String) (m : MeetingSession) (rows : List MeetingSession)
    → m.id ≡ k
    → find j (put k m rows)
      ≡ (if str_eq k j then (if is_some (find k rows) then some m else none) else find j rows)
unfolding find put
find-put_cases k j m [] h = ground arith
find-put_cases k j m (x ∷ rows) h =
    ground (
      arith,
      h,
      eq_iff x.id k,
      eq_iff m.id j,
      eq_iff x.id j,
      eq_iff k j,
      find-put_cases k j m rows h,
    )

pub find-put :
    (k j : String) (m old : MeetingSession) (rows : List MeetingSession)
    → m.id ≡ k
    → find k rows ≡ some old
    → find j (put k m rows) ≡ (if str_eq k j then some m else find j rows)
find-put k j m old rows h e =
    find-put_cases k j m rows h
    ∙ ap (λ o. if str_eq k j then (if is_some o then some m else none) else find j rows) e

pub find-drop :
    (k j : String) (rows : List MeetingSession)
    → find j (drop k rows) ≡ (if str_eq k j then none else find j rows)
unfolding find drop
find-drop k j [] = ground arith
find-drop k j (x ∷ rows) =
    ground (arith, eq_iff x.id k, eq_iff x.id j, eq_iff k j, find-drop k j rows)

pub find-mark :
    (older : Time → Time → Bool) (before now : Time) (j : String) (rows : List MeetingSession)
    → (find j (mark_rows older before now rows) ≡ find j rows)
      ⊎ ((m : MeetingSession) × (find j rows ≡ some m)
          × (is_outdated older before m ≡ true)
          × (find j (mark_rows older before now rows) ≡ some (stale_row now m)))
unfolding find mark_rows stale_row
find-mark older before now j [] = inl refl
find-mark older before now j (x ∷ rows) = grind (arith, find-mark older before now j rows)
