-- ===== src/Session/Freshness.antt =====
-- Heartbeats and the marking of sessions that are out of date
-- (internal/application/meeting_session.go and
-- internal/adapter/repository/postgres/meeting_session.go).
use deciscope_api.Base.{
  ◌+◌, ◌&&◌, Bool, true, ◌⊎◌, Bool-cases, ℕ, suc, ◌≡◌, refl, sym, ap, ◌∙◌, inl, inr, String, false,
  Option, none, some, List, [], ◌∷◌, length, All, arith, bind-keeps, if-case, Exec, trim, is_blank,
  if◌then◌else◌,
}
use deciscope_api.Base.Clock.{Time}
use deciscope_api.Domain.{Status, requested, eq_status, stale, is_reusable, MeetingSession}
use deciscope_api.Session.Rows.{touched, is_outdated, stale_row, mark_rows, marked}
use deciscope_api.Session.Repository.{IsRowStore}
use deciscope_api.Session.State.{Service, Parts}
use deciscope_api.Session.Service.{on_store}
use deciscope_api.Session.Queries.{record_heartbeat}

abbrev pub status_of : Option MeetingSession → Option Status
status_of none = none
status_of (some m) = some m.status

module _ {W : Type 0} (p : Parts W) (row : W → String → Option MeetingSession)
    (laws : IsRowStore p.repository row) (k : String) where
  touch-keeps_status :
      (id : String) (now : Time) (w : W)
      → status_of (row (p.repository.touch id now w).1 k) ≡ status_of (row w k)
  unfolding touched
  touch-keeps_status id now w = elim (laws.touch_rows id k now w) [
    | inl e ↦ ap status_of e
    | inr (m, f, g, e) ↦ ap status_of e ∙ sym (ap status_of f)
  ]

  -- A heartbeat changes the status of no session.
  pub heartbeat-keeps_status :
      (now : Time) (id : String) (s : Service W)
      → status_of (row (record_heartbeat p now id s).1.store k) ≡ status_of (row s.store k)
  unfolding record_heartbeat
  heartbeat-keeps_status now id s =
      let kept = touch-keeps_status (trim id) now s.store in
      if-case
        (λ (run : Exec (Service W) MeetingSession).
          status_of (row (run s).1.store k) ≡ status_of (row s.store k))
        (is_blank (trim id)) _ _ (λ _. refl)
        (λ _.
          bind-keeps (λ (t : Service W). status_of (row t.store k) ≡ status_of (row s.store k)) _
            (on_store (p.repository.touch (trim id) now)) s kept (λ seen e. kept))

-- What the marking makes of the rows: a live session whose last change is older than the cutoff becomes
-- stale, and every other row stays as it is.
abbrev pub AreSwept :
    (Time → Time → Bool) → Time → List MeetingSession → List MeetingSession → Type 0
AreSwept older before [] [] = Unit
AreSwept older before [] (k ∷ ks) = ⊥
AreSwept older before (m ∷ ms) [] = ⊥
AreSwept older before (m ∷ ms) (k ∷ ks) =
    (((is_reusable m.status ≡ true)
        × (older m.updated_at before ≡ true)
        × (k.status ≡ stale)
        × (k.id ≡ m.id))
      ⊎ (((is_reusable m.status ≡ false) ⊎ (older m.updated_at before ≡ false)) × (k ≡ m)))
    × AreSwept older before ms ks

abbrev pub stale_count : List MeetingSession → ℕ
stale_count [] = 0
stale_count (m ∷ rows) =
    let rest = stale_count rows in if eq_status m.status stale then suc rest else rest

mark-swept :
    (older : Time → Time → Bool) (before now : Time) (m : MeetingSession)
    (ms ks : List MeetingSession)
    → AreSwept older before ms ks
    → AreSwept older before
        (m ∷ ms)
        (if is_outdated older before m then stale_row now m ∷ ks else m ∷ ks)
unfolding is_outdated stale_row
mark-swept older before now m ms ks h =
    if-case (AreSwept older before (m ∷ ms)) (is_reusable m.status && older m.updated_at before) _ _
      (λ q. (inl (ground (arith, q), ground (arith, q), refl, refl), h))
      (λ q. (
        elim (Bool-cases (is_reusable m.status)) [
          | inl live ↦ inr (inr (ground (arith, q, live)), refl)
          | inr over ↦ inr (inl over, refl)
        ],
        h,
      ))

reusable-not_stale : (s : Status) → is_reusable s ≡ true → eq_status s stale ≡ false
unfolding is_reusable
reusable-not_stale stale e = cc
reusable-not_stale requested e = refl
reusable-not_stale _ e = ground (arith, e)

stale_count-mark :
    (older : Time → Time → Bool) (before now : Time) (m : MeetingSession)
    (ks ms : List MeetingSession) (n : ℕ)
    → stale_count ks ≡ n + length ms
    → stale_count (if is_outdated older before m then stale_row now m ∷ ks else m ∷ ks)
      ≡ (if eq_status m.status stale then suc n else n)
        + length (if is_outdated older before m then stale_row now m ∷ ms else ms)
unfolding is_outdated stale_row
stale_count-mark older before now m ks ms n h = ground (arith, h, reusable-not_stale m.status)

-- The statement that marks sessions makes those stale that are live and older than the cutoff, in the
-- order of the database, and leaves the others as they are. It answers rows of status `stale` only, one
-- for each that it made stale.
pub mark_rows-sweeps :
    (older : Time → Time → Bool) (before now : Time) (rows : List MeetingSession)
    → AreSwept older before rows (mark_rows older before now rows)
      × All (λ m. m.status ≡ stale) (marked older before now rows)
      × (stale_count (mark_rows older before now rows)
          ≡ stale_count rows + length (marked older before now rows))
unfolding mark_rows marked
mark_rows-sweeps older before now [] = (tt, tt, refl)
mark_rows-sweeps older before now (m ∷ rows) =
    let h = mark_rows-sweeps older before now rows in
    (
      mark-swept older before now m rows (mark_rows older before now rows) h.0,
      if-case (All (λ (x : MeetingSession). x.status ≡ stale)) (is_outdated older before m) _ _
          (λ _. (refl, h.1)) (λ _. h.1),
      stale_count-mark older before now m (mark_rows older before now rows)
          (marked older before now rows) (stale_count rows) h.2,
    )
