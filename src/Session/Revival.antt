-- ===== src/Session/Revival.antt =====
-- Updates of the status of sessions that are ended, failed, stale or gone
-- (internal/application/meeting_session.go).
use deciscope_api.Base.{
  String, Bool, true, false, not, ◌&&◌, ◌≡◌, sym, ap, ◌∙◌, ◌⊎◌, inl, inr, Option, none, some, ok,
  found, Exec, bind-keeps, if-case, Option-cases, Result-cases, Bool-cases, str_eq, eq_iff, arith,
  if◌then◌else◌, trim, is_blank,
}
use deciscope_api.Base.Clock.{Time}
use deciscope_api.Domain.{
  Status, ended, ending, eq_status, MeetingSession, StatusUpdate, parse_status,
}
use deciscope_api.Session.Input.{StatusInput}
use deciscope_api.Session.Policy.{is_terminal, suppress_failure, suppress_revival}
use deciscope_api.Session.Rows.{apply_update}
use deciscope_api.Session.Repository.{IsRowStore, IsReadable}
use deciscope_api.Session.State.{Service, Parts}
use deciscope_api.Session.Update.{status_update}
use deciscope_api.Session.Stamps.{status_update-status}
use deciscope_api.Session.Service.{
  on_store, attempt, publish, start_finalization, write, begin_ending, start_ending, update_from,
  update_parsed, update_meeting_session_status,
}

-- The session is there and not terminal.
abbrev pub is_live : Option MeetingSession → Bool
is_live none = false
is_live (some m) = not (is_terminal m.status)

module _ {W : Type 0} (p : Parts W) (row : W → String → Option MeetingSession)
    (laws : IsRowStore p.repository row) (reads : IsReadable p.repository row) (k : String) where
  -- Where a write keeps the session `k` from coming back.
  abbrev pub IsSafe : W → StatusUpdate → Type 0
  IsSafe w u =
      (str_eq u.session_id k ≡ false)
      ⊎ ((is_terminal u.status ≡ true) ⊎ (row w u.session_id ≡ none))

  stored-keeps :
      (u : StatusUpdate) (w : W) (m old : MeetingSession) (after : Option MeetingSession)
      → IsSafe w u
      → is_live (row w k) ≡ false
      → row w u.session_id ≡ some old
      → m ≡ apply_update u old
      → after ≡ (if str_eq u.session_id k then some m else row w k)
      → is_live after ≡ false
  unfolding apply_update
  stored-keeps u w m old after (inl e) h f g a =
      ap is_live (a ∙ ap (λ b. if b then some m else row w k) e) ∙ h
  stored-keeps u w m old after (inr (inl t)) h f g a =
      let s = ap (λ x. x.status) g in
      ap is_live a ∙ elim (Bool-cases (str_eq u.session_id k)) [
        | inl e ↦
            ap (λ b. is_live (if b then some m else row w k)) e
            ∙ ap (λ x. not (is_terminal x)) s
            ∙ ap not t
        | inr e ↦ ap (λ b. is_live (if b then some m else row w k)) e ∙ h
      ]
  stored-keeps u w m old after (inr (inr n)) h f g a = cc (n, f)

  update-keeps :
      (u : StatusUpdate) (w : W)
      → IsSafe w u
      → is_live (row w k) ≡ false
      → is_live (row (p.repository.update_status u w).1 k) ≡ false
  update-keeps u w safe h = elim (Result-cases (p.repository.update_status u w).0) [
    | inr (e, q) ↦ ap is_live (laws.update_failed u k w e q) ∙ h
    | inl (m, q) ↦
        let (old, f, g) = laws.update_found u w m q in
        stored-keeps u w m old _ safe h f g (laws.update_rows u k w m q)
  ]

  -- The session stays away in the state of the service.
  abbrev pub IsAway : Service W → Type 0
  IsAway s = is_live (row s.store k) ≡ false

  pub write-keeps :
      (u : StatusUpdate) (s : Service W) → IsSafe s.store u → IsAway s → IsAway (write p u s).1
  unfolding write
  write-keeps u s safe h =
      bind-keeps IsAway (λ updated t. (ok updated, publish updated t))
        (on_store (p.repository.update_status u)) s (update-keeps u s.store safe h)
        (λ m e. update-keeps u s.store safe h)

  live-apart :
      (w : W) (j : String) (m : MeetingSession)
      → row w j ≡ some m
      → is_terminal m.status ≡ false
      → is_live (row w k) ≡ false
      → str_eq j k ≡ false
  live-apart w j m f t h = elim (Bool-cases (str_eq j k)) [
    | inr e ↦ e
    | inl e ↦ cc (h, ap (λ x. is_live (row w x)) ((eq_iff j k).0 e), ap is_live f, ap not t)
  ]

  start_finalization-store :
      (m : MeetingSession) (input : StatusInput) (s : Service W)
      → (start_finalization m input s).store ≡ s.store
  unfolding start_finalization
  start_finalization-store m input s = ground arith

  pub start_finalization-keeps :
      (m : MeetingSession) (input : StatusInput) (s : Service W)
      → IsAway s
      → IsAway (start_finalization m input s)
  start_finalization-keeps m input s h =
      ap (λ w. is_live (row w k)) (start_finalization-store m input s) ∙ h

  begin_ending-keeps :
      (now : Time) (input : StatusInput) (m : MeetingSession) (s : Service W)
      → row s.store m.id ≡ some m
      → is_terminal m.status ≡ false
      → IsAway s
      → IsAway (begin_ending p now input m s).1
  unfolding begin_ending
  begin_ending-keeps now input m s f t h =
      if-case (λ (run : Exec (Service W) MeetingSession). IsAway (run s).1)
        (eq_status m.status ending) _ _ (λ e. h)
        (λ e. write-keeps _ s (inl (live-apart s.store m.id m f t h)) h)

  start_ending-keeps :
      (now : Time) (input : StatusInput) (m : MeetingSession) (s : Service W)
      → row s.store m.id ≡ some m
      → is_terminal m.status ≡ false
      → IsAway s
      → IsAway (start_ending p now input m s).1
  unfolding start_ending
  start_ending-keeps now input m s f t h =
      bind-keeps IsAway (λ closing u. (ok closing, start_finalization closing input u))
        (begin_ending p now input m) s (begin_ending-keeps now input m s f t h)
        (λ closing e.
          start_finalization-keeps closing input _ (begin_ending-keeps now input m s f t h))

  -- The write of an update that is not refused.
  status_update-IsSafe :
      (now : Time) (input : StatusInput) (id : String) (status : Status) (m : MeetingSession)
      (w : W)
      → row w id ≡ some m
      → suppress_revival m.status status ≡ false
      → is_live (row w k) ≡ false
      → IsSafe w (status_update now input id status (some m))
  unfolding suppress_revival
  status_update-IsSafe now input id status m w f t h =
      let u = status_update-status now input id status (some m) in
      elim (Bool-cases (is_terminal m.status)) [
        | inl e ↦ inr (inl (ap is_terminal u.0 ∙ ground (arith, e, t)))
        | inr e ↦ inl (ap (λ j. str_eq j k) u.1 ∙ live-apart w id m f e h)
      ]

  update_from-keeps :
      (now : Time) (input : StatusInput) (id : String) (status : Status)
      (previous : Option MeetingSession) (s : Service W)
      → row s.store id ≡ previous
      → IsAway s
      → IsAway (update_from p now input id status previous s).1
  unfolding update_from
  update_from-keeps now input id status none s f h =
      let u = status_update-status now input id status none in
      write-keeps _ s (inr (inr (ap (row s.store) u.1 ∙ f))) h
  update_from-keeps now input id status (some m) s f h =
      let P = λ (run : Exec (Service W) MeetingSession). IsAway (run s).1 in
      if-case P (suppress_failure m input) _ _ (λ _. h)
        (λ _.
          if-case P (suppress_revival m.status status) _ _ (λ _. h)
            (λ t.
              if-case P (eq_status status ended && (eq_status m.status ended && p.has_observer)) _ _
                (λ _. start_finalization-keeps m input s h)
                (λ _.
                  if-case P
                    (eq_status status ended && (not (is_terminal m.status) && p.has_observer)) _ _
                    (λ e.
                      start_ending-keeps now input m s
                        (ap (row s.store) (laws.id_of_row s.store id m f) ∙ f) (ground (arith, e))
                        h)
                    (λ _.
                      write-keeps _ s (status_update-IsSafe now input id status m s.store f t h)
                        h))))

  -- A read gives the row, where there is one.
  read-row : (j : String) (w : W) → found (p.repository.get j w).0 ≡ row w j
  read-row j w = elim (Option-cases (row w j)) [
    | inr (m, f) ↦ ap found (reads.finds j w m f) ∙ sym f
    | inl f ↦ elim (Result-cases (p.repository.get j w).0) [
      | inl (m, q) ↦ ap found q ∙ sym (laws.get_found j w m q)
      | inr (e, q) ↦ ap found q ∙ sym f
    ]
  ]

  update_parsed-keeps :
      (now : Time) (input : StatusInput) (id : String) (status : Option Status) (s : Service W)
      → IsAway s
      → IsAway (update_parsed p now input id status s).1
  unfolding update_parsed
  update_parsed-keeps now input id none s h = h
  update_parsed-keeps now input id (some status) s h =
      let kept = ap is_live (laws.get_keeps id k s.store) ∙ h in
      bind-keeps IsAway (update_from p now input id status) (attempt (p.repository.get id)) s kept
        (λ previous e.
          update_from-keeps now input id status previous _
            (laws.get_keeps id id s.store ∙ cc (e, read-row id s.store)) kept)

  pub update-IsAway :
      (now : Time) (input : StatusInput) (s : Service W)
      → IsAway s
      → IsAway (update_meeting_session_status p now input s).1
  unfolding update_meeting_session_status
  update-IsAway now input s h =
      if-case (λ (run : Exec (Service W) MeetingSession). IsAway (run s).1)
        (is_blank (trim input.session_id)) _ _ (λ _. h)
        (λ _.
          update_parsed-keeps now input (trim input.session_id) (parse_status (trim input.status)) s
            h)
