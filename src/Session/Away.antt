-- ===== src/Session/Away.antt =====
-- The operations of the service, in any order, on sessions that are ended, failed, stale or gone
-- (internal/application/meeting_session.go).
use deciscope_api.Base.{
  ◌&&◌, String, false, not, ◌≡◌, ap, ◌∙◌, inl, inr, Option, Exec, bind-keeps, if-case, trim,
  is_blank, List, [], ◌∷◌, refl, Result,
}
use deciscope_api.Base.Clock.{Time}
use deciscope_api.Domain.{ended, ending, eq_status, MeetingSession}
use deciscope_api.Session.Input.{StatusInput, EndInput}
use deciscope_api.Session.Policy.{is_terminal}
use deciscope_api.Session.Rows.{touched, stale_row}
use deciscope_api.Session.Repository.{IsRowStore, IsReadable}
use deciscope_api.Session.State.{Job, Service, Parts}
use deciscope_api.Session.Service.{
  on_store, publish, publish_all, update_meeting_session_status, complete_job,
  finalize_after_fallback,
}
use deciscope_api.Session.Ending.{
  BotAnswer, accepted, not_configured, unreachable, after_bot, end_from, end_meeting_session,
}
use deciscope_api.Session.Queries.{
  record_heartbeat, cleanup_stale, get_meeting_session, delete_meeting_session,
}
use deciscope_api.Session.Revival.{
  is_live, IsAway, write-keeps, update-IsAway, start_finalization-keeps,
}

-- One operation of the service, run to its end.
pub data ServiceStep {W : Type 0} (p : Parts W) : Service W → Service W → Type 0 where
  status_arrives :
      (now : Time) (input : StatusInput) (s : Service W)
      → ServiceStep p s (update_meeting_session_status p now input s).1
  user_ends :
      (now later : Time) (answer : BotAnswer) (input : EndInput) (s : Service W)
      → ServiceStep p s (end_meeting_session p now later answer input s).1
  job_ends :
      (now : Time) (failure : Option String) (job : Job) (s : Service W)
      → ServiceStep p s (complete_job p now failure job s)
  fallback_fires :
      (now : Time) (id reason : String) (s : Service W)
      → ServiceStep p s (finalize_after_fallback p now id reason s).1
  heartbeat_arrives :
      (now : Time) (id : String) (s : Service W) → ServiceStep p s (record_heartbeat p now id s).1
  cleanup_runs : (now : Time) (s : Service W) → ServiceStep p s (cleanup_stale p now s).1
  session_is_read :
      (now : Time) (id : String) (s : Service W)
      → ServiceStep p s (get_meeting_session p now id s).1
  session_is_deleted :
      (id : String) (s : Service W) → ServiceStep p s (delete_meeting_session p id s).1

pub data ServiceSteps {W : Type 0} (p : Parts W) : Service W → Service W → Type 0 where
  no_step : (s : Service W) → ServiceSteps p s s
  then_step : {s u v : Service W} → ServiceSteps p s u → ServiceStep p u v → ServiceSteps p s v

publish_all-store :
    {W : Type 0} (ms : List MeetingSession) (s : Service W) → (publish_all ms s).store ≡ s.store
publish_all-store [] s = refl
publish_all-store (m ∷ ms) s = publish_all-store ms (publish m s)

module _ {W : Type 0} (p : Parts W) (row : W → String → Option MeetingSession)
    (laws : IsRowStore p.repository row) (reads : IsReadable p.repository row) (k : String) where
  abbrev Away : Service W → Type 0
  Away s = IsAway p row laws reads k s

  complete_job-Away :
      (now : Time) (failure : Option String) (job : Job) (s : Service W)
      → Away s
      → Away (complete_job p now failure job s)
  unfolding complete_job is_terminal
  complete_job-Away now failure job s h = write-keeps p row laws reads k _ s (inr (inl refl)) h

  fallback-Away :
      (now : Time) (id reason : String) (s : Service W)
      → Away s
      → Away (finalize_after_fallback p now id reason s).1
  unfolding finalize_after_fallback
  fallback-Away now id reason s h =
      let kept = ap is_live (laws.get_keeps id k s.store) ∙ h in
      let t = (on_store (p.repository.get id) s).1 in
      bind-keeps Away _ (on_store (p.repository.get id)) s kept (λ m e.
        if-case (λ (run : Exec (Service W) MeetingSession). Away (run t).1)
          (eq_status m.status ending) _ _ (λ _. update-IsAway p row laws reads k now _ t kept)
          (λ _. kept))

  after_bot-Away :
      (now : Time) (m closing : MeetingSession) (reason : String) (answer : BotAnswer)
      (s : Service W)
      → Away s
      → Away (after_bot p now m closing reason answer s).1
  unfolding after_bot
  after_bot-Away now m closing reason not_configured s h = h
  after_bot-Away now m closing reason (unreachable cause) s h =
      update-IsAway p row laws reads k now _ s h
  after_bot-Away now m closing reason accepted s h =
      if-case (λ (run : Exec (Service W) MeetingSession). Away (run s).1) p.has_observer _ _
        (λ _. h) (λ _. update-IsAway p row laws reads k now _ s h)

  end_from-Away :
      (now later : Time) (reason : String) (answer : BotAnswer) (m : MeetingSession) (s : Service W)
      → Away s
      → Away (end_from p now later reason answer m s).1
  unfolding end_from
  end_from-Away now later reason answer m s h =
      let P = λ (run : Exec (Service W) MeetingSession). Away (run s).1 in
      if-case P (is_terminal m.status) _ _
        (λ _.
          if-case P (eq_status m.status ended && p.has_observer) _ _
            (λ _. start_finalization-keeps p row laws reads k m _ s h) (λ _. h))
        (λ _.
          if-case P (not p.has_commander) _ _ (λ _. h)
            (λ _.
              bind-keeps Away _ (update_meeting_session_status p now _) s
                (update-IsAway p row laws reads k now _ s h)
                (λ closing e.
                  after_bot-Away later m closing reason answer _
                    (update-IsAway p row laws reads k now _ s h))))

  end-Away :
      (now later : Time) (answer : BotAnswer) (input : EndInput) (s : Service W)
      → Away s
      → Away (end_meeting_session p now later answer input s).1
  unfolding end_meeting_session
  end-Away now later answer input s h =
      let kept = ap is_live (laws.get_keeps (trim input.session_id) k s.store) ∙ h in
      if-case (λ (run : Exec (Service W) MeetingSession). Away (run s).1)
        (is_blank (trim input.session_id)) _ _ (λ _. h)
        (λ _.
          bind-keeps Away _ (on_store (p.repository.get (trim input.session_id))) s kept
            (λ m e. end_from-Away now later _ answer m _ kept))

  touch-away :
      (j : String) (t : Time) (w : W)
      → is_live (row w k) ≡ false
      → is_live (row (p.repository.touch j t w).1 k) ≡ false
  unfolding touched
  touch-away j t w h = elim (laws.touch_rows j k t w) [
    | inl e ↦ ap is_live e ∙ h
    | inr (m, f, g, e) ↦ cc (h, ap is_live f)
  ]

  mark-away :
      (before now : Time) (w : W)
      → is_live (row w k) ≡ false
      → is_live (row (p.repository.mark_stale before now w).1 k) ≡ false
  unfolding stale_row is_terminal
  mark-away before now w h = elim (laws.mark_rows before now k w) [
    | inl e ↦ ap is_live e ∙ h
    | inr (m, f, g, e) ↦ ap is_live e
  ]

  delete-away :
      (j : String) (w : W)
      → is_live (row w k) ≡ false
      → is_live (row (p.repository.delete j w).1 k) ≡ false
  delete-away j w h = elim (laws.delete_rows j k w) [
    | inl e ↦ ap is_live e ∙ h
    | inr (g, e) ↦ ap is_live e
  ]

  heartbeat-Away :
      (now : Time) (id : String) (s : Service W) → Away s → Away (record_heartbeat p now id s).1
  unfolding record_heartbeat
  heartbeat-Away now id s h =
      let kept = touch-away (trim id) now s.store h in
      if-case (λ (run : Exec (Service W) MeetingSession). Away (run s).1) (is_blank (trim id)) _ _
        (λ _. h)
        (λ _.
          bind-keeps Away _ (on_store (p.repository.touch (trim id) now)) s kept (λ seen e. kept))

  cleanup-Away : (now : Time) (s : Service W) → Away s → Away (cleanup_stale p now s).1
  unfolding cleanup_stale
  cleanup-Away now s h =
      let kept = mark-away _ now s.store h in
      bind-keeps Away _ (on_store (p.repository.mark_stale _ now)) s kept
        (λ ms e. ap (λ w. is_live (row w k)) (publish_all-store ms _) ∙ kept)

  get-Away :
      (now : Time) (id : String) (s : Service W) → Away s → Away (get_meeting_session p now id s).1
  unfolding get_meeting_session
  get-Away now id s h =
      if-case (λ (out : Result MeetingSession × Service W). Away out.1) (is_blank (trim id)) _ _
        (λ _. h)
        (λ _.
          ap is_live (laws.get_keeps (trim id) k (cleanup_stale p now s).1.store)
          ∙ cleanup-Away now s h)

  session_is_deleted-Away :
      (id : String) (s : Service W) → Away s → Away (delete_meeting_session p id s).1
  unfolding delete_meeting_session
  session_is_deleted-Away id s h =
      let kept = ap is_live (laws.get_keeps (trim id) k s.store) ∙ h in
      let t = (on_store (p.repository.get (trim id)) s).1 in
      if-case (λ (run : Exec (Service W) Unit). Away (run s).1) (is_blank (trim id)) _ _ (λ _. h)
        (λ _. bind-keeps Away _ (on_store (p.repository.get (trim id))) s kept (λ m e.
          if-case (λ (run : Exec (Service W) Unit). Away (run t).1) (not (is_terminal m.status)) _ _
            (λ _. kept) (λ _. delete-away (trim id) t.store kept)))

  step-Away : (s u : Service W) → ServiceStep p s u → Away s → Away u
  step-Away _ _ (status_arrives now input s) = update-IsAway p row laws reads k now input s
  step-Away _ _ (user_ends now later answer input s) = end-Away now later answer input s
  step-Away _ _ (job_ends now failure job s) = complete_job-Away now failure job s
  step-Away _ _ (fallback_fires now id reason s) = fallback-Away now id reason s
  step-Away _ _ (heartbeat_arrives now id s) = heartbeat-Away now id s
  step-Away _ _ (cleanup_runs now s) = cleanup-Away now s
  step-Away _ _ (session_is_read now id s) = get-Away now id s
  step-Away _ _ (session_is_deleted id s) = session_is_deleted-Away id s

  -- A session that is ended, failed, stale or gone is never brought back: no sequence of status
  -- updates, ends, finalizations, fallbacks, heartbeats, cleanups, reads and deletions, each run to
  -- its end, gives it a status that is not terminal, if the repository keeps its rows and no read of
  -- a session fails.
  pub service-never_revives :
      (s u : Service W)
      → ServiceSteps p s u
      → is_live (row s.store k) ≡ false
      → is_live (row u.store k) ≡ false
  service-never_revives s _ (no_step _) h = h
  service-never_revives s _ (then_step {u = u} {v = v} steps step) h =
      step-Away u v step (service-never_revives s u steps h)
