-- ===== src/Health/Scans.antt =====
-- What a scan of the watchdog publishes and whom it ends
-- (internal/application/meeting_session_watchdog.go).
use deciscope_api.Base.{
  ◌≡◌, refl, sym, ap, ◌∙◌, subst, String, Bool, true, false, not, ◌&&◌, Option, none, some, List,
  [], ◌∷◌, All, Result, ok, err, leb_ℤ, ltb_ℤ, Dict, lookup, lookup-insert, lookup-retain, str_eq,
  eq_iff, map, arith, if◌then◌else◌, if-case, ok-injective,
}
use deciscope_api.Base.Clock.{Time, is_zero, sub}
use deciscope_api.Domain.{MeetingSession, recording, eq_status}
use deciscope_api.Session.Policy.{is_joined_or_beyond}
use deciscope_api.Health.Gap.{Config}
use deciscope_api.Health.Watchdog.{
  Ports, Watchdog, publish_transcript, note_bot_health, evaluate_transcript_health, evaluate,
  evaluate_all, forget_missing, is_seen, run_once, scan_listed,
}

-- The session is one that the watchdog ends.
abbrev pub is_overdue : Config → Time → MeetingSession → Bool
is_overdue c now m =
    is_joined_or_beyond m.status
    && not (is_zero m.last_bot_status_at)
    && leb_ℤ c.end_after (sub now m.last_bot_status_at)

-- The health that the clients were last told of; at first they take a bot for healthy.
abbrev pub heard : String → List (MeetingSession × Bool) → Bool
heard id [] = true
heard id ((m, healthy) ∷ events) =
    let rest = heard id events in if str_eq m.id id then healthy else rest

abbrev pub or_healthy : Option Bool → Bool
or_healthy none = true
or_healthy (some b) = b

-- The clients know the state of the bot that the watchdog has.
abbrev pub IsTold : {W : Type 0} → String → Watchdog W → Type 0
IsTold id s = heard id s.bot_events ≡ or_healthy (lookup id s.healthy)

module _ {W : Type 0} (c : Config) (ports : Ports W) where
  note_bot_health-IsTold :
      (m : MeetingSession) (healthy : Bool) (id : String) (s : Watchdog W)
      → IsTold id s
      → IsTold id (note_bot_health c ports m healthy s)
  unfolding note_bot_health
  note_bot_health-IsTold m healthy id s h =
      ground (arith, h, lookup-insert m.id id healthy s.healthy, eq_iff m.id id)

  pub note_bot_health-world :
      (m : MeetingSession) (healthy : Bool) (s : Watchdog W)
      → (note_bot_health c ports m healthy s).world ≡ s.world
  unfolding note_bot_health
  note_bot_health-world m healthy s = refl

  pub transcript-aside :
      (m : MeetingSession) (now : Time) (healthy : Bool) (s : Watchdog W)
      → ((evaluate_transcript_health c ports m now healthy s).bot_events ≡ s.bot_events)
        × ((evaluate_transcript_health c ports m now healthy s).healthy ≡ s.healthy)
        × ((evaluate_transcript_health c ports m now healthy s).world ≡ s.world)
  unfolding evaluate_transcript_health publish_transcript
  transcript-aside m now healthy s =
      if-case
        (λ (u : Watchdog W).
          (u.bot_events ≡ s.bot_events) × (u.healthy ≡ s.healthy) × (u.world ≡ s.world))
        (healthy && eq_status m.status recording) _ _ (λ _. (refl, refl, refl))
        (λ _. (refl, refl, refl))

  -- What an evaluation leaves that ends no session.
  abbrev Spared : String → Watchdog W → Watchdog W → Type 0
  Spared id s u = IsTold id u × (u.world ≡ s.world)

  evaluate-Spared :
      (now : Time) (m : MeetingSession) (id : String) (s : Watchdog W)
      → is_overdue c now m ≡ false
      → IsTold id s
      → Spared id s (evaluate c ports now m s)
  unfolding evaluate
  evaluate-Spared now m id s o h =
      let currently = ltb_ℤ (sub now m.last_bot_status_at) c.lost_after in
      let noted = note_bot_health c ports m currently s in
      let k = note_bot_health-IsTold m currently id s h in
      let t = transcript-aside m now currently noted in
      if-case (Spared id s) (not (is_joined_or_beyond m.status)) _ _ (λ _. (h, refl))
        (λ a.
          if-case (Spared id s) (is_zero m.last_bot_status_at) _ _ (λ _. (h, refl))
            (λ b.
              if-case (Spared id s) (leb_ℤ c.end_after (sub now m.last_bot_status_at)) _ _
                (λ d. ground (arith, o, a, b, d))
                (λ _. (
                  ap (heard id) t.0
                      ∙ k
                      ∙ ap (λ (d : Dict Bool). or_healthy (lookup id d)) (sym t.1),
                  t.2 ∙ note_bot_health-world m currently s,
                ))))

  evaluate_all-Spared :
      (now : Time) (sessions : List MeetingSession) (id : String) (s : Watchdog W)
      → All (λ m. is_overdue c now m ≡ false) sessions
      → IsTold id s
      → Spared id s (evaluate_all c ports now sessions s)
  unfolding evaluate_all
  evaluate_all-Spared now [] id s o h = (h, refl)
  evaluate_all-Spared now (m ∷ sessions) id s o h =
      let e = evaluate-Spared now m id s o.0 h in
      let r = evaluate_all-Spared now sessions id (evaluate c ports now m s) o.1 e.0 in
      (r.0, r.1 ∙ e.1)

  forget_missing-IsTold :
      (ids : List String) (id : String) (s : Watchdog W)
      → is_seen ids id ≡ true
      → IsTold id s
      → IsTold id (forget_missing c ports ids s)
  unfolding forget_missing
  forget_missing-IsTold ids id s e h =
      ground (arith, h, e, lookup-retain (is_seen ids) id s.healthy)

  scan_listed-tells :
      (now : Time) (sessions : List MeetingSession) (id : String) (s : Watchdog W)
      (x : Result (List MeetingSession) × W)
      → x.0 ≡ ok sessions
      → All (λ m. is_overdue c now m ≡ false) sessions
      → is_seen (map (λ m. m.id) sessions) id ≡ true
      → IsTold id s
      → IsTold id (scan_listed c ports now x s).1 × ((scan_listed c ports now x s).1.world ≡ x.1)
  unfolding scan_listed forget_missing
  scan_listed-tells now sessions id s (err e, w) l o q h = ground (arith, l)
  scan_listed-tells now sessions id s (ok ms, w) l o q h =
      let e = sym (ok-injective ms sessions l) in
      let r =
        evaluate_all-Spared now ms id (record s { world = w })
          (subst (All (λ (m : MeetingSession). is_overdue c now m ≡ false)) e o) h in
      (
        forget_missing-IsTold (map (λ m. m.id) ms) id
            (evaluate_all c ports now ms (record s { world = w }))
            (subst (λ (xs : List MeetingSession). is_seen (map (λ m. m.id) xs) id ≡ true) e q) r.0,
        r.1,
      )

  -- A scan in which no bot is silent for the longest time ends no session and keeps the clients
  -- informed of each listed session: if the last event that was published for the session agrees
  -- with the health that the watchdog has of its bot, then so it does after the scan. No event and
  -- no entry both count as healthy.
  pub run_once-tells :
      (now : Time) (sessions : List MeetingSession) (id : String) (s : Watchdog W)
      → (ports.list_for_watchdog s.world).0 ≡ ok sessions
      → All (λ m. is_overdue c now m ≡ false) sessions
      → is_seen (map (λ m. m.id) sessions) id ≡ true
      → IsTold id s
      → IsTold id (run_once c ports now s).1
        × ((run_once c ports now s).1.world ≡ (ports.list_for_watchdog s.world).1)
  unfolding run_once
  run_once-tells now sessions id s l o e h =
      scan_listed-tells now sessions id s (ports.list_for_watchdog s.world) l o e h
