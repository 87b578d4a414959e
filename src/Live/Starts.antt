-- ===== src/Live/Starts.antt =====
-- When a timer's callback starts a round (internal/application/ai_live_scheduler.go).
use deciscope_api.Base.{
  ok, err, not_found, ◌⊎◌, inl, inr, ◌≢◌, ap, Bool, suc, sym, subst, [], ℕ, ◌≤◌, ◌≡◌, String, true,
  false, some, List, Result, arith, refl, ◌∙◌,
}
use deciscope_api.Base.Clock.{Time}
use deciscope_api.Domain.{ending, ended, failed, stale, MeetingSession, TranscriptSegment}
use deciscope_api.Live.Texts.{Texts}
use deciscope_api.Live.State.{LiveState, LiveConfig}
use deciscope_api.Live.Timing.{is_substantive, next_time}
use deciscope_api.Live.Dispatch.{
  dispatch, dispatch_by, dispatch_allowed, run_trigger, fired, status_allows, by_status, allowed,
  refused, lookup_failed, Allowance, start_round, begin_run,
}
use deciscope_api.Live.Bounds.{next_time-window}

-- What holds of a session where a round may start.
abbrev pub IsReady : Texts → LiveState → Type 0
IsReady t s =
    (s.stopped ≡ false)
    × (s.finalizing ≡ false)
    × (s.running ≡ false)
    × (s.context_pending ≡ false)
    × (s.retry_blocked ≡ false)
    × (is_substantive t s.pending ≡ true)

-- What holds of a session after a round has started.
abbrev pub IsStarted : LiveState → LiveState → Type 0
IsStarted s u =
    (u.running ≡ true)
    × (u.running_generation ≡ suc s.live_run_counter)
    × (u.pending ≡ [])
    × (u.analysis_scheduled ≡ false)
    × (u.rerun_requested ≡ false)
    × (u.catch_up_requested ≡ false)

-- The answer of the session repository allows an analysis: there is no such session, or it is neither
-- ending nor over.
abbrev pub IsAnalysable : Result MeetingSession → Type 0
IsAnalysable answer =
    (answer ≡ err not_found)
    ⊎ ((m : MeetingSession) × (answer ≡ ok m)
        × (m.status ≢ ending)
        × (m.status ≢ ended)
        × (m.status ≢ failed)
        × (m.status ≢ stale))

is_allowed : Allowance → Bool
is_allowed allowed = true
is_allowed _ = false

refused-not_allowed : (a : Allowance) → is_allowed a ≡ false → a ≢ allowed
unfolding is_allowed
refused-not_allowed a n e = let h = ap is_allowed e in cc

status_allows-IsAnalysable :
    (answer : Result MeetingSession) → status_allows answer ≡ allowed → IsAnalysable answer
unfolding status_allows is_allowed
status_allows-IsAnalysable (ok m) e = inr (
  m,
  refl,
  λ q. refused-not_allowed (status_allows (ok m)) (ap (λ k. is_allowed (by_status k)) q) e,
  λ q. refused-not_allowed (status_allows (ok m)) (ap (λ k. is_allowed (by_status k)) q) e,
  λ q. refused-not_allowed (status_allows (ok m)) (ap (λ k. is_allowed (by_status k)) q) e,
  λ q. refused-not_allowed (status_allows (ok m)) (ap (λ k. is_allowed (by_status k)) q) e,
)
status_allows-IsAnalysable (err not_found) e = inl refl
status_allows-IsAnalysable (err _) e = absurd (refused-not_allowed lookup_failed refl e)

dispatch_allowed-start :
    (c : LiveConfig) (t : Texts) (id : String) (now later : Time) (s : LiveState)
    (round : List TranscriptSegment)
    → (dispatch_allowed c t id now later s).1 ≡ some round
    → IsReady t s
      × (round ≡ s.pending)
      × ((next_time c t now s).0 ≤ now)
      × ((dispatch_allowed c t id now later s).0 ≡ start_round (run_trigger c t now s) now s)
unfolding dispatch_allowed
dispatch_allowed-start c t id now later s round e = (
  (
    ground (arith, e),
    ground (arith, e),
    ground (arith, e),
    ground (arith, e),
    ground (arith, e),
    ground (arith, e),
  ),
  ground (arith, e),
  ground (arith, e),
  ground (arith, e),
)

dispatch_by-start :
    (c : LiveConfig) (t : Texts) (id : String) (a : Allowance) (now later : Time) (s : LiveState)
    (round : List TranscriptSegment)
    → (dispatch_by c t id a now later s).1 ≡ some round
    → (a ≡ allowed)
      × ((dispatch_allowed c t id now later s).1 ≡ some round)
      × ((dispatch_by c t id a now later s).0 ≡ (dispatch_allowed c t id now later s).0)
unfolding dispatch_by
dispatch_by-start c t id allowed now later s round e = (refl, e, refl)
dispatch_by-start c t id (refused why) now later s round e = ground (arith, e)
dispatch_by-start c t id lookup_failed now later s round e = ground (arith, e)

dispatch-start :
    (c : LiveConfig) (t : Texts) (id : String) (generation : ℕ) (answer : Result MeetingSession)
    (now later : Time) (s : LiveState) (round : List TranscriptSegment)
    → (dispatch c t id generation answer now later s).1 ≡ some round
    → (s.analysis_scheduled ≡ true)
      × (s.schedule_generation ≡ generation)
      × ((dispatch_by c t id (status_allows answer) now later (fired s)).1 ≡ some round)
      × ((dispatch c t id generation answer now later s).0
          ≡ (dispatch_by c t id (status_allows answer) now later (fired s)).0)
unfolding dispatch
dispatch-start c t id generation answer now later s round e =
    (ground (arith, e), ground (arith, e), ground (arith, e), ground (arith, e))

pub dispatch-start_round :
    (c : LiveConfig) (t : Texts) (id : String) (generation : ℕ) (answer : Result MeetingSession)
    (now later : Time) (s : LiveState) (round : List TranscriptSegment)
    → (dispatch c t id generation answer now later s).1 ≡ some round
    → (s.analysis_scheduled ≡ true)
      × (s.schedule_generation ≡ generation)
      × IsReady t s
      × (s.next_attempt_at ≤ now)
      × (round ≡ s.pending)
      × ((dispatch c t id generation answer now later s).0
          ≡ start_round (run_trigger c t now s) now (fired s))
unfolding run_trigger
dispatch-start_round c t id generation answer now later s round e =
    let d = dispatch-start c t id generation answer now later s round e in
    let b = dispatch_by-start c t id (status_allows answer) now later (fired s) round d.2 in
    let a = dispatch_allowed-start c t id now later (fired s) round b.1 in
    let w = next_time-window c t now (fired s) in
    (d.0, d.1, a.0, omega (arith, w, a), a.1, d.3 ∙ b.2 ∙ a.3)

-- When the callback of a timer starts a round, the timer is the one that is armed, the session is
-- ready, its row is missing or tells of a meeting that is neither ending nor over, and no back-off
-- lasts. The round has all queued segments; afterwards it runs, under a new generation, the queue is
-- empty, no timer is armed and nothing asks for another round.
pub dispatch-starts :
    (c : LiveConfig) (t : Texts) (id : String) (generation : ℕ) (answer : Result MeetingSession)
    (now later : Time) (s : LiveState) (round : List TranscriptSegment)
    → (dispatch c t id generation answer now later s).1 ≡ some round
    → ((s.analysis_scheduled ≡ true)
        × (s.schedule_generation ≡ generation)
        × IsReady t s
        × IsAnalysable answer
        × (s.next_attempt_at ≤ now))
      × (round ≡ s.pending)
      × IsStarted s (dispatch c t id generation answer now later s).0
unfolding start_round begin_run
dispatch-starts c t id generation answer now later s round e =
    let d = dispatch-start_round c t id generation answer now later s round e in
    let first = dispatch-start c t id generation answer now later s round e in
    let by = dispatch_by-start c t id (status_allows answer) now later (fired s) round first.2 in
    (
      (d.0, d.1, d.2, status_allows-IsAnalysable answer by.0, d.3),
      d.4,
      subst (IsStarted s) (sym d.5) (refl, refl, refl, refl, refl, refl),
    )
