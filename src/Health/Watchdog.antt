-- ===== src/Health/Watchdog.antt =====
-- internal/application/meeting_session_watchdog.go: the scan that looks for silent bots. The four
-- readers and publishers are set, as the server does; the ticker that starts a scan is left out.
use deciscope_api.Base.{
  ℕ, ◌/◌, String, concat, Bool, true, false, not, ◌&&◌, Option, none, some, List, [], ◌∷◌, any,
  Result, ok, err, Exec, pos_part, ltb_ℤ, leb_ℤ, Dict, lookup, insert, remove, retain, str_eq, map,
  if◌then◌else◌,
}
use deciscope_api.Base.Clock.{Time, Duration, is_zero, second, sub}
use deciscope_api.Domain.{recording, eq_status, MeetingSession}
use deciscope_api.Session.Input.{StatusInput, no_input}
use deciscope_api.Session.Policy.{is_joined_or_beyond}
use deciscope_api.Health.Activity.{TranscriptActivity, ensure_seen, forget_activity}
use deciscope_api.Health.Metrics.{BotMediaMetrics, forget_metrics}
use deciscope_api.Health.Gap.{
  Config, TranscriptHealth, health_ok, eq_health, at_least_zero, classify_transcript_gap,
}

-- The repository's query and the `ender`, on a state `W` of what lies behind them.
pub record Ports (W : Type 0) : Type 0 where
  pub list_for_watchdog : Exec W (List MeetingSession)
  pub update_meeting_session_status : StatusInput → Exec W MeetingSession
  -- how `fmt` prints a duration
  pub duration_text : Duration → String

-- The watchdog, the two stores that it reads, and what it published, the newest first.
pub record Watchdog (W : Type 0) : Type 0 where
  pub world : W
  pub healthy : Dict Bool
  pub transcript_health : Dict TranscriptHealth
  pub activity : Dict TranscriptActivity
  pub metrics : Dict BotMediaMetrics
  pub bot_events : List (MeetingSession × Bool)
  pub transcript_events : List (MeetingSession × TranscriptHealth × ℕ)

-- Whether the health of the bot is published: on a change, and at the first scan when it is bad.
abbrev pub announces : Option Bool → Bool → Bool
announces none healthy = not healthy
announces (some true) healthy = not healthy
announces (some false) healthy = healthy

abbrev pub announces_transcript : Option TranscriptHealth → TranscriptHealth → Bool
announces_transcript none desired = not (eq_health desired health_ok)
announces_transcript (some previous) desired = not (eq_health previous desired)

abbrev pub input_of : String → MeetingSession → StatusInput
input_of message session = record no_input {
  session_id = session.id;
  status = "ended";
  bot_call_id = session.bot_call_id;
  reason = "bot_unresponsive";
  source = "watchdog";
  message = message;
}

-- How long the transcript of a session is silent, where that is known.
abbrev silence : Time → Option TranscriptActivity → Option Duration
silence now none = none
silence now (some a) =
    if is_zero a.last_transcript_at
    then none
    else some (at_least_zero (sub now a.last_transcript_at))

-- The transcript health and the seconds that go with it.
abbrev desired_of : Config → Option BotMediaMetrics → Time → Option Duration → TranscriptHealth × ℕ
desired_of c m now none = (health_ok, 0)
desired_of c m now (some since) =
    let seconds = pos_part since / second in
    if leb_ℤ c.delayed_after since
    then (classify_transcript_gap c m now since, seconds)
    else (health_ok, seconds)

-- The keys that are not in the list.
abbrev pub is_seen : List String → String → Bool
is_seen ids id = any (λ j. str_eq j id) ids

missing : {V : Type 0} → List String → Dict V → List String
missing ids [] = []
missing ids ((j, v) ∷ m) = let rest = missing ids m in if is_seen ids j then rest else j ∷ rest

remove_all : {V : Type 0} → List String → Dict V → Dict V
remove_all [] m = m
remove_all (j ∷ js) m = remove_all js (remove j m)

module _ {W : Type 0} (c : Config) (ports : Ports W) where
  -- The part of `evaluateTranscriptHealth` after the readers.
  unfoldable pub publish_transcript :
      MeetingSession → TranscriptHealth → ℕ → Watchdog W → Watchdog W
  publish_transcript session desired seconds s = record s {
    transcript_health = insert session.id desired s.transcript_health;
    transcript_events =
        if announces_transcript (lookup session.id s.transcript_health) desired
        then (session, desired, seconds) ∷ s.transcript_events
        else s.transcript_events;
  }

  -- `evaluateTranscriptHealth`
  unfoldable pub evaluate_transcript_health : MeetingSession → Time → Bool → Watchdog W → Watchdog W
  unfolding publish_transcript
  evaluate_transcript_health session now heartbeat_healthy s =
      if heartbeat_healthy && eq_status session.status recording
      then (let activity = ensure_seen session.id now s.activity in
          let desired =
            desired_of c (lookup session.id s.metrics) now
              (silence now (lookup session.id activity)) in
          publish_transcript session desired.0 desired.1 (record s { activity = activity }))
      else publish_transcript session health_ok 0 s

  forget : String → Watchdog W → Watchdog W
  forget id s = record s {
    healthy = remove id s.healthy;
    transcript_health = remove id s.transcript_health;
    activity = forget_activity id s.activity;
    metrics = forget_metrics id s.metrics;
  }

  unfoldable pub after_end : String → Result MeetingSession × W → Watchdog W → Watchdog W
  unfolding forget
  after_end id (ok m, w) s = forget id (record s { world = w })
  after_end id (err e, w) s = record s { world = w }

  -- `endSession`
  unfoldable pub end_session : MeetingSession → Watchdog W → Watchdog W
  unfolding after_end
  end_session session s =
      let message = concat "bot heartbeat not received for " (ports.duration_text c.end_after) in
      after_end session.id (ports.update_meeting_session_status (input_of message session) s.world)
        s

  -- The part of `evaluate` on the health of the bot.
  unfoldable pub note_bot_health : MeetingSession → Bool → Watchdog W → Watchdog W
  note_bot_health session currently s = record s {
    healthy = insert session.id currently s.healthy;
    bot_events =
        if announces (lookup session.id s.healthy) currently
        then (session, currently) ∷ s.bot_events
        else s.bot_events;
  }

  -- `evaluate`
  unfoldable pub evaluate : Time → MeetingSession → Watchdog W → Watchdog W
  unfolding end_session note_bot_health evaluate_transcript_health is_joined_or_beyond
  evaluate now session s =
      let elapsed = sub now session.last_bot_status_at in
      let currently = ltb_ℤ elapsed c.lost_after in
      if not (is_joined_or_beyond session.status)
      then s
      else if is_zero session.last_bot_status_at
      then s
      else if leb_ℤ c.end_after elapsed
      then end_session session s
      else evaluate_transcript_health session now currently (note_bot_health session currently s)

  unfoldable pub evaluate_all : Time → List MeetingSession → Watchdog W → Watchdog W
  unfolding evaluate
  evaluate_all now [] s = s
  evaluate_all now (m ∷ ms) s = evaluate_all now ms (evaluate now m s)

  -- `forgetMissing`
  unfoldable pub forget_missing : List String → Watchdog W → Watchdog W
  unfolding missing remove_all
  forget_missing ids s =
      let forgotten = missing ids s.transcript_health in
      record s {
        healthy = retain (is_seen ids) s.healthy;
        transcript_health = retain (is_seen ids) s.transcript_health;
        activity = remove_all forgotten s.activity;
        metrics = remove_all forgotten s.metrics;
      }

  unfoldable pub scan_listed :
      Time → Result (List MeetingSession) × W → Watchdog W → Result (Unit {0}) × Watchdog W
  unfolding evaluate_all forget_missing
  scan_listed now (err e, w) s = (err e, record s { world = w })
  scan_listed now (ok sessions, w) s = (
    ok tt,
    forget_missing (map (λ m. m.id) sessions) (evaluate_all now sessions (record s { world = w })),
  )

  -- `RunOnce`
  unfoldable pub run_once : Time → Watchdog W → Result (Unit {0}) × Watchdog W
  unfolding scan_listed
  run_once now s = scan_listed now (ports.list_for_watchdog s.world) s
