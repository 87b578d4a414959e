-- ===== src/Health/Media.antt =====
-- internal/application/bot_media_health.go: the state of the media of each session, as the bot
-- reports it.
use deciscope_api.Base.{
  ℕ, zero, suc, ◌/◌, String, Bool, true, false, not, ◌&&◌, ◌||◌, Option, none, some, List, ◌∷◌,
  Result, ok, err, invalid_argument, ℤ, pos, negsuc, leb_ℤ, Dict, lookup, insert, remove, is_blank,
  trim, to_lower, str_eq, if◌then◌else◌,
}
use deciscope_api.Base.Clock.{Time, zero_time, is_zero, before, Duration, sub}
use deciscope_api.Domain.{MeetingSession}

-- `BotMediaHealthUpdate`
pub record MediaUpdate : Type 0 where
  pub event_id : String
  pub bot_call_id : String
  pub state : String
  pub event : String
  pub source : String
  pub occurred_at : Time
  pub started_at : Time
  pub last_audio_frame_at : Time
  pub duration_milliseconds : ℤ

-- `BotMediaHealthState`
pub record MediaState : Type 0 where
  pub session_id : String
  pub event_id : String
  pub bot_call_id : String
  pub state : String
  pub event : String
  pub source : String
  pub occurred_at : Time
  pub started_at : Time
  pub last_audio_frame_at : Time
  pub duration_milliseconds : ℤ
  pub updated_at : Time

-- `BotMediaHealthService`, with the events that went to its publisher, the newest first.
pub record MediaHealth : Type 0 where
  pub states : Dict MediaState
  pub published : List (MeetingSession × MediaState)

abbrev negated : ℕ → ℤ
negated zero = pos 0
negated (suc n) = negsuc n

-- `Milliseconds`, towards zero.
abbrev milliseconds : Duration → ℤ
milliseconds (pos n) = pos (n / 1_000_000)
milliseconds (negsuc n) = negated (suc n / 1_000_000)

abbrev pub is_transition : String → String → Bool
is_transition state event =
    (str_eq event "started" && str_eq state "audio_receive_stalled")
    || (str_eq event "recovered" && str_eq state "ok")

-- The report is one that was recorded, or older than the last one.
abbrev pub is_repeated : MediaState → MediaUpdate → Bool
is_repeated previous u =
    (not (is_blank u.event_id) && str_eq u.event_id previous.event_id)
    || before u.occurred_at previous.occurred_at

abbrev previous_start : Option MediaState → Time
previous_start none = zero_time
previous_start (some previous) = previous.started_at

-- `StartedAt` of the new state.
abbrev pub start_of : Option MediaState → MediaUpdate → Time
start_of previous u =
    if not (is_zero u.started_at)
    then u.started_at
    else if str_eq u.event "recovered"
    then previous_start previous
    else if str_eq u.event "started"
    then u.occurred_at
    else u.started_at

abbrev duration_of : Time → MediaUpdate → ℤ
duration_of started_at u =
    if str_eq u.event "recovered"
      && (leb_ℤ u.duration_milliseconds (pos 0) && not (is_zero started_at))
    then milliseconds (sub u.occurred_at started_at)
    else u.duration_milliseconds

unfoldable pub next_state : Time → MeetingSession → Option MediaState → MediaUpdate → MediaState
next_state now session previous u = record {
  session_id = session.id;
  event_id = trim u.event_id;
  bot_call_id = trim u.bot_call_id;
  state = u.state;
  event = u.event;
  source = trim u.source;
  occurred_at = u.occurred_at;
  started_at = start_of previous u;
  last_audio_frame_at = u.last_audio_frame_at;
  duration_milliseconds = duration_of (start_of previous u) u;
  updated_at = now;
}

abbrev pub is_changed : MediaState → MediaState → Bool
is_changed previous state =
    not (str_eq previous.state state.state)
    || not (str_eq previous.event state.event)
    || (not (is_blank previous.event_id) && not (str_eq previous.event_id state.event_id))

abbrev pub store_state :
    MeetingSession → MediaState → Bool → MediaHealth → Result (MediaState × Bool) × MediaHealth
store_state session state changed s = (
  ok (state, changed),
  record {
    states = insert session.id state s.states;
    published = if changed then (session, state) ∷ s.published else s.published;
  },
)

-- `Record` from the lookup on.
unfoldable pub record_from :
    Time
    → MeetingSession
    → MediaUpdate
    → Option MediaState
    → MediaHealth
    → Result (MediaState × Bool) × MediaHealth
unfolding next_state
record_from now session u none s = store_state session (next_state now session none u) true s
record_from now session u (some old) s =
    let state = next_state now session (some old) u in
    if is_repeated old u
    then (ok (old, false), s)
    else store_state session state (is_changed old state) s

abbrev pub clean : Time → MediaUpdate → MediaUpdate
clean now u = record u {
  state = to_lower (trim u.state);
  event = to_lower (trim u.event);
  occurred_at = if is_zero u.occurred_at then now else u.occurred_at;
}

-- `Record`
unfoldable pub record_media :
    Time → MeetingSession → MediaUpdate → MediaHealth → Result (MediaState × Bool) × MediaHealth
unfolding record_from
record_media now session u s =
    if is_blank (trim session.id)
    then (err invalid_argument, s)
    else if not (is_transition (to_lower (trim u.state)) (to_lower (trim u.event)))
    then (err invalid_argument, s)
    else record_from now session (clean now u) (lookup session.id s.states) s

abbrev snapshot : Time → String → Option MediaState → MediaState
snapshot now id (some state) = state
snapshot now id none = record {
  session_id = trim id;
  event_id = "";
  bot_call_id = "";
  state = "ok";
  event = "snapshot";
  source = "";
  occurred_at = now;
  started_at = zero_time;
  last_audio_frame_at = zero_time;
  duration_milliseconds = pos 0;
  updated_at = now;
}

-- `BotMediaHealthService.Get`
unfoldable pub get_media : Time → String → MediaHealth → MediaState
get_media now id s = snapshot now id (lookup (trim id) s.states)

-- `BotMediaHealthService.Forget`
unfoldable pub forget_media : String → MediaHealth → MediaHealth
forget_media id s = record s { states = remove (trim id) s.states }
