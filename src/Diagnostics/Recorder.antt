-- ===== src/Diagnostics/Recorder.antt =====
-- The recording of the diagnostics of a client (internal/application/client_diagnostics.go). The
-- sinks get every accepted event, and their errors change nothing: `written` lists the events. The
-- clock gives one instant in a call. A call checks the context before each event: `live` is the number
-- of events before it is cancelled. A batch is recorded as one step.
use deciscope_api.Base.{
  String, ℕ, zero, suc, ◌+◌, ◌-◌, Bool, true, false, not, ◌||◌, Option, none, some, List, [], ◌∷◌,
  ◌++◌, Result, ok, err, invalid_argument, unavailable, ℤ, pos, negsuc, Dict, lookup, insert,
  str_eq, is_blank, trim, join, decimal, if◌then◌else◌, ltb, leb, ltb_ℤ, ◌==◌, length, concat,
}
use deciscope_api.Base.Clock.{Time, sub}
use deciscope_api.Diagnostics.Limits.{Limits, clamp_text}
use deciscope_api.Diagnostics.Details.{Value, Fields, Patterns, scrub_secrets, set_field}
use deciscope_api.Diagnostics.Shrink.{sanitize_details}
use deciscope_api.Diagnostics.Names.{is_known_event, is_critical_event}

pub record EventInput : Type 0 where
  pub timestamp : String
  pub event : String
  pub session_id : String
  pub workspace_id : String
  pub tab_id : String
  pub route : String
  pub frontend_build_version : String
  pub tree_version : Option ℤ
  pub analysis_version : Option ℤ
  pub updated_at : String
  pub node_count : Option ℤ
  pub root_node_id : String
  pub session_status : String
  pub snapshot_source : String
  pub sequence : ℤ
  pub details : Fields

pub record Batch : Type 0 where
  pub workspace_id : String
  pub session_id : String
  pub tab_id : String
  pub frontend_build_version : String
  pub user_id : String
  pub events : List EventInput

pub record DiagnosticEvent : Type 0 where
  pub timestamp : Time
  pub received_at : Time
  pub event : String
  pub session_id : String
  pub workspace_id : String
  pub tab_id : String
  pub route : String
  pub frontend_build_version : String
  pub tree_version : Option ℤ
  pub analysis_version : Option ℤ
  pub updated_at : String
  pub node_count : Option ℤ
  pub root_node_id : String
  pub session_status : String
  pub snapshot_source : String
  pub details : Fields
  pub user_id : String
  pub sequence : ℤ

-- Why an event is not accepted.
pub data Refusal : Type 0 where
  too_many_events missing_event_name unknown_event_name : Refusal
  session_id_mismatch workspace_id_mismatch throttled_duplicate : Refusal

-- `reasons` lists the calls of `addReason`.
pub record Tally : Type 0 where
  pub accepted : ℕ
  pub rejected : ℕ
  pub suppressed : ℕ
  pub reasons : List Refusal

pub record Recorder : Type 0 where
  pub throttle : Dict Time
  pub written : List DiagnosticEvent

-- `firstNonEmptyTrimmed` of two texts.
unfoldable pub first_nonempty : String → String → String
first_nonempty first second = if is_blank (trim first) then trim second else trim first

unfoldable pub optional_text : Option ℤ → String
optional_text none = "-"
optional_text (some (pos n)) = decimal n
optional_text (some (negsuc n)) = concat "-" (decimal (suc n))

unfoldable pub throttle_key : DiagnosticEvent → String
unfolding optional_text join
throttle_key e = join "\0" (
    e.session_id
    ∷ e.tab_id
    ∷ e.event
    ∷ e.route
    ∷ e.session_status
    ∷ e.snapshot_source
    ∷ e.root_node_id
    ∷ optional_text e.tree_version
    ∷ optional_text e.analysis_version
    ∷ optional_text e.node_count
    ∷ [])

module _ (limits : Limits) where
  -- `now.Sub(lastSeen) < ThrottleWindow`
  unfoldable pub is_fresh : Time → Time → Bool
  is_fresh now seen = ltb_ℤ (sub now seen) (pos limits.window)

  unfoldable pub fresh_at : Time → Option Time → Bool
  unfolding is_fresh
  fresh_at now none = false
  fresh_at now (some seen) = is_fresh now seen

  unfoldable pub fresh_entries : Time → Dict Time → Dict Time
  unfolding is_fresh
  fresh_entries now [] = []
  fresh_entries now ((key, seen) ∷ others) =
      let kept = fresh_entries now others in if is_fresh now seen then (key, seen) ∷ kept else kept

  unfoldable pub prune_throttle : Time → Dict Time → Dict Time
  unfolding fresh_entries
  prune_throttle now table =
      let kept = fresh_entries now table in
      if ltb (length kept) limits.max_entries then kept else []

  unfoldable pub suppress : Time → DiagnosticEvent → Dict Time → Bool × Dict Time
  unfolding fresh_at
  suppress now e table =
      let key = throttle_key e in
      let pruned =
        if leb limits.max_entries (length table) then prune_throttle now table else table in
      if limits.window == 0 || is_critical_event e.event
      then (false, table)
      else if fresh_at now (lookup key table)
      then (true, table)
      else (false, insert key now pruned)

-- `size` is the number of bytes that json.Marshal gives for a value, if it gives any; `parse` is
-- `time.Parse` with RFC 3339.
pub record Tools : Type 0 where
  pub patterns : Patterns
  pub size : Value → Option ℕ
  pub parse : String → Option Time

time_or : Time → Option Time → Time
time_or now none = now
time_or now (some t) = t

marked : Fields × Bool → Fields
marked (fs, true) = set_field "_truncated" (Value.flag true) fs
marked (fs, false) = fs

module _ (tools : Tools) (limits : Limits) where
  clamp_identifier : String → String
  unfolding clamp_text scrub_secrets
  clamp_identifier s = clamp_text (scrub_secrets tools.patterns s) limits.max_identifier

  unfoldable pub event_of : Batch → EventInput → Time → DiagnosticEvent
  unfolding clamp_identifier time_or marked first_nonempty sanitize_details
  event_of batch input now = record {
    timestamp = time_or now (tools.parse (trim input.timestamp));
    received_at = now;
    event = trim input.event;
    session_id = first_nonempty input.session_id batch.session_id;
    workspace_id = first_nonempty input.workspace_id batch.workspace_id;
    tab_id = clamp_identifier (first_nonempty input.tab_id batch.tab_id);
    route = clamp_text (scrub_secrets tools.patterns (trim input.route)) limits.max_route;
    frontend_build_version =
        clamp_identifier (first_nonempty input.frontend_build_version batch.frontend_build_version);
    tree_version = input.tree_version;
    analysis_version = input.analysis_version;
    updated_at = clamp_identifier (trim input.updated_at);
    node_count = input.node_count;
    root_node_id = clamp_identifier (trim input.root_node_id);
    session_status = clamp_identifier (trim input.session_status);
    snapshot_source = clamp_identifier (trim input.snapshot_source);
    details = marked (sanitize_details tools.patterns tools.size limits input.details);
    user_id = trim batch.user_id;
    sequence = input.sequence;
  }

  unfoldable pub refusal : Batch → EventInput → Option Refusal
  unfolding first_nonempty
  refusal batch input =
      if is_blank (trim input.event)
      then some missing_event_name
      else if not (is_known_event (trim input.event))
      then some unknown_event_name
      else if not (str_eq (first_nonempty input.session_id batch.session_id) batch.session_id)
      then some session_id_mismatch
      else if not (str_eq (first_nonempty input.workspace_id batch.workspace_id) batch.workspace_id)
      then some workspace_id_mismatch
      else none

  unfoldable pub record_sane :
      Time → DiagnosticEvent → Bool × Dict Time → Tally × Recorder → Tally × Recorder
  record_sane now e (true, table) (t, r) = (
    record t { suppressed = t.suppressed + 1; reasons = t.reasons ++ throttled_duplicate ∷ [] },
    record r { throttle = table },
  )
  record_sane now e (false, table) (t, r) = (
    record t { accepted = t.accepted + 1 },
    record r { throttle = table; written = r.written ++ e ∷ [] },
  )

  unfoldable pub record_event :
      Batch → Time → EventInput → Option Refusal → Tally × Recorder → Tally × Recorder
  unfolding record_sane event_of
  record_event batch now input (some reason) (t, r) =
      (record t { rejected = t.rejected + 1; reasons = t.reasons ++ reason ∷ [] }, r)
  record_event batch now input none (t, r) =
      let e = event_of batch input now in
      record_sane now e (suppress limits now e r.throttle) (t, r)

  -- The loop, with the events that are left before the context is cancelled.
  unfoldable pub record_events :
      Batch → Time → ℕ → List EventInput → Tally × Recorder → Result Tally × Recorder
  unfolding record_event refusal
  record_events batch now live [] (t, r) = (ok t, r)
  record_events batch now zero (i ∷ is) (t, r) = (err unavailable, r)
  record_events batch now (suc live) (i ∷ is) done =
      record_events batch now live is (record_event batch now i (refusal batch i) done)

  unfoldable pub take_events : ℕ → List EventInput → List EventInput
  take_events zero is = []
  take_events (suc n) [] = []
  take_events (suc n) (i ∷ is) = i ∷ take_events n is

  unfoldable pub refusals : ℕ → List Refusal
  refusals zero = []
  refusals (suc n) = too_many_events ∷ refusals n

  unfoldable pub first_tally : List EventInput → Tally
  unfolding refusals
  first_tally is = record {
    accepted = 0;
    rejected = length is - limits.max_events;
    suppressed = 0;
    reasons = refusals (length is - limits.max_events);
  }

  unfoldable pub record_batch : Time → ℕ → Batch → Recorder → Result Tally × Recorder
  unfolding record_events take_events first_tally
  record_batch now live batch r =
      if length batch.events == 0
      then (err invalid_argument, r)
      else record_events batch now live (take_events limits.max_events batch.events)
          (first_tally batch.events, r)
