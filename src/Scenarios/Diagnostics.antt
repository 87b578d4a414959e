-- ===== src/Scenarios/Diagnostics.antt =====
-- Scenarios of the diagnostics of the clients.
use deciscope_api.Diagnostics.Names.{is_critical_event, is_known_event}
use deciscope_api.Base.{
  Dict, decimal, insert, lookup, trim, String, ℕ, ◌≡◌, refl, ◌≤◌, true, false, Option, none, some,
  [], ◌∷◌, ok, arith, pos, length,
}
use deciscope_api.Diagnostics.Limits.{Limits, byte_length}
use deciscope_api.Diagnostics.Details.{
  should_redact_key, Value, text, number, object, Fields, no_fields, field, Patterns,
  redacted_placeholder, sanitize_value,
}
use deciscope_api.Diagnostics.Bounds.{Bounded, details-Bounded}
use deciscope_api.Diagnostics.Redaction.{
  Alike, alike_object, alike_text, hidden, shown, no_secrets, secrets-hidden,
}
use deciscope_api.Diagnostics.Shrink.{sink, shrink_fields}
use deciscope_api.Diagnostics.Shrunk.{IsShrunk, IsLargestFirst, shrink_fields-IsShrunk}
use deciscope_api.Diagnostics.Recorder.{
  DiagnosticEvent, suppress, EventInput, Batch, Tally, Recorder, Tools, record_batch, event_of,
  throttle_key, too_many_events, unknown_event_name, throttled_duplicate,
}
use deciscope_api.Diagnostics.Tallies.{Counted, record_batch-Counted}
use deciscope_api.Diagnostics.Throttle.{throttle-le}
use deciscope_api.Base.Clock.{Time}
use deciscope_api.Diagnostics.Repeats.{no_call, then_call, suppress-repeats}
use deciscope_api.Diagnostics.Sources.{IsSameSource, suppress-sources}

abbrev no_patterns : Patterns
no_patterns = record { scrub_jwt = λ s. s; scrub_bearer = λ s. s; scrub_email = λ s. s }

abbrev small : Limits
small = record {
  max_events = 3;
  max_details = 20;
  max_string = 12;
  max_identifier = 8;
  max_route = 16;
  max_depth = 2;
  max_keys = 3;
  max_items = 2;
  window = 1000;
  max_entries = 4;
}

-- An encoder for the details below, by the number of their entries.
abbrev nine : Value → Option ℕ
nine (object no_fields) = some 2
nine (object (field k v no_fields)) = some 12
nine (object (field k v (field j w fs))) = some 24
nine _ = some 9

abbrev tools : Tools
tools = record { patterns = no_patterns; size = nine; parse = λ s. none }

abbrev sent : Fields
sent = field "apiToken" (text "abcdef") (field "note" (text "a long note of a user") no_fields)

room_to_redact : byte_length redacted_placeholder ≤ 12
unfolding byte_length
room_to_redact = omega arith

details-Bounded_example : Bounded small 3 (sanitize_value no_patterns small (object sent) 3).0
details-Bounded_example =
    details-Bounded no_patterns small (omega arith) room_to_redact (object sent)

sent_sanitized : sanitize_value no_patterns small (object sent) 3 ≡ (
  object (field "apiToken" (text "[redacted]") (field "note" (text "a long note ") no_fields)),
  true,
)
unfolding sanitize_value
sent_sanitized = refl

token_redacted : should_redact_key "apiToken" (text "abcdef") ≡ true
unfolding should_redact_key
token_redacted = refl

number_redacted : should_redact_key "apiToken" (number "7") ≡ true
unfolding should_redact_key
number_redacted = refl

abbrev other : Fields
other = field "apiToken" (number "7") (field "note" (text "a long note of a user") no_fields)

secrets_differ : Alike (object sent) (object other)
secrets_differ = alike_object (
    hidden "apiToken" (text "abcdef") (number "7") token_redacted number_redacted
      (shown "note" (alike_text "a long note of a user") no_secrets))

secrets-hidden_example :
    sanitize_value no_patterns small (object sent) 3
    ≡ sanitize_value no_patterns small (object other) 3
secrets-hidden_example =
    secrets-hidden no_patterns small (object sent) (object other) 3 secrets_differ

shrunk :
    shrink_fields no_patterns nine small sent
    ≡ (field "note" (text "a long note of a user") no_fields, "apiToken" ∷ [])
unfolding shrink_fields sink
shrunk = refl

shrink_fields-IsShrunk_example :
    IsShrunk no_patterns nine small sent (shrink_fields no_patterns nine small sent)
    × IsLargestFirst no_patterns nine small sent (shrink_fields no_patterns nine small sent).1
shrink_fields-IsShrunk_example = shrink_fields-IsShrunk no_patterns nine small sent

abbrev change : String → EventInput
change name = record {
  timestamp = "";
  event = name;
  session_id = "";
  workspace_id = "";
  tab_id = "t1";
  route = "/m";
  frontend_build_version = "1";
  tree_version = some (pos 4);
  analysis_version = none;
  updated_at = "";
  node_count = none;
  root_node_id = "r";
  session_status = "live";
  snapshot_source = "ws";
  sequence = pos 1;
  details = sent;
}

abbrev batch : Batch
batch = record {
  workspace_id = "w1";
  session_id = "s1";
  tab_id = "t1";
  frontend_build_version = "1";
  user_id = "u1";
  events =
      change "route_changed"
      ∷ change "route_changed"
      ∷ change "other"
      ∷ change "route_changed"
      ∷ [];
}

abbrev empty_recorder : Recorder
empty_recorder = record { throttle = []; written = [] }

abbrev tally : Tally
tally = record {
  accepted = 1;
  rejected = 2;
  suppressed = 1;
  reasons = too_many_events ∷ throttled_duplicate ∷ unknown_event_name ∷ [];
}

batch_recorded : (record_batch tools small 50 5 batch empty_recorder).0 ≡ ok tally
unfolding record_batch trim is_known_event suppress is_critical_event lookup insert throttle_key
    decimal
batch_recorded = refl

record_batch-Counted_example :
    Counted tools small batch [] 4 tally (record_batch tools small 50 5 batch empty_recorder).1
record_batch-Counted_example =
    record_batch-Counted tools small batch 50 5 empty_recorder tally batch_recorded

throttle-le_example : length (record_batch tools small 50 5 batch empty_recorder).1.throttle ≤ 4
throttle-le_example = throttle-le small (omega arith) tools batch 50 5 empty_recorder (omega arith)

common : is_critical_event "route_changed" ≡ false
unfolding is_critical_event
common = refl

abbrev change_at : Time → DiagnosticEvent
change_at t = event_of tools small batch (change "route_changed") t

-- The table that the first change leaves.
abbrev changed_once : Dict Time
changed_once = (suppress small 50 (change_at 50) []).1

let_through : (suppress small 50 (change_at 50) []).0 ≡ false
unfolding event_of suppress is_critical_event trim lookup
let_through = refl

-- A change is reported again after another event of the same tab.
suppress-repeats_example :
    (suppress small 120
      (change_at 120)
      (suppress small 60 (event_of tools small batch (change "tree_rendered") 60) changed_once).1).0
    ≡ true
unfolding event_of suppress trim lookup insert is_critical_event
suppress-repeats_example =
    suppress-repeats small 50 120 (change_at 50) (change_at 120) [] _ let_through refl common
      ((refl, refl, refl, refl), refl, refl, refl, refl, refl, refl)
      (then_call 60 (event_of tools small batch (change "tree_rendered") 60) (no_call changed_once)
        (omega arith) (omega arith) (omega arith))
      (omega arith) (omega arith)

suppress-sources_example : IsSameSource (change_at 50) (change_at 120)
unfolding event_of suppress is_critical_event trim lookup insert throttle_key decimal
suppress-sources_example =
    suppress-sources small 50 120 (change_at 50) (change_at 120) [] refl refl (omega arith) refl
      refl
