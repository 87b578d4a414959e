-- ===== src/Events/Store.antt =====
-- The memory store of meetings and events
-- (internal/adapter/repository/memory/store.go, meeting.go, event.go).
-- A method holds the lock from its start to its end, so it is one step.
use deciscope_api.Base.{
  String, ℕ, ◌+◌, not, Option, none, some, List, [], ◌∷◌, ◌++◌, Result, ok, err, not_found,
  unavailable, Dict, lookup, insert, remove, str_eq, is_blank, trim, is_some, if◌then◌else◌, ltb_ℤ,
  ℤ, pos, Exec, concat,
}
use deciscope_api.Events.Data.{
  Meeting, Event, Segment, FinalPayload, Codec, Payload, Moment, is_durable, json_payload,
  meeting_state, transcript_final,
}

pub record Store : Type 0 where
  pub meetings : Dict Meeting
  pub next_seq : Dict ℕ
  pub events : Dict (List Event)
  pub segments : Dict (List Segment)

-- What a map of lists or numbers has at a key; a missing key reads as the zero value.
abbrev pub list_at {ℓ} : {A : Type ℓ} → Option (List A) → List A
list_at none = []
list_at (some xs) = xs

abbrev pub number_at : Option ℕ → ℕ
number_at none = 0
number_at (some n) = n

abbrev pub log : String → Store → List Event
log id s = list_at (lookup id s.events)

abbrev pub next : String → Store → ℕ
next id s = number_at (lookup id s.next_seq)

abbrev or_else : String → String → String
or_else text fallback = if is_blank text then fallback else text

stored_segment : Moment → String → ℕ → FinalPayload → Segment
stored_segment now id n p = record {
  meeting_id = id;
  seq = n;
  segment_id = or_else p.segment_id (concat "seg_" now.segment_name);
  speaker_label = or_else p.speaker_label "Speaker";
  text = p.text;
  start_ms = p.start_ms;
  end_ms = p.end_ms;
  created_at = now.rfc3339;
}

unfoldable pub append_segment : Moment → String → ℕ → Option FinalPayload → Store → Store
unfolding stored_segment
append_segment now id n none s = s
append_segment now id n (some p) s = record s {
  segments =
      insert id (list_at (lookup id s.segments) ++ stored_segment now id n p ∷ []) s.segments;
}

with_status : Moment → String → Meeting → Meeting
with_status now status m = record m {
  status = status;
  updated_at = now.rfc3339;
  ended_at = if str_eq status "ended" then now.rfc3339 else m.ended_at;
}

unfoldable pub update_meeting_state :
    Moment → String → Option String → Option Meeting → Store → Store
unfolding with_status
update_meeting_state now id none m s = s
update_meeting_state now id (some status) none s = s
update_meeting_state now id (some status) (some m) s =
    if is_blank status
    then s
    else record s { meetings = insert id (with_status now status m) s.meetings }

-- The event takes the next number of its meeting and goes to the end of the log.
unfoldable pub append_durable : Event → Store → Event × Store
append_durable e s =
    let n = next e.meeting_id s in
    let numbered = record e { seq = n } in
    (
      numbered,
      record s {
        next_seq = insert e.meeting_id (n + 1) s.next_seq;
        events = insert e.meeting_id (log e.meeting_id s ++ numbered ∷ []) s.events;
      },
    )

module _ {P : Type 0} (codec : Codec P) where
  unfoldable pub note_final : Moment → Event → Store → Store
  unfolding append_segment
  note_final now e s =
      if str_eq e.kind transcript_final
      then append_segment now e.meeting_id e.seq (codec.read_final e.payload) s
      else s

  unfoldable pub note_state : Moment → Event → Store → Store
  unfolding update_meeting_state
  note_state now e s =
      if str_eq e.kind meeting_state
      then update_meeting_state now e.meeting_id (codec.read_status e.payload)
          (lookup e.meeting_id s.meetings) s
      else s

  unfoldable pub store_event : Moment → Event → Store → Result Event × Store
  unfolding append_durable note_final note_state
  store_event now e s =
      let (numbered, t) = append_durable e s in
      (ok numbered, note_state now numbered (note_final now numbered t))

  unfoldable pub append_encoded : Moment → String → String → Option String → Exec Store Event
  unfolding store_event is_durable
  append_encoded now id kind none s = (err unavailable, s)
  append_encoded now id kind (some bytes) s =
      let e : Event = record {
        kind = kind;
        meeting_id = id;
        seq = 0;
        ts_ms = now.ms;
        payload = bytes;
      } in
      if not (is_some (lookup id s.meetings))
      then (err not_found, s)
      else if not (is_durable kind)
      then (ok e, s)
      else store_event now e s

  unfoldable pub append_event : Moment → String → String → Payload P → Exec Store Event
  unfolding append_encoded json_payload
  append_event now id kind payload = append_encoded now id kind (json_payload codec payload)

abbrev pub later_events : ℤ → List Event → List Event
later_events after [] = []
later_events after (e ∷ es) =
    let rest = later_events after es in if ltb_ℤ after (pos e.seq) then e ∷ rest else rest

unfoldable pub list_events : String → ℤ → Exec Store (List Event)
list_events id after s =
    if is_some (lookup id s.meetings)
    then (ok (later_events after (log id s)), s)
    else (err not_found, s)

later_segments : ℤ → List Segment → List Segment
later_segments after [] = []
later_segments after (e ∷ es) =
    let rest = later_segments after es in if ltb_ℤ after (pos e.seq) then e ∷ rest else rest

unfoldable pub list_segments : String → ℤ → Exec Store (List Segment)
unfolding later_segments
list_segments id after s =
    if is_some (lookup id s.meetings)
    then (ok (later_segments after (list_at (lookup id s.segments))), s)
    else (err not_found, s)

found_meeting : Option Meeting → Result Meeting
found_meeting none = err not_found
found_meeting (some m) = ok m

unfoldable pub get_meeting : String → Exec Store Meeting
unfolding found_meeting
get_meeting id s = (found_meeting (lookup id s.meetings), s)

-- `id` is the identifier that the random source gives.
unfoldable pub create_meeting : Moment → String → String → String → String → Exec Store Meeting
create_meeting now id workspace title source s =
    let meeting : Meeting = record {
      id = id;
      workspace_id = workspace;
      title = or_else (trim title) "Untitled meeting";
      status = "created";
      source = or_else source "fixture_replay";
      created_at = now.rfc3339;
      updated_at = now.rfc3339;
      ended_at = "";
    } in
    (
      ok meeting,
      record s { meetings = insert id meeting s.meetings; next_seq = insert id 1 s.next_seq },
    )

unfoldable pub reset_found : Moment → String → Option Meeting → Store → Result (Unit {0}) × Store
reset_found now id none s = (err not_found, s)
reset_found now id (some m) s = (
  ok tt,
  record s {
    meetings =
        insert id (record m { status = "created"; updated_at = now.rfc3339; ended_at = "" })
          s.meetings;
    next_seq = insert id 1 s.next_seq;
    events = remove id s.events;
    segments = remove id s.segments;
  },
)

unfoldable pub reset_meeting : Moment → String → Exec Store (Unit {0})
unfolding reset_found
reset_meeting now id s = reset_found now id (lookup id s.meetings) s
