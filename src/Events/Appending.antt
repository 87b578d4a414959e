-- ===== src/Events/Appending.antt =====
-- What an append leaves as it was, and the log after it, in the memory store
-- (internal/adapter/repository/memory/event.go, meeting.go).
use deciscope_api.Base.{
  String, ℕ, ◌+◌, ◌≡◌, refl, ap, ◌∙◌, true, Option, none, some, [], ◌∷◌, ◌++◌, ok, Dict, lookup,
  insert, lookup-insert, str_eq, eq_iff, is_some, is_blank, if◌then◌else◌, arith, if-case, if-true,
  str_eq_self,
}
use deciscope_api.Events.Data.{
  Meeting, Event, FinalPayload, Codec, Moment, meeting_state, transcript_final,
}
use deciscope_api.Events.Store.{
  Store, list_at, log, next, append_segment, update_meeting_state, append_durable, note_final,
  note_state, store_event,
}

-- Neither the logs, nor the numbers, nor which meetings there are.
abbrev pub Same : Store → Store → Type 0
Same s t =
    (t.events ≡ s.events)
    × (t.next_seq ≡ s.next_seq)
    × ((id : String) → is_some (lookup id t.meetings) ≡ is_some (lookup id s.meetings))

is_some-insert :
    (key id : String) (m : Meeting) (ms : Dict Meeting)
    → is_some (lookup key ms) ≡ true
    → is_some (lookup id (insert key m ms)) ≡ is_some (lookup id ms)
is_some-insert key id m ms h = ground (arith, lookup-insert key id m ms, eq_iff key id, h)

append_segment-Same :
    (now : Moment) (id : String) (n : ℕ) (o : Option FinalPayload) (s : Store)
    → Same s (append_segment now id n o s)
unfolding append_segment
append_segment-Same now id n none s = (refl, refl, λ _. refl)
append_segment-Same now id n (some p) s = (refl, refl, λ _. refl)

update_meeting_state-Same :
    (now : Moment) (id : String) (status : Option String) (o : Option Meeting) (s : Store)
    → lookup id s.meetings ≡ o
    → Same s (update_meeting_state now id status o s)
unfolding update_meeting_state
update_meeting_state-Same now id none o s e = (refl, refl, λ _. refl)
update_meeting_state-Same now id (some status) none s e = (refl, refl, λ _. refl)
update_meeting_state-Same now id (some status) (some m) s e =
    if-case (Same s) (is_blank status) _ _ (λ _. (refl, refl, λ _. refl))
      (λ _. (refl, refl, λ j. is_some-insert id j _ s.meetings (ap is_some e)))

module _ {P : Type 0} (codec : Codec P) where
  pub note_final-Same : (now : Moment) (e : Event) (s : Store) → Same s (note_final codec now e s)
  unfolding note_final
  note_final-Same now e s =
      if-case (Same s) (str_eq e.kind transcript_final) _ _
        (λ _. append_segment-Same now e.meeting_id e.seq (codec.read_final e.payload) s)
        (λ _. (refl, refl, λ _. refl))

  pub note_state-Same : (now : Moment) (e : Event) (s : Store) → Same s (note_state codec now e s)
  unfolding note_state
  note_state-Same now e s =
      if-case (Same s) (str_eq e.kind meeting_state) _ _
        (λ _. update_meeting_state-Same now e.meeting_id (codec.read_status e.payload) _ s refl)
        (λ _. (refl, refl, λ _. refl))

pub log-append_durable :
    (e : Event) (s : Store) (id : String)
    → log id (append_durable e s).1 ≡ (
        if str_eq e.meeting_id id
        then log e.meeting_id s ++ (append_durable e s).0 ∷ []
        else log id s)
unfolding append_durable
log-append_durable e s id = ground (
  arith,
  lookup-insert e.meeting_id id (log e.meeting_id s ++ (append_durable e s).0 ∷ []) s.events,
)

pub next-append_durable :
    (e : Event) (s : Store) (id : String)
    → next id (append_durable e s).1
      ≡ (if str_eq e.meeting_id id then next e.meeting_id s + 1 else next id s)
unfolding append_durable
next-append_durable e s id =
    ground (arith, lookup-insert e.meeting_id id (next e.meeting_id s + 1) s.next_seq)

module _ {P : Type 0} (codec : Codec P) where
  -- The log gets the event that is answered.
  pub store_event-log :
      (now : Moment) (e : Event) (s : Store)
      → log e.meeting_id (store_event codec now e s).1
        ≡ log e.meeting_id s ++ (append_durable e s).0 ∷ []
  unfolding store_event
  store_event-log now e s =
      let (numbered, t) = append_durable e s in
      let final = note_final codec now numbered t in
      ap (λ events. list_at (lookup e.meeting_id events))
        ((note_state-Same codec now numbered final).0 ∙ (note_final-Same codec now numbered t).0)
      ∙ log-append_durable e s e.meeting_id
      ∙ if-true _ _ _ (str_eq_self e.meeting_id)

  pub store_event-answer :
      (now : Moment) (e : Event) (s : Store)
      → (store_event codec now e s).0 ≡ ok (append_durable e s).0
  unfolding store_event
  store_event-answer now e s = refl

  pub store_event-present :
      (now : Moment) (e : Event) (s : Store) (id : String)
      → is_some (lookup id (store_event codec now e s).1.meetings) ≡ is_some (lookup id s.meetings)
  unfolding store_event append_durable
  store_event-present now e s id =
      let (numbered, t) = append_durable e s in
      (note_state-Same codec now numbered (note_final codec now numbered t)).2 id
      ∙ (note_final-Same codec now numbered t).2 id
