-- ===== src/Events/Numbering.antt =====
-- The numbers of the events in the logs of the memory store
-- (internal/adapter/repository/memory/event.go, meeting.go).
use deciscope_api.Base.{
  String, ℕ, suc, ◌+◌, ◌≡◌, refl, sym, subst, ap, ◌∙◌, true, false, not, Option, none, some, List,
  [], ◌∷◌, ◌++◌, Result, Dict, lookup, insert, lookup-insert, lookup-remove, str_eq, eq_iff,
  is_some, arith, length, length-append, if-case, if-true, if-false, str_eq_self, Bool-cases, inl,
  inr,
}
use deciscope_api.Events.Data.{Meeting, Event, Codec, Payload, Moment, is_durable, json_payload}
use deciscope_api.Events.Appending.{
  Same, note_final-Same, note_state-Same, log-append_durable, next-append_durable,
}
use deciscope_api.Events.Store.{
  Store, list_at, number_at, log, next, append_durable, note_final, store_event, append_encoded,
  append_event, create_meeting, reset_found, reset_meeting,
}

-- The events have the numbers from `n` on, in order.
abbrev pub Counts : ℕ → List Event → Type 0
Counts n [] = Unit
Counts n (e ∷ es) = (e.seq ≡ n) × Counts (suc n) es

-- The log of a meeting counts from 1, and the next number is the one after it; a meeting that the
-- store does not have has no log.
pub record IsNumbered (id : String) (s : Store) : Type 0 where
  pub counts : Counts 1 (log id s)
  pub counted : is_some (lookup id s.meetings) ≡ true → next id s ≡ length (log id s) + 1
  pub absent : is_some (lookup id s.meetings) ≡ false → log id s ≡ []

Counts-append :
    (n : ℕ) (es : List Event) (e : Event)
    → e.seq ≡ n + length es
    → Counts n es
    → Counts n (es ++ e ∷ [])
Counts-append n [] e h k = (omega arith, tt)
Counts-append n (f ∷ es) e h k = (k.0, Counts-append (suc n) es e (omega arith) k.1)

Same-IsNumbered : (id : String) (s t : Store) → Same s t → IsNumbered id s → IsNumbered id t
Same-IsNumbered id s t (e, n, m) h = record {
  counts = subst (λ es. Counts 1 (list_at (lookup id es))) (sym e) h.counts;
  counted = λ p. ground (arith, h.counted (sym (m id) ∙ p), e, n);
  absent = λ p. ground (arith, h.absent (sym (m id) ∙ p), e);
}

-- The log of the meeting of the event grows by one.
IsNumbered-grown :
    (id : String) (s t : Store) (e : Event)
    → is_some (lookup id s.meetings) ≡ true
    → is_some (lookup id t.meetings) ≡ true
    → e.seq ≡ next id s
    → log id t ≡ log id s ++ e ∷ []
    → next id t ≡ next id s + 1
    → IsNumbered id s
    → IsNumbered id t
IsNumbered-grown id s t e m k q l n h =
    let total = h.counted m in
    record {
      counts = subst (Counts 1) (sym l) (Counts-append 1 (log id s) e (omega arith) h.counts);
      counted = λ _. omega (arith, ap length l, length-append (log id s) (e ∷ []));
      absent = λ p. cc;
    }

IsNumbered-kept :
    (id : String) (s t : Store)
    → is_some (lookup id t.meetings) ≡ is_some (lookup id s.meetings)
    → log id t ≡ log id s
    → next id t ≡ next id s
    → IsNumbered id s
    → IsNumbered id t
IsNumbered-kept id s t m l n h = record {
  counts = subst (Counts 1) (sym l) h.counts;
  counted = λ p. n ∙ h.counted (sym m ∙ p) ∙ ap (λ es. length es + 1) (sym l);
  absent = λ p. l ∙ h.absent (sym m ∙ p);
}

append_durable-IsNumbered :
    (e : Event) (s : Store) (id : String)
    → is_some (lookup e.meeting_id s.meetings) ≡ true
    → IsNumbered id s
    → IsNumbered id (append_durable e s).1
unfolding append_durable
append_durable-IsNumbered e s id m h = elim (Bool-cases (str_eq e.meeting_id id)) [
  | inl same ↦
      let own = (eq_iff e.meeting_id id).0 same in
      subst (λ j. IsNumbered j s → IsNumbered j (append_durable e s).1) own
        (IsNumbered-grown e.meeting_id s (append_durable e s).1 (append_durable e s).0 m m refl
          (log-append_durable e s e.meeting_id ∙ if-true _ _ _ (str_eq_self e.meeting_id))
          (next-append_durable e s e.meeting_id ∙ if-true _ _ _ (str_eq_self e.meeting_id)))
        h
  | inr other ↦
      IsNumbered-kept id s (append_durable e s).1 refl
        (log-append_durable e s id ∙ if-false _ _ _ other)
        (next-append_durable e s id ∙ if-false _ _ _ other) h
]

module _ {P : Type 0} (codec : Codec P) where
  pub store_event-IsNumbered :
      (now : Moment) (e : Event) (s : Store) (id : String)
      → is_some (lookup e.meeting_id s.meetings) ≡ true
      → IsNumbered id s
      → IsNumbered id (store_event codec now e s).1
  unfolding store_event
  store_event-IsNumbered now e s id m h =
      let (numbered, t) = append_durable e s in
      Same-IsNumbered id (note_final codec now numbered t) _ (note_state-Same codec now numbered _)
        (Same-IsNumbered id t _ (note_final-Same codec now numbered t)
          (append_durable-IsNumbered e s id m h))

  append_encoded-IsNumbered :
      (now : Moment) (key kind : String) (bytes : Option String) (s : Store) (id : String)
      → IsNumbered id s
      → IsNumbered id (append_encoded codec now key kind bytes s).1
  unfolding append_encoded
  append_encoded-IsNumbered now key kind none s id h = h
  append_encoded-IsNumbered now key kind (some bytes) s id h =
      let Holds = λ (r : Result Event × Store). IsNumbered id r.1 in
      if-case Holds (not (is_some (lookup key s.meetings))) _ _ (λ _. h)
        (λ present.
          if-case Holds (not (is_durable kind)) _ _ (λ _. h)
            (λ _.
              store_event-IsNumbered now
                (record { kind = kind; meeting_id = key; seq = 0; ts_ms = now.ms; payload = bytes })
                s id (ground (arith, present)) h))

  pub append_event-IsNumbered :
      (now : Moment) (key kind : String) (payload : Payload P) (s : Store) (id : String)
      → IsNumbered id s
      → IsNumbered id (append_event codec now key kind payload s).1
  unfolding append_event
  append_event-IsNumbered now key kind payload s id h =
      append_encoded-IsNumbered now key kind (json_payload codec payload) s id h

-- The store of a meeting that starts to count.
IsNumbered-fresh :
    (id : String) (t : Store)
    → is_some (lookup id t.meetings) ≡ true
    → log id t ≡ []
    → next id t ≡ 1
    → IsNumbered id t
IsNumbered-fresh id t m l n = record {
  counts = subst (Counts 1) (sym l) tt;
  counted = λ _. omega (arith, ap length l);
  absent = λ p. cc;
}

is_some-insert_other :
    (key id : String) (m : Meeting) (ms : Dict Meeting)
    → str_eq key id ≡ false
    → is_some (lookup id (insert key m ms)) ≡ is_some (lookup id ms)
is_some-insert_other key id m ms h = ap is_some (lookup-insert key id m ms ∙ if-false _ _ _ h)

is_some-insert_self :
    (key : String) (m : Meeting) (ms : Dict Meeting) → is_some (lookup key (insert key m ms)) ≡ true
is_some-insert_self key m ms =
    ap is_some (lookup-insert key key m ms ∙ if-true _ _ _ (str_eq_self key))

lookup-insert_self :
    (key : String) (n : ℕ) (ms : Dict ℕ) → number_at (lookup key (insert key n ms)) ≡ n
lookup-insert_self key n ms =
    ap number_at (lookup-insert key key n ms ∙ if-true _ _ _ (str_eq_self key))

lookup-insert_other :
    (key id : String) (n : ℕ) (ms : Dict ℕ)
    → str_eq key id ≡ false
    → number_at (lookup id (insert key n ms)) ≡ number_at (lookup id ms)
lookup-insert_other key id n ms h = ap number_at (lookup-insert key id n ms ∙ if-false _ _ _ h)

-- A meeting with a new identifier.
pub create_meeting-IsNumbered :
    (now : Moment) (key workspace title source : String) (s : Store) (id : String)
    → is_some (lookup key s.meetings) ≡ false
    → IsNumbered id s
    → IsNumbered id (create_meeting now key workspace title source s).1
unfolding create_meeting
create_meeting-IsNumbered now key workspace title source s id new h =
    let t = (create_meeting now key workspace title source s).1 in
    elim (Bool-cases (str_eq key id)) [
      | inl same ↦
          let own = (eq_iff key id).0 same in
          subst (λ j. IsNumbered j s → IsNumbered j t) own
            (λ k.
              IsNumbered-fresh key t (is_some-insert_self key _ s.meetings) (k.absent new)
                (lookup-insert_self key 1 s.next_seq))
            h
      | inr other ↦
          IsNumbered-kept id s t (is_some-insert_other key id _ s.meetings other) refl
            (lookup-insert_other key id 1 s.next_seq other) h
    ]

reset_found-IsNumbered :
    (now : Moment) (key : String) (o : Option Meeting) (s : Store) (id : String)
    → IsNumbered id s
    → IsNumbered id (reset_found now key o s).1
unfolding reset_found
reset_found-IsNumbered now key none s id h = h
reset_found-IsNumbered now key (some m) s id h =
    let t = (reset_found now key (some m) s).1 in
    elim (Bool-cases (str_eq key id)) [
      | inl same ↦
          subst (λ j. IsNumbered j t) ((eq_iff key id).0 same)
            (IsNumbered-fresh key t (is_some-insert_self key _ s.meetings)
              (ap list_at (lookup-remove key key s.events ∙ if-true _ _ _ (str_eq_self key)))
              (lookup-insert_self key 1 s.next_seq))
      | inr other ↦
          IsNumbered-kept id s t (is_some-insert_other key id _ s.meetings other)
            (ap list_at (lookup-remove key id s.events ∙ if-false _ _ _ other))
            (lookup-insert_other key id 1 s.next_seq other) h
    ]

pub reset_meeting-IsNumbered :
    (now : Moment) (key : String) (s : Store) (id : String)
    → IsNumbered id s
    → IsNumbered id (reset_meeting now key s).1
unfolding reset_meeting
reset_meeting-IsNumbered now key s id h =
    reset_found-IsNumbered now key (lookup key s.meetings) s id h
