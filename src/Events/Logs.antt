-- ===== src/Events/Logs.antt =====
-- What a client reads from a log (internal/adapter/repository/memory/event.go).
use deciscope_api.Base.{
  String, ℕ, zero, suc, ◌+◌, ◌≤◌, ◌<◌, ◌≡◌, refl, sym, subst, ap, ◌∙◌, true, false, not, Option,
  none, some, List, [], ◌∷◌, ◌++◌, Result, ok, err, not_found, lookup, is_some, if◌then◌else◌, pos,
  arith, length, if-case, if-true, ok-injective, ◌⊎◌, inl, inr,
}
use deciscope_api.Events.Data.{Event, Codec, Payload, Moment, is_durable, json_payload}
use deciscope_api.Events.Store.{
  Store, log, next, append_durable, store_event, append_encoded, append_event, later_events,
  list_events, create_meeting, reset_meeting,
}
use deciscope_api.Events.Appending.{store_event-log, store_event-present, store_event-answer}
use deciscope_api.Events.Numbering.{
  Counts, IsNumbered, append_event-IsNumbered, create_meeting-IsNumbered, reset_meeting-IsNumbered,
}

abbrev pub drop : ℕ → List Event → List Event
drop zero es = es
drop (suc n) [] = []
drop (suc n) (e ∷ es) = drop n es

later_events-before :
    (n k : ℕ) (es : List Event) → k < n → Counts n es → later_events (pos k) es ≡ es
later_events-before n k [] h c = refl
later_events-before n k (e ∷ es) h c =
    ground (arith, c.0, later_events-before (suc n) k es (omega arith) c.1)

later_events-drop :
    (n k : ℕ) (es : List Event) → Counts (suc n) es → later_events (pos (n + k)) es ≡ drop k es
later_events-drop n zero es c = later_events-before (suc n) (n + 0) es (omega arith) c
later_events-drop n (suc k) [] c = refl
later_events-drop n (suc k) (e ∷ es) c =
    let same : suc n + k ≡ n + suc k = omega arith in
    let rest =
      subst (λ j. later_events (pos j) es ≡ drop k es) same (later_events-drop (suc n) k es c.1) in
    ground (arith, rest, c.0)

-- One call of the store. The identifier of a new meeting is one that no meeting has.
pub data StoreStep {P : Type 0} (codec : Codec P) : Store → Store → Type 0 where
  creates :
      (now : Moment) (key workspace title source : String) (s : Store)
      → is_some (lookup key s.meetings) ≡ false
      → StoreStep codec s (create_meeting now key workspace title source s).1
  appends :
      (now : Moment) (key kind : String) (payload : Payload P) (s : Store)
      → StoreStep codec s (append_event codec now key kind payload s).1
  resets : (now : Moment) (key : String) (s : Store) → StoreStep codec s (reset_meeting now key s).1

abbrev pub empty_store : Store
empty_store = record { meetings = []; next_seq = []; events = []; segments = [] }

pub data Stored {P : Type 0} (codec : Codec P) : Store → Type 0 where
  opened : Stored codec empty_store
  called : {s t : Store} → Stored codec s → StoreStep codec s t → Stored codec t

empty-IsNumbered : (id : String) → IsNumbered id empty_store
unfolding lookup
empty-IsNumbered id = record { counts = tt; counted = λ p. cc; absent = λ _. refl }

module _ {P : Type 0} {codec : Codec P} where
  step-IsNumbered :
      {s t : Store} (id : String) → StoreStep codec s t → IsNumbered id s → IsNumbered id t
  step-IsNumbered id (creates now key workspace title source s new) h =
      create_meeting-IsNumbered now key workspace title source s id new h
  step-IsNumbered id (appends now key kind payload s) h =
      append_event-IsNumbered codec now key kind payload s id h
  step-IsNumbered id (resets now key s) h = reset_meeting-IsNumbered now key s id h

  pub Stored-IsNumbered : {s : Store} (id : String) → Stored codec s → IsNumbered id s
  Stored-IsNumbered id opened = empty-IsNumbered id
  Stored-IsNumbered id (called r c) = step-IsNumbered id c (Stored-IsNumbered id r)

  -- In every store that calls of its methods lead to, the log of a meeting is numbered from 1
  -- without a gap, and the events after the number `k` are all but the first `k` of the log; a
  -- meeting that is not there is reported as not found.
  pub list_events-drop :
      (s : Store) (id : String) (k : ℕ)
      → Stored codec s
      → Counts 1 (log id s)
        × ((list_events id (pos k) s).0
            ≡ (if is_some (lookup id s.meetings) then ok (drop k (log id s)) else err not_found))
  unfolding list_events
  list_events-drop s id k r =
      let counts = (Stored-IsNumbered id r).counts in
      (counts, ground (arith, later_events-drop 0 k (log id s) counts))

drop-append : (k : ℕ) (es fs : List Event) → k ≤ length es → drop k (es ++ fs) ≡ drop k es ++ fs
drop-append zero es fs h = refl
drop-append (suc k) [] fs h = absurd (omega arith)
drop-append (suc k) (e ∷ es) fs h = drop-append k es fs (omega arith)

-- The event is in the log at its end, or it is not stored and the log is as before.
abbrev pub Logged : List Event → List Event → Event → Type 0
Logged old new e = ((e.seq ≡ 0) × (new ≡ old)) ⊎ ((e.seq ≡ length old + 1) × (new ≡ old ++ e ∷ []))

abbrev seq_of : Event → ℕ
seq_of e = e.seq

numbered-seq : (e : Event) (s : Store) → (append_durable e s).0.seq ≡ next e.meeting_id s
unfolding append_durable
numbered-seq e s = refl

module _ {P : Type 0} (codec : Codec P) where
  -- An answer `e` is an event that the log got, of a meeting that is there.
  abbrev Appends : String → Event → Store → Result Event × Store → Type 0
  Appends key e s r =
      r.0 ≡ ok e → (is_some (lookup key r.1.meetings) ≡ true) × (log key r.1 ≡ log key s ++ e ∷ [])

  store_event-Appends :
      (now : Moment) (given : Event) (s : Store) (e : Event)
      → is_some (lookup given.meeting_id s.meetings) ≡ true
      → Appends given.meeting_id e s (store_event codec now given s)
  store_event-Appends now given s e present q = (
    store_event-present codec now given s given.meeting_id ∙ present,
    store_event-log codec now given s
        ∙ ap (λ f. log given.meeting_id s ++ f ∷ [])
            (ok-injective _ e (sym (store_event-answer codec now given s) ∙ q)),
  )

  append_encoded-Appends :
      (now : Moment) (key kind : String) (bytes : Option String) (s : Store) (e : Event)
      → is_durable kind ≡ true
      → Appends key e s (append_encoded codec now key kind bytes s)
  unfolding append_encoded
  append_encoded-Appends now key kind none s e d = λ q. cc
  append_encoded-Appends now key kind (some bytes) s e d =
      if-case (Appends key e s) (not (is_some (lookup key s.meetings))) _ _ (λ _ q. cc)
        (λ present.
          if-case (Appends key e s) (not (is_durable kind)) _ _
            (λ n q. absurd (ground (arith, n, d)))
            (λ _.
              store_event-Appends now
                (record { kind = kind; meeting_id = key; seq = 0; ts_ms = now.ms; payload = bytes })
                s e (ground (arith, present))))

  append_encoded-Logged :
      (now : Moment) (key kind : String) (bytes : Option String) (s : Store) (e : Event)
      → IsNumbered key s
      → (append_encoded codec now key kind bytes s).0 ≡ ok e
      → Logged (log key s) (log key (append_encoded codec now key kind bytes s).1) e
  unfolding append_encoded
  append_encoded-Logged now key kind none s e h = λ q. cc
  append_encoded-Logged now key kind (some bytes) s e h =
      let given : Event = record {
        kind = kind;
        meeting_id = key;
        seq = 0;
        ts_ms = now.ms;
        payload = bytes;
      } in
      let Holds = λ (r : Result Event × Store). r.0 ≡ ok e → Logged (log key s) (log key r.1) e in
      if-case Holds (not (is_some (lookup key s.meetings))) _ _ (λ _ q. cc)
        (λ present.
          if-case Holds (not (is_durable kind)) _ _
            (λ _ q. inl (sym (ap seq_of (ok-injective given e q)), refl))
            (λ _ q.
              let there : is_some (lookup key s.meetings) ≡ true = ground (arith, present) in
              let answer = ok-injective _ e (sym (store_event-answer codec now given s) ∙ q) in
              inr (
                sym (ap seq_of answer) ∙ numbered-seq given s ∙ h.counted there,
                (store_event-Appends now given s e there q).1,
              )))

  -- An event that is stored is read back: after an append of a durable event that gives the event
  -- `e`, the events after the number `k`, which is at most that of the last event before, are those
  -- from before and then `e`.
  pub append-list_events :
      (now : Moment) (key kind : String) (payload : Payload P) (s : Store) (e : Event) (k : ℕ)
      → Stored codec s
      → is_durable kind ≡ true
      → (append_event codec now key kind payload s).0 ≡ ok e
      → k ≤ length (log key s)
      → (list_events key (pos k) (append_event codec now key kind payload s).1).0
        ≡ ok (drop k (log key s) ++ e ∷ [])
  unfolding append_event
  append-list_events now key kind payload s e k r d q h =
      let t = (append_event codec now key kind payload s).1 in
      let (present, grown) =
        append_encoded-Appends now key kind (json_payload codec payload) s e d q in
      (list_events-drop t key k (called r (appends now key kind payload s))).1
      ∙ if-true _ _ _ present
      ∙ ap (λ es. ok (drop k es)) grown
      ∙ ap ok (drop-append k (log key s) (e ∷ []) h)

  -- An answer `e` is not stored and the log is as before, or it has the number after the last of the
  -- log and stands at its end.
  pub append_event-Logged :
      (now : Moment) (key kind : String) (payload : Payload P) (s : Store) (e : Event)
      → IsNumbered key s
      → (append_event codec now key kind payload s).0 ≡ ok e
      → Logged (log key s) (log key (append_event codec now key kind payload s).1) e
  unfolding append_event
  append_event-Logged now key kind payload s e h =
      append_encoded-Logged now key kind (json_payload codec payload) s e h
