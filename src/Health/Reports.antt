-- ===== src/Health/Reports.antt =====
-- The reports of the media health in a row (internal/application/bot_media_health.go).
use deciscope_api.Base.{
  if-true, if-false, ap, ◌∙◌, some, true, false, str_eq_self, Bool, ◌≤◌, ◌≡◌, subst, refl, sym,
  String, Bool, not, Option, none, some, Result, Dict, lookup, insert, lookup-insert, str_eq,
  eq_iff, trim, to_lower, is_blank, arith, if-case,
}
use deciscope_api.Base.Clock.{is_zero, Time, zero_time}
use deciscope_api.Domain.{MeetingSession}
use deciscope_api.Health.Media.{
  store_state, is_transition, clean, MediaUpdate, MediaState, MediaHealth, record_media,
  record_from, next_state, is_repeated, clean, is_transition,
}

abbrev pub time_of : Option MediaState → Time
time_of none = zero_time
time_of (some state) = state.occurred_at

-- When the last report of a session happened; no report is the oldest.
abbrev pub last_report : String → MediaHealth → Time
last_report id s = time_of (lookup id s.states)

insert-later :
    (key id : String) (state : MediaState) (states : Dict MediaState)
    → time_of (lookup key states) ≤ state.occurred_at
    → time_of (lookup id states) ≤ time_of (lookup id (insert key state states))
insert-later key id state states h =
    subst (λ o. time_of (lookup id states) ≤ time_of o) (sym (lookup-insert key id state states))
      (if-case (λ o. time_of (lookup id states) ≤ time_of o) (str_eq key id) _ _
        (λ e. subst (λ k. time_of (lookup k states) ≤ state.occurred_at) ((eq_iff key id).0 e) h)
        (λ _. omega arith))

record_from-later :
    (now : Time) (session : MeetingSession) (u : MediaUpdate) (o : Option MediaState)
    (s : MediaHealth) (id : String)
    → lookup session.id s.states ≡ o
    → last_report id s ≤ last_report id (record_from now session u o s).1
unfolding record_from next_state
record_from-later now session u none s id e =
    insert-later session.id id _ s.states (ground (arith, e))
record_from-later now session u (some old) s id e =
    if-case
      (λ (r : Result (MediaState × Bool) × MediaHealth). last_report id s ≤ last_report id r.1)
      (is_repeated old u) _ _ (λ _. omega arith)
      (λ q. insert-later session.id id _ s.states (ground (arith, e, q)))

-- Time does not go back: the report that is stored for a session is never replaced by one that
-- happened earlier.
pub record_media-later :
    (now : Time) (session : MeetingSession) (u : MediaUpdate) (s : MediaHealth) (id : String)
    → last_report id s ≤ last_report id (record_media now session u s).1
unfolding record_media
record_media-later now session u s id =
    let P =
      λ (r : Result (MediaState × Bool) × MediaHealth). last_report id s ≤ last_report id r.1 in
    if-case P (is_blank (trim session.id)) _ _ (λ _. omega arith)
      (λ _.
        if-case P (not (is_transition (to_lower (trim u.state)) (to_lower (trim u.event)))) _ _
          (λ _. omega arith)
          (λ _. record_from-later now session (clean now u) (lookup session.id s.states) s id refl))

module _ (now later : Time) (session : MeetingSession) (v : MediaUpdate) where
  repeated-kept :
      (old : MediaState) (r : MediaHealth)
      → lookup session.id r.states ≡ some old
      → is_repeated old v ≡ true
      → (record_from later session v (lookup session.id r.states) r).1 ≡ r
  unfolding record_from
  repeated-kept old r f e =
      ap (λ o. (record_from later session v o r).1) f
      ∙ ap (λ (x : Result (MediaState × Bool) × MediaHealth). x.1) (if-true _ _ _ e)

  stored-kept :
      (state : MediaState) (changed : Bool) (s : MediaHealth)
      → is_blank v.event_id ≡ false
      → state.event_id ≡ v.event_id
      → (record_from later session v
          (lookup session.id (store_state session state changed s).1.states)
          (store_state session state changed s).1).1
        ≡ (store_state session state changed s).1
  stored-kept state changed s b t =
      repeated-kept state _
        (lookup-insert session.id session.id state s.states
          ∙ if-true _ _ _ (str_eq_self session.id))
        (ground (arith, b, t, eq_iff v.event_id state.event_id))

  record_from-once :
      (o : Option MediaState) (s : MediaHealth)
      → is_blank v.event_id ≡ false
      → trim v.event_id ≡ v.event_id
      → lookup session.id s.states ≡ o
      → (record_from later session v
          (lookup session.id (record_from now session v o s).1.states)
          (record_from now session v o s).1).1
        ≡ (record_from now session v o s).1
  unfolding record_from next_state
  record_from-once none s b t f = stored-kept _ true s b t
  record_from-once (some old) s b t f =
      if-case
        (λ (x : Result (MediaState × Bool) × MediaHealth).
          (record_from later session v (lookup session.id x.1.states) x.1).1 ≡ x.1)
        (is_repeated old v) _ _ (λ e. repeated-kept old s f e) (λ _. stored-kept _ _ s b t)

clean-same :
    (now later : Time) (u : MediaUpdate)
    → is_zero u.occurred_at ≡ false
    → clean later u ≡ clean now u
clean-same now later u z =
    ap
      (λ t. record u {
        state = to_lower (trim u.state);
        event = to_lower (trim u.event);
        occurred_at = t;
      })
      (if-false _ _ _ z ∙ sym (if-false _ _ _ z))

-- The same report again changes nothing and publishes nothing, if its event identifier is set, has no
-- white space around it, and its instant is set.
pub record_media-once :
    (now later : Time) (session : MeetingSession) (u : MediaUpdate) (s : MediaHealth)
    → is_blank u.event_id ≡ false
    → trim u.event_id ≡ u.event_id
    → is_zero u.occurred_at ≡ false
    → (record_media later session u (record_media now session u s).1).1
      ≡ (record_media now session u s).1
unfolding record_media
record_media-once now later session u s b t z =
    let v = clean now u in
    let e = clean-same now later u z in
    let Again = λ (x : Result (MediaState × Bool) × MediaHealth).
      (record_media later session u x.1).1 ≡ x.1 in
    if-case Again (is_blank (trim session.id)) _ _
      (λ q. ap (λ (x : Result (MediaState × Bool) × MediaHealth). x.1) (if-true _ _ _ q))
      (λ q.
        if-case Again (not (is_transition (to_lower (trim u.state)) (to_lower (trim u.event)))) _ _
          (λ n.
            ap (λ (x : Result (MediaState × Bool) × MediaHealth). x.1)
              (if-false _ _ _ q ∙ if-true _ _ _ n))
          (λ n.
            let r = (record_from now session v (lookup session.id s.states) s).1 in
            ap (λ (x : Result (MediaState × Bool) × MediaHealth). x.1)
              (if-false _ _ _ q ∙ if-false _ _ _ n)
            ∙ ap (λ w. (record_from later session w (lookup session.id r.states) r).1) e
            ∙ record_from-once now later session v (lookup session.id s.states) s b t refl))
