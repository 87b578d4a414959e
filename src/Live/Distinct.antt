-- ===== src/Live/Distinct.antt =====
-- No segment is queued twice (internal/application/ai_live_scheduler.go and ai_analysis.go).
use deciscope_api.Base.{
  Char, concat, decimal, String, ◌&&◌, not, is_blank, trim, ap, ◌∙◌, if-true, if-false, ltb, ℕ, ◌≡◌,
  refl, sym, subst, ◌==◌, Bool, true, false, List, [], ◌∷◌, ◌++◌, any, str_eq, arith, Bool-cases,
  inl, inr, eq_iff, if◌then◌else◌,
}
use Prim.Native.String.append
use deciscope_api.Base.Clock.{Time}
use deciscope_api.Domain.{TranscriptSegment}
use deciscope_api.Live.State.{LiveState, LiveConfig, Deferred}
use deciscope_api.Live.Rounds.{receive_segment, finish_run, fail_round}
use deciscope_api.Live.Queue.{
  identity, final_segment_key, is_pending, append_pending, append_all, requeue_all,
  requeue_deferred,
}
use deciscope_api.Live.Pending.{any-append, fail_round-pending, finish_run-pending}

-- No two queued segments have the same identity, but for those that have none.
abbrev pub IsDistinct : List TranscriptSegment → Type 0
IsDistinct [] = Unit
IsDistinct (segment ∷ pending) = (is_pending segment pending ≡ false) × IsDistinct pending

IsDistinct-append :
    (segment : TranscriptSegment) (pending : List TranscriptSegment)
    → is_pending segment pending ≡ false
    → IsDistinct pending
    → IsDistinct (pending ++ segment ∷ [])
unfolding is_pending
IsDistinct-append segment [] e h = (ground arith, tt)
IsDistinct-append segment (x ∷ pending) e h = (
  ground (
    arith,
    e,
    h.0,
    eq_iff (identity x) (identity segment),
    eq_iff (identity segment) (identity x),
    any-append (λ o. str_eq (identity o) (identity x)) pending (segment ∷ []),
  ),
  IsDistinct-append segment pending (ground (arith, e)) h.1,
)

append_pending-IsDistinct :
    (segment : TranscriptSegment) (at : Time) (s : LiveState)
    → IsDistinct s.pending
    → IsDistinct (append_pending segment at s).pending
unfolding append_pending
append_pending-IsDistinct segment at s h = elim (Bool-cases (is_pending segment s.pending)) [
  | inl e ↦ subst IsDistinct (ground (arith, e)) h
  | inr e ↦ subst IsDistinct (ground (arith, e)) (IsDistinct-append segment s.pending e h)
]

append_all-IsDistinct :
    (segments : List TranscriptSegment) (at : Time) (s : LiveState)
    → IsDistinct s.pending
    → IsDistinct (append_all segments at s).pending
unfolding append_all
append_all-IsDistinct [] at s h = h
append_all-IsDistinct (segment ∷ segments) at s h =
    append_all-IsDistinct segments at (append_pending segment at s)
      (append_pending-IsDistinct segment at s h)

requeue_if-IsDistinct :
    (b : Bool) (segment : TranscriptSegment) (at : Time) (s : LiveState)
    → IsDistinct s.pending
    → IsDistinct (if b then append_pending segment at s else s).pending
requeue_if-IsDistinct true segment at s h = append_pending-IsDistinct segment at s h
requeue_if-IsDistinct false segment at s h = h

requeue_all-IsDistinct :
    (n : ℕ) (ds : List Deferred) (at : Time) (s : LiveState)
    → IsDistinct s.pending
    → IsDistinct (requeue_all n ds at s).pending
unfolding requeue_all
requeue_all-IsDistinct n [] at s h = h
requeue_all-IsDistinct n (d ∷ ds) at s h =
    requeue_all-IsDistinct n ds at _
      (requeue_if-IsDistinct (ltb d.retry_after_sequence_no n) d.segment at s h)

requeue_deferred-IsDistinct :
    (n : ℕ) (at : Time) (s : LiveState)
    → IsDistinct s.pending
    → IsDistinct (requeue_deferred n at s).pending
unfolding requeue_deferred
requeue_deferred-IsDistinct n at s h = elim (Bool-cases (n == 0)) [
  | inl e ↦ subst IsDistinct (ground (arith, e)) h
  | inr e ↦
      subst IsDistinct (ground (arith, e)) (requeue_all-IsDistinct n s.deferred_unreflected at s h)
]

-- The two segments are one final: they have the same sequence number, not 0, and call, or no number and
-- the same event.
abbrev pub is_same_final : TranscriptSegment → TranscriptSegment → Bool
is_same_final x y =
    if x.sequence_no == 0
    then y.sequence_no == 0
      && (not (is_blank (trim y.event_id)) && str_eq (trim x.event_id) (trim y.event_id))
    else x.sequence_no == y.sequence_no && str_eq (trim x.call_id) (trim y.call_id)

-- No two queued segments are one final.
abbrev pub AreSeparate : List TranscriptSegment → Type 0
AreSeparate [] = Unit
AreSeparate (segment ∷ pending) =
    (any (λ other. is_same_final other segment) pending ≡ false) × AreSeparate pending

cons-named : (c : Char) (text : String) → is_blank (String.◌∷◌ c text) ≡ false
cons-named c text = elim (Bool-cases (is_blank (String.◌∷◌ c text))) [
  | inl h ↦ let q = (eq_iff (String.◌∷◌ c text) "").0 h in cc
  | inr h ↦ h
]

concat-right : (text rest : String) → is_blank rest ≡ false → is_blank (concat text rest) ≡ false
concat-right String.[] rest h = ap is_blank (λ i. append.nil rest i) ∙ h
concat-right (String.◌∷◌ c text) rest h =
    ap is_blank (λ i. append.cons c text rest i) ∙ cons-named c (concat text rest)

concat-left : (text rest : String) → is_blank text ≡ false → is_blank (concat text rest) ≡ false
concat-left String.[] rest h = cc
concat-left (String.◌∷◌ c text) rest h =
    ap is_blank (λ i. append.cons c text rest i) ∙ cons-named c (concat text rest)

numbered-identity :
    (x : TranscriptSegment)
    → x.sequence_no == 0 ≡ false
    → identity x ≡ final_segment_key x.call_id x.sequence_no
unfolding identity
numbered-identity x e = if-true (not (x.sequence_no == 0)) _ _ (ground (arith, e))

event-identity :
    (x : TranscriptSegment)
    → x.sequence_no == 0 ≡ true
    → is_blank (trim x.event_id) ≡ false
    → identity x ≡ concat "event:" (trim x.event_id)
unfolding identity
event-identity x e b =
    if-false (not (x.sequence_no == 0)) _ _ (ground (arith, e)) ∙ if-false _ _ _ b

same_final-identity :
    (x y : TranscriptSegment)
    → is_same_final x y ≡ true
    → (is_blank (identity y) ≡ false) × (str_eq (identity x) (identity y) ≡ true)
same_final-identity x y e = elim (Bool-cases (x.sequence_no == 0)) [
  | inl none_x ↦
      let none_y : y.sequence_no == 0 ≡ true = ground (arith, e, none_x) in
      let named : is_blank (trim y.event_id) ≡ false = ground (arith, e, none_x) in
      let event = (eq_iff (trim x.event_id) (trim y.event_id)).0 (ground (arith, e, none_x)) in
      let named_x = ap is_blank event ∙ named in
      let i = event-identity x none_x named_x in
      let j = event-identity y none_y named in
      (
        ap is_blank j ∙ concat-left "event:" (trim y.event_id) refl,
        (eq_iff (identity x) (identity y)).1 (i ∙ ap (concat "event:") event ∙ sym j),
      )
  | inr some_x ↦
      let n : x.sequence_no ≡ y.sequence_no = ground (arith, e, some_x) in
      let some_y : y.sequence_no == 0 ≡ false = ground (arith, n, some_x) in
      let call = (eq_iff (trim x.call_id) (trim y.call_id)).0 (ground (arith, e, some_x)) in
      let i = numbered-identity x some_x in
      let j = numbered-identity y some_y in
      (
        ap is_blank j
            ∙ concat-right (trim y.call_id) (concat "\0" (decimal y.sequence_no))
                (concat-left "\0" (decimal y.sequence_no) refl),
        (eq_iff (identity x) (identity y)).1
            (i ∙ (λ k. concat (call k) (concat "\0" (decimal (n k)))) ∙ sym j),
      )
]

separate-any :
    (segment : TranscriptSegment) (pending : List TranscriptSegment)
    → is_pending segment pending ≡ false
    → any (λ other. is_same_final other segment) pending ≡ false
unfolding is_pending
separate-any segment [] e = refl
separate-any segment (x ∷ pending) e =
    let rest = separate-any segment pending (ground (arith, e)) in
    elim (Bool-cases (is_same_final x segment)) [
      | inl q ↦ let h = same_final-identity x segment q in absurd (ground (arith, e, h))
      | inr q ↦ ground (arith, rest, q)
    ]

IsDistinct-AreSeparate :
    (pending : List TranscriptSegment) → IsDistinct pending → AreSeparate pending
IsDistinct-AreSeparate [] h = tt
IsDistinct-AreSeparate (x ∷ pending) h =
    (separate-any x pending h.0, IsDistinct-AreSeparate pending h.1)

-- The arrival of a segment, with the deferred ones that it requeues, and the failure of a round keep the
-- identities of the queued segments different, but for the segments that have none: no final with a
-- sequence number, and none with an event, is queued twice.
pub queue-IsDistinct :
    (s : LiveState)
    → IsDistinct s.pending
    → ((segment : TranscriptSegment) (now : Time)
        → IsDistinct (receive_segment segment now s).pending
          × AreSeparate (receive_segment segment now s).pending)
      × ((c : LiveConfig) (retryable : Bool) (generation : ℕ) (segments : List TranscriptSegment)
            (failed_at : Time)
          → IsDistinct (fail_round c retryable generation segments failed_at s).pending
            × AreSeparate (fail_round c retryable generation segments failed_at s).pending)
unfolding receive_segment
queue-IsDistinct s h = (
  (λ segment now.
      let d =
        append_pending-IsDistinct segment now (requeue_deferred segment.sequence_no now s)
          (requeue_deferred-IsDistinct segment.sequence_no now s h) in
      (d, IsDistinct-AreSeparate _ d)),
  (λ c retryable generation segments failed_at.
      let d =
        subst IsDistinct (sym (fail_round-pending c retryable generation segments failed_at s)) (
          append_all-IsDistinct segments failed_at (finish_run generation s)
            (subst IsDistinct (sym (finish_run-pending generation s)) h)) in
      (d, IsDistinct-AreSeparate _ d)),
)
