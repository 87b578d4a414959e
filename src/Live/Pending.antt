-- ===== src/Live/Pending.antt =====
-- The pending segments of a session when segments arrive and rounds fail
-- (internal/application/ai_live_scheduler.go and ai_analysis.go).
use deciscope_api.Base.{
  ◌&&◌, is_blank, trim, ℕ, ◌≡◌, refl, ◌==◌, Bool, true, ◌||◌, List, [], ◌∷◌, ◌++◌, any, str_eq,
  arith, if◌then◌else◌,
}
use deciscope_api.Base.Clock.{Time}
use deciscope_api.Domain.{TranscriptSegment}
use deciscope_api.Live.State.{LiveState, LiveConfig}
use deciscope_api.Live.Rounds.{finish_run, fail_round, note_failure}
use deciscope_api.Live.Queue.{identity, append_all, restore_pending, earlier_oldest}

-- The segment is queued, or another one with its identity is.
abbrev pub Queued : List TranscriptSegment → TranscriptSegment → Type 0
Queued pending segment = any (λ other. str_eq (identity other) (identity segment)) pending ≡ true

pub any-append :
    (p : TranscriptSegment → Bool) (xs ys : List TranscriptSegment)
    → any p (xs ++ ys) ≡ any p xs || any p ys
any-append p [] ys = refl
any-append p (x ∷ xs) ys = ground (arith, any-append p xs ys)

earlier_oldest-pending :
    (oldest : Time) (s : LiveState) → (earlier_oldest oldest s).pending ≡ s.pending
earlier_oldest-pending oldest s = ground arith

pub finish_run-pending :
    (generation : ℕ) (s : LiveState) → (finish_run generation s).pending ≡ s.pending
unfolding finish_run
finish_run-pending generation s = ground arith

pub fail_round-pending :
    (c : LiveConfig) (retryable : Bool) (generation : ℕ) (segments : List TranscriptSegment)
    (failed_at : Time) (s : LiveState)
    → (fail_round c retryable generation segments failed_at s).pending
      ≡ (append_all segments failed_at (finish_run generation s)).pending
unfolding fail_round restore_pending note_failure
fail_round-pending c retryable generation segments failed_at s = ground (
  arith,
  earlier_oldest-pending s.running_oldest_pending_at
      (append_all segments failed_at (finish_run generation s)),
)

-- The segments that have neither a sequence number nor an event.
abbrev pub is_anonymous : TranscriptSegment → Bool
is_anonymous segment = segment.sequence_no == 0 && is_blank (trim segment.event_id)

abbrev pub anonymous : List TranscriptSegment → List TranscriptSegment
anonymous [] = []
anonymous (segment ∷ segments) =
    let rest = anonymous segments in if is_anonymous segment then segment ∷ rest else rest
