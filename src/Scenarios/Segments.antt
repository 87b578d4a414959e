-- ===== src/Scenarios/Segments.antt =====
-- Scenarios of the queue of final segments.
use deciscope_api.Base.{ℕ, refl, Bool, List, trim, decimal}
use deciscope_api.Base.Clock.{Time}
use deciscope_api.Domain.{TranscriptSegment}
use deciscope_api.Live.State.{LiveConfig}
use deciscope_api.Live.Queue.{is_pending, identity}
use deciscope_api.Live.Rounds.{receive_segment, fail_round}
use deciscope_api.Live.Distinct.{IsDistinct, AreSeparate, queue-IsDistinct}
use deciscope_api.Scenarios.Data.{waiting}

queue-IsDistinct_example :
    ((other : TranscriptSegment) (now : Time)
      → IsDistinct (receive_segment other now waiting).pending
        × AreSeparate (receive_segment other now waiting).pending)
    × ((c : LiveConfig) (retryable : Bool) (generation : ℕ) (segments : List TranscriptSegment)
          (failed_at : Time)
        → IsDistinct (fail_round c retryable generation segments failed_at waiting).pending
          × AreSeparate (fail_round c retryable generation segments failed_at waiting).pending)
unfolding is_pending identity trim decimal
queue-IsDistinct_example = queue-IsDistinct waiting (refl, tt)
