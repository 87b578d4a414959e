-- ===== src/Live/Arms.antt =====
-- When a final segment arms the timer of an analysis (internal/application/ai_analysis.go and
-- ai_live_scheduler.go).
use deciscope_api.Base.{Bool, not, ◌&&◌, is_blank, trim}
use deciscope_api.Domain.{TranscriptSegment}
use deciscope_api.Live.Texts.{Texts}
use deciscope_api.Live.State.{LiveState, Trigger}

-- The segment is one that `PublishTranscriptSegment` takes.
abbrev pub is_taken : TranscriptSegment → Bool
is_taken segment =
    segment.is_final
    && (not (is_blank (trim segment.session_id)) && not (is_blank (trim segment.text)))

-- Nothing but the texts keeps the session from an analysis.
abbrev is_open : LiveState → Bool
is_open s =
    not s.stopped
    && not s.finalizing
    && not s.running
    && (s.context_planned && not s.context_pending)

-- The session is neither stopped nor being finalized, runs no round and waits for no context.
abbrev pub is_idle : LiveState → Bool
is_idle s = not s.stopped && not s.finalizing && not s.running && not s.context_pending
