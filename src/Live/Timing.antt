-- ===== src/Live/Timing.antt =====
-- When the next analysis may start (internal/application/ai_live_scheduler.go and ai_analysis.go).
use deciscope_api.Base.{
  ℕ, zero, suc, ◌*◌, ◌-◌, ◌%◌, ◌^◌, ltb, leb, Bool, true, false, not, ◌&&◌, ◌||◌, List, any, pos,
  negsuc, pos_part, leb_ℤ, if◌then◌else◌,
}
use deciscope_api.Base.Clock.{Time, Duration, is_zero, before, after, add, second, minute}
use deciscope_api.Domain.{TranscriptSegment}
use deciscope_api.Live.Texts.{Texts, is_complete, is_high_priority, is_low_information}
use deciscope_api.Live.State.{
  Reason, analysis_running, immediate_catch_up, below_minimum_input, debounced, cooling,
  max_wait_reached, backing_off, LiveState, LiveConfig,
}

-- `pendingSemanticTrigger`
unfoldable pub semantic_complete : Texts → List TranscriptSegment → Bool
unfolding is_complete
semantic_complete t segments = any (λ segment. is_complete t segment.text) segments

unfoldable pub high_priority : Texts → List TranscriptSegment → Bool
unfolding is_high_priority
high_priority t segments = any (λ segment. is_high_priority t segment.text) segments

-- `hasSubstantiveLiveAnalysisInput`
unfoldable pub is_substantive : Texts → List TranscriptSegment → Bool
unfolding is_low_information
is_substantive t segments = any (λ segment. not (is_low_information t segment.text)) segments

abbrev pub is_running_reason : Reason → Bool
is_running_reason analysis_running = true
is_running_reason _ = false

-- A time with its reason, replaced by a later or an earlier one.
abbrev pub later_of : Time → Reason → Time × Reason → Time × Reason
later_of t r (u, q) = if after t u then (t, r) else (u, q)

unfoldable pub earlier_of : Time → Reason → Time × Reason → Time × Reason
earlier_of t r (u, q) = if before t u then (t, r) else (u, q)

-- The steps of `nextLiveAnalysisTimeLocked`, in order.
unfoldable pub debounce_time : LiveConfig → Texts → Time → LiveState → Time × Reason
unfolding semantic_complete
debounce_time c t now s =
    if ltb s.pending_chars c.live_min_chars && not (semantic_complete t s.pending)
    then (add s.oldest_pending_final_at c.live_max_wait, below_minimum_input)
    else (
      add (if is_zero s.latest_pending_final_at then now else s.latest_pending_final_at)
          c.live_debounce,
      debounced,
    )

unfoldable pub after_cooldown : LiveConfig → Texts → LiveState → Time × Reason → Time × Reason
unfolding high_priority
after_cooldown c t s chosen =
    if not (is_zero s.last_analysis_completed_at) && not (high_priority t s.pending)
    then later_of (add s.last_analysis_completed_at c.live_cooldown) cooling chosen
    else chosen

unfoldable pub after_backoff : LiveState → Time × Reason → Time × Reason
after_backoff s chosen =
    if is_zero s.next_attempt_at then chosen else later_of s.next_attempt_at backing_off chosen

unfoldable pub not_before : Time → Time × Reason → Time × Reason
not_before now (u, q) = (if before u now then now else u, q)

-- `nextLiveAnalysisTimeLocked`
unfoldable pub next_time : LiveConfig → Texts → Time → LiveState → Time × Reason
unfolding after_backoff not_before earlier_of after_cooldown debounce_time
next_time c t now s =
    if s.catch_up_requested || (s.rerun_requested && is_running_reason s.last_deferred_reason)
    then after_backoff s (now, immediate_catch_up)
    else not_before now (
        after_backoff s (
          earlier_of (add s.oldest_pending_final_at c.live_max_wait) max_wait_reached
            (after_cooldown c t s (debounce_time c t now s))))

-- `meetingAnalysisMaxBackoff` and `defaultLiveAnalysisInterval`
abbrev pub max_backoff : ℕ
max_backoff = 5 * minute

abbrev pub default_interval : ℕ
default_interval = 10 * second

-- An int64 by its 64 bits, as a duration.
abbrev pub signed : ℕ → Duration
signed bits = if ltb bits (2 ^ 63) then pos bits else negsuc (2 ^ 64 - bits - 1)

-- The loop of `liveAnalysisBackoff`, on the 64 bits of the int64, which wraps around.
unfoldable pub doubled : ℕ → ℕ → ℕ
doubled zero backoff = backoff
doubled (suc n) backoff =
    let next = (2 * backoff) % 2 ^ 64 in
    let rest = doubled n next in
    if ltb next (2 ^ 63) && leb max_backoff next then max_backoff else rest

-- The interval, or the default where it is not positive.
abbrev pub base_interval : Duration → ℕ
base_interval interval = if leb_ℤ interval (pos 0) then default_interval else pos_part interval

-- `liveAnalysisBackoff`
unfoldable pub live_backoff : Duration → ℕ → Duration
unfolding doubled
live_backoff interval failure_count = signed (doubled failure_count (base_interval interval))
