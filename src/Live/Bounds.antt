-- ===== src/Live/Bounds.antt =====
-- Bounds on the time of the next analysis and on the back-off of internal/application/ai_analysis.go
-- and ai_live_scheduler.go.
use deciscope_api.Base.{
  ℕ, zero, suc, ◌*◌, ◌^◌, ◌≤◌, ◌<◌, min, max, leb, ltb, ◌-◌, negsuc, ◌%◌, ◌&&◌, pos, ◌≡◌, ap, ◌∙◌,
  arith, Bool-cases, inl, inr, if◌then◌else◌, if-true,
}
use deciscope_api.Base.Clock.{Time, Duration, add}
use deciscope_api.Live.Texts.{Texts}
use deciscope_api.Live.State.{Reason, immediate_catch_up, max_wait_reached, LiveState, LiveConfig}
use deciscope_api.Live.Timing.{
  next_time, live_backoff, doubled, max_backoff, base_interval, signed, after_backoff, not_before,
  earlier_of, after_cooldown, debounce_time,
}

after_backoff-window :
    (s : LiveState) (chosen : Time × Reason)
    → (chosen.0 ≤ (after_backoff s chosen).0)
      × (s.next_attempt_at ≤ (after_backoff s chosen).0)
      × ((after_backoff s chosen).0 ≤ max s.next_attempt_at chosen.0)
unfolding after_backoff
after_backoff-window s chosen = (ground arith, ground arith, ground arith)

not_before-window :
    (now : Time) (chosen : Time × Reason) → (not_before now chosen).0 ≡ max now chosen.0
unfolding not_before
not_before-window now chosen = ground arith

earlier_of-bound :
    (at : Time) (r : Reason) (chosen : Time × Reason) → (earlier_of at r chosen).0 ≤ at
unfolding earlier_of
earlier_of-bound at r chosen = ground arith

-- The next analysis is never before now nor before the back-off allows it, and waits for the
-- longest wait of the oldest pending segment at most, unless now or the back-off is later.
pub next_time-window :
    (c : LiveConfig) (t : Texts) (now : Time) (s : LiveState)
    → (now ≤ (next_time c t now s).0)
      × (s.next_attempt_at ≤ (next_time c t now s).0)
      × ((next_time c t now s).0
          ≤ max now (max s.next_attempt_at (add s.oldest_pending_final_at c.live_max_wait)))
unfolding next_time
next_time-window c t now s =
    let oldest = add s.oldest_pending_final_at c.live_max_wait in
    let late = after_cooldown c t s (debounce_time c t now s) in
    let waited = earlier_of oldest max_wait_reached late in
    let b = earlier_of-bound oldest max_wait_reached late in
    let w = after_backoff-window s waited in
    let n = not_before-window now (after_backoff s waited) in
    let u = after_backoff-window s (now, immediate_catch_up) in
    (grind (arith, u, n, w), grind (arith, u, n, w), grind (arith, u, n, w, b))

assoc : (n b : ℕ) → 2 * b * 2 ^ n ≡ b * 2 ^ suc n
assoc n b = grind arith

power : (n b : ℕ) → b ≤ b * 2 ^ n
power zero b = grind arith
power (suc n) b = grind (arith, power n b, assoc n b)

doubled-min : (n b : ℕ) → 0 < b → b < 2 ^ 62 → doubled (suc n) b ≡ min max_backoff (b * 2 ^ suc n)
unfolding doubled
doubled-min zero b h l = let same : (2 * b) % 2 ^ 64 ≡ 2 * b = omega arith in grind (arith, same)
doubled-min (suc n) b h l =
    let same : (2 * b) % 2 ^ 64 ≡ 2 * b = omega arith in
    elim (Bool-cases (leb max_backoff (2 * b))) [
      | inl e ↦ ground (arith, e, same, l, power (suc n) (2 * b), assoc (suc n) b)
      | inr e ↦
          let rest = doubled-min n (2 * b) (omega arith) (ground (arith, e)) in
          let next =
            ap (λ m. if ltb m (2 ^ 63) && leb max_backoff m then max_backoff else doubled (suc n) m)
              same in
          next ∙ ground (arith, e, assoc (suc n) b, rest)
    ]

-- After n + 1 failures in a row the back-off is the interval doubled n + 1 times, with five minutes
-- as its bound; an interval that is not positive counts as ten seconds. The interval is below 2^62
-- nanoseconds, from which on the doubling overflows.
pub live_backoff-min :
    (interval : Duration) (n : ℕ)
    → base_interval interval < 2 ^ 62
    → live_backoff interval (suc n) ≡ pos (min max_backoff (base_interval interval * 2 ^ suc n))
unfolding live_backoff
live_backoff-min interval n l =
    let d = doubled-min n (base_interval interval) (ground arith) l in
    let bounded : min max_backoff (base_interval interval * 2 ^ suc n) < 2 ^ 63 = omega arith in
    let m = min max_backoff (base_interval interval * 2 ^ suc n) in
    ap signed d
    ∙ if-true (ltb m (2 ^ 63)) (pos m) (negsuc (2 ^ 64 - m - 1)) (ground (arith, bounded))
