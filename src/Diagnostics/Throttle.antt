-- ===== src/Diagnostics/Throttle.antt =====
-- The throttle table (internal/application/client_diagnostics.go).
use deciscope_api.Base.{
  String, ℕ, zero, suc, ◌≤◌, ◌<◌, Bool, true, false, ◌||◌, Option, none, some, List, [], ◌∷◌,
  Result, Dict, lookup, insert, str_eq, if◌then◌else◌, leb, ltb, ◌==◌, length, arith, if-case,
}
use deciscope_api.Base.Clock.{Time}
use deciscope_api.Diagnostics.Limits.{Limits}
use deciscope_api.Diagnostics.Names.{is_critical_event}
use deciscope_api.Diagnostics.Recorder.{
  EventInput, Batch, DiagnosticEvent, Refusal, Tally, Recorder, Tools, throttle_key, fresh_at,
  prune_throttle, suppress, event_of, refusal, record_sane, record_event, record_events,
  take_events, first_tally, record_batch,
}

length-insert-le :
    (key : String) (t : Time) (table : Dict Time) → length (insert key t table) ≤ suc (length table)
unfolding insert
length-insert-le key t [] = omega arith
length-insert-le key t ((k, u) ∷ table) =
    if-case (λ d. length d ≤ suc (suc (length table))) (str_eq k key) ((k, t) ∷ table)
      ((k, u) ∷ insert key t table) (λ _. omega arith)
      (λ _. omega (arith, length-insert-le key t table))

module _ (limits : Limits) (room : 0 < limits.max_entries) where
  prune_throttle-lt :
      (now : Time) (table : Dict Time)
      → length (prune_throttle limits now table) < limits.max_entries
  unfolding prune_throttle
  prune_throttle-lt now table =
      if-case (λ kept. length kept < limits.max_entries) (ltb (length _) limits.max_entries) _ []
        (λ fits. ground (arith, fits)) (λ _. room)

  suppress-le :
      (now : Time) (e : DiagnosticEvent) (table : Dict Time)
      → length table ≤ limits.max_entries
      → length (suppress limits now e table).1 ≤ limits.max_entries
  unfolding suppress
  suppress-le now e table h =
      let P = λ (s : Bool × Dict Time). length s.1 ≤ limits.max_entries in
      let pruned =
        if leb limits.max_entries (length table) then prune_throttle limits now table else table in
      let below : length pruned < limits.max_entries =
        if-case (λ d. length d < limits.max_entries) (leb limits.max_entries (length table))
          (prune_throttle limits now table) table (λ _. prune_throttle-lt now table)
          (λ q. ground (arith, q)) in
      if-case P (limits.window == 0 || is_critical_event e.event) _ _ (λ _. h)
        (λ _.
          if-case P (fresh_at limits now (lookup (throttle_key e) table)) _ _ (λ _. h)
            (λ _. omega (arith, below, length-insert-le (throttle_key e) now pruned)))

  module _ (tools : Tools) (batch : Batch) where
    record_sane-le :
        (now : Time) (e : DiagnosticEvent) (s : Bool × Dict Time) (t : Tally) (r : Recorder)
        → length s.1 ≤ limits.max_entries
        → length (record_sane tools limits now e s (t, r)).1.throttle ≤ limits.max_entries
    unfolding record_sane
    record_sane-le now e (true, table) t r h = h
    record_sane-le now e (false, table) t r h = h

    record_event-le :
        (now : Time) (input : EventInput) (o : Option Refusal) (t : Tally) (r : Recorder)
        → length r.throttle ≤ limits.max_entries
        → length (record_event tools limits batch now input o (t, r)).1.throttle
          ≤ limits.max_entries
    unfolding record_event
    record_event-le now input (some reason) t r h = h
    record_event-le now input none t r h =
        let e = event_of tools limits batch input now in
        record_sane-le now e (suppress limits now e r.throttle) t r (suppress-le now e r.throttle h)

    record_events-le :
        (now : Time) (live : ℕ) (is : List EventInput) (t : Tally) (r : Recorder)
        → length r.throttle ≤ limits.max_entries
        → length (record_events tools limits batch now live is (t, r)).1.throttle
          ≤ limits.max_entries
    unfolding record_events
    record_events-le now live [] t r h = h
    record_events-le now zero (i ∷ is) t r h = h
    record_events-le now (suc live) (i ∷ is) t r h =
        let (u, s) = record_event tools limits batch now i (refusal tools limits batch i) (t, r) in
        record_events-le now live is u s
          (record_event-le now i (refusal tools limits batch i) t r h)

    -- The throttle table never has more entries than its limit, which is positive.
    pub throttle-le :
        (now : Time) (live : ℕ) (r : Recorder)
        → length r.throttle ≤ limits.max_entries
        → length (record_batch tools limits now live batch r).1.throttle ≤ limits.max_entries
    unfolding record_batch
    throttle-le now live r h =
        if-case (λ (a : Result Tally × Recorder). length a.1.throttle ≤ limits.max_entries)
          (length batch.events == 0) _ _ (λ _. h)
          (λ _.
            record_events-le now live (take_events tools limits limits.max_events batch.events)
              (first_tally tools limits batch.events) r h)
