-- ===== src/Diagnostics/Repeats.antt =====
-- Which events the throttle suppresses (internal/application/client_diagnostics.go).
use deciscope_api.Base.{
  String, ◌+◌, ◌≤◌, ◌<◌, ◌≡◌, refl, sym, ap, ◌∙◌, Bool, true, false, ◌||◌, some, [], ◌∷◌, Dict,
  lookup, lookup-insert, str_eq, str_eq_self, eq_iff, if◌then◌else◌, leb, ◌==◌, length, arith,
  if-case, if-true, if-false, Bool-cases, inl, inr, join,
}
use deciscope_api.Base.Clock.{Time}
use deciscope_api.Diagnostics.Limits.{Limits}
use deciscope_api.Diagnostics.Names.{is_critical_event}
use deciscope_api.Diagnostics.Recorder.{
  DiagnosticEvent, optional_text, throttle_key, is_fresh, fresh_at, prune_throttle, suppress,
}
use deciscope_api.Diagnostics.Sources.{IsSameSource}

module _ (limits : Limits) (now : Time) (e : DiagnosticEvent) (table : Dict Time)
    (opened : limits.window == 0 ≡ false) (common : is_critical_event e.event ≡ false) where
  exempt : limits.window == 0 || is_critical_event e.event ≡ false
  exempt = ground (arith, opened, common)

  suppress-insert :
      (suppress limits now e table).0 ≡ false
      → lookup (throttle_key e) (suppress limits now e table).1 ≡ some now
  unfolding suppress
  suppress-insert =
      let key = throttle_key e in
      let P = λ (s : Bool × Dict Time). s.0 ≡ false → lookup key s.1 ≡ some now in
      let pruned =
        if leb limits.max_entries (length table) then prune_throttle limits now table else table in
      if-case P (limits.window == 0 || is_critical_event e.event) _ _
        (λ q _. absurd (ground (arith, q, exempt)))
        (λ _.
          if-case P (fresh_at limits now (lookup key table)) _ _ (λ _ q. cc)
            (λ _ _. lookup-insert key key now pruned ∙ if-true _ _ _ (str_eq_self key)))

  suppress-fresh :
      (seen : Time)
      → lookup (throttle_key e) table ≡ some seen
      → is_fresh limits now seen ≡ true
      → (suppress limits now e table).0 ≡ true
  unfolding suppress
  suppress-fresh seen found fresh =
      let P = λ (s : Bool × Dict Time). s.0 ≡ true in
      if-case P (limits.window == 0 || is_critical_event e.event) _ _
        (λ q. absurd (ground (arith, q, exempt)))
        (λ _.
          if-case P (fresh_at limits now (lookup (throttle_key e) table)) _ _ (λ _. refl)
            (λ stale. absurd (let q = ap (fresh_at limits now) found ∙ fresh in cc)))

-- The second event repeats the first one.
abbrev pub IsRepeat : DiagnosticEvent → DiagnosticEvent → Type 0
IsRepeat e f =
    IsSameSource e f
    × (e.session_status ≡ f.session_status)
    × (e.snapshot_source ≡ f.snapshot_source)
    × (e.root_node_id ≡ f.root_node_id)
    × (e.tree_version ≡ f.tree_version)
    × (e.analysis_version ≡ f.analysis_version)
    × (e.node_count ≡ f.node_count)

IsRepeat-throttle_key : (e f : DiagnosticEvent) → IsRepeat e f → throttle_key e ≡ throttle_key f
unfolding throttle_key
IsRepeat-throttle_key e f h = λ i. join "\0" (
    h.0.0 i
    ∷ h.0.1 i
    ∷ h.0.2 i
    ∷ h.0.3 i
    ∷ h.1 i
    ∷ h.2 i
    ∷ h.3 i
    ∷ optional_text (h.4 i)
    ∷ optional_text (h.5 i)
    ∷ optional_text (h.6 i)
    ∷ [])

module _ (limits : Limits) (first : Time) where
  fresh-within :
      (now : Time) → first ≤ now → now < first + limits.window → is_fresh limits now first ≡ true
  unfolding is_fresh
  fresh-within now l h = ground (arith, l, h)

  -- The tables that calls in the window leave, where the table stays below its limit.
  pub data Calls : Dict Time → Dict Time → Type 0 where
    no_call : (t : Dict Time) → Calls t t
    then_call :
        (now : Time) (g : DiagnosticEvent) {t u : Dict Time}
        → Calls t u
        → length u < limits.max_entries
        → first ≤ now
        → now < first + limits.window
        → Calls t (suppress limits now g u).1

  suppress-keeps :
      (key : String) (now : Time) (g : DiagnosticEvent) (u : Dict Time)
      → length u < limits.max_entries
      → is_fresh limits now first ≡ true
      → lookup key u ≡ some first
      → lookup key (suppress limits now g u).1 ≡ some first
  unfolding suppress
  suppress-keeps key now g u room fresh found =
      let P = λ (s : Bool × Dict Time). lookup key s.1 ≡ some first in
      let own = throttle_key g in
      let pruned = if leb limits.max_entries (length u) then prune_throttle limits now u else u in
      let same : pruned ≡ u =
        if-false (leb limits.max_entries (length u)) (prune_throttle limits now u) u
          (ground (arith, room)) in
      if-case P (limits.window == 0 || is_critical_event g.event) _ _ (λ _. found)
        (λ _.
          if-case P (fresh_at limits now (lookup own u)) _ _ (λ _. found)
            (λ aged. elim (Bool-cases (str_eq own key)) [
              | inl q ↦
                  let here = ap (λ k. lookup k u) ((eq_iff own key).0 q) ∙ found in
                  absurd (let r = ap (fresh_at limits now) here ∙ fresh in ground (arith, r, aged))
              | inr q ↦
                  lookup-insert own key now pruned ∙ if-false _ _ _ q ∙ ap (lookup key) same ∙ found
            ]))

  Calls-keep :
      (key : String) {t u : Dict Time}
      → Calls t u
      → lookup key t ≡ some first
      → lookup key u ≡ some first
  Calls-keep key (no_call t) found = found
  Calls-keep key (then_call now g {t} {u} calls room l h) found =
      suppress-keeps key now g u room (fresh-within now l h) (Calls-keep key calls found)

-- Where an event of a common name is let through at the instant `first`, a repetition of it less than
-- the window after is suppressed, whatever calls come between, as long as they are in the window and
-- find the table below its limit: a table that is full may be cleared.
pub suppress-repeats :
    (limits : Limits) (first now : Time) (e f : DiagnosticEvent) (table later : Dict Time)
    → (suppress limits first e table).0 ≡ false
    → limits.window == 0 ≡ false
    → is_critical_event e.event ≡ false
    → IsRepeat e f
    → Calls limits first (suppress limits first e table).1 later
    → first ≤ now
    → now < first + limits.window
    → (suppress limits now f later).0 ≡ true
suppress-repeats limits first now e f table later q w c r calls l h =
    let found =
      Calls-keep limits first (throttle_key e) calls (suppress-insert limits first e table w c q) in
    suppress-fresh limits now f later w (ap is_critical_event (sym r.0.2) ∙ c) first
      (ap (λ key. lookup key later) (sym (IsRepeat-throttle_key e f r)) ∙ found)
      (fresh-within limits first now l h)
