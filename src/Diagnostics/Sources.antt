-- ===== src/Diagnostics/Sources.antt =====
-- Which events share an entry of the throttle (internal/application/client_diagnostics.go).
use Prim.Native.String.append
use deciscope_api.Base.{
  String, Char, concat, ◌<◌, ◌≡◌, refl, sym, ap, ◌∙◌, Bool, true, false, not, ◌||◌, ◌&&◌, Option,
  Dict, lookup, lookup-insert, str_eq, eq_iff, if◌then◌else◌, leb, ◌==◌, length, arith, if-case,
  if-false, Bool-cases, inl, inr, join,
}
use deciscope_api.Base.Clock.{Time}
use deciscope_api.Diagnostics.Limits.{Limits}
use deciscope_api.Diagnostics.Names.{is_critical_event}
use deciscope_api.Diagnostics.Recorder.{
  DiagnosticEvent, throttle_key, fresh_at, prune_throttle, suppress,
}

-- The character that separates the parts of a key.
abbrev nul : Char
nul = "\0"

abbrev pub no_nul : String → Bool
no_nul String.[] = true
no_nul (String.◌∷◌ c s) = not (str_eq (String.◌∷◌ c String.[]) "\0") && no_nul s

not_nul : (c : Char) (s : String) → no_nul (String.◌∷◌ c s) ≡ true → nul ≡ c → ⊥
not_nul c s h e =
    let same : str_eq (String.◌∷◌ c String.[]) "\0" ≡ true =
      ap (λ d. str_eq (String.◌∷◌ d String.[]) "\0") (sym e) in
    ground (arith, h, same)

no_nul-rest : (c : Char) (s : String) → no_nul (String.◌∷◌ c s) ≡ true → no_nul s ≡ true
no_nul-rest c s h = ground (arith, h)

-- A text up to the first separator.
peel :
    (s t r q : String)
    → no_nul s ≡ true
    → no_nul t ≡ true
    → concat s (String.◌∷◌ nul r) ≡ concat t (String.◌∷◌ nul q)
    → (s ≡ t) × (r ≡ q)
peel String.[] String.[] r q h k e =
    let f : String.◌∷◌ nul r ≡ String.◌∷◌ nul q =
      sym (λ i. append.nil (String.◌∷◌ nul r) i) ∙ e ∙ (λ i. append.nil (String.◌∷◌ nul q) i) in
    (refl, cc)
peel String.[] (String.◌∷◌ d t) r q h k e =
    let f : String.◌∷◌ nul r ≡ String.◌∷◌ d (concat t (String.◌∷◌ nul q)) =
      sym (λ i. append.nil (String.◌∷◌ nul r) i)
      ∙ e
      ∙ (λ i. append.cons d t (String.◌∷◌ nul q) i) in
    absurd (not_nul d t k cc)
peel (String.◌∷◌ c s) String.[] r q h k e =
    let f : String.◌∷◌ nul q ≡ String.◌∷◌ c (concat s (String.◌∷◌ nul r)) =
      sym (λ i. append.nil (String.◌∷◌ nul q) i)
      ∙ sym e
      ∙ (λ i. append.cons c s (String.◌∷◌ nul r) i) in
    absurd (not_nul c s h cc)
peel (String.◌∷◌ c s) (String.◌∷◌ d t) r q h k e =
    let f : String.◌∷◌ c (concat s (String.◌∷◌ nul r))
        ≡ String.◌∷◌ d (concat t (String.◌∷◌ nul q)) =
      sym (λ i. append.cons c s (String.◌∷◌ nul r) i)
      ∙ e
      ∙ (λ i. append.cons d t (String.◌∷◌ nul q) i) in
    let g : concat s (String.◌∷◌ nul r) ≡ concat t (String.◌∷◌ nul q) = cc in
    let a : c ≡ d = cc in
    let w = peel s t r q (no_nul-rest c s h) (no_nul-rest d t k) g in
    ((λ i. String.◌∷◌ (a i) (w.0 i)), w.1)

separator : (r : String) → concat "\0" r ≡ String.◌∷◌ nul r
separator r = (λ i. append.cons nul String.[] r i) ∙ ap (String.◌∷◌ nul) (λ i. append.nil r i)

-- The first part of a joined key.
peel-join :
    (s t : String) (r q : String)
    → no_nul s ≡ true
    → no_nul t ≡ true
    → concat s (concat "\0" r) ≡ concat t (concat "\0" q)
    → (s ≡ t) × (r ≡ q)
peel-join s t r q h k e =
    peel s t r q h k (ap (concat s) (sym (separator r)) ∙ e ∙ ap (concat t) (separator q))

-- The parts of a key that come from the browser's tab have no separator in them.
abbrev pub is_clean : DiagnosticEvent → Bool
is_clean e = no_nul e.session_id && no_nul e.tab_id && no_nul e.event && no_nul e.route

abbrev pub IsSameSource : DiagnosticEvent → DiagnosticEvent → Type 0
IsSameSource e f =
    (e.session_id ≡ f.session_id)
    × (e.tab_id ≡ f.tab_id)
    × (e.event ≡ f.event)
    × (e.route ≡ f.route)

throttle_key-IsSameSource :
    (e f : DiagnosticEvent)
    → is_clean e ≡ true
    → is_clean f ≡ true
    → throttle_key e ≡ throttle_key f
    → IsSameSource e f
unfolding throttle_key join
throttle_key-IsSameSource e f h k q =
    let a = peel-join e.session_id f.session_id _ _ (ground (arith, h)) (ground (arith, k)) q in
    let b = peel-join e.tab_id f.tab_id _ _ (ground (arith, h)) (ground (arith, k)) a.1 in
    let c = peel-join e.event f.event _ _ (ground (arith, h)) (ground (arith, k)) b.1 in
    let d = peel-join e.route f.route _ _ (ground (arith, h)) (ground (arith, k)) c.1 in
    (a.0, b.0, c.0, d.0)

-- The answer for an event, from the entry of its key.
suppress-answer :
    (limits : Limits) (now : Time) (f : DiagnosticEvent) (t : Dict Time)
    → (suppress limits now f t).0 ≡ (
        not (limits.window == 0 || is_critical_event f.event)
        && fresh_at limits now (lookup (throttle_key f) t))
unfolding suppress
suppress-answer limits now f t =
    let own = lookup (throttle_key f) t in
    let P = λ (s : Bool × Dict Time).
      s.0 ≡ (not (limits.window == 0 || is_critical_event f.event) && fresh_at limits now own) in
    if-case P (limits.window == 0 || is_critical_event f.event) _ _ (λ q. ground (arith, q))
      (λ q.
        if-case P (fresh_at limits now own) _ _ (λ r. ground (arith, q, r))
          (λ r. ground (arith, q, r)))

-- A call for another key, on a table below its limit.
suppress-others :
    (limits : Limits) (now : Time) (e : DiagnosticEvent) (key : String) (table : Dict Time)
    → length table < limits.max_entries
    → str_eq (throttle_key e) key ≡ false
    → lookup key (suppress limits now e table).1 ≡ lookup key table
unfolding suppress
suppress-others limits now e key table room q =
    let P = λ (s : Bool × Dict Time). lookup key s.1 ≡ lookup key table in
    let pruned =
      if leb limits.max_entries (length table) then prune_throttle limits now table else table in
    let same : pruned ≡ table =
      if-false (leb limits.max_entries (length table)) (prune_throttle limits now table) table
        (ground (arith, room)) in
    if-case P (limits.window == 0 || is_critical_event e.event) _ _ (λ _. refl)
      (λ _.
        if-case P (fresh_at limits now (lookup (throttle_key e) table)) _ _ (λ _. refl)
          (λ _.
            lookup-insert (throttle_key e) key now pruned
            ∙ if-false _ _ _ q
            ∙ ap (lookup key) same))

-- Where an event `f` would be let through, and is suppressed after a call for an event `e` that found
-- the table below its limit, the two events have the session, the tab, the name and the route in
-- common, if none of these has a zero character in it.
pub suppress-sources :
    (limits : Limits) (first now : Time) (e f : DiagnosticEvent) (table : Dict Time)
    → is_clean e ≡ true
    → is_clean f ≡ true
    → length table < limits.max_entries
    → (suppress limits now f table).0 ≡ false
    → (suppress limits now f (suppress limits first e table).1).0 ≡ true
    → IsSameSource e f
suppress-sources limits first now e f table h k room before_e after_e =
    elim (Bool-cases (str_eq (throttle_key e) (throttle_key f))) [
      | inl q ↦ throttle_key-IsSameSource e f h k ((eq_iff (throttle_key e) (throttle_key f)).0 q)
      | inr q ↦
          let same = suppress-others limits first e (throttle_key f) table room q in
          let a = suppress-answer limits now f table in
          let b = suppress-answer limits now f (suppress limits first e table).1 in
          let test = λ (o : Option Time).
            not (limits.window == 0 || is_critical_event f.event) && fresh_at limits now o in
          absurd (let r = sym after_e ∙ b ∙ ap test same ∙ sym a ∙ before_e in cc)
    ]
