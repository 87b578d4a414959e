-- ===== src/Diagnostics/Tallies.antt =====
-- What a batch adds up to (internal/application/client_diagnostics.go).
use deciscope_api.Base.{
  ℕ, zero, suc, ◌+◌, ◌-◌, ◌≡◌, refl, sym, ap, ◌∙◌, subst, Bool, true, false, not, Option, none,
  some, List, [], ◌∷◌, ◌++◌, Result, ok, err, Dict, str_eq, eq_iff, is_blank, trim, ◌==◌, length,
  length-append, All, All-append, arith, if-case, ok-injective,
}
use mathlib.Core.List.{append-nil, append_assoc}
use deciscope_api.Base.Clock.{Time}
use deciscope_api.Diagnostics.Limits.{Limits}
use deciscope_api.Diagnostics.Names.{is_known_event}
use deciscope_api.Diagnostics.Recorder.{
  EventInput, Batch, DiagnosticEvent, Refusal, Tally, Recorder, Tools, first_nonempty, suppress,
  event_of, refusal, record_sane, record_event, record_events, take_events, first_tally, refusals,
  record_batch, throttled_duplicate,
}

module _ (tools : Tools) (limits : Limits) (batch : Batch) where
  -- The event is of the batch's session and workspace, and its name is known.
  abbrev pub IsOwn : DiagnosticEvent → Type 0
  IsOwn e =
      (e.session_id ≡ batch.session_id)
      × (e.workspace_id ≡ batch.workspace_id)
      × (is_known_event e.event ≡ true)

  -- After `n` events: each is counted once, each that is not accepted has a reason, and those that are
  -- accepted are written after what was there.
  pub record Counted (old : List DiagnosticEvent) (n : ℕ) (t : Tally) (r : Recorder) : Type 0 where
    pub total : t.accepted + t.rejected + t.suppressed ≡ n
    pub reasoned : length t.reasons ≡ t.rejected + t.suppressed
    pub added : List DiagnosticEvent
    pub written : r.written ≡ old ++ added
    pub accepted : length added ≡ t.accepted
    pub own : All IsOwn added

  event_of-IsOwn :
      (input : EventInput) (now : Time)
      → refusal tools limits batch input ≡ none
      → IsOwn (event_of tools limits batch input now)
  unfolding refusal event_of
  event_of-IsOwn input now =
      let P = λ (o : Option Refusal). o ≡ none → IsOwn (event_of tools limits batch input now) in
      let session = first_nonempty input.session_id batch.session_id in
      let workspace = first_nonempty input.workspace_id batch.workspace_id in
      if-case P (is_blank (trim input.event)) _ _ (λ _ q. cc)
        (λ _.
          if-case P (not (is_known_event (trim input.event))) _ _ (λ _ q. cc)
            (λ known.
              if-case P (not (str_eq session batch.session_id)) _ _ (λ _ q. cc)
                (λ s.
                  if-case P (not (str_eq workspace batch.workspace_id)) _ _ (λ _ q. cc)
                    (λ w q. (
                      (eq_iff session batch.session_id).0 (ground (arith, s)),
                      (eq_iff workspace batch.workspace_id).0 (ground (arith, w)),
                      ground (arith, known),
                    )))))

  record_sane-Counted :
      (old : List DiagnosticEvent) (n : ℕ) (now : Time) (e : DiagnosticEvent) (s : Bool × Dict Time)
      (t : Tally) (r : Recorder)
      → IsOwn e
      → Counted old n t r
      → Counted old
          (suc n)
          (record_sane tools limits now e s (t, r)).0
          (record_sane tools limits now e s (t, r)).1
  unfolding record_sane
  record_sane-Counted old n now e (true, table) t r own h = record {
    total = omega (arith, h.total);
    reasoned = omega (arith, h.reasoned, length-append t.reasons (throttled_duplicate ∷ []));
    added = h.added;
    written = h.written;
    accepted = h.accepted;
    own = h.own;
  }
  record_sane-Counted old n now e (false, table) t r own h = record {
    total = omega (arith, h.total);
    reasoned = h.reasoned;
    added = h.added ++ e ∷ [];
    written = ap (λ es. es ++ e ∷ []) h.written ∙ append_assoc old h.added (e ∷ []);
    accepted = omega (arith, h.accepted, length-append h.added (e ∷ []));
    own = All-append IsOwn h.added (e ∷ []) (own, tt) h.own;
  }

  record_event-Counted :
      (old : List DiagnosticEvent) (n : ℕ) (now : Time) (input : EventInput) (o : Option Refusal)
      (t : Tally) (r : Recorder)
      → refusal tools limits batch input ≡ o
      → Counted old n t r
      → Counted old
          (suc n)
          (record_event tools limits batch now input o (t, r)).0
          (record_event tools limits batch now input o (t, r)).1
  unfolding record_event
  record_event-Counted old n now input (some reason) t r q h = record {
    total = omega (arith, h.total);
    reasoned = omega (arith, h.reasoned, length-append t.reasons (reason ∷ []));
    added = h.added;
    written = h.written;
    accepted = h.accepted;
    own = h.own;
  }
  record_event-Counted old n now input none t r q h =
      let e = event_of tools limits batch input now in
      record_sane-Counted old n now e (suppress limits now e r.throttle) t r
        (event_of-IsOwn input now q) h

  abbrev Tallied : List DiagnosticEvent → ℕ → Result Tally × Recorder → Type 0
  Tallied old n (ok t, r) = Counted old n t r
  Tallied old n (err e, r) = Unit

  record_events-Tallied :
      (old : List DiagnosticEvent) (n : ℕ) (now : Time) (live : ℕ) (is : List EventInput)
      (t : Tally) (r : Recorder)
      → Counted old n t r
      → Tallied old (n + length is) (record_events tools limits batch now live is (t, r))
  unfolding record_events
  record_events-Tallied old n now live [] t r h =
      let same : n ≡ n + 0 = omega arith in subst (λ k. Counted old k t r) same h
  record_events-Tallied old n now zero (i ∷ is) t r h = tt
  record_events-Tallied old n now (suc live) (i ∷ is) t r h =
      let (u, s) = record_event tools limits batch now i (refusal tools limits batch i) (t, r) in
      let same : suc n + length is ≡ n + suc (length is) = omega arith in
      subst (λ k. Tallied old k (record_events tools limits batch now live is (u, s))) same
        (record_events-Tallied old (suc n) now live is u s
          (record_event-Counted old n now i (refusal tools limits batch i) t r refl h))

  length-take_events :
      (n : ℕ) (is : List EventInput)
      → length (take_events tools limits n is) + (length is - n) ≡ length is
  unfolding take_events
  length-take_events zero is = omega arith
  length-take_events (suc n) [] = omega arith
  length-take_events (suc n) (i ∷ is) = omega (arith, length-take_events n is)

  length-refusals : (n : ℕ) → length (refusals tools limits n) ≡ n
  unfolding refusals
  length-refusals zero = refl
  length-refusals (suc n) = omega (arith, length-refusals n)

  record_batch-Tallied :
      (now : Time) (live : ℕ) (r : Recorder)
      → Tallied r.written (length batch.events) (record_batch tools limits now live batch r)
  unfolding record_batch first_tally
  record_batch-Tallied now live r =
      let is = batch.events in
      let over = length is - limits.max_events in
      if-case (Tallied r.written (length is)) (length is == 0) _ _ (λ _. tt)
        (λ _.
          let first : Counted r.written over (first_tally tools limits is) r = record {
            total = omega arith;
            reasoned = omega (arith, length-refusals over);
            added = [];
            written = sym (append-nil r.written);
            accepted = refl;
            own = tt;
          } in
          let same : over + length (take_events tools limits limits.max_events is) ≡ length is =
            omega (arith, length-take_events limits.max_events is) in
          subst
            (λ k. Tallied r.written k (
              record_events tools limits batch now live
                (take_events tools limits limits.max_events is) (first_tally tools limits is, r)))
            same
            (record_events-Tallied r.written over now live
              (take_events tools limits limits.max_events is) (first_tally tools limits is) r
              first))

  Tallied-ok :
      (old : List DiagnosticEvent) (n : ℕ) (a : Result Tally × Recorder) (t : Tally)
      → a.0 ≡ ok t
      → Tallied old n a
      → Counted old n t a.1
  Tallied-ok old n (ok u, r) t e h = subst (λ v. Counted old n v r) (ok-injective u t e) h
  Tallied-ok old n (err f, r) t e h = cc

  -- A batch that is answered counts each of its events once, as accepted, rejected or suppressed, and
  -- gives a reason for each that is not accepted. What is written is what was there and then the
  -- accepted events, all of the batch's own session and workspace and of known names.
  pub record_batch-Counted :
      (now : Time) (live : ℕ) (r : Recorder) (t : Tally)
      → (record_batch tools limits now live batch r).0 ≡ ok t
      → Counted r.written (length batch.events) t (record_batch tools limits now live batch r).1
  record_batch-Counted now live r t e =
      Tallied-ok r.written (length batch.events) (record_batch tools limits now live batch r) t e
        (record_batch-Tallied now live r)
