-- ===== src/Events/Synced.antt =====
-- A client before and after its catch-up, and how an event and a round of its loop change it
-- (internal/adapter/realtime/handler.go, client.go; internal/application/service.go).
use deciscope_api.Base.{
  ℕ, ◌+◌, ◌≤◌, ◌≡◌, refl, sym, ap, ◌∙◌, subst, max, true, false, ◌⊎◌, inl, inr, List, [], ◌∷◌, ◌++◌,
  ltb, ℤ, pos_part, length, length-append, arith, if-case, if-true, All, Bool-cases,
}
use mathlib.Core.List.{append-nil, append_assoc}
use deciscope_api.Events.Data.{Event}
use deciscope_api.Events.Store.{later_events}
use deciscope_api.Events.Numbering.{Counts}
use deciscope_api.Events.Logs.{Logged}
use deciscope_api.Events.Client.{
  Client, capacity, is_old, enqueue, write_event, write_all, catch_up, send_first,
}
use deciscope_api.Events.Written.{
  above, above-append, above-All, above-Rises, Rises-le, later_events-above, write_event-above,
  write_event-last, write_event-send, write_all-send, write_all-above,
}
use deciscope_api.Events.Order.{Rises, Rises-append, All-le, All-snoc}

-- Before the catch-up: nothing is written, and the channel has events of the log only.
pub record IsWaiting (first : ℕ) (events : List Event) (c : Client) : Type 0 where
  pub unwritten : c.written ≡ []
  pub unmoved : pos_part c.last_seq ≡ first
  pub held : All (λ f. f.seq ≤ length events) c.send
  pub rises : Rises 0 c.send

-- After it: what is written and what waits in the channel are the events that the client asked for.
pub record IsSynced (first : ℕ) (events : List Event) (c : Client) : Type 0 where
  pub complete : above 0 c.written ++ above (pos_part c.last_seq) c.send ≡ above first events
  pub reached : (first ≤ pos_part c.last_seq) × (pos_part c.last_seq ≤ max first (length events))
  pub held : All (λ f. f.seq ≤ length events) c.send
  pub rises : Rises 0 c.send

module _ (first : ℕ) (old new : List Event) (e : Event) (c : Client) where
  Logged-length : Logged old new e → length old ≤ length new
  Logged-length (inl (z, same)) = omega (arith, ap length same)
  Logged-length (inr (n, grown)) = omega (arith, ap length grown, length-append old (e ∷ []))

  send-grows :
      Logged old new e
      → All (λ f. f.seq ≤ length old) c.send
      → Rises 0 c.send
      → All (λ f. f.seq ≤ length new) (c.send ++ e ∷ []) × Rises 0 (c.send ++ e ∷ [])
  send-grows (inl (z, same)) a r =
      let m : length old ≤ length new = omega (arith, ap length same) in
      (
        All-snoc (length new) c.send e (omega arith) (All-le (length old) (length new) c.send m a),
        Rises-append 0 (length old) c.send e (omega arith) a (inl z) r,
      )
  send-grows (inr (n, grown)) a r =
      let l : length new ≡ length old + 1 = ap length grown ∙ length-append old (e ∷ []) in
      (
        All-snoc (length new) c.send e (omega arith)
            (All-le (length old) (length new) c.send (omega arith) a),
        Rises-append 0 (length old) c.send e (omega arith) a (inr (omega arith)) r,
      )

  -- The new event is asked for exactly if it is above the last number.
  new-above :
      (b : ℕ)
      → Logged old new e
      → first ≤ b
      → b ≤ max first (length old)
      → above first old ++ above b (e ∷ []) ≡ above first new
  new-above b (inl (z, same)) h k =
      let unstored : above b (e ∷ []) ≡ [] = ground (arith, z) in
      ap (λ fs. above first old ++ fs) unstored ∙ append-nil _ ∙ ap (above first) (sym same)
  new-above b (inr (n, grown)) h k =
      let both : above b (e ∷ []) ≡ above first (e ∷ []) = ground (arith, n) in
      ap (λ fs. above first old ++ fs) both
      ∙ sym (above-append first old (e ∷ []))
      ∙ ap (above first) (sym grown)

  grows-IsSynced :
      Logged old new e
      → IsSynced first old c
      → IsSynced first new (record c { send = c.send ++ e ∷ [] })
  grows-IsSynced logged h =
      let b = pos_part c.last_seq in
      let (held, rises) = send-grows logged h.held h.rises in
      record {
        complete =
            ap (λ fs. above 0 c.written ++ fs) (above-append b c.send (e ∷ []))
            ∙ sym (append_assoc (above 0 c.written) (above b c.send) (above b (e ∷ [])))
            ∙ ap (λ fs. fs ++ above b (e ∷ [])) h.complete
            ∙ new-above b logged h.reached.0 h.reached.1;
        reached = (h.reached.0, omega (arith, h.reached.1, Logged-length logged));
        held = held;
        rises = rises;
      }

  grows-IsWaiting :
      Logged old new e
      → IsWaiting first old c
      → IsWaiting first new (record c { send = c.send ++ e ∷ [] })
  grows-IsWaiting logged h =
      let (held, rises) = send-grows logged h.held h.rises in
      record { unwritten = h.unwritten; unmoved = h.unmoved; held = held; rises = rises }

pub catch_up-IsSynced :
    (l : ℤ) (first : ℕ) (events : List Event) (c : Client)
    → Counts 1 events
    → pos_part l ≡ first
    → IsWaiting first events c
    → IsSynced first events (catch_up (later_events l events) c)
unfolding catch_up
catch_up-IsSynced l first events c k q h =
    let listed : later_events l events ≡ above first events =
      later_events-above l 0 events k ∙ ap (λ b. above b events) q in
    let start : pos_part c.last_seq ≡ max first 0 = omega (arith, h.unmoved) in
    let (written, last) = write_all-above first 0 events c k start in
    let d = write_all (above first events) c in
    let sent : d.send ≡ c.send = write_all-send (above first events) c in
    let drained : above (pos_part d.last_seq) d.send ≡ [] =
      ap (above (pos_part d.last_seq)) sent
      ∙ above-All (pos_part d.last_seq) (length events) c.send (omega (arith, last)) h.held in
    subst (λ ls. IsSynced first events (record (write_all ls c) { caught_up = true })) (sym listed)
      (record {
        complete =
            ap (λ fs. above 0 d.written ++ fs) drained
            ∙ append-nil _
            ∙ written
            ∙ ap (λ ws. above 0 ws ++ above first events) h.unwritten;
        reached = (omega (arith, last), omega (arith, last));
        held = subst (All (λ f. f.seq ≤ length events)) (sym sent) h.held;
        rises = subst (Rises 0) (sym sent) h.rises;
      })

-- The rest of the channel, after its first event.
above-rest :
    (b : ℕ) (e : Event) (es : List Event) → Rises 0 (e ∷ es) → above (max b e.seq) es ≡ above b es
above-rest b e es (inl (z, r)) = ap (λ n. above n es) (omega arith)
above-rest b e es (inr (l, r)) = elim (Bool-cases (ltb b e.seq)) [
  | inl new ↦
      ap (λ n. above n es) (ground (arith, new))
      ∙ sym (above-Rises b e.seq es (ground (arith, new)) r)
  | inr old ↦ ap (λ n. above n es) (ground (arith, old))
]

Rises-rest : (e : Event) (es : List Event) → Rises 0 (e ∷ es) → Rises 0 es
Rises-rest e es (inl (z, r)) = r
Rises-rest e es (inr (l, r)) = Rises-le 0 e.seq es (omega arith) r

pub send_first-IsSynced :
    (first : ℕ) (events es : List Event) (c : Client)
    → c.send ≡ es
    → IsSynced first events c
    → IsSynced first events (send_first es c)
unfolding send_first
send_first-IsSynced first events [] c q h = h
send_first-IsSynced first events (e ∷ es) c q h =
    let a = record c { send = es } in
    let d = write_event e a in
    let b = pos_part c.last_seq in
    let held = subst (All (λ (f : Event). f.seq ≤ length events)) q h.held in
    let rises = subst (Rises 0) q h.rises in
    let last : pos_part d.last_seq ≡ max b e.seq = write_event-last e a in
    let sent : d.send ≡ es = write_event-send e a in
    record {
      complete =
          ap (λ fs. fs ++ above (pos_part d.last_seq) d.send) (write_event-above e a)
          ∙ ap (λ fs. (above 0 c.written ++ above b (e ∷ [])) ++ fs)
              (ap (above (pos_part d.last_seq)) sent
                ∙ ap (λ n. above n es) last
                ∙ above-rest b e es rises)
          ∙ append_assoc (above 0 c.written) (above b (e ∷ [])) (above b es)
          ∙ ap (λ fs. above 0 c.written ++ fs) (sym (above-append b (e ∷ []) es))
          ∙ ap (λ fs. above 0 c.written ++ above b fs) (sym q)
          ∙ h.complete;
      reached = (omega (arith, last, h.reached.0), omega (arith, last, h.reached.1, held.0));
      held = subst (All (λ f. f.seq ≤ length events)) (sym sent) held.1;
      rises = subst (Rises 0) (sym sent) (Rises-rest e es rises);
    }

abbrev pub Progress : ℕ → List Event → Client → Type 0
Progress first events c =
    ((c.caught_up ≡ false) × IsWaiting first events c)
    ⊎ ((c.caught_up ≡ true) × IsSynced first events c)

write_event-caught_up : (e : Event) (c : Client) → (write_event e c).caught_up ≡ c.caught_up
unfolding write_event
write_event-caught_up e c =
    if-case (λ (d : Client). d.caught_up ≡ c.caught_up) (is_old c.last_seq e.seq) _ _ (λ _. refl)
      (λ _. refl)

pub send_first-caught_up :
    (es : List Event) (c : Client) → (send_first es c).caught_up ≡ c.caught_up
unfolding send_first
send_first-caught_up [] c = refl
send_first-caught_up (e ∷ es) c = write_event-caught_up e (record c { send = es })

pub enqueue-Progress :
    (n : ℕ) (old new : List Event) (e : Event) (c : Client)
    → Logged old new e
    → ltb (length c.send) capacity ≡ true
    → Progress n old c
    → Progress n new (enqueue e c)
unfolding enqueue
enqueue-Progress n old new e c logged room progress =
    subst (Progress n new) (sym (if-true _ _ _ room)) (elim progress [
      | inl (u, h) ↦ inl (u, grows-IsWaiting n old new e c logged h)
      | inr (u, h) ↦ inr (u, grows-IsSynced n old new e c logged h)
    ])
