-- ===== src/Events/Written.antt =====
-- The stored events that a client writes, above a number (internal/adapter/realtime/client.go).
use deciscope_api.Base.{
  ℕ, suc, ◌+◌, ◌≤◌, ◌≡◌, refl, sym, ap, ◌∙◌, max, true, false, inl, inr, List, [], ◌∷◌, ◌++◌,
  if◌then◌else◌, ltb, ℤ, pos, negsuc, pos_part, length, arith, if-case, All,
}
use mathlib.Core.List.{append-nil, append_assoc}
use deciscope_api.Events.Data.{Event}
use deciscope_api.Events.Store.{later_events}
use deciscope_api.Events.Numbering.{Counts}
use deciscope_api.Events.Client.{Client, is_old, write_event, write_all}
use deciscope_api.Events.Order.{Rises, advance-max, is_old_iff, new_number}

-- The stored events with a number above `b`.
abbrev pub above : ℕ → List Event → List Event
above b [] = []
above b (e ∷ es) = let others = above b es in if ltb b e.seq then e ∷ others else others

pub above-append : (b : ℕ) (es fs : List Event) → above b (es ++ fs) ≡ above b es ++ above b fs
above-append b [] fs = refl
above-append b (e ∷ es) fs = ground (arith, above-append b es fs)

pub above-All : (b n : ℕ) (es : List Event) → n ≤ b → All (λ f. f.seq ≤ n) es → above b es ≡ []
above-All b n [] h a = refl
above-All b n (e ∷ es) h a = ground (arith, above-All b n es h a.1)

-- A list that rises above `c` has nothing between `b` and `c`.
pub above-Rises : (b c : ℕ) (es : List Event) → b ≤ c → Rises c es → above b es ≡ above c es
above-Rises b c [] h r = refl
above-Rises b c (e ∷ es) h (inl (z, r)) = ground (arith, above-Rises b c es h r)
above-Rises b c (e ∷ es) h (inr (l, r)) =
    ground (arith, above-Rises b e.seq es (omega arith) r, above-Rises c e.seq es (omega arith) r)

pub Rises-le : (b c : ℕ) (es : List Event) → b ≤ c → Rises c es → Rises b es
Rises-le b c [] h r = tt
Rises-le b c (e ∷ es) h (inl (z, r)) = inl (z, Rises-le b c es h r)
Rises-le b c (e ∷ es) h (inr (l, r)) = inr (omega arith, r)

pub later_events-above :
    (l : ℤ) (n : ℕ) (es : List Event)
    → Counts (suc n) es
    → later_events l es ≡ above (pos_part l) es
later_events-above l n [] c = refl
later_events-above (pos m) n (e ∷ es) c = ground (arith, later_events-above (pos m) (suc n) es c.1)
later_events-above (negsuc m) n (e ∷ es) c =
    ground (arith, later_events-above (negsuc m) (suc n) es c.1, c.0)

above-written :
    (e : Event) (l : ℤ) (es : List Event)
    → is_old l e.seq ≡ false
    → above 0 (es ++ e ∷ []) ≡ above 0 es ++ above (pos_part l) (e ∷ [])
above-written e l es q =
    let b = pos_part l in
    above-append 0 es (e ∷ [])
    ∙ ap (λ fs. above 0 es ++ fs)
        (elim (new_number l e.seq q) [ inl z ↦ ground arith | inr h ↦ ground arith ])

above-old : (e : Event) (l : ℤ) → is_old l e.seq ≡ true → above (pos_part l) (e ∷ []) ≡ []
above-old e l q = ground (arith, is_old_iff l e.seq, q)

-- What `write_event` does to the stored events that are written.
pub write_event-above :
    (e : Event) (c : Client)
    → above 0 (write_event e c).written ≡ above 0 c.written ++ above (pos_part c.last_seq) (e ∷ [])
unfolding write_event
write_event-above e c =
    if-case
      (λ (d : Client).
        above 0 d.written ≡ above 0 c.written ++ above (pos_part c.last_seq) (e ∷ []))
      (is_old c.last_seq e.seq) _ _
      (λ old. sym (
        ap (λ fs. above 0 c.written ++ fs) (above-old e c.last_seq old)
        ∙ append-nil (above 0 c.written)))
      (λ new. above-written e c.last_seq c.written new)

pub write_event-last :
    (e : Event) (c : Client) → pos_part (write_event e c).last_seq ≡ max (pos_part c.last_seq) e.seq
unfolding write_event
write_event-last e c =
    if-case (λ (d : Client). pos_part d.last_seq ≡ max (pos_part c.last_seq) e.seq)
      (is_old c.last_seq e.seq) _ _ (λ old. ground (arith, is_old_iff c.last_seq e.seq, old))
      (λ new. advance-max c.last_seq e.seq)

pub write_event-send : (e : Event) (c : Client) → (write_event e c).send ≡ c.send
unfolding write_event
write_event-send e c =
    if-case (λ (d : Client). d.send ≡ c.send) (is_old c.last_seq e.seq) _ _ (λ _. refl) (λ _. refl)

pub write_all-send : (es : List Event) (c : Client) → (write_all es c).send ≡ c.send
unfolding write_all
write_all-send [] c = refl
write_all-send (e ∷ es) c = write_all-send es (write_event e c) ∙ write_event-send e c

-- The catch-up of a client whose last number is `first` or the number before those of `es`.
pub write_all-above :
    (first n : ℕ) (es : List Event) (c : Client)
    → Counts (suc n) es
    → pos_part c.last_seq ≡ max first n
    → (above 0 (write_all (above first es) c).written ≡ above 0 c.written ++ above first es)
      × (pos_part (write_all (above first es) c).last_seq ≡ max first (n + length es))
unfolding write_all
write_all-above first n [] c k q = (sym (append-nil _), ground (arith, q))
write_all-above first n (e ∷ es) c k q =
    if-case
      (λ ls.
        (above 0 (write_all ls c).written ≡ above 0 c.written ++ ls)
        × (pos_part (write_all ls c).last_seq ≡ max first (n + suc (length es))))
      (ltb first e.seq) (e ∷ above first es) (above first es)
      (λ new.
        let d = write_event e c in
        let fits : pos_part d.last_seq ≡ max first (suc n) =
          ground (arith, write_event-last e c, q, k.0) in
        let written : above (pos_part c.last_seq) (e ∷ []) ≡ e ∷ [] = ground (arith, q, k.0, new) in
        let (others, last) = write_all-above first (suc n) es d k.1 fits in
        (
          others
              ∙ ap (λ fs. fs ++ above first es)
                  (write_event-above e c ∙ ap (λ fs. above 0 c.written ++ fs) written)
              ∙ append_assoc (above 0 c.written) (e ∷ []) (above first es),
          omega (arith, last),
        ))
      (λ old.
        let fits : pos_part c.last_seq ≡ max first (suc n) = ground (arith, q, k.0, old) in
        let (others, last) = write_all-above first (suc n) es c k.1 fits in
        (others, omega (arith, last)))
