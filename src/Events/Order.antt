-- ===== src/Events/Order.antt =====
-- The order in which a client gets the events (internal/adapter/realtime/client.go).
use deciscope_api.Base.{
  ℕ, zero, suc, ◌≤◌, ◌<◌, max, leb, negsuc, ◌≡◌, refl, false, ◌&&◌, ◌⊎◌, inl, inr, List, [], ◌∷◌,
  ◌++◌, ltb, ℤ, pos, pos_part, length, arith, if-case, All,
}
use deciscope_api.Events.Data.{Event}
use deciscope_api.Events.Client.{
  Client, new_client, capacity, advance, is_old, enqueue, write_event, write_all, catch_up,
  send_first, send_next,
}

-- The stored events of the list have numbers above `b`, each above those before it. An event that
-- is not stored has the number 0.
abbrev pub Rises : ℕ → List Event → Type 0
Rises b [] = Unit
Rises b (e ∷ es) = ((e.seq ≡ 0) × Rises b es) ⊎ ((b < e.seq) × Rises e.seq es)

pub Rises-append :
    (b n : ℕ) (es : List Event) (e : Event)
    → b ≤ n
    → All (λ f. f.seq ≤ n) es
    → (e.seq ≡ 0) ⊎ (n < e.seq)
    → Rises b es
    → Rises b (es ++ e ∷ [])
Rises-append b n [] e h a (inl z) r = inl (z, tt)
Rises-append b n [] e h a (inr l) r = inr (omega arith, tt)
Rises-append b n (f ∷ es) e h a q (inl (z, r)) = inl (z, Rises-append b n es e h a.1 q r)
Rises-append b n (f ∷ es) e h a q (inr (l, r)) = inr (l, Rises-append f.seq n es e a.0 a.1 q r)

-- What a client has written rises, up to its last number.
record IsOrdered (first : ℕ) (c : Client) : Type 0 where
  started : first ≤ pos_part c.last_seq
  below : All (λ f. f.seq ≤ pos_part c.last_seq) c.written
  rises : Rises first c.written

pub All-le :
    (m n : ℕ) (es : List Event)
    → m ≤ n
    → All (λ (f : Event). f.seq ≤ m) es
    → All (λ (f : Event). f.seq ≤ n) es
All-le m n [] h a = tt
All-le m n (f ∷ es) h a = (omega arith, All-le m n es h a.1)

pub All-snoc :
    (n : ℕ) (es : List Event) (e : Event)
    → e.seq ≤ n
    → All (λ (f : Event). f.seq ≤ n) es
    → All (λ (f : Event). f.seq ≤ n) (es ++ e ∷ [])
All-snoc n [] e h a = (h, tt)
All-snoc n (f ∷ es) e h a = (a.0, All-snoc n es e h a.1)

pub advance-max : (l : ℤ) (n : ℕ) → pos_part (advance l n) ≡ max (pos_part l) n
unfolding advance
advance-max (pos m) n = ground arith
advance-max (negsuc m) n = ground arith

pub is_old_iff : (l : ℤ) (n : ℕ) → is_old l n ≡ (ltb 0 n && leb n (pos_part l))
unfolding is_old
is_old_iff (pos m) n = ground arith
is_old_iff (negsuc m) n = ground arith

pub new_number : (l : ℤ) (n : ℕ) → is_old l n ≡ false → (n ≡ 0) ⊎ (pos_part l < n)
new_number l zero q = inl refl
new_number l (suc n) q = inr (ground (arith, is_old_iff l (suc n), q))

write_event-IsOrdered :
    (first : ℕ) (e : Event) (c : Client) → IsOrdered first c → IsOrdered first (write_event e c)
unfolding write_event
write_event-IsOrdered first e c h =
    if-case (IsOrdered first) (is_old c.last_seq e.seq) _ _ (λ _. h)
      (λ q.
        let m = advance-max c.last_seq e.seq in
        let new : (e.seq ≡ 0) ⊎ (pos_part c.last_seq < e.seq) = new_number c.last_seq e.seq q in
        record {
          started = omega (arith, m, h.started);
          below =
              All-snoc _ c.written e (omega (arith, m))
                (All-le (pos_part c.last_seq) _ c.written (omega (arith, m)) h.below);
          rises =
              Rises-append first (pos_part c.last_seq) c.written e h.started h.below new h.rises;
        })

write_all-IsOrdered :
    (first : ℕ) (es : List Event) (c : Client)
    → IsOrdered first c
    → IsOrdered first (write_all es c)
unfolding write_all
write_all-IsOrdered first [] c h = h
write_all-IsOrdered first (e ∷ es) c h =
    write_all-IsOrdered first es (write_event e c) (write_event-IsOrdered first e c h)

send_first-IsOrdered :
    (first : ℕ) (es : List Event) (c : Client)
    → IsOrdered first c
    → IsOrdered first (send_first es c)
unfolding send_first
send_first-IsOrdered first [] c h = h
send_first-IsOrdered first (e ∷ es) c h =
    write_event-IsOrdered first e (record c { send = es })
      (record { started = h.started; below = h.below; rises = h.rises })

-- What happens to a client after its subscription, in any order: the hub hands it an event, its
-- catch-up writes what the store listed, and its write loop takes an event from the channel.
pub data ClientStep : Client → Client → Type 0 where
  handed : (e : Event) (c : Client) → ClientStep c (enqueue e c)
  listed : (events : List Event) (c : Client) → ClientStep c (catch_up events c)
  taken : (c : Client) → ClientStep c (send_next c)

pub data ClientSteps (c : Client) : Client → Type 0 where
  subscribed : ClientSteps c c
  then_client : {d e : Client} → ClientSteps c d → ClientStep d e → ClientSteps c e

enqueue-IsOrdered :
    (first : ℕ) (e : Event) (c : Client) → IsOrdered first c → IsOrdered first (enqueue e c)
unfolding enqueue
enqueue-IsOrdered first e c h =
    if-case (IsOrdered first) (ltb (length c.send) capacity) _ _
      (λ _. record { started = h.started; below = h.below; rises = h.rises })
      (λ _. record { started = h.started; below = h.below; rises = h.rises })

ClientStep-IsOrdered :
    {c d : Client} (first : ℕ) → ClientStep c d → IsOrdered first c → IsOrdered first d
unfolding catch_up send_next
ClientStep-IsOrdered first (handed e c) h = enqueue-IsOrdered first e c h
ClientStep-IsOrdered first (listed events c) h =
    let k = write_all-IsOrdered first events c h in
    record { started = k.started; below = k.below; rises = k.rises }
ClientStep-IsOrdered first (taken c) h = send_first-IsOrdered first c.send c h

ClientSteps-IsOrdered :
    {c d : Client} (first : ℕ) → ClientSteps c d → IsOrdered first c → IsOrdered first d
ClientSteps-IsOrdered first subscribed h = h
ClientSteps-IsOrdered first (then_client r t) h =
    ClientStep-IsOrdered first t (ClientSteps-IsOrdered first r h)

-- Whatever the hub hands to a client that asked for the events after `first`, and in whatever order:
-- the stored events that it writes have rising numbers above `first`, so none comes twice.
pub written-Rises :
    (first : ℤ) (c : Client) → ClientSteps (new_client first) c → Rises (pos_part first) c.written
written-Rises first c r =
    (ClientSteps-IsOrdered (pos_part first) r
      (record { started = omega arith; below = tt; rises = tt })).rises
