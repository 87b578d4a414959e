-- ===== src/Events/Delivery.antt =====
-- The delivery of the stored events of a meeting to a client that keeps up
-- (internal/adapter/realtime/handler.go, client.go; internal/application/service.go).
use deciscope_api.Base.{
  String, ◌≡◌, refl, sym, ap, ◌∙◌, subst, true, false, inl, inr, [], ◌++◌, ok, ltb, ℤ, pos_part,
  length,
}
use mathlib.Core.List.{append-nil}
use deciscope_api.Events.Data.{Event, Codec, Payload, Moment}
use deciscope_api.Events.Store.{Store, log, append_event, later_events}
use deciscope_api.Events.Logs.{
  StoreStep, Stored, called, appends, Stored-IsNumbered, append_event-Logged,
}
use deciscope_api.Events.Client.{Client, new_client, capacity, enqueue, catch_up, send_next}
use deciscope_api.Events.Written.{above, later_events-above}
use deciscope_api.Events.Synced.{
  Progress, catch_up-IsSynced, send_first-IsSynced, enqueue-Progress, send_first-caught_up,
}

-- A meeting `id` of the store and a client that asked for the events after `first`: the client
-- subscribes and then catches up once; each event of the meeting is handed to it as it is stored,
-- while its channel has room; meanwhile the store changes elsewhere and the client writes.
pub data Delivers {P : Type 0} (codec : Codec P) (id : String) (first : ℤ)
    : Store → Client → Type 0 where
  joined : {s : Store} → Stored codec s → Delivers codec id first s (new_client first)
  announced :
      {s : Store} {c : Client} (now : Moment) (kind : String) (payload : Payload P) (e : Event)
      → Delivers codec id first s c
      → (append_event codec now id kind payload s).0 ≡ ok e
      → ltb (length c.send) capacity ≡ true
      → Delivers codec id first (append_event codec now id kind payload s).1 (enqueue e c)
  elsewhere :
      {s t : Store} {c : Client}
      → Delivers codec id first s c
      → StoreStep codec s t
      → log id t ≡ log id s
      → Delivers codec id first t c
  caught_up :
      {s : Store} {c : Client}
      → Delivers codec id first s c
      → c.caught_up ≡ false
      → Delivers codec id first s (catch_up (later_events first (log id s)) c)
  sent :
      {s : Store} {c : Client}
      → Delivers codec id first s c
      → c.caught_up ≡ true
      → Delivers codec id first s (send_next c)

module _ {P : Type 0} {codec : Codec P} {id : String} {first : ℤ} where
  Delivers-Stored : {s : Store} {c : Client} → Delivers codec id first s c → Stored codec s
  Delivers-Stored (joined r) = r
  Delivers-Stored {s} (announced now kind payload e d q room) =
      called (Delivers-Stored d) (appends now id kind payload _)
  Delivers-Stored (elsewhere d step same) = called (Delivers-Stored d) step
  Delivers-Stored (caught_up d u) = Delivers-Stored d
  Delivers-Stored (sent d u) = Delivers-Stored d

  Delivers-Progress :
      {s : Store} {c : Client}
      → Delivers codec id first s c
      → Progress (pos_part first) (log id s) c
  unfolding send_next catch_up
  Delivers-Progress (joined r) =
      inl (refl, record { unwritten = refl; unmoved = refl; held = tt; rises = tt })
  Delivers-Progress (announced {s} {c} now kind payload e d q room) =
      enqueue-Progress (pos_part first) (log id s) _ e c
        (append_event-Logged codec now id kind payload s e
          (Stored-IsNumbered id (Delivers-Stored d)) q)
        room (Delivers-Progress d)
  Delivers-Progress (elsewhere {s} {t} {c} d step same) =
      subst (λ es. Progress (pos_part first) es c) (sym same) (Delivers-Progress d)
  Delivers-Progress (caught_up {s} {c} d u) = elim (Delivers-Progress d) [
    | inl (v, h) ↦ inr (
      refl,
      catch_up-IsSynced first (pos_part first) (log id s) c
          (Stored-IsNumbered id (Delivers-Stored d)).counts refl h,
    )
    | inr (v, h) ↦ cc
  ]
  Delivers-Progress (sent {s} {c} d u) = elim (Delivers-Progress d) [
    | inl (v, h) ↦ cc
    | inr (v, h) ↦ inr (
      send_first-caught_up c.send c ∙ v,
      send_first-IsSynced (pos_part first) (log id s) c.send c refl h,
    )
  ]

-- A client that keeps up misses nothing: it subscribed and caught up, each event of its meeting was
-- handed to it as it was stored, in that order, and its channel had room. Once the channel is empty,
-- the stored events that it has written are those that the store lists after the number that it
-- asked from, in their order.
pub delivered-list_events :
    {P : Type 0} {codec : Codec P} (id : String) (first : ℤ) (s : Store) (c : Client)
    → Delivers codec id first s c
    → c.caught_up ≡ true
    → c.send ≡ []
    → above 0 c.written ≡ later_events first (log id s)
delivered-list_events id first s c d caught empty = elim (Delivers-Progress d) [
  | inl (v, h) ↦ cc
  | inr (v, h) ↦
      let counts = (Stored-IsNumbered id (Delivers-Stored d)).counts in
      sym (append-nil _)
      ∙ ap (λ fs. above 0 c.written ++ above (pos_part c.last_seq) fs) (sym empty)
      ∙ h.complete
      ∙ sym (later_events-above first 0 (log id s) counts)
]
