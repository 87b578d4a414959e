-- ===== src/Scenarios/Events.antt =====
-- Scenarios of the events of a meeting and of their delivery.
use deciscope_api.Base.{
  String, ℕ, ◌≡◌, refl, some, none, [], ◌∷◌, ok, err, not_found, pos, arith, if◌then◌else◌, is_some,
  lookup, insert, ◌++◌,
}
use deciscope_api.Events.Data.{Event, Codec, raw, value, Moment, is_durable}
use deciscope_api.Events.Store.{Store, log, append_event, list_events, create_meeting, later_events}
use deciscope_api.Events.Numbering.{Counts}
use deciscope_api.Events.Logs.{
  Stored, opened, called, creates, appends, empty_store, drop, list_events-drop, append-list_events,
}
use deciscope_api.Events.Client.{
  Client, new_client, enqueue, write_event, write_all, catch_up, send_next,
}
use deciscope_api.Events.Hub.{Member, Hub, new_hub, subscribe, unsubscribe}
use deciscope_api.Events.Order.{
  Rises, subscribed, then_client, handed, listed, taken, written-Rises,
}
use deciscope_api.Events.Written.{above}
use deciscope_api.Events.Delivery.{joined, announced, caught_up, sent, delivered-list_events}

abbrev plain : Codec String
plain = record { marshal = λ p. some p; read_final = λ s. none; read_status = λ s. some "active" }

abbrev noon : Moment
noon = record { ms = 1000; rfc3339 = "2026-01-01T12:00:00Z"; segment_name = "120000.000000000" }

-- One meeting with one event, and the store after a second event.
abbrev with_meeting : Store
with_meeting = (create_meeting noon "m1" "w1" "Weekly" "teams" empty_store).1

abbrev first_store : Store
first_store = (append_event plain noon "m1" "tree.update" (raw "a") with_meeting).1

abbrev numbered : ℕ → String → Event
numbered n payload = record {
  kind = "tree.update";
  meeting_id = "m1";
  seq = n;
  ts_ms = 1000;
  payload = payload;
}

meeting-Stored : Stored plain with_meeting
unfolding lookup create_meeting
meeting-Stored = called opened (creates noon "m1" "w1" "Weekly" "teams" empty_store refl)

first-Stored : Stored plain first_store
first-Stored = called meeting-Stored (appends noon "m1" "tree.update" (raw "a") with_meeting)

first_log : log "m1" first_store ≡ numbered 1 "a" ∷ []
unfolding append_event create_meeting lookup insert is_durable
first_log = refl

list_events-drop_example :
    Counts 1 (log "m1" first_store)
    × ((list_events "m1" (pos 0) first_store).0 ≡ (
        if is_some (lookup "m1" first_store.meetings)
        then ok (drop 0 (log "m1" first_store))
        else err not_found))
list_events-drop_example = list_events-drop first_store "m1" 0 first-Stored

append-list_events_example :
    (list_events "m1"
      (pos 1)
      (append_event plain noon "m1" "analysis.delta" (value "b") first_store).1).0
    ≡ ok (
        drop 1 (log "m1" first_store)
        ++ record {
          kind = "analysis.delta";
          meeting_id = "m1";
          seq = 2;
          ts_ms = 1000;
          payload = "b";
        }
          ∷ [])
unfolding append_event create_meeting lookup insert is_durable
append-list_events_example =
    append-list_events plain noon "m1" "analysis.delta" (value "b") first_store
      (record { kind = "analysis.delta"; meeting_id = "m1"; seq = 2; ts_ms = 1000; payload = "b" })
      1 first-Stored refl refl (omega arith)

-- The catch-up lists event 1, and the hub hands over events 1 and 2.
abbrev busy_client : Client
busy_client = send_next (
    send_next (
      catch_up (numbered 1 "a" ∷ [])
        (enqueue (numbered 2 "b") (enqueue (numbered 1 "a") (new_client (pos 0))))))

written-Rises_example : Rises 0 busy_client.written
written-Rises_example = written-Rises (pos 0) busy_client (
    then_client
      (then_client
        (then_client
          (then_client (then_client subscribed (handed (numbered 1 "a") _))
            (handed (numbered 2 "b") _))
          (listed (numbered 1 "a" ∷ []) _))
        (taken _))
      (taken _))

busy_client-written : busy_client.written ≡ numbered 1 "a" ∷ numbered 2 "b" ∷ []
unfolding send_next catch_up enqueue write_all write_event
busy_client-written = refl

abbrev second_store : Store
second_store = (append_event plain noon "m1" "tree.update" (raw "b") first_store).1

-- A client that joins before the first event and catches up between the two.
abbrev live_client : Client
live_client = send_next (
    send_next (
      enqueue (numbered 2 "b") (
        catch_up (later_events (pos 0) (log "m1" first_store))
          (enqueue (numbered 1 "a") (new_client (pos 0))))))

delivered-list_events_example :
    above 0 live_client.written ≡ later_events (pos 0) (log "m1" second_store)
unfolding append_event create_meeting lookup insert is_durable send_next catch_up enqueue write_all
    write_event
delivered-list_events_example =
    delivered-list_events {codec = plain} "m1" (pos 0) second_store live_client
      (sent
        (sent
          (announced noon "tree.update" (raw "b") (numbered 2 "b")
            (caught_up
              (announced noon "tree.update" (raw "a") (numbered 1 "a") (joined meeting-Stored) refl
                refl)
              refl)
            refl refl)
          refl)
        refl)
      refl refl

-- Two handlers that publish in the other order than they stored: the earlier event is never written.
out_of_order :
    (send_next (
      send_next (
        enqueue
          (numbered 1 "a")
          (enqueue (numbered 2 "b") (catch_up [] (new_client (pos 0))))))).written
    ≡ numbered 2 "b" ∷ []
unfolding send_next catch_up enqueue write_all write_event
out_of_order = refl

-- After a reset the numbers start again: a client that is connected writes none of the new events.
after_reset :
    (send_next (
      enqueue
        (numbered 1 "c")
        (catch_up (numbered 1 "a" ∷ numbered 2 "b" ∷ []) (new_client (pos 0))))).written
    ≡ numbered 1 "a" ∷ numbered 2 "b" ∷ []
unfolding send_next catch_up enqueue write_all write_event
after_reset = refl

abbrev first_member : Member
first_member = record { meeting_id = "m1"; client = new_client (pos 0) }

abbrev second_member : Member
second_member = record { meeting_id = "m2"; client = new_client (pos 0) }

-- Two clients of different meetings, and a third one that leaves.
abbrev busy_hub : Hub
busy_hub =
    unsubscribe "c" first_member (
      subscribe "c" first_member (subscribe "b" second_member (subscribe "a" first_member new_hub)))
