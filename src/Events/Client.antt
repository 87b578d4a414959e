-- ===== src/Events/Client.antt =====
-- A client of a meeting (internal/adapter/realtime/client.go, handler.go). `written` lists the events
-- that were written to the connection. A write that fails ends the client and is not modelled, and
-- neither are the pings. The channel `send` takes 128 events; an event for a full channel is one step.
use deciscope_api.Base.{
  ℕ, Bool, true, false, ◌&&◌, List, [], ◌∷◌, ◌++◌, if◌then◌else◌, ltb, leb_ℤ, ltb_ℤ, ℤ, pos, length,
}
use deciscope_api.Events.Data.{Event}

pub record Client : Type 0 where
  pub last_seq : ℤ
  pub send : List Event
  pub written : List Event
  pub caught_up : Bool

abbrev pub capacity : ℕ
capacity = 128

abbrev pub new_client : ℤ → Client
new_client last = record { last_seq = last; send = []; written = []; caught_up = false }

abbrev rest : List Event → List Event
rest [] = []
rest (e ∷ es) = es

-- A full channel loses its oldest event.
unfoldable pub enqueue : Event → Client → Client
enqueue e c =
    if ltb (length c.send) capacity
    then record c { send = c.send ++ e ∷ [] }
    else record c { send = rest c.send ++ e ∷ [] }

unfoldable pub advance : ℤ → ℕ → ℤ
advance last n = if ltb_ℤ last (pos n) then pos n else last

unfoldable pub is_old : ℤ → ℕ → Bool
is_old last n = ltb 0 n && leb_ℤ (pos n) last

unfoldable pub write_event : Event → Client → Client
unfolding advance is_old
write_event e c =
    if is_old c.last_seq e.seq
    then c
    else record c { last_seq = advance c.last_seq e.seq; written = c.written ++ e ∷ [] }

unfoldable pub write_all : List Event → Client → Client
write_all [] c = c
write_all (e ∷ es) c = write_all es (write_event e c)

-- `writeCatchUp` with the events that the store listed; the write loop starts after it.
unfoldable pub catch_up : List Event → Client → Client
catch_up events c = let d = write_all events c in record d { caught_up = true }

-- One round of `writeLoop` that takes an event from the channel.
unfoldable pub send_first : List Event → Client → Client
send_first [] c = c
send_first (e ∷ es) c = write_event e (record c { send = es })

unfoldable pub send_next : Client → Client
unfolding send_first
send_next c = send_first c.send c
