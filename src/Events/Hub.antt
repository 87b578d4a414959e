-- ===== src/Events/Hub.antt =====
-- The rooms of the hub (internal/adapter/realtime/hub.go). A client stands in the room of its meeting
-- under a name of its own, in place of its pointer. That `unsubscribe` closes the client's channel is
-- left out.
use deciscope_api.Base.{
  String, Option, none, some, [], ◌∷◌, Dict, lookup, insert, remove, is_empty, if◌then◌else◌,
}
use deciscope_api.Events.Data.{Event}
use deciscope_api.Events.Client.{Client, enqueue}

pub record Member : Type 0 where
  pub meeting_id : String
  pub client : Client

pub record Hub : Type 0 where
  pub rooms : Dict (Dict Member)

unfoldable pub new_hub : Hub
new_hub = record { rooms = [] }

unfoldable pub room_or_empty : Option (Dict Member) → Dict Member
room_or_empty none = []
room_or_empty (some room) = room

unfoldable pub subscribe : String → Member → Hub → Hub
unfolding room_or_empty
subscribe name c h = record {
  rooms = insert c.meeting_id (insert name c (room_or_empty (lookup c.meeting_id h.rooms))) h.rooms;
}

unfoldable pub leave_room : String → Dict Member → String → Hub → Hub
leave_room name room meeting h =
    let others = remove name room in
    if is_empty others
    then record { rooms = remove meeting h.rooms }
    else record { rooms = insert meeting others h.rooms }

unfoldable pub unsubscribe : String → Member → Hub → Hub
unfolding leave_room
unsubscribe name c h = elim (lookup c.meeting_id h.rooms) [
  | none ↦ h
  | some room ↦ leave_room name room c.meeting_id h
]

unfoldable pub receive : Event → Member → Member
receive e c = record c { client = enqueue e c.client }

unfoldable pub deliver : Event → Dict Member → Dict Member
unfolding receive
deliver e [] = []
deliver e ((name, c) ∷ others) = (name, receive e c) ∷ deliver e others

unfoldable pub publish : Event → Hub → Hub
unfolding deliver
publish e h = elim (lookup e.meeting_id h.rooms) [
  | none ↦ h
  | some room ↦ record { rooms = insert e.meeting_id (deliver e room) h.rooms }
]

-- The client with a name in the room of a meeting.
unfoldable pub member : String → String → Hub → Option Member
unfolding room_or_empty
member name meeting h = lookup name (room_or_empty (lookup meeting h.rooms))
