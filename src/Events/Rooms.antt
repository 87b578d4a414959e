-- ===== src/Events/Rooms.antt =====
-- Who gets an event from the hub (internal/adapter/realtime/hub.go).
use deciscope_api.Base.{String, ◌≡◌, Option, none, some}
use deciscope_api.Events.Data.{Event}
use deciscope_api.Events.Hub.{Member, Hub, new_hub, subscribe, unsubscribe, publish, member}

-- The hubs that the operations reach, with a client subscribed and unsubscribed under its name.
pub data Hosted : Hub → Type 0 where
  opened : Hosted new_hub
  joined : (name : String) (c : Member) {h : Hub} → Hosted h → Hosted (subscribe name c h)
  left : (name : String) (c : Member) {h : Hub} → Hosted h → Hosted (unsubscribe name c h)
  published : (e : Event) {h : Hub} → Hosted h → Hosted (publish e h)

-- Each client is in the room of its own meeting.
IsPlaced : Hub → Type 0
IsPlaced h =
    (name meeting : String) (c : Member) → member name meeting h ≡ some c → c.meeting_id ≡ meeting

map_member : (Member → Member) → Option Member → Option Member
map_member f none = none
map_member f (some c) = some (f c)
