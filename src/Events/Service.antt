-- ===== src/Events/Service.antt =====
-- The service of the meetings (internal/application/service.go, meeting.go) on the memory store, and
-- the events that it hands to the publisher. `events` is the text that the handlers send with a
-- state.
use deciscope_api.Base.{String, List, [], ◌∷◌, ◌++◌, ok, Exec, ◌>>=◌, pure}
use deciscope_api.Events.Data.{Meeting, Event, Codec, Payload, Moment, meeting_state}
use deciscope_api.Events.Store.{Store, append_event, create_meeting, get_meeting}

-- The store, and the calls of `Publish` in their order.
pub record Service : Type 0 where
  pub store : Store
  pub published : List Event

on_store : {A : Type 0} → Exec Store A → Exec Service A
on_store m s = let (answer, store) = m s.store in (answer, record s { store = store })

publish : Event → Exec Service Event
publish e s = (ok e, record s { published = s.published ++ e ∷ [] })

module _ {P : Type 0} (codec : Codec P) (now : Moment) where
  unfoldable pub append_and_publish : String → String → Payload P → Exec Service Event
  unfolding on_store publish
  append_and_publish id kind payload = do
    event ← on_store (append_event codec now id kind payload)
    publish event

  -- `created` and `ended` are the payloads of the two states.
  unfoldable pub create : P → String → String → String → String → Exec Service Meeting
  unfolding on_store append_and_publish
  create created id workspace title source s =
      (on_store (create_meeting now id workspace title source) >>= λ meeting.
      append_and_publish meeting.id meeting_state (Payload.value created) >>= λ _.
      on_store (get_meeting meeting.id))
        s

  unfoldable pub end_meeting : P → String → Exec Service (List Event)
  unfolding on_store append_and_publish
  end_meeting ended id = do
    _ ← on_store (get_meeting id)
    event ← append_and_publish id meeting_state (Payload.value ended)
    pure (event ∷ [])
