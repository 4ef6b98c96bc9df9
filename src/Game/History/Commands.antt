-- ===== src/Game/History/Commands.antt =====
-- The commands that the operations of server/game/eventManager.go send.
use shadowroller.Common.{◌≡◌, true, List, [], ◌∷◌, ◌++◌, Option, some, String}
use shadowroller.Event.{Event, get_id, get_share, get_player_id}
use shadowroller.Update.{EventUpdate, event, Element, elements}
use shadowroller.Game.Share.{update_channel}
use shadowroller.Game.History.{publish, sent, replace_commands, update_event, update_pipeline}

module _ (marshal_event : Event → Option String) (marshal : List Element → Option String) where
  update_pipeline-sent :
      (evt : Event) (u : EventUpdate) (text payload channel : String) (c : Option String)
      → c ≡ some channel
      → marshal_event evt ≡ some text
      → marshal (elements (event u)) ≡ some payload
      → update_pipeline marshal_event marshal evt u c
        ≡ sent
            (replace_commands (get_id evt) text
              ++ (publish (record { channel = channel; payload = payload }) ∷ []))
            true
  unfolding update_pipeline replace_commands
  update_pipeline-sent evt u text payload channel c e m w = rw (e, update_pipeline, m, w)

  pub update_event-sent :
      (g : String) (evt : Event) (u : EventUpdate) (text payload channel : String)
      → update_channel g (get_player_id evt) (get_share evt) ≡ some channel
      → marshal_event evt ≡ some text
      → marshal (elements (event u)) ≡ some payload
      → update_event marshal_event marshal g evt u
        ≡ sent
            (replace_commands (get_id evt) text
              ++ (publish (record { channel = channel; payload = payload }) ∷ []))
            true
  unfolding update_event
  update_event-sent g evt u text payload channel e m w =
      update_pipeline-sent evt u text payload channel
        (update_channel g (get_player_id evt) (get_share evt)) e m w
