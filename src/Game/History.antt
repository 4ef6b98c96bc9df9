-- ===== src/Game/History.antt =====
-- server/game/eventManager.go, and BulkUpdate of server/event/event.go: the pipelines of Redis commands
-- that keep a game's history and tell its players. The commands' meaning is a parameter, in
-- Game/History/Stored.
pub mod Commands
pub mod Stored
use shadowroller.Common.{
  ℕ, ◌*◌, Bool, true, false, not, List, [], ◌∷◌, ◌++◌, map, Option, none, some, String, length, ltb,
  ◌==◌, ℤ, eqb_ℤ, if◌then◌else◌,
}
use shadowroller.Event.{Event, get_id, get_share, get_player_id}
use shadowroller.Update.{EventUpdate, event, Element, elements, for_new_event, for_event_delete}
use shadowroller.Game.Share.{
  Packet, Message, publish_packets, create_or_delete_packets, share_packets_modifying_event,
  update_channel,
}

-- A command on the key "history:" of the game, or a `PUBLISH`. A score is the id of an event, which
-- `float64` holds exactly below 2 ^ 53, as it holds the milliseconds of the clock.
pub data Command : Type 0 where
  zrem_range_by_score : ℕ → ℕ → Command
  zadd_nx : ℕ → String → Command
  publish : Message → Command

-- How an operation ends: in a panic, with an error before any command is sent, or with the commands
-- that were sent, and whether it returns without an error then. Redis answers each command.
pub data Pipeline : Type 0 where
  crashed : Pipeline
  failed : Pipeline
  sent : List Command → Bool → Pipeline

-- The packets of a pipeline, after its first commands; the test is on the number of replies.
pipeline :
    (List Element → Option String) → (ℕ → Bool) → List Command → Option (List Packet) → Pipeline
pipeline marshal enough first none = crashed
pipeline marshal enough first (some packets) = elim (publish_packets marshal packets) [
  | none ↦ failed
  | some messages ↦
      let commands = first ++ map publish messages in sent commands (enough (length commands))
]

at_least : ℕ → ℕ → Bool
at_least n replies = not (ltb replies n)

unfoldable pub replace_commands : ℕ → String → List Command
replace_commands id text = zrem_range_by_score id id ∷ zadd_nx id text ∷ []

module _ (marshal_event : Event → Option String) (marshal : List Element → Option String) where
  unfoldable pub post_event : String → Event → Pipeline
  unfolding pipeline at_least
  post_event game_id evt = elim (marshal_event evt) [
    | none ↦ failed
    | some text ↦
        pipeline marshal (at_least 2) (zadd_nx (get_id evt) text ∷ [])
          (create_or_delete_packets game_id evt (for_new_event evt))
  ]

  unfoldable pub delete_event : String → Event → Pipeline
  unfolding pipeline at_least
  delete_event game_id evt =
      pipeline marshal (at_least 2) (zrem_range_by_score (get_id evt) (get_id evt) ∷ [])
        (create_or_delete_packets game_id evt (for_event_delete (get_id evt)))

  share_pipeline : Event → Option (List Packet) → Pipeline
  unfolding pipeline at_least replace_commands
  share_pipeline evt none = crashed
  share_pipeline evt (some packets) = elim (marshal_event evt) [
    | none ↦ failed
    | some text ↦ pipeline marshal (at_least 4) (replace_commands (get_id evt) text) (some packets)
  ]

  unfoldable pub update_event_share : String → Event → ℤ → Pipeline
  unfolding share_pipeline
  update_event_share game_id evt new_share =
      if eqb_ℤ (get_share evt) new_share
      then failed
      else let (evt', packets) = share_packets_modifying_event game_id evt new_share in
        share_pipeline evt' packets

  update_pipeline : Event → EventUpdate → Option String → Pipeline
  unfolding replace_commands
  update_pipeline new_event u none = crashed
  update_pipeline new_event u (some channel) = elim (marshal_event new_event) [
    | none ↦ failed
    | some text ↦ elim (marshal (elements (event u))) [
      | none ↦ failed
      | some payload ↦
          let commands =
            replace_commands (get_id new_event) text
            ++ (publish (record { channel = channel; payload = payload }) ∷ []) in
          sent commands (length commands == 3)
    ]
  ]

  unfoldable pub update_event : String → Event → EventUpdate → Pipeline
  unfolding update_pipeline
  update_event game_id new_event u =
      update_pipeline new_event u
        (update_channel game_id (get_player_id new_event) (get_share new_event))

  -- The commands of `BulkUpdate`, or the first error.
  bulk_commands : List Event → Option (List Command)
  unfolding replace_commands
  bulk_commands [] = some []
  bulk_commands (evt ∷ evts) = elim (marshal_event evt) [
    | none ↦ none
    | some text ↦ elim (bulk_commands evts) [
      | none ↦ none
      | some commands ↦ some (replace_commands (get_id evt) text ++ commands)
    ]
  ]

  unfoldable pub bulk_update : List Event → Pipeline
  unfolding bulk_commands
  bulk_update evts = elim (bulk_commands evts) [
    | none ↦ failed
    | some commands ↦ sent commands (length commands == length evts * 2)
  ]

-- The messages of a pipeline.
unfoldable pub published : List Command → List Message
published [] = []
published (zrem_range_by_score low high ∷ commands) = published commands
published (zadd_nx score member ∷ commands) = published commands
published (publish m ∷ commands) = m ∷ published commands
