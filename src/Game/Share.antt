-- ===== src/Game/Share.antt =====
-- server/game/eventShare.go: who may see an event, and the packets that tell of its changes.
pub mod Channels
use Prim.Native.String.{◌++◌}
use mathlib.Core.Option
use shadowroller.Common.{
  Bool, true, false, ◌&&◌, ◌||◌, List, [], ◌∷◌, Option, none, some, String, str_eq, if◌then◌else◌,
  ℤ, eqb_ℤ,
}
use shadowroller.Player.{Player}
use shadowroller.Event.{Event, get_id, get_player_id, get_share, set_share}
use shadowroller.Event.Share.{share_in_game, share_private, share_gms}
use shadowroller.Update.{
  Update, EventUpdate, event, Element, elements, for_event_share, for_new_event, for_event_delete,
}
use shadowroller.Update.Filter.{serialize}

-- `PlayerCanSeeEvent`; `none` is the panic.
unfoldable pub player_can_see_event : Player → Bool → Event → Option Bool
player_can_see_event plr is_gm evt =
    if eqb_ℤ (get_share evt) share_in_game
    then some true
    else if eqb_ℤ (get_share evt) share_private
    then some (str_eq (get_player_id evt) plr.id)
    else if eqb_ℤ (get_share evt) share_gms
    then some (str_eq (get_player_id evt) plr.id || is_gm)
    else none

unfoldable pub game_channel : String → String
game_channel game_id = "update:" ++ game_id

unfoldable pub player_channel : String → String → String
player_channel game_id player_id = "update:" ++ (game_id ++ (":" ++ player_id))

unfoldable pub gms_channel : String → String
gms_channel game_id = "update:" ++ (game_id ++ ":gms")

-- `none` is the panic.
unfoldable pub update_channel : String → String → ℤ → Option String
update_channel game_id player_id share =
    if eqb_ℤ share share_in_game
    then some (game_channel game_id)
    else if eqb_ℤ share share_private
    then some (player_channel game_id player_id)
    else if eqb_ℤ share share_gms
    then some (gms_channel game_id)
    else none

-- `none` is the panic.
unfoldable pub game_or_gms_channel : String → ℤ → Option String
game_or_gms_channel game_id share =
    if eqb_ℤ share share_in_game
    then some (game_channel game_id)
    else if eqb_ℤ share share_gms
    then some (gms_channel game_id)
    else none

pub record Packet : Type 0 where
  pub channel : String
  pub filter : List String
  pub update : Update

-- A `PUBLISH` to Redis.
pub record Message : Type 0 where
  pub channel : String
  pub payload : String

abbrev pub packet : String → List String → EventUpdate → Packet
packet channel filter u = record { channel = channel; filter = filter; update = event u }

-- The text that `publishPacket` publishes; `none` is an error of `json.Marshal`.
packet_text : (List Element → Option String) → List String → Update → Option String
packet_text marshal [] u = marshal (elements u)
packet_text marshal (f ∷ fs) u = serialize marshal (f ∷ fs) u

unfoldable pub publish_packet : (List Element → Option String) → Packet → Option Message
unfolding packet_text
publish_packet marshal p =
    Option.map (λ text. record { channel = p.channel; payload = text })
      (packet_text marshal p.filter p.update)

-- The loops of `PostEvent`, `DeleteEvent` and `UpdateEventShare` over their packets: the messages
-- of the pipeline, or the first error.
unfoldable pub publish_packets :
    (List Element → Option String) → List Packet → Option (List Message)
publish_packets marshal [] = some []
publish_packets marshal (p ∷ ps) = elim (publish_packet marshal p) [
  | none ↦ none
  | some m ↦ Option.map (◌∷◌ m) (publish_packets marshal ps)
]

-- `none` is the panic.
unfoldable pub create_or_delete_packets : String → Event → EventUpdate → Option (List Packet)
create_or_delete_packets game_id evt u =
    let share = get_share evt in
    let player_id = get_player_id evt in
    if eqb_ℤ share share_in_game
    then some (packet (game_channel game_id) [] u ∷ [])
    else if eqb_ℤ share share_private
    then some (packet (player_channel game_id player_id) [] u ∷ [])
    else if eqb_ℤ share share_gms
    then some (
        packet (gms_channel game_id) (player_id ∷ []) u
        ∷ packet (player_channel game_id player_id) [] u
        ∷ [])
    else none

-- The two packets where one side of the change is private: all but the player, then the player.
to_or_from_private : String → String → ℤ → EventUpdate → EventUpdate → Option (List Packet)
to_or_from_private game_id player_id share others modify =
    Option.map
      (λ channel.
        packet channel (player_id ∷ []) others
        ∷ packet (player_channel game_id player_id) [] modify
        ∷ [])
      (game_or_gms_channel game_id share)

-- `sharePacketsModifyingEvent`: the event with its new share, and the packets; `none` is the
-- panic.
unfoldable pub share_packets_modifying_event : String → Event → ℤ → Event × Option (List Packet)
unfolding to_or_from_private
share_packets_modifying_event game_id evt new_share =
    let old_share = get_share evt in
    let evt' = set_share new_share evt in
    let player_id = get_player_id evt' in
    let modify = for_event_share evt' new_share in
    let create = for_new_event evt' in
    let delete = for_event_delete (get_id evt') in
    (
      evt',
      if eqb_ℤ new_share share_private
          then to_or_from_private game_id player_id old_share delete modify
          else if eqb_ℤ old_share share_private
          then to_or_from_private game_id player_id new_share create modify
          else if eqb_ℤ old_share share_gms && eqb_ℤ new_share share_in_game
          then some (
              packet (gms_channel game_id) (player_id ∷ []) modify
              ∷ packet (player_channel game_id player_id) [] modify
              ∷ packet (game_channel game_id) (player_id ∷ "gms" ∷ []) create
              ∷ [])
          else if eqb_ℤ old_share share_in_game && eqb_ℤ new_share share_gms
          then some (
              packet (game_channel game_id) ("gms" ∷ player_id ∷ []) delete
              ∷ packet (gms_channel game_id) (player_id ∷ []) modify
              ∷ packet (player_channel game_id player_id) [] modify
              ∷ [])
          else none,
    )
