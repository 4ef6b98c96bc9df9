-- ===== src/Game/Connections.antt =====
-- UpdatePlayerConnections of server/game/playerManager.go, and ModifyConnections of
-- server/player/player.go: a player who connects or leaves. The stored player is a record; HINCRBY
-- adds to its field.
pub mod Status
use shadowroller.Common.{
  Bool, true, false, ◌&&◌, List, [], ◌∷◌, Option, none, some, String, if◌then◌else◌, ℤ, pos, negsuc,
  ◌+ℤ◌, eqb_ℤ,
}
use shadowroller.Player.{Player}
use shadowroller.Update.{PlayerUpdate, player, Element, elements, for_player_online}
use shadowroller.Game.Share.{Message, game_channel}

abbrev pub increase_connections : ℤ
increase_connections = pos 1

abbrev pub decrease_connections : ℤ
decrease_connections = negsuc 0

unfoldable pub modify_connections : ℤ → Player → Player
modify_connections amount plr = record plr { connections = plr.connections +ℤ amount }

-- The update that is published, if any, for the new number of connections.
unfoldable pub connection_update : String → ℤ → ℤ → Option PlayerUpdate
connection_update player_id new_conns change =
    if eqb_ℤ new_conns (pos 0) && eqb_ℤ change decrease_connections
    then some (for_player_online player_id false)
    else if eqb_ℤ new_conns (pos 1) && eqb_ℤ change increase_connections
    then some (for_player_online player_id true)
    else none

-- The stored player, the message that was published, and whether no error is returned.
pub record Changed : Type 0 where
  pub plr : Player
  pub message : Option Message
  pub ok : Bool

publish_status : (List Element → Option String) → String → Player → Option PlayerUpdate → Changed
publish_status marshal game_id plr none = record { plr = plr; message = none; ok = true }
publish_status marshal game_id plr (some ud) = elim (marshal (elements (player ud))) [
  | none ↦ record { plr = plr; message = none; ok = false }
  | some text ↦ record {
    plr = plr;
    message = some (record { channel = game_channel game_id; payload = text });
    ok = true;
  }
]

-- Redis answers both commands.
unfoldable pub update_player_connections :
    (List Element → Option String) → String → ℤ → Player → Changed
unfolding publish_status
update_player_connections marshal game_id change plr =
    let plr' = modify_connections change plr in
    publish_status marshal game_id plr' (connection_update plr.id plr'.connections change)

abbrev pub amount : Bool → ℤ
amount true = increase_connections
amount false = decrease_connections

abbrev pub published : Option Message → List Message → List Message
published none ms = ms
published (some m) ms = m ∷ ms

-- Calls of `UpdatePlayerConnections` in the order of their HINCRBY, which is the order of their
-- messages: the player at the end, and the messages.
unfoldable pub connect_all :
    (List Element → Option String) → String → List Bool → Player → Player × List Message
connect_all marshal game_id [] plr = (plr, [])
connect_all marshal game_id (connects ∷ rest) plr =
    let c = update_player_connections marshal game_id (amount connects) plr in
    let (last, ms) = connect_all marshal game_id rest c.plr in (last, published c.message ms)
