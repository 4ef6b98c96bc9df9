-- ===== src/Game/Connections/Status.antt =====
-- What the players of a game are told of another's connections is right in the end.
use shadowroller.Common.{
  ◌≡◌, refl, ap, ◌∙◌, Bool, true, false, List, [], ◌∷◌, Option, none, some, String, ℤ, pos, negsuc,
  ◌+ℤ◌, ltb_ℤ, arith,
}
use shadowroller.Player.{Player, is_online, online_mode_auto}
use shadowroller.Update.{PlayerUpdate, player, player_online, Element, elements, for_player_online}
use shadowroller.Game.Share.{Message, game_channel}
use shadowroller.Game.Connections.{
  modify_connections, connection_update, publish_status, update_player_connections, amount,
  published, connect_all,
}

abbrev positive : ℤ → Bool
positive n = ltb_ℤ (pos 0) n

-- The update for a change of the status, if it changes.
abbrev status_change : String → Bool → Bool → Option PlayerUpdate
status_change id true true = none
status_change id false false = none
status_change id true false = some (player_online id false)
status_change id false true = some (player_online id true)

connection_update_lem :
    (id : String) (connects : Bool) (n : ℤ)
    → connection_update id (n +ℤ amount connects) (amount connects)
      ≡ status_change id (positive n) (positive (n +ℤ amount connects))
unfolding connection_update for_player_online
connection_update_lem id true (pos n) = ground arith
connection_update_lem id false (pos n) = ground arith
connection_update_lem id true (negsuc n) = ground arith
connection_update_lem id false (negsuc n) = ground arith

module _ (encode : List Element → String) (g : String) where
  abbrev marshal : List Element → Option String
  marshal els = some (encode els)

  -- The message that tells of a player's status.
  abbrev pub status_message : String → Bool → Message
  status_message id online = record {
    channel = game_channel g;
    payload = encode (elements (player (player_online id online)));
  }

  -- The last message, or the one before them all.
  abbrev pub last_message : Message → List Message → Message
  last_message m [] = m
  last_message m (m' ∷ ms) = last_message m' ms

  message_lem :
      (id : String) (before after : Bool) (plr : Player) (ms : List Message)
      → last_message
          (status_message id before)
          (published (publish_status marshal g plr (status_change id before after)).message ms)
        ≡ last_message (status_message id after) ms
  unfolding publish_status
  message_lem id true true plr ms = refl
  message_lem id false false plr ms = refl
  message_lem id true false plr ms = refl
  message_lem id false true plr ms = refl

  plr_lem : (plr : Player) (u : Option PlayerUpdate) → (publish_status marshal g plr u).plr ≡ plr
  unfolding publish_status
  plr_lem plr none = refl
  plr_lem plr (some u) = refl

  online_auto :
      (plr : Player) → plr.online_mode ≡ online_mode_auto → is_online plr ≡ positive plr.connections
  unfolding is_online
  online_auto plr h = rw h

  plr-update_player_connections :
      (up : Bool) (plr : Player)
      → (update_player_connections marshal g (amount up) plr).plr
        ≡ modify_connections (amount up) plr
  unfolding update_player_connections
  plr-update_player_connections up plr =
      plr_lem (modify_connections (amount up) plr)
        (connection_update plr.id (modify_connections (amount up) plr).connections (amount up))

  -- The message of one change, as the status it tells of.
  step :
      (up : Bool) (plr : Player) (ms : List Message)
      → last_message
          (status_message plr.id (positive plr.connections))
          (published (update_player_connections marshal g (amount up) plr).message ms)
        ≡ last_message (status_message plr.id (positive (plr.connections +ℤ amount up))) ms
  unfolding update_player_connections modify_connections
  step up plr ms =
      ap
        (λ u.
          last_message (status_message plr.id (positive plr.connections)) (
            published (publish_status marshal g (modify_connections (amount up) plr) u).message ms))
        (connection_update_lem plr.id up plr.connections)
      ∙ message_lem plr.id (positive plr.connections) (positive (plr.connections +ℤ amount up))
          (modify_connections (amount up) plr) ms

  status_lem :
      (ups : List Bool) (plr : Player)
      → (last_message
            (status_message plr.id (positive plr.connections))
            (connect_all marshal g ups plr).1
          ≡ status_message plr.id (positive (connect_all marshal g ups plr).0.connections))
        × ((connect_all marshal g ups plr).0.online_mode ≡ plr.online_mode)
  unfolding connect_all modify_connections
  status_lem [] plr = (refl, refl)
  status_lem (up ∷ ups) plr =
      let next = modify_connections (amount up) plr in
      let e = plr-update_player_connections up plr in
      let (told, mode) = status_lem ups next in
      (
        step up plr
              (connect_all marshal g ups
                (update_player_connections marshal g (amount up) plr).plr).1
            ∙ rw e told,
        rw e mode,
      )

  -- However a player whose status is automatic connects and leaves, where the messages are sent in the
  -- order in which Redis makes the changes, with whatever number of connections at the start, also below
  -- zero: if the others were told the player's status before, then the last that they are told is the
  -- status after. The updates can be encoded. Nothing is said of calls that overlap and send their
  -- messages in another order.
  pub last_message-connect_all :
      (ups : List Bool) (plr : Player)
      → plr.online_mode ≡ online_mode_auto
      → let r = connect_all marshal g ups plr in
        last_message (status_message plr.id (is_online plr)) r.1
        ≡ status_message plr.id (is_online r.0)
  last_message-connect_all ups plr auto =
      let (told, mode) = status_lem ups plr in
      rw (online_auto plr auto, online_auto (connect_all marshal g ups plr).0 (mode ∙ auto)) told
