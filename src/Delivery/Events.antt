-- ===== src/Delivery/Events.antt =====
-- An event that is created or deleted: what each player of the game is sent.
use shadowroller.Common.{
  ◌≡◌, ◌∙◌, ◌≢◌, inl, inr, Bool, true, ◌||◌, String, List, [], ◌∷◌, some, str_eq, arith,
  if◌then◌else◌,
}
use shadowroller.Player.{Player}
use shadowroller.Event.{Event, get_player_id, get_share}
use shadowroller.Event.Share.{IsShare, share_in_game, share_private, share_gms}
use shadowroller.Update.{EventUpdate}
use shadowroller.Game.Share.{
  Packet, packet, player_can_see_event, create_or_delete_packets, game_channel, player_channel,
  gms_channel,
}
use shadowroller.Game.Subscribe.{PubSub}
use shadowroller.Delivery.Receives.{
  IsPlayerId, update_text, Receives, Receives-in_game, Receives-private, Receives-gms,
}
use shadowroller.Delivery.Packets.{Encoder}

module _ (plr : Player) (is_gm : Bool) (evt : Event) where
  pub sees_in_game : get_share evt ≡ share_in_game → player_can_see_event plr is_gm evt ≡ some true
  unfolding player_can_see_event
  sees_in_game e = rw e

  pub sees_private :
      (a : String)
      → get_player_id evt ≡ a
      → get_share evt ≡ share_private
      → player_can_see_event plr is_gm evt ≡ some (str_eq a plr.id)
  unfolding player_can_see_event
  sees_private a q e = rw (e, q)

  pub sees_gms :
      (a : String)
      → get_player_id evt ≡ a
      → get_share evt ≡ share_gms
      → player_can_see_event plr is_gm evt ≡ some (str_eq a plr.id || is_gm)
  unfolding player_can_see_event
  sees_gms a q e = rw (e, q)

module _ (pubsub : PubSub) (enc : Encoder) (g : String) (plr : Player) (is_gm : Bool) (evt : Event)
    (not_gms : plr.id ≢ "gms") (author : IsPlayerId (get_player_id evt)) where
  abbrev author_id : String
  author_id = get_player_id evt

  abbrev is_author : Bool
  is_author = str_eq author_id plr.id

  -- When an event is created or deleted, in any of the three share states, the packets are
  -- published, and each subscribed player is sent the update exactly once if it can see the event, and
  -- not at all if it cannot. The ids of the player and of the event's author are not "gms", and that
  -- of the author holds no comma and no space.
  pub received-create_or_delete :
      (u : EventUpdate)
      → IsShare (get_share evt)
      → (ks : List Packet) × (create_or_delete_packets g evt u ≡ some ks)
        × (can_see : Bool) × (player_can_see_event plr is_gm evt ≡ some can_see)
        × Receives pubsub enc g plr.id is_gm ks (if can_see then update_text enc u ∷ [] else [])
  unfolding create_or_delete_packets player_can_see_event
  received-create_or_delete u (inl e) = (
    packet (game_channel g) [] u ∷ [],
    rw e,
    true,
    rw e,
    Receives-in_game pubsub enc g plr.id author_id is_gm not_gms author u,
  )
  received-create_or_delete u (inr (inl e)) = (
    packet (player_channel g author_id) [] u ∷ [],
    rw e,
    is_author,
    rw e,
    Receives-private pubsub enc g plr.id author_id is_gm not_gms author u,
  )
  received-create_or_delete u (inr (inr e)) =
      let (ms, published, r) =
        Receives-gms pubsub enc g plr.id author_id is_gm not_gms author u u in
      (
        packet (gms_channel g) (author_id ∷ []) u ∷ packet (player_channel g author_id) [] u ∷ [],
        rw e,
        is_author || is_gm,
        rw e,
        (ms, published, r ∙ ground arith),
      )
