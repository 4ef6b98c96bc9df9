-- ===== src/Delivery/Shares.antt =====
-- An event whose share changes: what each player of the game is sent.
use shadowroller.Common.{
  ◌≡◌, refl, sym, ◌∙◌, ◌≢◌, inl, inr, Bool, true, false, ◌||◌, String, List, [], ◌∷◌, some, str_eq,
  arith, ℤ,
}
use shadowroller.Player.{Player}
use shadowroller.Event.{Event, get_id, get_player_id, get_share, set_share}
use shadowroller.Event.Fields.{get_share-set_share, get_player_id-set_share}
use shadowroller.Event.Share.{IsShare}
use shadowroller.Update.{EventUpdate, for_event_share, for_new_event, for_event_delete}
use shadowroller.Game.Share.{
  Packet, packet, player_can_see_event, share_packets_modifying_event, game_or_gms_channel,
  game_channel, player_channel, gms_channel,
}
use shadowroller.Game.Subscribe.{PubSub}
use shadowroller.Delivery.Receives.{
  IsPlayerId, update_text, Receives, Receives-gms, Receives-game_but_author, Receives-gms_to_game,
  Receives-game_to_gms,
}
use shadowroller.Delivery.Events.{sees_in_game, sees_private, sees_gms}
use shadowroller.Delivery.Packets.{Encoder}

-- What a player is sent when an event's share changes, by whether it could see the event before and
-- can see it after.
abbrev pub change : {A : Type 0} → Bool → Bool → A → A → A → List A
change true true modify create delete = modify ∷ []
change true false modify create delete = delete ∷ []
change false true modify create delete = create ∷ []
change false false modify create delete = []

module _ (pubsub : PubSub) (enc : Encoder) (g : String) (plr : Player) (is_gm : Bool) (evt : Event)
    (new_share : ℤ) (not_gms : plr.id ≢ "gms") (author : IsPlayerId (get_player_id evt)) where
  abbrev changed : Event
  changed = set_share new_share evt

  abbrev a : String
  a = get_player_id changed

  abbrev modify : EventUpdate
  modify = for_event_share changed new_share

  abbrev create : EventUpdate
  create = for_new_event changed

  abbrev delete : EventUpdate
  delete = for_event_delete (get_id changed)

  abbrev to_author : List Packet
  to_author = packet (player_channel g a) [] modify ∷ []

  still_author : IsPlayerId a
  still_author = rw (get_player_id-set_share new_share evt) author

  share_after : {share : ℤ} → new_share ≡ share → get_share changed ≡ share
  share_after n = get_share-set_share new_share evt ∙ n

  same_author : get_player_id evt ≡ a
  same_author = sym (get_player_id-set_share new_share evt)

  -- When the share of an event changes to another of the three states, the packets are published, and
  -- each subscribed player is sent exactly one update if it can see the event before or after the
  -- change: a modification if both, a creation if only after, a deletion if only before. A player who
  -- can see it neither before nor after is sent nothing. The ids of the player and of the event's
  -- author are not "gms", and that of the author holds no comma and no space.
  pub received-share_packets :
      IsShare (get_share evt)
      → IsShare new_share
      → get_share evt ≢ new_share
      → (ks : List Packet) × (share_packets_modifying_event g evt new_share ≡ (changed, some ks))
        × (before after : Bool) × (player_can_see_event plr is_gm evt ≡ some before)
        × (player_can_see_event plr is_gm changed ≡ some after)
        × Receives pubsub enc g plr.id is_gm ks (
            change before after
              (update_text enc modify)
              (update_text enc create)
              (update_text enc delete))
  unfolding share_packets_modifying_event game_or_gms_channel
  received-share_packets (inl o) (inl n) differ = absurd (differ (o ∙ sym n))
  received-share_packets (inl o) (inr (inl n)) differ =
      let (ms, published, r) =
        Receives-game_but_author pubsub enc g plr.id a is_gm not_gms still_author delete modify in
      (
        packet (game_channel g) (a ∷ []) delete ∷ to_author,
        rw (n, share_packets_modifying_event, o),
        true,
        str_eq a plr.id,
        sees_in_game plr is_gm evt o,
        sees_private plr is_gm changed a refl (share_after n),
        (ms, published, r ∙ ground arith),
      )
  received-share_packets (inl o) (inr (inr n)) differ =
      let (ms, published, r) =
        Receives-game_to_gms pubsub enc g plr.id a is_gm not_gms still_author modify modify
          delete in
      (
        packet (game_channel g) ("gms" ∷ a ∷ []) delete
            ∷ packet (gms_channel g) (a ∷ []) modify
            ∷ to_author,
        rw (n, share_packets_modifying_event, o),
        true,
        str_eq a plr.id || is_gm,
        sees_in_game plr is_gm evt o,
        sees_gms plr is_gm changed a refl (share_after n),
        (ms, published, r ∙ ground arith),
      )
  received-share_packets (inr (inl o)) (inl n) differ =
      let (ms, published, r) =
        Receives-game_but_author pubsub enc g plr.id a is_gm not_gms still_author create modify in
      (
        packet (game_channel g) (a ∷ []) create ∷ to_author,
        rw (n, share_packets_modifying_event, o),
        str_eq a plr.id,
        true,
        sees_private plr is_gm evt a same_author o,
        sees_in_game plr is_gm changed (share_after n),
        (ms, published, r ∙ ground arith),
      )
  received-share_packets (inr (inl o)) (inr (inl n)) differ = absurd (differ (o ∙ sym n))
  received-share_packets (inr (inl o)) (inr (inr n)) differ =
      let (ms, published, r) =
        Receives-gms pubsub enc g plr.id a is_gm not_gms still_author create modify in
      (
        packet (gms_channel g) (a ∷ []) create ∷ to_author,
        rw (n, share_packets_modifying_event, o),
        str_eq a plr.id,
        str_eq a plr.id || is_gm,
        sees_private plr is_gm evt a same_author o,
        sees_gms plr is_gm changed a refl (share_after n),
        (ms, published, r ∙ ground arith),
      )
  received-share_packets (inr (inr o)) (inl n) differ =
      let (ms, published, r) =
        Receives-gms_to_game pubsub enc g plr.id a is_gm not_gms still_author modify modify
          create in
      (
        packet (gms_channel g) (a ∷ []) modify
            ∷ packet (player_channel g a) [] modify
            ∷ packet (game_channel g) (a ∷ "gms" ∷ []) create
            ∷ [],
        rw (n, share_packets_modifying_event, o),
        str_eq a plr.id || is_gm,
        true,
        sees_gms plr is_gm evt a same_author o,
        sees_in_game plr is_gm changed (share_after n),
        (ms, published, r ∙ ground arith),
      )
  received-share_packets (inr (inr o)) (inr (inl n)) differ =
      let (ms, published, r) =
        Receives-gms pubsub enc g plr.id a is_gm not_gms still_author delete modify in
      (
        packet (gms_channel g) (a ∷ []) delete ∷ to_author,
        rw (n, share_packets_modifying_event, o),
        str_eq a plr.id || is_gm,
        str_eq a plr.id,
        sees_gms plr is_gm evt a same_author o,
        sees_private plr is_gm changed a refl (share_after n),
        (ms, published, r ∙ ground arith),
      )
  received-share_packets (inr (inr o)) (inr (inr n)) differ = absurd (differ (o ∙ sym n))
