-- ===== src/Delivery/Updates.antt =====
-- UpdateEvent of server/game/eventManager.go: who is told of a change to an event.
use shadowroller.Common.{
  ◌≡◌, refl, sym, ap, ◌∙◌, ◌≢◌, inl, inr, Bool, true, ◌&&◌, ◌||◌, not, arith, String, List, [], ◌∷◌,
  Option, some, str_eq, if◌then◌else◌, ◌++◌, eqb_ℤ,
}
use shadowroller.Player.{Player}
use shadowroller.Event.{Event, get_id, get_player_id, get_share}
use shadowroller.Event.Share.{IsShare, share_gms}
use shadowroller.Update.{EventUpdate, event, elements}
use shadowroller.Game.Share.{
  packet, Message, publish_packet, publish_packets, update_channel, game_channel, player_channel,
  gms_channel, player_can_see_event,
}
use shadowroller.Game.History.{Command, publish, sent, replace_commands, update_event, published}
use shadowroller.Game.History.Commands.{update_event-sent}
use shadowroller.Game.Subscribe.{PubSub}
use shadowroller.Routes.Subscription.{received}
use shadowroller.Delivery.Receives.{
  IsPlayerId, update_text, Receives, Receives-in_game, Receives-private, Receives-gms_only,
}
use shadowroller.Delivery.Packets.{Encoder}

-- The message of an update that goes to one channel without a filter.
message : Encoder → String → EventUpdate → Message
message enc channel u = record { channel = channel; payload = enc.encode (elements (event u)) }

some_injective : {A : Type 0} {a b : A} → some a ≡ some b → a ≡ b
some_injective h = cc

module _ (pubsub : PubSub) (enc : Encoder) (g p : String) (is_gm : Bool) (texts : List String) where
  one_message :
      (channel : String) (u : EventUpdate)
      → Receives pubsub enc g p is_gm (packet channel [] u ∷ []) texts
      → received pubsub g p is_gm (message enc channel u ∷ []) ≡ texts
  unfolding publish_packets message publish_packet
  one_message channel u (ms, all, r) =
      ap (received pubsub g p is_gm)
        (some_injective (sym (rw (enc.marshal_lem (elements (event u))) (refl)) ∙ all))
      ∙ r

module _ (pubsub : PubSub) (enc : Encoder) (marshal_event : Event → Option String) (g p : String)
    (is_gm : Bool) (evt : Event) (u : EventUpdate) where
  -- The pipeline is sent and returns no error, and the player is sent these texts.
  abbrev Sends : List String → Type 0
  Sends texts =
      (commands : List Command) × (update_event marshal_event enc.marshal g evt u
        ≡ sent commands true)
      × (received pubsub g p is_gm (published commands) ≡ texts)

  sends :
      (text channel : String) (texts : List String)
      → marshal_event evt ≡ some text
      → update_channel g (get_player_id evt) (get_share evt) ≡ some channel
      → Receives pubsub enc g p is_gm (packet channel [] u ∷ []) texts
      → Sends texts
  unfolding published replace_commands message
  sends text channel texts m c r = (
    replace_commands (get_id evt) text ++ (publish (message enc channel u) ∷ []),
    update_event-sent marshal_event enc.marshal g evt u text (enc.encode (elements (event u)))
        channel c m (enc.marshal_lem (elements (event u))),
    one_message pubsub enc g p is_gm texts channel u r,
  )

-- The author of an event that is shared with the GMs, who is no GM.
abbrev pub is_missed : Player → Bool → Event → Bool
is_missed plr is_gm evt =
    eqb_ℤ (get_share evt) share_gms && str_eq (get_player_id evt) plr.id && not is_gm

module _ (pubsub : PubSub) (enc : Encoder) (marshal_event : Event → Option String) (g : String)
    (plr : Player) (is_gm : Bool) (evt : Event) (u : EventUpdate) where
  -- What is told of the update: to those who can see the event, but for the one who is missed.
  abbrev IsTold : Type 0
  IsTold =
      (commands : List Command) × (update_event marshal_event enc.marshal g evt u
        ≡ sent commands true)
      × (can_see : Bool) × (player_can_see_event plr is_gm evt ≡ some can_see)
      × (received pubsub g plr.id is_gm (published commands)
          ≡ (if can_see && not (is_missed plr is_gm evt) then update_text enc u ∷ [] else []))

  told :
      (can_see : Bool) (texts : List String)
      → Sends pubsub enc marshal_event g plr.id is_gm evt u texts
      → player_can_see_event plr is_gm evt ≡ some can_see
      → texts ≡ (if can_see && not (is_missed plr is_gm evt) then update_text enc u ∷ [] else [])
      → IsTold
  told can_see texts (commands, all, r) visible e = (commands, all, can_see, visible, r ∙ e)

  -- An update to an event in one of the three share states is sent, once, to exactly those who can see
  -- the event, but for one case: where the event is shared with the GMs, an author who is no GM can
  -- see it, and is not sent the update. The event can be encoded, and the ids of the player and of the
  -- author are not "gms", and that of the author holds no comma and no space.
  pub received-update_event :
      (text : String)
      → marshal_event evt ≡ some text
      → plr.id ≢ "gms"
      → IsPlayerId (get_player_id evt)
      → IsShare (get_share evt)
      → (commands : List Command) × (update_event marshal_event enc.marshal g evt u
          ≡ sent commands true)
        × (can_see : Bool) × (player_can_see_event plr is_gm evt ≡ some can_see)
        × (received pubsub g plr.id is_gm (published commands)
            ≡ (if can_see && not (is_missed plr is_gm evt) then update_text enc u ∷ [] else []))
  unfolding update_channel player_can_see_event
  received-update_event text m not_gms author (inl e) =
      told true (update_text enc u ∷ [])
        (sends pubsub enc marshal_event g plr.id is_gm evt u text (game_channel g) _ m (rw e)
          (Receives-in_game pubsub enc g plr.id (get_player_id evt) is_gm not_gms author u))
        (rw e) (rw e)
  received-update_event text m not_gms author (inr (inl e)) =
      told (str_eq (get_player_id evt) plr.id) _
        (sends pubsub enc marshal_event g plr.id is_gm evt u text
          (player_channel g (get_player_id evt)) _ m (rw e)
          (Receives-private pubsub enc g plr.id (get_player_id evt) is_gm not_gms author u))
        (rw e) (rw e (ground arith))
  received-update_event text m not_gms author (inr (inr e)) =
      told (str_eq (get_player_id evt) plr.id || is_gm) _
        (sends pubsub enc marshal_event g plr.id is_gm evt u text (gms_channel g) _ m (rw e)
          (Receives-gms_only pubsub enc g plr.id (get_player_id evt) is_gm not_gms author u))
        (rw e) (rw e (ground arith))
