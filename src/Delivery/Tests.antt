-- ===== src/Delivery/Tests.antt =====
-- The theorems about the updates of events at a concrete game.
use shadowroller.Common.{
  ◌&&◌, not, ◌≡◌, refl, ◌≢◌, inl, inr, Bool, true, false, String, List, [], ◌∷◌, some, map, keep,
  pos, str_eq, eq_iff, if◌then◌else◌, arith,
}
use shadowroller.Player.{Player}
use shadowroller.Event.{Event, initiative_roll, get_player_id, get_share, set_share, core_of}
use shadowroller.Event.Share.{share_private, share_gms}
use shadowroller.Update.{
  Element, type_text, elements, for_event_share, for_new_event, for_event_delete,
}
use shadowroller.Game.Share.{
  Packet, packet, Message, publish_packets, player_can_see_event, create_or_delete_packets,
  share_packets_modifying_event, game_channel, player_channel, gms_channel,
}
use shadowroller.Game.Subscribe.{PubSub, contains}
use shadowroller.Game.History.{Command, sent, update_event, published}
use shadowroller.Routes.Subscription.{received}
use shadowroller.Delivery.Packets.{Encoder, text_of, reaches, received-publish_packets}
use shadowroller.Delivery.Receives.{IsPlayerId, update_text, Receives}
use shadowroller.Delivery.Events.{received-create_or_delete}
use shadowroller.Delivery.Shares.{change, received-share_packets}
use shadowroller.Delivery.Updates.{is_missed, received-update_event}

abbrev deliver : List String → List Message → List Message
deliver subs [] = []
deliver subs (m ∷ ms) = if contains m.channel subs then m ∷ deliver subs ms else deliver subs ms

abbrev pubsub : PubSub
pubsub = record { deliver = deliver; deliver-nil = λ subs. refl; deliver-cons = λ subs m ms. refl }

-- The type of an update stands for its text.
abbrev brief : List Element → String
brief (type_text ty ∷ els) = ty
brief _ = ""

abbrev encoder : Encoder
encoder = record {
  marshal = λ els. some (String.◌∷◌ "[" (brief els));
  encode = λ els. String.◌∷◌ "[" (brief els);
  marshal_lem = λ els. refl;
  encode_array = λ els. (brief els, refl);
}

abbrev bob : Player
bob = record {
  id = "bob";
  name = "Bob";
  hue = pos 3;
  username = "bob";
  connections = pos 1;
  online_mode = pos 0;
}

abbrev ann : Player
ann = record bob { id = "ann"; name = "Ann" }

abbrev shared_with_gms : Event
shared_with_gms = initiative_roll (record {
  core = record {
    id = 7;
    ty = "initiativeRoll";
    edit = 0;
    share = share_gms;
    player_id = "ann";
    player_name = "Ann";
  };
  title = "ambush";
  base = pos 4;
  dice = 3 ∷ 5 ∷ [];
  seized = false;
  blitzed = false;
})

other_text : (s t : String) → str_eq s t ≡ false → s ≢ t
other_text s t h e = ground (arith, eq_iff s t)

gms_not_private : share_gms ≢ share_private
gms_not_private = ground arith

ann_IsPlayerId : IsPlayerId "ann"
ann_IsPlayerId = (other_text "ann" "gms" refl, omega arith, omega arith)

-- "gms" hears of the deletion, then "ann" of the change; "bob" is a GM.
abbrev packets : List Packet
packets =
    packet (game_channel "g") ("gms" ∷ "ann" ∷ []) (for_event_delete 7)
    ∷ packet (player_channel "g" "ann") [] (for_new_event shared_with_gms)
    ∷ packet (gms_channel "g") ("ann" ∷ []) (for_event_share shared_with_gms share_gms)
    ∷ []

received-publish_packets_example :
    (ms : List Message) × (publish_packets encoder.marshal packets ≡ some ms)
    × (received pubsub "g" "bob" true ms
        ≡ map (text_of encoder) (keep (reaches pubsub encoder "g" "bob" true) packets))
received-publish_packets_example =
    received-publish_packets pubsub encoder "g" "bob" true packets (omega arith)

received-create_or_delete_example :
    (ks : List Packet) × (create_or_delete_packets "g" shared_with_gms
        (for_new_event shared_with_gms)
      ≡ some ks)
    × (can_see : Bool) × (player_can_see_event bob true shared_with_gms ≡ some can_see)
    × Receives pubsub encoder "g" "bob" true ks (if can_see then "[+evt" ∷ [] else [])
unfolding get_player_id get_share core_of elements for_new_event
received-create_or_delete_example =
    received-create_or_delete pubsub encoder "g" bob true shared_with_gms
      (other_text "bob" "gms" refl) ann_IsPlayerId (for_new_event shared_with_gms) (inr (inr refl))

received-share_packets_example :
    (ks : List Packet) × (share_packets_modifying_event "g" shared_with_gms share_private
      ≡ (set_share share_private shared_with_gms, some ks))
    × (before after : Bool) × (player_can_see_event bob true shared_with_gms ≡ some before)
    × (player_can_see_event bob true (set_share share_private shared_with_gms) ≡ some after)
    × Receives pubsub encoder "g" "bob" true ks (change before after "[~evt" "[+evt" "[-evt")
unfolding get_player_id get_share core_of elements for_new_event for_event_share for_event_delete
received-share_packets_example =
    received-share_packets pubsub encoder "g" bob true shared_with_gms share_private
      (other_text "bob" "gms" refl) ann_IsPlayerId (inr (inr refl)) (inr (inl refl)) gms_not_private

received-update_event_example :
    (commands : List Command) × (update_event
        (λ e. some "{}")
        encoder.marshal
        "g"
        shared_with_gms
        (for_event_share shared_with_gms share_gms)
      ≡ sent commands true)
    × (can_see : Bool) × (player_can_see_event ann false shared_with_gms ≡ some can_see)
    × (received pubsub "g" "ann" false (published commands) ≡ (
        if can_see && not (is_missed ann false shared_with_gms)
        then update_text encoder (for_event_share shared_with_gms share_gms) ∷ []
        else []))
unfolding get_player_id get_share core_of elements for_event_share
received-update_event_example =
    received-update_event pubsub encoder (λ e. some "{}") "g" ann false shared_with_gms
      (for_event_share shared_with_gms share_gms) "{}" refl (other_text "ann" "gms" refl)
      ann_IsPlayerId (inr (inr refl))
