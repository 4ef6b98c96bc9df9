-- ===== src/Delivery/Receives.antt =====
-- The lists of packets of server/game/eventShare.go: what a player of the game is sent of each.
use Prim.Native.Char.{code}
use shadowroller.Common.{
  ◌≡◌, ◌∙◌, ◌≢◌, Bool, String, List, [], ◌∷◌, some, str_eq, arith, if◌then◌else◌,
}
use shadowroller.Common.Text.{Without}
use shadowroller.Update.{EventUpdate, event, elements}
use shadowroller.Update.Filter.{IsPlain}
use shadowroller.Game.Share.{
  Packet, packet, Message, publish_packets, game_channel, player_channel, gms_channel,
}
use shadowroller.Game.Share.Channels.{str_eq_of_ne}
use shadowroller.Game.Subscribe.{PubSub}
use shadowroller.Game.Subscribe.Members.{contains-game, contains-gms, contains-player}
use shadowroller.Routes.Subscription.{received}
use shadowroller.Delivery.Packets.{Encoder, received-publish_packets}

-- An id that the channels and the filter text can carry: not "gms", and no comma or space in it.
abbrev pub IsPlayerId : String → Type 0
IsPlayerId id = (id ≢ "gms") × Without (code ",") id × Without (code " ") id

-- The text of an update.
abbrev pub update_text : Encoder → EventUpdate → String
update_text enc u = enc.encode (elements (event u))

module _ (pubsub : PubSub) (enc : Encoder) (g p : String) (is_gm : Bool) where
  -- The packets are published, and the player is sent these texts of them.
  abbrev pub Receives : List Packet → List String → Type 0
  Receives ks texts =
      (ms : List Message) × (publish_packets enc.marshal ks ≡ some ms)
      × (received pubsub g p is_gm ms ≡ texts)

module _ (pubsub : PubSub) (enc : Encoder) (g p a : String) (is_gm : Bool) (not_gms : p ≢ "gms")
    (author : IsPlayerId a) where
  abbrev pub skip_author : IsPlain (a ∷ [])
  skip_author = ((author.1, tt), (author.2, tt))

  pub Receives-in_game :
      (u : EventUpdate)
      → Receives pubsub enc g p is_gm (packet (game_channel g) [] u ∷ []) (update_text enc u ∷ [])
  Receives-in_game u =
      let (ms, e, r) =
        received-publish_packets pubsub enc g p is_gm (packet (game_channel g) [] u ∷ [])
          ((tt, tt), tt) in
      (ms, e, r ∙ rw (contains-game g p is_gm))

  pub Receives-private :
      (u : EventUpdate)
      → Receives pubsub enc g p is_gm
          (packet (player_channel g a) [] u ∷ [])
          (if str_eq a p then update_text enc u ∷ [] else [])
  Receives-private u =
      let (ms, e, r) =
        received-publish_packets pubsub enc g p is_gm (packet (player_channel g a) [] u ∷ [])
          ((tt, tt), tt) in
      (ms, e, r ∙ rw (contains-player g p is_gm a author.0) (ground arith))

  pub Receives-gms :
      (u v : EventUpdate)
      → Receives pubsub enc g p is_gm
          (packet (gms_channel g) (a ∷ []) u ∷ packet (player_channel g a) [] v ∷ [])
          (if str_eq a p
            then update_text enc v ∷ []
            else if is_gm
            then update_text enc u ∷ []
            else [])
  Receives-gms u v =
      let (ms, e, r) =
        received-publish_packets pubsub enc g p is_gm
          (packet (gms_channel g) (a ∷ []) u ∷ packet (player_channel g a) [] v ∷ [])
          (skip_author, ((tt, tt), tt)) in
      (
        ms,
        e,
        r
            ∙ rw
                (
                  contains-player g p is_gm a author.0,
                  contains-gms g p is_gm not_gms,
                  str_eq_of_ne a "gms" author.0,
                )
                (ground arith),
      )

  pub Receives-gms_only :
      (u : EventUpdate)
      → Receives pubsub enc g p is_gm
          (packet (gms_channel g) [] u ∷ [])
          (if is_gm then update_text enc u ∷ [] else [])
  Receives-gms_only u =
      let (ms, e, r) =
        received-publish_packets pubsub enc g p is_gm (packet (gms_channel g) [] u ∷ [])
          ((tt, tt), tt) in
      (ms, e, r ∙ rw (contains-gms g p is_gm not_gms) (ground arith))

  pub Receives-game_but_author :
      (u v : EventUpdate)
      → Receives pubsub enc g p is_gm
          (packet (game_channel g) (a ∷ []) u ∷ packet (player_channel g a) [] v ∷ [])
          (if str_eq a p then update_text enc v ∷ [] else update_text enc u ∷ [])
  Receives-game_but_author u v =
      let (ms, e, r) =
        received-publish_packets pubsub enc g p is_gm
          (packet (game_channel g) (a ∷ []) u ∷ packet (player_channel g a) [] v ∷ [])
          (skip_author, ((tt, tt), tt)) in
      (
        ms,
        e,
        r
            ∙ rw
                (
                  contains-player g p is_gm a author.0,
                  contains-game g p is_gm,
                  str_eq_of_ne a "gms" author.0,
                )
                (ground arith),
      )

  gms_text_IsPlain : Without (code ",") "gms" × Without (code " ") "gms"
  gms_text_IsPlain = omega arith

  pub Receives-gms_to_game :
      (u v w : EventUpdate)
      → Receives pubsub enc g p is_gm
          (packet (gms_channel g) (a ∷ []) u
            ∷ packet (player_channel g a) [] v
            ∷ packet (game_channel g) (a ∷ "gms" ∷ []) w
            ∷ [])
          (if str_eq a p
            then update_text enc v ∷ []
            else if is_gm
            then update_text enc u ∷ []
            else update_text enc w ∷ [])
  Receives-gms_to_game u v w =
      let (ms, e, r) =
        received-publish_packets pubsub enc g p is_gm
          (packet (gms_channel g) (a ∷ []) u
            ∷ packet (player_channel g a) [] v
            ∷ packet (game_channel g) (a ∷ "gms" ∷ []) w
            ∷ [])
          (
            skip_author,
            (
              (tt, tt),
              (((author.1, (gms_text_IsPlain.0, tt)), (author.2, (gms_text_IsPlain.1, tt))), tt),
            ),
          ) in
      (
        ms,
        e,
        r
            ∙ rw
                (
                  contains-player g p is_gm a author.0,
                  contains-game g p is_gm,
                  contains-gms g p is_gm not_gms,
                  str_eq_of_ne a "gms" author.0,
                )
                (ground arith),
      )

  pub Receives-game_to_gms :
      (u v w : EventUpdate)
      → Receives pubsub enc g p is_gm
          (packet (game_channel g) ("gms" ∷ a ∷ []) w
            ∷ packet (gms_channel g) (a ∷ []) u
            ∷ packet (player_channel g a) [] v
            ∷ [])
          (if str_eq a p
            then update_text enc v ∷ []
            else if is_gm
            then update_text enc u ∷ []
            else update_text enc w ∷ [])
  Receives-game_to_gms u v w =
      let (ms, e, r) =
        received-publish_packets pubsub enc g p is_gm
          (packet (game_channel g) ("gms" ∷ a ∷ []) w
            ∷ packet (gms_channel g) (a ∷ []) u
            ∷ packet (player_channel g a) [] v
            ∷ [])
          (
            ((gms_text_IsPlain.0, (author.1, tt)), (gms_text_IsPlain.1, (author.2, tt))),
            (skip_author, ((tt, tt), tt)),
          ) in
      (
        ms,
        e,
        r
            ∙ rw
                (
                  contains-player g p is_gm a author.0,
                  contains-game g p is_gm,
                  contains-gms g p is_gm not_gms,
                  str_eq_of_ne a "gms" author.0,
                )
                (ground arith),
      )
