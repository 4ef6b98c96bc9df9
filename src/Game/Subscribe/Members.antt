-- ===== src/Game/Subscribe/Members.antt =====
-- server/game/subscribe.go: which channels a player is subscribed to.
use shadowroller.Common.{◌≡◌, sym, ◌≢◌, Bool, true, String, str_eq, eq_refl, arith}
use shadowroller.Game.Share.{game_channel, player_channel, gms_channel}
use shadowroller.Game.Share.Channels.{
  str_eq_of_ne, game-ne-player, game-ne-gms, player-ne-gms, str_eq-player,
}
use shadowroller.Game.Subscribe.{channels, contains}

module _ (g p : String) (is_gm : Bool) where
  -- Everyone in the game is subscribed to its channel.
  pub contains-game : contains (game_channel g) (channels g p is_gm) ≡ true
  unfolding channels
  contains-game = rw (eq_refl (game_channel g))

  -- Exactly the GMs are subscribed to the channel of the GMs.
  pub contains-gms : p ≢ "gms" → contains (gms_channel g) (channels g p is_gm) ≡ is_gm
  unfolding channels
  contains-gms h =
      rw
        (
          str_eq_of_ne (gms_channel g) (game_channel g) (λ e. game-ne-gms g (sym e)),
          str_eq_of_ne (gms_channel g) (player_channel g p) (λ e. player-ne-gms g p h (sym e)),
        )
        (ground (arith, eq_refl (gms_channel g)))

  -- Exactly that player is subscribed to the channel of a player.
  pub contains-player :
      (a : String) → a ≢ "gms" → contains (player_channel g a) (channels g p is_gm) ≡ str_eq a p
  unfolding channels
  contains-player a h =
      rw
        (
          str_eq_of_ne (player_channel g a) (game_channel g) (λ e. game-ne-player g a (sym e)),
          str_eq-player g a p,
        )
        (ground (arith, str_eq_of_ne (player_channel g a) (gms_channel g) (player-ne-gms g a h)))
