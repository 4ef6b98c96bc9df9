-- ===== src/Player/Names.antt =====
-- server/player/player.go, MapByID: the players of a list by their ids.
use shadowroller.Common.{
  ◌≡◌, refl, ◌∙◌, List, [], ◌∷◌, Option, none, some, String, str_eq, if◌then◌else◌,
}
use shadowroller.Common.Dict.{Dict, lookup, assign, lookup-assign}
use shadowroller.Player.{Player, map_by_id, map_loop}

-- The last player of the list with the id, or else the given one.
abbrev pub last_with : String → Option Player → List Player → Option Player
last_with id found [] = found
last_with id found (plr ∷ players) =
    last_with id (if str_eq plr.id id then some plr else found) players

lookup-map_loop :
    (id : String) (players : List Player) (result : Dict Player)
    → lookup id (map_loop result players) ≡ last_with id (lookup id result) players
unfolding map_loop
lookup-map_loop id [] result = refl
lookup-map_loop id (plr ∷ players) result =
    lookup-map_loop id players (assign plr.id plr result) ∙ rw (lookup-assign plr.id id plr result)

-- Each id that a player of the list has is mapped to the last such player, and no other id is mapped.
pub lookup-map_by_id :
    (id : String) (players : List Player)
    → lookup id (map_by_id players) ≡ last_with id none players
unfolding map_by_id
lookup-map_by_id id players = lookup-map_loop id players [] ∙ unfold lookup in refl
