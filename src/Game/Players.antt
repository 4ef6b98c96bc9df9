-- ===== src/Game/Players.antt =====
-- server/game/game.go, and AddPlayer and UpdatePlayer of server/game/playerManager.go: the game's key,
-- its GMs and its players in Redis. The commands on sets and hashes are a parameter, and Redis answers
-- them.
pub mod Gms
mod Tests
use Prim.Native.String.{◌++◌}
use shadowroller.Common.{
  Bool, true, false, ◌&&◌, ◌||◌, not, List, [], ◌∷◌, Option, none, some, String, str_eq,
  if◌then◌else◌,
}
use shadowroller.Common.Dict.{Dict}
use shadowroller.Errs.{Err, bad_request, wrap}
use shadowroller.Player.{Player}
use shadowroller.Update.{
  Value, PlayerUpdate, player, player_online, player_diff, player_add, is_empty, Element, elements,
  for_player_add,
}
use shadowroller.Game.Share.{Message}

-- EXISTS, HSETNX, SISMEMBER, SMEMBERS and SADD; the flags of HSETNX and SADD tell whether they added
-- something.
pub record Redis : Type 1 where
  pub Store : Type 0
  pub exists : String → Store → Bool
  pub hset_nx : String → String → String → Store → Bool × Store
  pub sis_member : String → String → Store → Bool
  pub smembers : String → Store → List String
  pub sadd : String → String → Store → Bool × Store

-- `IsGM`
unfoldable pub is_gm : List String → String → Bool
is_gm [] player_id = false
is_gm (gm_id ∷ gms) player_id = str_eq gm_id player_id || is_gm gms player_id

module _ (redis : Redis) where
  -- `Exists`
  unfoldable pub game_exists : String → redis.Store → Bool
  game_exists game_id s = redis.exists ("game:" ++ game_id) s

  unfoldable pub has_gm : String → String → redis.Store → Bool
  has_gm game_id player_id s = redis.sis_member ("gm:" ++ game_id) player_id s

  unfoldable pub get_gms : String → redis.Store → List String
  get_gms game_id s = redis.smembers ("gms:" ++ game_id) s

  -- `Create`: the error, if any.
  unfoldable pub create : String → redis.Store → Option Err × redis.Store
  create game_id s =
      let (created, s') = redis.hset_nx ("game:" ++ game_id) "event_id" "0" s in
      (if created then none else some (wrap bad_request "creating game: game already exists"), s')

  unfoldable pub add_gm : String → String → redis.Store → redis.Store
  add_gm game_id player_id s = (redis.sadd ("gms:" ++ game_id) player_id s).1

-- `AddPlayer`: nothing is sent if the update cannot be encoded; otherwise the message is published with
-- the player added, and it is an error if the player was in the set already.
pub data Added : Type 0 where
  not_sent : Added
  published : Message → Bool → Added

module _ (redis : Redis) (marshal : List Element → Option String) where
  unfoldable pub add_player : String → Player → redis.Store → Added × redis.Store
  add_player game_id plr s = elim (marshal (elements (player (for_player_add plr)))) [
    | none ↦ (not_sent, s)
    | some text ↦
        let (added, s') = redis.sadd ("players:" ++ game_id) plr.id s in
        (published (record { channel = "update:" ++ game_id; payload = text }) added, s')
  ]

-- The fields that `MakeRedisCommand` writes and their key; `none` is an error. `to_map` is
-- `StructToStringMap`.
unfoldable pub make_redis_command :
    (Player → Option (Dict Value)) → PlayerUpdate → Option (String × Dict Value)
make_redis_command to_map (player_online id online) = none
make_redis_command to_map (player_diff id diff) = some ("player:" ++ id, diff)
make_redis_command to_map (player_add plr) = elim (to_map plr) [
  | none ↦ none
  | some fields ↦ some ("player:" ++ plr.id, fields)
]

-- The commands of `UpdatePlayer`: an HSET, and a PUBLISH.
pub record Commands : Type 0 where
  pub hset : Option (String × Dict Value)
  pub publish : Option Message

internal_command :
    (Player → Option (Dict Value)) → PlayerUpdate → Option (Option (String × Dict Value))
internal_command to_map u =
    if is_empty u
    then some none
    else elim (make_redis_command to_map u) [ none ↦ none | some command ↦ some (some command) ]

external_message : (List Element → Option String) → String → PlayerUpdate → Option (Option Message)
external_message marshal game_id u =
    if is_empty u then some none else elim (marshal (elements (player u))) [
      | none ↦ none
      | some text ↦ some (some (record { channel = "update:" ++ game_id; payload = text }))
    ]

both : Option (Option (String × Dict Value)) → Option (Option Message) → Option Commands
both none m = none
both (some h) none = none
both (some h) (some m) = some (record { hset = h; publish = m })

-- `UpdatePlayer`: the commands of its transaction, or `none` for an error, when nothing is sent.
unfoldable pub update_player :
    (Player → Option (Dict Value))
    → (List Element → Option String)
    → String
    → PlayerUpdate
    → PlayerUpdate
    → Option Commands
unfolding internal_command external_message both
update_player to_map marshal game_id external internal =
    if is_empty internal && is_empty external
    then none
    else both (internal_command to_map internal) (external_message marshal game_id external)
