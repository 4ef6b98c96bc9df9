-- ===== src/Lookup/Players.antt =====
-- server/player/player.go: players in Redis. `Scan` of go-redis is the parameter `scan`, and `to_map` is
-- `StructToStringMap` on the struct.
pub mod Ids
pub mod Keys
pub mod Created
use Prim.Native.String.{◌++◌}
use shadowroller.Common.{
  ℕ, Bool, true, false, List, [], ◌∷◌, Option, none, some, String, str_eq, ◌==◌, ltb, length,
  if◌then◌else◌,
}
use shadowroller.Common.Dict.{Dict}
use shadowroller.Errs.{Err, bad_request, not_found, wrap, plain}
use shadowroller.Errs.Answer.{Answer, ok, err}
use shadowroller.Action.{Action, Result, done, ended}
use shadowroller.Http.Halt.{value}
use shadowroller.Player.{Player, redis_key}
use shadowroller.Redis.{Client, Reply, nil_reply, failed, reply, answer}

abbrev pub err_nil_player : Err
err_nil_player = plain "nil PlayerID requested"

-- What `GetByID` returns of the scanned struct.
scanned : String → Option Player → Answer Player
scanned id none = err (plain "scanning player")
scanned id (some plr) =
    if str_eq plr.username ""
    then err (wrap err_nil_player "no data after redis parse")
    else ok (record plr { id = id })

player_data : (Dict String → Option Player) → String → Reply (Dict String) → Answer Player
unfolding scanned
player_data scan id nil_reply = err (wrap not_found "player")
player_data scan id (failed e) = err (wrap e "redis error retrieving data")
player_data scan id (reply []) = err (wrap not_found "player")
player_data scan id (reply (field ∷ fields)) = scanned id (scan (field ∷ fields))

id_reply : Reply String → Answer String
id_reply nil_reply = err (wrap not_found "player")
id_reply (failed e) = err (wrap e "redis error getting player ID")
id_reply (reply id) = if str_eq id "" then err (wrap not_found "no ID mapping") else ok id

module _ (redis : Client) where
  -- `Exists`
  unfoldable pub player_exists : String → redis.Store → Answer Bool
  player_exists id s =
      if str_eq id ""
      then err (wrap err_nil_player "empty PlayerID passed to PlayerExists")
      else elim (answer (redis.exists ("player:" ++ id) s)) [
        | ok count ↦ ok (count == 1)
        | err e ↦ err e
      ]

  -- `GetByID`
  unfoldable pub get_player : (Dict String → Option Player) → String → redis.Store → Answer Player
  unfolding player_data
  get_player scan id s =
      if str_eq id ""
      then err (wrap err_nil_player "empty PlayerID passed to player.GetByID")
      else player_data scan id (redis.hgetall ("player:" ++ id) s)

  unfoldable pub get_id_of : String → redis.Store → Answer String
  unfolding id_reply
  get_id_of username s =
      if str_eq username ""
      then err (wrap err_nil_player "empty username passed to player.GetIDOf")
      else id_reply (redis.hget "player_ids" username s)

  unfoldable pub get_by_username :
      (Dict String → Option Player) → String → redis.Store → Answer Player
  unfolding id_reply
  get_by_username scan username s =
      if str_eq username ""
      then err (wrap err_nil_player "empty username passed to player.GetByUsername")
      else elim (id_reply (redis.hget "player_ids" username s)) [
        | err e ↦ err e
        | ok id ↦ get_player scan id s
      ]

  undone : Reply ℕ → Option Err
  undone (failed e) = some (wrap e "unable to delete conflicting player")
  undone nil_reply = some (plain "redis: nil")
  undone (reply count) = some (wrap bad_request "player already exists")

  -- The rest of `Create` after its transaction.
  after_create : String → ℕ → Reply (Bool × ℕ) → Action redis.Store (Option Err)
  unfolding undone
  after_create key fields nil_reply s = (done (some (plain "redis: nil")), s)
  after_create key fields (failed e) s = (done (some (wrap e "running pipeline")), s)
  after_create key fields (reply (false, count)) s =
      let (r, s') = redis.del key s in (done (undone r), s')
  after_create key fields (reply (true, count)) s =
      (done (if ltb count fields then some (plain "expected fields to be added") else none), s)

  keyed_create : Player → Dict String → Option String → Action redis.Store (Option Err)
  unfolding after_create
  keyed_create plr fields none s = (ended (value "Attempted to call redisKey() on nil player"), s)
  keyed_create plr fields (some key) s =
      let (r, s') = redis.hset_nx_hset "player_ids" plr.username plr.id key fields s in
      after_create key (length fields) r s'

  -- `Create` of a player that is not nil: the error, if any.
  unfoldable pub create_player :
      (Player → Option (Dict String)) → Player → Action redis.Store (Option Err)
  unfolding keyed_create
  create_player to_map plr s = elim (to_map plr) [
    | none ↦ (done (some (plain "unable to serialize player")), s)
    | some fields ↦ keyed_create plr fields (redis_key plr) s
  ]
