-- ===== src/Session.antt =====
-- server/session/session.go: sessions, and their life in Redis. `Scan` of go-redis is the parameter
-- `scan`, and the random id is an argument.
pub mod Keys
pub mod Removal
pub mod Lifetime
pub mod Stored
mod Tests
use Prim.Native.String.{◌++◌}
use shadowroller.Common.{
  ℕ, ◌*◌, Bool, true, false, ◌||◌, List, [], ◌∷◌, Option, none, some, String, str_eq, ◌==◌,
  if◌then◌else◌,
}
use shadowroller.Common.Dict.{Dict}
use shadowroller.Errs.{Err, plain, wrap}
use shadowroller.Errs.Answer.{Answer, ok, err}
use shadowroller.Http.Halt.{value}
use shadowroller.Action.{Action, Result, done, ended}
use shadowroller.Player.{Player}
use shadowroller.Redis.{Client, Reply, nil_reply, failed, reply, answer}
use shadowroller.Redis.Fields.{StructField, bool, string, struct_to_string_map}

pub record Session : Type 0 where
  pub id : String
  pub game_id : String
  pub player_id : String
  pub persist : Bool
  pub username : String

-- `Type()`
unfoldable pub session_type : Session → String
session_type sess = if sess.persist then "persist" else "temp"

-- `redisKey()`; `none` is the panic.
unfoldable pub session_key : Session → Option String
session_key sess = if str_eq sess.id "" then none else some ("session:" ++ sess.id)

-- `New`
unfoldable pub new_session : String → Player → String → Bool → Session
new_session id plr game_id persist = record {
  id = id;
  game_id = game_id;
  player_id = plr.id;
  persist = persist;
  username = plr.username;
}

text_field : String → String → String → StructField
text_field name tag text = record {
  name = name;
  tag = some tag;
  kind = string;
  text = text;
  can_interface = true;
}

-- The fields of the struct with their tags.
unfoldable pub session_fields : Session → List StructField
unfolding text_field
session_fields sess =
    text_field "ID" "-" sess.id
    ∷ text_field "GameID" "gameID" sess.game_id
    ∷ text_field "PlayerID" "playerID" sess.player_id
    ∷ record {
      name = "Persist";
      tag = some "persist";
      kind = bool;
      text = if sess.persist then "true" else "false";
      can_interface = true;
    }
    ∷ text_field "Username" "username" sess.username
    ∷ []

abbrev pub err_nil_session : Err
err_nil_session = plain "Nil sessionID requested"

abbrev pub err_no_session_data : Err
err_no_session_data = plain "Session not found"

-- `config.PersistSessionTTLDays` and `config.TempSessionTTLSecs`.
pub record Ttl : Type 0 where
  pub persist_days : ℕ
  pub temp_secs : ℕ

-- The seconds for which `Expire` keeps a session.
unfoldable pub ttl_of : Ttl → Session → ℕ
ttl_of config sess = if sess.persist then config.persist_days * 24 * 3600 else config.temp_secs

abbrev pub is_empty : Dict String → Bool
is_empty [] = true
is_empty (field ∷ fields) = false

-- The session once it is scanned, with its id.
unfoldable pub scanned : String → Option Session → Answer Session
scanned id none = err (plain "parsing session struct")
scanned id (some sess) =
    if str_eq sess.game_id "" || str_eq sess.player_id ""
    then err err_no_session_data
    else ok (record sess { id = id })

-- The error of a reply that is not the one wanted.
error_of : Reply Bool → Option Err
error_of nil_reply = some (plain "redis: nil")
error_of (failed e) = some (wrap e "session")
error_of (reply b) = none

module _ (redis : Client) where
  -- `Exists`, with the flag and the error.
  unfoldable pub session_exists : String → redis.Store → Answer Bool
  session_exists id s =
      if str_eq id ""
      then err err_nil_session
      else elim (answer (redis.exists ("session:" ++ id) s)) [
        | ok count ↦ ok (count == 1)
        | err e ↦ err e
      ]

  session_data : (Dict String → Option Session) → String → Reply (Dict String) → Answer Session
  unfolding scanned
  session_data scan id nil_reply = err (plain "redis: nil")
  session_data scan id (failed e) = err (wrap e "retrieving data")
  session_data scan id (reply fields) =
      if is_empty fields then err err_no_session_data else scanned id (scan fields)

  -- `GetByID`
  unfoldable pub get_session :
      (Dict String → Option Session) → String → redis.Store → Answer Session
  unfolding session_data
  get_session scan id s =
      if str_eq id ""
      then err err_nil_session
      else session_data scan id (redis.hgetall ("session:" ++ id) s)

  keyed_expire : Ttl → Session → Option String → Action redis.Store (Reply Bool)
  keyed_expire config sess none s = (ended (value "Attempted to call redisKey() on nil session"), s)
  keyed_expire config sess (some key) s =
      let (r, s') = redis.expire key (ttl_of config sess) s in (done r, s')

  -- `Expire`
  unfoldable pub expire_session : Ttl → Session → Action redis.Store (Reply Bool)
  unfolding keyed_expire
  expire_session config sess = keyed_expire config sess (session_key sess)

  keyed_persist : Option String → Action redis.Store (Reply Bool)
  keyed_persist none s = (ended (value "Attempted to call redisKey() on nil session"), s)
  keyed_persist (some key) s = let (r, s') = redis.persist key s in (done r, s')

  -- `Unexpire`
  unfoldable pub unexpire_session : Session → Action redis.Store (Reply Bool)
  unfolding keyed_persist
  unexpire_session sess = keyed_persist (session_key sess)

  -- The rest of `Create` after HMSET.
  after_hmset : Ttl → Session → Reply Bool → Action redis.Store (Option Err)
  unfolding expire_session error_of
  after_hmset config sess nil_reply s = (done (some (plain "redis: nil")), s)
  after_hmset config sess (failed e) s = (done (some (wrap e "HMSET adding session")), s)
  after_hmset config sess (reply false) s = (done (some (plain "HMSET adding session")), s)
  after_hmset config sess (reply true) s =
      let (r, s') = expire_session config sess s in
      elim r [ done b ↦ (done (error_of b), s') | ended p ↦ (ended p, s') ]

  keyed_create : Ttl → Session → Dict String → Option String → Action redis.Store (Option Err)
  unfolding after_hmset
  keyed_create config sess fields none s =
      (ended (value "Attempted to call redisKey() on nil session"), s)
  keyed_create config sess fields (some key) s =
      let (r, s') = redis.hmset key fields s in after_hmset config sess r s'

  -- `Create`: the error, if any.
  unfoldable pub create_session : Ttl → Session → Action redis.Store (Option Err)
  unfolding keyed_create
  create_session config sess s = elim (struct_to_string_map (session_fields sess)) [
    | none ↦ (done (some (plain "getting fields for session")), s)
    | some fields ↦ keyed_create config sess fields (session_key sess) s
  ]

  removed : Reply ℕ → Option Err
  removed nil_reply = some (plain "redis: nil")
  removed (failed e) = some (wrap e "sending redis DEL")
  removed (reply count) = if count == 1 then none else some (plain "expected 1 key deleted")

  keyed_remove : Option String → Action redis.Store (Option Err)
  unfolding removed
  keyed_remove none s = (ended (value "Attempted to call redisKey() on nil session"), s)
  keyed_remove (some key) s = let (r, s') = redis.del key s in (done (removed r), s')

  -- `Remove`: the error, if any.
  unfoldable pub remove_session : Session → Action redis.Store (Option Err)
  unfolding keyed_remove
  remove_session sess = keyed_remove (session_key sess)
