-- ===== src/Routes/Auth.antt =====
-- handleLogin, handleReauth and handleLogout of server/routes/auth.go.
pub mod Access
use shadowroller.Common.{
  ℕ, Bool, true, false, ◌||◌, not, List, [], ◌∷◌, Option, none, some, String, str_eq, if◌then◌else◌,
}
use shadowroller.Common.Dict.{Dict}
use shadowroller.Errs.{Err, no_access, wrap}
use shadowroller.Errs.Answer.{Answer, ok, err}
use shadowroller.Errs.Is.{is_not_found, is_no_access}
use shadowroller.Http.Halt.{Panic, error}
use shadowroller.Action.{Action, Result, done, ended, pure, panic, ◌>>=◌, ◌>>◌}
use shadowroller.Player.{Player, Info}
use shadowroller.Lookup.Games.{GameInfo, get_info, log_player_in}
use shadowroller.Lookup.Players.{get_player}
use shadowroller.Session.{Session, new_session, create_session, get_session, remove_session}
use shadowroller.Routes.Args.{Env, Handler, as_internal, must, must_session, must_read}

pub record LoginRequest : Type 0 where
  pub game_id : String
  pub username : String
  pub persist : Bool

pub record LoginResponse : Type 0 where
  pub player : Player
  pub game_info : GameInfo
  pub session : String

-- `Halt(errs.NoAccess(err))`
abbrev pub as_no_access : (Err → String) → Err → Panic
as_no_access print e = error (wrap no_access (print e))

-- The two halts on the error of `LogPlayerIn`.
abbrev pub as_login : (Err → String) → Err → Panic
as_login print e =
    if is_no_access e || is_not_found e then as_no_access print e else as_internal print e

-- Whether the loop over the players of the game finds the id.
unfoldable pub has_player : String → Dict Info → Bool
has_player player_id [] = false
has_player player_id ((id, info) ∷ players) = str_eq id player_id || has_player player_id players

module _ (env : Env) where
  -- `HaltInternal` on the error of a call, if there is one.
  no_error : Option Err → Handler env (Unit {0})
  no_error none = pure tt
  no_error (some e) = panic (as_internal env.print e)

  -- `handleLogin`; the session's id is random.
  unfoldable pub handle_login : Answer LoginRequest → String → Handler env LoginResponse
  unfolding no_error
  handle_login body session_id = do
    login ← must_read env body
    found ←
        must (as_login env.print) (
          log_player_in env.redis env.scan_player env.retries env.watch login.game_id
            login.username)
    let sess = new_session session_id found.1 login.game_id login.persist in
        do
          created ← create_session env.redis env.ttl sess
          no_error created
          pure (record { player = found.1; game_info = found.0; session = sess.id })

  -- The session is removed, and the request refused.
  invalid : {A : Type 0} → Session → Handler env A
  unfolding no_error
  invalid sess = remove_session env.redis sess >>= λ removed.
      no_error removed >> panic (error (wrap no_access "Your session is invalid"))

  -- A call that is given what was found, where what is not found ends the session.
  found_or_invalid : {A : Type 0} → Session → Answer A → Handler env A
  unfolding invalid
  found_or_invalid sess (ok a) = pure a
  found_or_invalid sess (err e) =
      if is_not_found e then invalid sess else panic (as_internal env.print e)

  removed_unless : Bool → Session → Handler env (Unit {0})
  unfolding no_error
  removed_unless true sess = pure tt
  removed_unless false sess = remove_session env.redis sess >>= no_error

  -- `handleReauth` once the session is known.
  reauth_session : Session → Handler env LoginResponse
  unfolding found_or_invalid removed_unless
  reauth_session sess = do
    game_info ← λ s.
        found_or_invalid sess
          (get_info env.redis env.scan_player env.retries env.watch sess.game_id s) s
    removed_unless (has_player sess.player_id game_info.players) sess
    plr ← λ s. found_or_invalid sess (get_player env.redis env.scan_player sess.player_id s) s
    pure (record { player = plr; game_info = game_info; session = sess.id })

  -- `handleReauth`, on the session id of the body.
  unfoldable pub handle_reauth : Answer String → Handler env LoginResponse
  unfolding reauth_session
  handle_reauth body = do
    session_id ← must_read env body
    sess ← must (as_no_access env.print) (get_session env.redis env.scan_session session_id)
    reauth_session sess

  -- `handleLogout`
  unfoldable pub handle_logout : String → Handler env (Unit {0})
  unfolding no_error
  handle_logout header = do
    sess ← must_session env header
    removed ← remove_session env.redis sess
    no_error removed
