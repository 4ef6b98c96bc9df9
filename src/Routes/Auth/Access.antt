-- ===== src/Routes/Auth/Access.antt =====
-- Who is let in by a login and by a renewed session.
use shadowroller.Common.{◌≡◌, refl, ap, ◌∙◌, Bool, true, false, if◌then◌else◌, none, String}
use shadowroller.Errs.{Err, no_access, wrap}
use shadowroller.Errs.Answer.{Answer, ok, err}
use shadowroller.Errs.Is.{is_not_found}
use shadowroller.Http.Halt.{error}
use shadowroller.Action.{done, ended}
use shadowroller.Action.Reads.{then_done, then_ended}
use shadowroller.Player.{Player}
use shadowroller.Lookup.Games.{GameInfo, get_info}
use shadowroller.Lookup.Players.{get_player}
use shadowroller.Session.{Session, get_session, remove_session, err_no_session_data}
use shadowroller.Session.Keys.{Hashes}
use shadowroller.Session.Removal.{remove_session-found}
use shadowroller.Routes.Args.{Env}
use shadowroller.Routes.Args.Reads.{must_ok, must_read_ok}
use shadowroller.Routes.Auth.{
  handle_reauth, reauth_session, found_or_invalid, removed_unless, invalid, no_error, has_player,
}

module _ (env : Env) where
  -- The game of the session, as `GetInfo` answers.
  abbrev pub game_of : Session → env.redis.Store → Answer GameInfo
  game_of sess s = get_info env.redis env.scan_player env.retries env.watch sess.game_id s

  found :
      {A : Type 0} (sess : Session) (read : env.redis.Store → Answer A) (s : env.redis.Store)
      (a : A)
      → read s ≡ ok a
      → found_or_invalid env sess (read s) s ≡ (done a, s)
  unfolding found_or_invalid
  found sess read s a e = rw e

  lost :
      {A : Type 0} (sess : Session) (read : env.redis.Store → Answer A) (s s' : env.redis.Store)
      (e : Err)
      → read s ≡ err e
      → is_not_found e ≡ true
      → remove_session env.redis sess s ≡ (done none, s')
      → found_or_invalid env sess (read s) s
        ≡ (ended (error (wrap no_access "Your session is invalid")), s')
  unfolding found_or_invalid invalid no_error
  lost sess read s s' e q missing removed =
      rw (q, found_or_invalid, missing)
        (then_done _ _ s none s' removed ∙ then_done _ _ s' tt s' refl)

  until_session :
      (id : String) (s : env.redis.Store) (sess : Session)
      → get_session env.redis env.scan_session id s ≡ ok sess
      → handle_reauth env (ok id) s ≡ reauth_session env sess s
  unfolding handle_reauth
  until_session id s sess e =
      then_done _ _ s id s (must_read_ok env (ok id) s id refl)
      ∙ then_done _ _ s sess s (must_ok _ _ s sess e)

  -- What a removal of a session that is found leaves behind.
  abbrev pub without_session : Session → env.redis.Store → env.redis.Store
  without_session sess s = (remove_session env.redis sess s).1

  removes :
      (h : Hashes env.redis) (id : String) (s : env.redis.Store) (sess : Session)
      → get_session env.redis env.scan_session id s ≡ ok sess
      → (remove_session env.redis sess s ≡ (done none, without_session sess s))
        × (get_session env.redis env.scan_session id (without_session sess s)
            ≡ err err_no_session_data)
  removes h id s sess is_session =
      let (same, removed, gone) =
        remove_session-found env.redis env.scan_session h id sess s is_session in
      (ap (λ r. (r, without_session sess s)) removed, gone)

  renewed :
      (s s' : env.redis.Store) (sess : Session) (game : GameInfo) (plr : Player)
      → game_of sess s ≡ ok game
      → removed_unless env (has_player sess.player_id game.players) sess s ≡ (done tt, s')
      → get_player env.redis env.scan_player sess.player_id s' ≡ ok plr
      → reauth_session env sess s
        ≡ (done (record { player = plr; game_info = game; session = sess.id }), s')
  unfolding reauth_session
  renewed s s' sess game plr is_game removed is_player =
      then_done _ _ s game s (found sess (game_of sess) s game is_game)
      ∙ (then_done _ _ s tt s' removed
          ∙ then_done _ _ s' plr s'
              (found sess (get_player env.redis env.scan_player sess.player_id) s' plr is_player))

  stays : (sess : Session) (s : env.redis.Store) → removed_unless env true sess s ≡ (done tt, s)
  unfolding removed_unless
  stays sess s = refl

  goes :
      (sess : Session) (s s' : env.redis.Store)
      → remove_session env.redis sess s ≡ (done none, s')
      → removed_unless env false sess s ≡ (done tt, s')
  unfolding removed_unless no_error
  goes sess s s' removed = then_done _ _ s none s' removed

  -- A session that is found is renewed while Redis answers and its game can be read, in both cases with
  -- the player, the game and the id of the session: if the player is in the game, nothing changes and the
  -- session is still found; if not, and the player is stored, the session has been removed, so the id in
  -- the answer is that of an unknown session.
  pub handle_reauth_lem :
      (h : Hashes env.redis) (id : String) (s : env.redis.Store) (sess : Session) (game : GameInfo)
      (plr : Player)
      → get_session env.redis env.scan_session id s ≡ ok sess
      → game_of sess s ≡ ok game
      → (let s' = if has_player sess.player_id game.players then s else without_session sess s in
          get_player env.redis env.scan_player sess.player_id s' ≡ ok plr)
      → let member = has_player sess.player_id game.players in
        let s' = if member then s else without_session sess s in
        (handle_reauth env (ok id) s
          ≡ (done (record { player = plr; game_info = game; session = sess.id }), s'))
        × (sess.id ≡ id)
        × (get_session env.redis env.scan_session id s'
            ≡ (if member then ok sess else err err_no_session_data))
  handle_reauth_lem h id s sess game plr is_session is_game is_player =
      let (removed, gone) = removes h id s sess is_session in
      let (same, done_lem, gone_lem) =
        remove_session-found env.redis env.scan_session h id sess s is_session in
      (
        until_session id s sess is_session
            ∙ renewed s _ sess game plr is_game (unless_member _ removed) is_player,
        same,
        session_of_member _ gone,
      )
    where
      unless_member :
          (member : Bool)
          → remove_session env.redis sess s ≡ (done none, without_session sess s)
          → removed_unless env member sess s
            ≡ (done tt, if member then s else without_session sess s)
      unless_member true removed = stays sess s
      unless_member false removed = goes sess s (without_session sess s) removed

      session_of_member :
          (member : Bool)
          → get_session env.redis env.scan_session id (without_session sess s)
            ≡ err err_no_session_data
          → get_session env.redis env.scan_session id (if member then s else without_session sess s)
            ≡ (if member then ok sess else err err_no_session_data)
      session_of_member true gone = is_session
      session_of_member false gone = gone

  -- A session that is found, while Redis answers and its game is not found: the request to renew it is
  -- refused with 401, and the session is then unknown.
  pub handle_reauth_refused :
      (h : Hashes env.redis) (id : String) (s : env.redis.Store) (sess : Session) (e : Err)
      → get_session env.redis env.scan_session id s ≡ ok sess
      → game_of sess s ≡ err e
      → is_not_found e ≡ true
      → (handle_reauth env (ok id) s
          ≡ (ended (error (wrap no_access "Your session is invalid")), without_session sess s))
        × (get_session env.redis env.scan_session id (without_session sess s)
            ≡ err err_no_session_data)
  unfolding reauth_session
  handle_reauth_refused h id s sess e is_session no_game missing =
      let (removed, gone) = removes h id s sess is_session in
      (
        until_session id s sess is_session
            ∙ then_ended _ _ s _ (without_session sess s)
                (lost sess (game_of sess) s (without_session sess s) e no_game missing removed),
        gone,
      )
