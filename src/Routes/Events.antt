-- ===== src/Routes/Events.antt =====
-- handleEvents and handleInfo of server/routes/game.go: what a player is shown of a game.
pub mod Visible
pub mod Ids
use shadowroller.Common.{
  ℕ, ◌==◌, ℤ, pos, Bool, true, false, not, List, [], ◌∷◌, length, Option, none, some, String,
  str_eq, if◌then◌else◌,
}
use Prim.Native.String.{◌++◌}
use shadowroller.Errs.{Err, bad_request, wrap}
use shadowroller.Errs.Answer.{Answer, ok, err}
use shadowroller.Http.Halt.{value}
use shadowroller.Action.{Action, Result, done, ended, pure, panic, ◌>>=◌, ◌>>◌}
use shadowroller.Player.{Player}
use shadowroller.Event.{Event, get_id}
use shadowroller.Event.Codec.{Parsed, parse, event, failed}
use shadowroller.Event.Scan.{valid_id}
use shadowroller.Game.Share.{player_can_see_event}
use shadowroller.Redis.{answer}
use shadowroller.Lookup.Events.{get_between}
use shadowroller.Lookup.Players.{get_player}
use shadowroller.Lookup.Games.{GameInfo, get_info}
use shadowroller.Routes.Args.{
  Env, Handler, as_is, as_internal, must, refuse_if, parsed, must_session,
}

-- `eventRangeResponse`
pub record EventRange : Type 0 where
  pub events : List Event
  pub last_id : ℕ
  pub more : Bool

-- The id to read from, and whether a request with it is refused.
unfoldable pub range_end : String → String → String × Bool
range_end unbounded id = if str_eq id "" then (unbounded, false) else (id, not (valid_id id))

-- The id of the last event.
unfoldable pub last_id : ℕ → List Event → ℕ
last_id id [] = id
last_id id (evt ∷ evts) = last_id (get_id evt) evts

abbrev empty_range : EventRange
empty_range = record { events = []; last_id = 0; more = false }

-- The answer for the visible ones of that many events.
unfoldable pub range_of : ℕ → ℕ → List Event → EventRange
unfolding last_id
range_of max total [] = empty_range
range_of max total (evt ∷ evts) = record {
  events = evt ∷ evts;
  last_id = last_id 0 (evt ∷ evts);
  more = total == max;
}

module _ (env : Env) where
  -- One event of the loop, before those that follow.
  shown : Event → Option Bool → Handler env (List Event) → Handler env (List Event)
  shown evt none rest = panic (value "unexpected share")
  shown evt (some false) rest = rest
  shown evt (some true) rest = rest >>= λ evts. pure (evt ∷ evts)

  -- The loop over the texts, up to the first that it cannot take.
  unfoldable visible : Player → Bool → List String → Handler env (List Event)
  unfolding shown
  visible plr is_gm [] = pure []
  visible plr is_gm (event_text ∷ event_texts) =
      must (as_internal env.print) (λ s. parsed (parse env.json event_text)) >>= λ evt.
      shown evt (player_can_see_event plr is_gm evt) (visible plr is_gm event_texts)

  -- `HasGM`, with its error.
  game_has_gm : String → String → env.redis.Store → Answer Bool
  game_has_gm game_id player_id s = answer (env.redis.sis_member ("gm:" ++ game_id) player_id s)

  -- `handleEvents`, on the values of the form.
  unfoldable pub handle_events : String → String → String → Handler env EventRange
  unfolding visible game_has_gm
  handle_events header newest_value oldest_value = do
    sess ← must_session env header
    let (newest, invalid_newest) = range_end "+inf" newest_value in
        do
          refuse_if invalid_newest (wrap bad_request "Invalid newest ID")
          let (oldest, invalid_oldest) = range_end "-inf" oldest_value in
              do
                refuse_if invalid_oldest (wrap bad_request "Invalid oldest ID")
                plr ←
                    must (as_internal env.print)
                      (get_player env.redis env.scan_player sess.player_id)
                events ←
                    must (as_internal env.print)
                      (get_between env.redis sess.game_id newest oldest env.max_event_range)
                is_gm ← must (as_internal env.print) (game_has_gm sess.game_id sess.player_id)
                evts ← visible plr is_gm events
                pure (range_of env.max_event_range (length events) evts)

  -- `handleInfo`
  unfoldable pub handle_info : String → Handler env GameInfo
  handle_info header = do
    sess ← must_session env header
    must (as_internal env.print)
        (get_info env.redis env.scan_player env.retries env.watch sess.game_id)
