-- ===== src/Routes/Rolls.antt =====
-- server/routes: the handlers that roll: handleRoll and handleReroll of game.go, and
-- handleRollInitiative of initiative.go. The dice channel is the list of the values that it delivers to
-- the handler.
pub mod Posted
use shadowroller.Common.{
  ℕ, ℤ, pos, negsuc, eqb_ℤ, ltb_ℤ, pos_part, Bool, true, false, not, List, [], ◌∷◌, replicate,
  Option, none, some, String, str_eq, if◌then◌else◌,
}
use shadowroller.Errs.{Err, bad_request, internal, wrap, plain}
use shadowroller.Errs.Answer.{Answer, ok, err}
use shadowroller.Action.{Action, pure, panic, or_panic, ◌>>=◌, ◌>>◌}
use shadowroller.Http.Halt.{error, value}
use shadowroller.Player.{Player}
use shadowroller.Roll.Roller.{Filled, Exploded, fill, exploding_sixes, reroll_misses}
use shadowroller.Roll.Roller
use shadowroller.Event.{
  Event, Roll, roll, edge_roll, reroll, initiative_roll, for_roll, for_edge_roll, for_reroll,
  for_initiative_roll, valid_reroll_type,
}
use shadowroller.Event.Share.{is_share}
use shadowroller.Event.Scan.{parse_ty}
use shadowroller.Game.History.{post_event, delete_event}
use shadowroller.Lookup.Events.{get_event}
use shadowroller.Lookup.Players.{get_player}
use shadowroller.Session.{Session}
use shadowroller.Routes.Args.{
  Env, Handler, Dice, as_is, as_internal, must, refuse_if, must_session, must_read, run_pipeline,
}

pub record RollRequest : Type 0 where
  pub count : ℤ
  pub title : String
  pub share : ℤ
  pub edge : Bool
  pub glitchy : ℤ

pub record RerollRequest : Type 0 where
  pub roll_id : ℤ
  pub type : String

pub record InitiativeRollRequest : Type 0 where
  pub title : String
  pub share : ℤ
  pub base : ℤ
  pub dice : ℤ
  pub seized : Bool
  pub blitzed : Bool

-- The error of the roller, for `HaltInternal`.
roll_error : Roller.Error → Err
roll_error Roller.channel_closed = plain "dice channel closed"
roll_error (Roller.context message) = plain message

-- The rolls of a call, or its error.
unfoldable pub filled : Filled → Answer (List ℕ)
unfolding roll_error
filled r = elim r.err [ none ↦ ok r.rolls | some e ↦ err (roll_error e) ]

-- `none` is the roller without fuel.
unfoldable pub exploded : Option Exploded → Answer (List (List ℕ))
unfolding roll_error
exploded none = err (plain "out of fuel")
exploded (some r) = elim r.err [ none ↦ ok r.results | some e ↦ err (roll_error e) ]

-- The event of a roll request; the count is positive.
unfoldable pub rolled : ℕ → Dice → Player → RollRequest → Answer Event
rolled now dice plr request =
    let count = pos_part request.count in
    if request.edge
    then elim (exploded (exploding_sixes dice.ctx count dice.values)) [
      | err e ↦ err e
      | ok rounds ↦
          ok (edge_roll (for_edge_roll now plr request.share request.title rounds request.glitchy))
    ]
    else elim (filled (fill dice.ctx (replicate count 0) dice.values)) [
      | err e ↦ err e
      | ok rolls ↦ ok (roll (for_roll now plr request.share request.title rolls request.glitchy))
    ]

-- The number of dice of a request; a blitz rolls five.
unfoldable pub initiative_dice : InitiativeRollRequest → ℕ
initiative_dice request = if request.blitzed then 5 else pos_part request.dice

-- The event of an initiative request. The error of `Fill` is not read: where the channel is closed, the
-- dice that it did not deliver stay 0.
unfoldable pub initiative_of : ℕ → Dice → Player → InitiativeRollRequest → Event
initiative_of now dice plr request =
    let rolls = (fill dice.ctx (replicate (initiative_dice request) 0) dice.values).rolls in
    initiative_roll (
      for_initiative_roll now plr request.share request.title request.base rolls request.seized
        request.blitzed)

module _ (env : Env) where
  post : Session → Event → Handler env (Unit {0})
  post sess evt =
      run_pipeline env sess.game_id (post_event env.marshal_event env.marshal sess.game_id evt)

  -- `handleRoll` after the request is read; `now` is the clock.
  roll_requested : ℕ → Dice → Session → RollRequest → Handler env (Unit {0})
  unfolding post
  roll_requested now dice sess request = do
    refuse_if (ltb_ℤ request.count (pos 1)) (wrap bad_request "Invalid roll count")
    refuse_if (ltb_ℤ (pos env.max_single_roll) request.count)
        (wrap bad_request "Roll count too high")
    refuse_if (not (is_share request.share)) (wrap bad_request "share: invalid")
    plr ← must (as_internal env.print) (get_player env.redis env.scan_player sess.player_id)
    evt ← must (as_internal env.print) (λ s. rolled now dice plr request)
    post sess evt

  unfoldable pub handle_roll : String → Answer RollRequest → ℕ → Dice → Handler env (Unit {0})
  unfolding roll_requested
  handle_roll header body now dice = do
    sess ← must_session env header
    request ← must_read env body
    roll_requested now dice sess request

  -- `json.Unmarshal` of the previous roll.
  previous_roll : Option Roll → Answer Roll
  previous_roll none = err (wrap bad_request "Invalid previous roll")
  previous_roll (some r) = ok r

  -- The dice of the new round, of which there is at least one.
  new_round : List ℕ → Answer (List ℕ)
  new_round [] = err (wrap bad_request "Invalid previous roll")
  new_round (die ∷ dice) = ok (die ∷ dice)

  -- `handleReroll` after the request is read.
  reroll_requested : ℕ → Dice → Session → RerollRequest → Handler env (Unit {0})
  unfolding post previous_roll new_round
  reroll_requested now dice sess request = do
    refuse_if (not (valid_reroll_type request.type)) (wrap bad_request "Invalid reroll type")
    event_text ←
        must (as_internal env.print)
          (get_event env.redis env.print_int sess.game_id request.roll_id)
    refuse_if (not (str_eq (parse_ty env.scanner event_text) "roll"))
        (wrap bad_request "Invalid previous roll type")
    previous ← must as_is (λ s. previous_roll (env.json.as_roll event_text))
    refuse_if (not (str_eq previous.core.player_id sess.player_id))
        (wrap bad_request "That is not your roll")
    filled_round ←
        must (as_internal env.print)
          (λ s. filled (reroll_misses dice.ctx previous.dice dice.values))
    round ← must as_is (λ s. new_round filled_round)
    plr ← must (as_internal env.print) (get_player env.redis env.scan_player sess.player_id)
    run_pipeline env sess.game_id
        (delete_event env.marshal_event env.marshal sess.game_id (roll previous))
    post sess (reroll (for_reroll now plr previous (round ∷ previous.dice ∷ [])))

  unfoldable pub handle_reroll : String → Answer RerollRequest → ℕ → Dice → Handler env (Unit {0})
  unfolding reroll_requested
  handle_reroll header body now dice = do
    sess ← must_session env header
    request ← must_read env body
    reroll_requested now dice sess request

  -- `handleRollInitiative` after the request is read.
  initiative_requested : ℕ → Dice → Session → InitiativeRollRequest → Handler env (Unit {0})
  unfolding post
  initiative_requested now dice sess request = do
    refuse_if (ltb_ℤ request.dice (pos 1)) (wrap bad_request "Invalid dice count")
    refuse_if (ltb_ℤ (pos 5) request.dice) (wrap bad_request "Cannot roll more than 5 dice")
    refuse_if (ltb_ℤ request.base (negsuc 9)) (wrap bad_request "Initiative base too small")
    refuse_if (ltb_ℤ (pos 999) request.base) (wrap bad_request "Initiative base too big")
    refuse_if (not (is_share request.share)) (wrap bad_request "share: invalid")
    plr ← must (as_internal env.print) (get_player env.redis env.scan_player sess.player_id)
    post sess (initiative_of now dice plr request)

  unfoldable pub handle_roll_initiative :
      String → Answer InitiativeRollRequest → ℕ → Dice → Handler env (Unit {0})
  unfolding initiative_requested
  handle_roll_initiative header body now dice = do
    sess ← must_session env header
    request ← must_read env body
    initiative_requested now dice sess request
