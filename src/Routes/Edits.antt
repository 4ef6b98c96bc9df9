-- ===== src/Routes/Edits.antt =====
-- server/routes: the handlers that change an event of the history: handleShareEvent of event.go, and
-- handleUpdateEvent and handleDeleteEvent of game.go. A map of a request is the list of its entries
-- in the order in which Go's loop takes them.
pub mod Owners
use shadowroller.Common.{
  ℕ, suc, zero, ◌/◌, ◌^◌, ℤ, pos, negsuc, eqb_ℤ, Bool, true, false, not, List, [], ◌∷◌, Option,
  none, some, String, str_eq, if◌then◌else◌,
}
use shadowroller.Common.Dict.{Dict, assign}
use shadowroller.Common.Float.{Float}
use shadowroller.Errs.{Err, bad_request, internal, no_access, wrap}
use shadowroller.Errs.Answer.{Answer, ok, err, ◌>>=◌ as and_then}
use shadowroller.Errs.Is.{is_not_found}
use shadowroller.Http.Halt.{Panic, error}
use shadowroller.Action.{Action, pure, ◌>>=◌, ◌>>◌}
use shadowroller.Id.{new_event_id}
use shadowroller.Event.{
  Event, roll, edge_roll, reroll, initiative_roll, player_join, get_player_id, get_type, get_share,
  set_edit, event_type_player_join,
}
use shadowroller.Event.Codec.{parse}
use shadowroller.Event.Share.{is_share}
use shadowroller.Update.{Value, for_event_diff}
use shadowroller.Update
use shadowroller.Game.History.{update_event_share, update_event, delete_event}
use shadowroller.Session.{Session}
use shadowroller.Lookup.Events.{get_event}
use shadowroller.Routes.Args.{
  Env, Handler, Input, text, number, flag, other, as_is, as_bad_request, as_internal, must,
  refuse_if, parsed, must_session, must_read, run_pipeline,
}

pub record ShareEventRequest : Type 0 where
  pub id : ℤ
  pub share : ℤ

pub record UpdateEventRequest : Type 0 where
  pub id : ℤ
  pub diff : Dict Input

pub record DeleteEventRequest : Type 0 where
  pub id : ℤ

-- The field `Title` by reflection; `none` is a field that cannot be set.
unfoldable pub set_title : String → Event → Option Event
set_title title (roll e) = some (roll (record e { title = title }))
set_title title (edge_roll e) = some (edge_roll (record e { title = title }))
set_title title (reroll e) = some (reroll (record e { title = title }))
set_title title (initiative_roll e) = some (initiative_roll (record e { title = title }))
set_title title (player_join e) = none

unfoldable pub set_glitchy : ℤ → Event → Option Event
set_glitchy glitchy (roll e) = some (roll (record e { glitchy = glitchy }))
set_glitchy glitchy (edge_roll e) = some (edge_roll (record e { glitchy = glitchy }))
set_glitchy glitchy (reroll e) = some (reroll (record e { glitchy = glitchy }))
set_glitchy glitchy (initiative_roll e) = none
set_glitchy glitchy (player_join e) = none

negated : ℕ → ℤ
negated zero = pos 0
negated (suc n) = negsuc n

towards_zero : ℤ → ℕ → ℤ
unfolding negated
towards_zero (pos n) d = pos (n / d)
towards_zero (negsuc n) d = negated (suc n / d)

-- `int64(f)`, where the value is in range.
unfoldable pub int_of : Float → ℤ
unfolding towards_zero
int_of f = towards_zero f.mantissa (2 ^ f.exponent)

-- The event and the diff after a field is set.
set_field : Option Event → String → Value → Dict Value → Answer (Event × Dict Value)
set_field none key v diff = err (wrap internal "could not set field")
set_field (some evt) key v diff = ok (evt, assign key v diff)

-- The body of the loop of `handleUpdateEvent`.
edit_title : Input → Event × Dict Value → Answer (Event × Dict Value)
unfolding set_field
edit_title (text title) (evt, diff) =
    set_field (set_title title evt) "title" (Update.text title) diff
edit_title _ x = err (wrap bad_request "Event diff: title: expected string")

edit_glitchy : Input → Event × Dict Value → Answer (Event × Dict Value)
unfolding set_field
edit_glitchy (number glitchy) (evt, diff) =
    set_field (set_glitchy (int_of glitchy) evt) "glitchy" (Update.number glitchy) diff
edit_glitchy _ x = err (wrap bad_request "event diff: glitchy: expected int")

unfoldable pub edit_field : String → Input → Event × Dict Value → Answer (Event × Dict Value)
unfolding edit_title edit_glitchy
edit_field key v x =
    if str_eq key "title"
    then edit_title v x
    else if str_eq key "glitchy"
    then edit_glitchy v x
    else if str_eq key "share"
    then err (wrap bad_request "event diff: cannot update share here")
    else ok x

unfoldable pub edit_fields : Dict Input → Event × Dict Value → Answer (Event × Dict Value)
edit_fields [] x = ok x
edit_fields ((key, v) ∷ fields) x = elim (edit_field key v x) [
  | err e ↦ err e
  | ok y ↦ edit_fields fields y
]

-- How `handleDeleteEvent` ends on an error of `GetByID`.
abbrev as_found : (Err → String) → Err → Panic
as_found print e = if is_not_found e then error e else as_internal print e

module _ (env : Env) where
  -- The two tests on the event that a request wants to change.
  abbrev pub refuse_others : String → String → Event → Handler env (Unit {0})
  refuse_others message player_id evt =
      refuse_if (not (str_eq (get_player_id evt) player_id)) (wrap no_access message)
      >> refuse_if (str_eq (get_type evt) event_type_player_join) (wrap no_access message)

  share_found : String → ℤ → ℕ → Event → Handler env (Unit {0})
  share_found game_id share now evt =
      if eqb_ℤ (get_share evt) share
      then pure tt
      else run_pipeline env game_id (
          update_event_share env.marshal_event env.marshal game_id (set_edit (new_event_id now) evt)
            share)

  -- `handleShareEvent` after the request is read; `now` is the clock.
  share_requested : ℕ → Session → ShareEventRequest → Handler env (Unit {0})
  unfolding share_found
  share_requested now sess request = do
    refuse_if (not (is_share request.share)) (wrap bad_request "Invalid share type")
    event_text ←
        must (as_bad_request env.print) (get_event env.redis env.print_int sess.game_id request.id)
    evt ← must (as_internal env.print) (λ s. parsed (parse env.json event_text))
    refuse_others "You may not edit this event" sess.player_id evt
    share_found sess.game_id request.share now evt

  unfoldable pub handle_share_event : String → Answer ShareEventRequest → ℕ → Handler env (Unit {0})
  unfolding share_requested
  handle_share_event header body now = do
    sess ← must_session env header
    request ← must_read env body
    share_requested now sess request

  update_found : String → Event × Dict Value → Handler env (Unit {0})
  update_found game_id (evt, diff) =
      run_pipeline env game_id
        (update_event env.marshal_event env.marshal game_id evt (for_event_diff evt diff))

  -- `handleUpdateEvent` after the request is read.
  update_requested : ℕ → Session → UpdateEventRequest → Handler env (Unit {0})
  unfolding update_found
  update_requested now sess request = do
    event_text ←
        must (as_bad_request env.print) (get_event env.redis env.print_int sess.game_id request.id)
    evt ← must (as_bad_request env.print) (λ s. parsed (parse env.json event_text))
    refuse_others "You may not update this event" sess.player_id evt
    edited ← must as_is (λ s. edit_fields request.diff (set_edit (new_event_id now) evt, []))
    update_found sess.game_id edited

  unfoldable pub handle_update_event :
      String → Answer UpdateEventRequest → ℕ → Handler env (Unit {0})
  unfolding update_requested
  handle_update_event header body now = do
    sess ← must_session env header
    request ← must_read env body
    update_requested now sess request

  -- `handleDeleteEvent` after the request is read.
  delete_requested : Session → DeleteEventRequest → Handler env (Unit {0})
  delete_requested sess request = do
    event_text ←
        must (as_found env.print) (get_event env.redis env.print_int sess.game_id request.id)
    evt ← must (as_bad_request env.print) (λ s. parsed (parse env.json event_text))
    refuse_others "You may not delete this event." sess.player_id evt
    run_pipeline env sess.game_id (delete_event env.marshal_event env.marshal sess.game_id evt)

  unfoldable pub handle_delete_event : String → Answer DeleteEventRequest → Handler env (Unit {0})
  unfolding delete_requested
  handle_delete_event header body = do
    sess ← must_session env header
    request ← must_read env body
    delete_requested sess request
