-- ===== src/Routes/Initiative.antt =====
-- handleEditInitiative of server/routes/initiative.go.
use shadowroller.Common.{
  ℕ, suc, ◌-◌, ◌*◌, ◌^◌, ◌%◌, ◌==◌, ℤ, pos, negsuc, eqb_ℤ, ltb_ℤ, Bool, true, false, ◌||◌, not, [],
  ◌∷◌, String, str_eq, if◌then◌else◌,
}
use shadowroller.Common.Dict.{Dict, assign}
use shadowroller.Common.Float.{Float}
use shadowroller.Errs.{bad_request, no_access, wrap}
use shadowroller.Errs.Answer.{Answer, ok, err}
use shadowroller.Http.Halt.{value}
use shadowroller.Action.{pure, panic, ◌>>=◌, ◌>>◌}
use shadowroller.Id.{new_event_id}
use shadowroller.Event.{
  Event, InitiativeRoll, initiative_roll, get_player_id, get_type, event_type_initiative_roll,
}
use shadowroller.Event.Codec.{parse}
use shadowroller.Update.{Value, for_event_diff}
use shadowroller.Update
use shadowroller.Game.History.{update_event}
use shadowroller.Lookup.Events.{get_event}
use shadowroller.Session.{Session}
use shadowroller.Routes.Args.{
  Env, Handler, Input, text, number, flag, as_is, as_bad_request, must, refuse_if, parsed,
  must_session, must_read, run_pipeline,
}
use shadowroller.Routes.Edits.{UpdateEventRequest, int_of}

abbrev pub Edited : Type 0
Edited = InitiativeRoll × Dict Value

-- The mantissa of an integer over the same power of two.
scaled : ℤ → ℕ → ℤ
scaled (pos n) d = pos (n * d)
scaled (negsuc n) d = negsuc (suc n * d - 1)

-- `math.Round(f) == f`
is_whole : Float → Bool
is_whole f = elim f.mantissa [
  | pos n ↦ n % (2 ^ f.exponent) == 0
  | negsuc n ↦ suc n % (2 ^ f.exponent) == 0
]

-- A number from -2 to 50.
unfoldable pub base_allowed : Float → Bool
unfolding scaled is_whole
base_allowed f = not (
    ltb_ℤ f.mantissa (scaled (negsuc 1) (2 ^ f.exponent))
    || ltb_ℤ (scaled (pos 50) (2 ^ f.exponent)) f.mantissa
    || not (is_whole f))

set_title : Input → Edited → Answer Edited
set_title (text title) (e, diff) =
    if str_eq title e.title
    then ok (e, diff)
    else ok (record e { title = title }, assign "title" (Update.text title) diff)
set_title _ x = err (wrap bad_request "title: expected string")

set_base : Input → Edited → Answer Edited
set_base (number base) (e, diff) =
    if not (base_allowed base)
    then err (wrap bad_request "base: expected number between -2 and 50")
    else if eqb_ℤ (int_of base) e.base
    then ok (e, diff)
    else ok (record e { base = int_of base }, assign "base" (Update.number base) diff)
set_base _ x = err (wrap bad_request "base: expected number between -2 and 50")

same_flag : Bool → Bool → Bool
same_flag true b = b
same_flag false b = not b

set_seized : Input → Edited → Answer Edited
unfolding same_flag
set_seized (flag seized) (e, diff) =
    if same_flag e.seized seized
    then ok (e, diff)
    else ok (record e { seized = seized }, assign "seized" (Update.flag seized) diff)
set_seized _ x = err (wrap bad_request "seized: can only be unset")

-- The body of the loop.
unfoldable pub edit_field : String → Input → Edited → Answer Edited
unfolding set_title set_base set_seized
edit_field key v x =
    if str_eq key "title"
    then set_title v x
    else if str_eq key "base"
    then set_base v x
    else if str_eq key "dice"
    then err (wrap bad_request "Cannot set dice at this time")
    else if str_eq key "seized"
    then set_seized v x
    else if str_eq key "blitzed"
    then err (wrap bad_request "blitzed: cannot set")
    else err (wrap bad_request "cannot set")

unfoldable pub edit_fields : Dict Input → Edited → Answer Edited
edit_fields [] x = ok x
edit_fields ((key, v) ∷ fields) x = elim (edit_field key v x) [
  | err e ↦ err e
  | ok y ↦ edit_fields fields y
]

is_empty_diff : Dict Input → Bool
is_empty_diff [] = true
is_empty_diff (field ∷ fields) = false

module _ (env : Env) where
  -- The type assertion to `*event.InitiativeRoll`, and `SetEdit`.
  abbrev pub as_initiative : ℕ → Event → Handler env InitiativeRoll
  as_initiative now (initiative_roll e) =
      pure (record e { core = record e.core { edit = new_event_id now } })
  as_initiative now _ = panic (value "interface conversion")

  -- An empty diff is only logged, and is sent like any other.
  post_edit : String → Edited → Handler env (Unit {0})
  post_edit game_id (e, diff) = run_pipeline env game_id (
      update_event env.marshal_event env.marshal game_id (initiative_roll e)
        (for_event_diff (initiative_roll e) diff))

  -- `handleEditInitiative` after the request is read.
  edit_requested : ℕ → Session → UpdateEventRequest → Handler env (Unit {0})
  unfolding post_edit is_empty_diff
  edit_requested now sess request = do
    refuse_if (is_empty_diff request.diff) (wrap bad_request "No diff requested")
    event_text ←
        must (as_bad_request env.print) (get_event env.redis env.print_int sess.game_id request.id)
    evt ← must (as_bad_request env.print) (λ s. parsed (parse env.json event_text))
    refuse_if (not (str_eq (get_type evt) event_type_initiative_roll))
        (wrap no_access "Invalid event type.")
    refuse_if (not (str_eq (get_player_id evt) sess.player_id))
        (wrap no_access "You may not update this event.")
    init_event ← as_initiative now evt
    edited ← must as_is (λ s. edit_fields request.diff (init_event, []))
    post_edit sess.game_id edited

  unfoldable pub handle_edit_initiative :
      String → Answer UpdateEventRequest → ℕ → Handler env (Unit {0})
  unfolding edit_requested
  handle_edit_initiative header body now = do
    sess ← must_session env header
    request ← must_read env body
    edit_requested now sess request
