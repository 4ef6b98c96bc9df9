-- ===== src/Routes/Players.antt =====
-- handleUpdatePlayer of server/routes/player.go.
pub mod Checked
use Prim.Native.Char.{Char, code}
use Prim.Native.String
use shadowroller.Common.{
  ℕ, suc, zero, ◌*◌, ◌^◌, ◌==◌, leb, ℤ, pos, negsuc, eqb_ℤ, ltb_ℤ, Bool, true, false, ◌||◌, ◌&&◌,
  not, List, [], ◌∷◌, Option, none, some, String, str_eq, if◌then◌else◌,
}
use shadowroller.Common.Dict.{Dict, assign}
use shadowroller.Common.Float.{Float}
use shadowroller.Errs.{Err, bad_request, internal, wrap, plain}
use shadowroller.Errs.Answer.{Answer, ok, err}
use shadowroller.Http.Halt.{error}
use shadowroller.Action.{Action, Result, done, ended, pure, panic, ◌>>=◌, ◌>>◌}
use shadowroller.Player.{Player, is_online, valid_name}
use shadowroller.Update.{Value, PlayerUpdate, for_player_diff, is_empty}
use shadowroller.Update
use shadowroller.Game.Players.{Commands, update_player}
use shadowroller.Lookup.Players.{get_player}
use shadowroller.Session.{Session}
use shadowroller.Routes.Args.{
  Env, Handler, Input, text, number, flag, other, as_internal, must, refuse_if, must_session,
  must_read,
}
use shadowroller.Routes.Edits.{int_of}

-- The white space of Unicode, and `strings.TrimSpace`.
is_space : ℕ → Bool
is_space c =
    (leb 9 c && leb c 13)
    || c == 32
    || c == 133
    || c == 160
    || c == 5760
    || (leb 8192 c && leb c 8202)
    || c == 8232
    || c == 8233
    || c == 8239
    || c == 8287
    || c == 12288

trim_left : String → String
unfolding is_space
trim_left String.[] = ""
trim_left (String.◌∷◌ c s) =
    let rest = trim_left s in if is_space (code c) then rest else String.◌∷◌ c s

trim_right : String → String
unfolding is_space
trim_right String.[] = ""
trim_right (String.◌∷◌ c s) =
    let rest = trim_right s in if is_space (code c) && str_eq rest "" then "" else String.◌∷◌ c rest

unfoldable pub trim_space : String → String
unfolding trim_left trim_right
trim_space s = trim_right (trim_left s)

-- The two diffs, of what others see and of what is stored.
pub record Diffs : Type 0 where
  pub external : Dict Value
  pub internal : Dict Value

unfoldable pub put_both : String → Value → Diffs → Diffs
put_both key v d = record { external = assign key v d.external; internal = assign key v d.internal }

-- Whether a hue is from 0 to 360.
unfoldable pub hue_allowed : Float → Bool
hue_allowed f = not (ltb_ℤ f.mantissa (pos 0) || ltb_ℤ (pos (360 * 2 ^ f.exponent)) f.mantissa)

same_flag : Bool → Bool → Bool
same_flag true b = b
same_flag false b = not b

-- The diffs with a new mode, for a player who is stored.
unfoldable pub with_mode : ℤ → Player → Diffs → Diffs
unfolding same_flag
with_mode mode plr d =
    let updated = is_online (record plr { online_mode = mode }) in
    record {
      external =
          if same_flag (is_online plr) updated
          then d.external
          else assign "online" (Update.flag updated) d.external;
      internal = assign "onlineMode" (Update.whole mode) d.internal;
    }

unfoldable pub mode_allowed : ℤ → Bool
mode_allowed mode = not (ltb_ℤ mode (pos 0) || ltb_ℤ (pos 2) mode)

is_empty_map : Dict Input → Bool
is_empty_map [] = true
is_empty_map (field ∷ fields) = false

module _ (env : Env) (to_map : Player → Option (Dict Value)) where
  refuse : {A : Type 0} → String → Handler env A
  refuse message = panic (error (wrap bad_request message))

  edit_name : Input → Diffs → Handler env Diffs
  unfolding refuse
  edit_name (text name) d =
      if valid_name (trim_space name)
      then pure (put_both "name" (Update.text (trim_space name)) d)
      else refuse "name: invalid"
  edit_name _ d = refuse "name: expected string"

  edit_hue : Input → Diffs → Handler env Diffs
  unfolding refuse
  edit_hue (number hue) d =
      if hue_allowed hue
      then pure (put_both "hue" (Update.whole (int_of hue)) d)
      else refuse "hue: expected int 0-360"
  edit_hue _ d = refuse "hue: expected int 0-360"

  edit_mode : Session → Input → Diffs → Handler env Diffs
  unfolding refuse
  edit_mode sess (number mode) d =
      if mode_allowed (int_of mode)
      then (must (as_internal env.print) (get_player env.redis env.scan_player sess.player_id)
          >>= λ plr. pure (with_mode (int_of mode) plr d))
      else refuse "mode: expected auto, online, offline"
  edit_mode sess _ d = refuse "mode: expected auto, online, offline"

  -- The body of the loop.
  unfoldable pub edit_field : Session → String → Input → Diffs → Handler env Diffs
  unfolding edit_name edit_hue edit_mode refuse
  edit_field sess key v d =
      if str_eq key "name"
      then edit_name v d
      else if str_eq key "hue"
      then edit_hue v d
      else if str_eq key "onlineMode"
      then edit_mode sess v d
      else refuse "Cannot update field"

  unfoldable pub edit_fields : Session → Dict Input → Diffs → Handler env Diffs
  edit_fields sess [] d = pure d
  edit_fields sess ((key, v) ∷ fields) d = edit_field sess key v d >>= edit_fields sess fields

  executed : Option Err × env.redis.Store → Result (Unit {0}) × env.redis.Store
  executed (none, s) = (done tt, s)
  executed (some e, s) = (ended (as_internal env.print (wrap e "running tx")), s)

  -- `UpdatePlayer`, and `HaltInternal` on its error.
  send : Option Commands → Handler env (Unit {0})
  unfolding executed
  send none s = (ended (as_internal env.print (plain "player update")), s)
  send (some commands) s = executed (env.redis.exec_player commands.hset commands.publish s)

  -- The updates are sent, unless both are empty; the answer is what is stored.
  send_diffs : Session → Diffs → Handler env (Option (Dict Value))
  unfolding send
  send_diffs sess d =
      let external = for_player_diff sess.player_id d.external in
      let internal_update = for_player_diff sess.player_id d.internal in
      if is_empty external && is_empty internal_update
      then pure none
      else send (update_player to_map env.marshal sess.game_id external internal_update)
        >> pure (some d.internal)

  -- `handleUpdatePlayer`
  unfoldable pub handle_update_player :
      String → Answer (Dict Input) → Handler env (Option (Dict Value))
  unfolding send_diffs is_empty_map
  handle_update_player header body = do
    sess ← must_session env header
    request ← must_read env body
    refuse_if (is_empty_map request) (wrap bad_request "empty diff request")
    diffs ← edit_fields sess request (record { external = []; internal = [] })
    send_diffs sess diffs
