-- ===== src/Routes/Players/Checked.antt =====
-- What a player may change of themselves.
use shadowroller.Common.{
  ℤ, ◌≡◌, refl, ◌⊎◌, inl, inr, Bool, true, false, ◌&&◌, List, [], ◌∷◌, All, Option, none, some,
  String, str_eq, if◌then◌else◌,
}
use shadowroller.Common.Dict.{Dict, assign}
use shadowroller.Common.Float.{Float}
use shadowroller.Errs.{Err}
use shadowroller.Errs.Answer.{Answer}
use shadowroller.Action.{pure, ◌>>◌}
use shadowroller.Action.Reads.{
  Reads, Reads-then, untouched_or, kept_state, pure-Reads, panic-Reads, if-Reads,
}
use shadowroller.Player.{Player, valid_name}
use shadowroller.Update.{Value, for_player_diff, is_empty}
use shadowroller.Update
use shadowroller.Game.Players.{Commands, update_player}
use shadowroller.Lookup.Players.{get_player}
use shadowroller.Session.{Session}
use shadowroller.Routes.Args.{Env, Handler, Input, text, number, flag, other}
use shadowroller.Routes.Args.Reads.{
  must-Reads, refuse_if-Reads, IsFrom, must_session-Reads, must_read-Reads,
}
use shadowroller.Routes.Edits.{int_of}
use shadowroller.Routes.Players.{
  Diffs, put_both, hue_allowed, mode_allowed, with_mode, edit_name, edit_hue, edit_mode, edit_field,
  edit_fields, refuse, trim_space, send_diffs, send, executed, is_empty_map, handle_update_player,
}

-- A name or a hue that is allowed.
abbrev pub IsShown : String × Value → Type 0
IsShown (key, v) =
    ((key ≡ "name") × ((name : String) × (v ≡ Update.text name) × (valid_name name ≡ true)))
    ⊎ ((key ≡ "hue") × ((hue : Float) × (v ≡ Update.whole (int_of hue)) × (hue_allowed hue ≡ true)))

-- What is stored of a player, and what the others are told.
abbrev pub IsInternal : String × Value → Type 0
IsInternal (key, v) =
    IsShown (key, v)
    ⊎ ((key ≡ "onlineMode") × ((mode : ℤ) × (v ≡ Update.whole mode) × (mode_allowed mode ≡ true)))

abbrev pub IsExternal : String × Value → Type 0
IsExternal (key, v) =
    IsShown (key, v) ⊎ ((key ≡ "online") × ((online : Bool) × (v ≡ Update.flag online)))

abbrev pub IsChecked : Diffs → Type 0
IsChecked d = All IsInternal d.internal × All IsExternal d.external

All-if :
    {A : Type 0} (P : A → Type 0) (b : Bool) (xs ys : List A)
    → All P xs
    → All P ys
    → All P (if b then xs else ys)
All-if P true xs ys h g = h
All-if P false xs ys h g = g

All-assign :
    {V : Type 0} (P : String × V → Type 0) (key : String) (v : V) (m : Dict V)
    → P (key, v)
    → All P m
    → All P (assign key v m)
unfolding assign
All-assign P key v [] p h = (p, tt)
All-assign P key v ((k, w) ∷ m) p (q, h) =
    All-if P (str_eq k key) ((key, v) ∷ m) ((k, w) ∷ assign key v m) (p, h)
      (q, All-assign P key v m p h)

put_both-IsChecked :
    (key : String) (v : Value) (d : Diffs)
    → IsShown (key, v)
    → IsChecked d
    → IsChecked (put_both key v d)
unfolding put_both
put_both-IsChecked key v d shown (i, e) = (
  All-assign IsInternal key v d.internal (inl shown) i,
  All-assign IsExternal key v d.external (inl shown) e,
)

with_mode-IsChecked :
    (mode : ℤ) (plr : Player) (d : Diffs)
    → mode_allowed mode ≡ true
    → IsChecked d
    → IsChecked (with_mode mode plr d)
unfolding with_mode
with_mode-IsChecked mode plr d allowed (i, e) = (
  All-assign IsInternal "onlineMode" (Update.whole mode) d.internal
      (inr (refl, (mode, refl, allowed))) i,
  All-if IsExternal _ d.external _ e
      (All-assign IsExternal "online" (Update.flag _) d.external (inr (refl, (_, refl))) e),
)

module _ (env : Env) (to_map : Player → Option (Dict Value)) where
  edit_name-Reads :
      (v : Input) (d : Diffs) (s : env.redis.Store)
      → IsChecked d
      → Reads IsChecked (edit_name env to_map v d) s
  unfolding edit_name refuse
  edit_name-Reads (text name) d s h =
      if-Reads IsChecked (valid_name (trim_space name)) _ _ s
        (λ e. pure-Reads IsChecked _ s (
          put_both-IsChecked "name" (Update.text (trim_space name)) d
            (inl (refl, (trim_space name, refl, e))) h))
        (panic-Reads IsChecked _ s)
  edit_name-Reads (number f) d s h = panic-Reads IsChecked _ s
  edit_name-Reads (flag b) d s h = panic-Reads IsChecked _ s
  edit_name-Reads other d s h = panic-Reads IsChecked _ s

  edit_hue-Reads :
      (v : Input) (d : Diffs) (s : env.redis.Store)
      → IsChecked d
      → Reads IsChecked (edit_hue env to_map v d) s
  unfolding edit_hue refuse
  edit_hue-Reads (number hue) d s h =
      if-Reads IsChecked (hue_allowed hue) _ _ s
        (λ e.
          pure-Reads IsChecked _ s
            (put_both-IsChecked "hue" (Update.whole (int_of hue)) d (inr (refl, (hue, refl, e))) h))
        (panic-Reads IsChecked _ s)
  edit_hue-Reads (text name) d s h = panic-Reads IsChecked _ s
  edit_hue-Reads (flag b) d s h = panic-Reads IsChecked _ s
  edit_hue-Reads other d s h = panic-Reads IsChecked _ s

  edit_mode-Reads :
      (sess : Session) (v : Input) (d : Diffs) (s : env.redis.Store)
      → IsChecked d
      → Reads IsChecked (edit_mode env to_map sess v d) s
  unfolding edit_mode refuse
  edit_mode-Reads sess (number mode) d s h =
      if-Reads IsChecked (mode_allowed (int_of mode)) _ _ s
        (λ e.
          Reads-then _ IsChecked _ _ s
            (must-Reads _ (get_player env.redis env.scan_player sess.player_id) s)
            (λ plr found. pure-Reads IsChecked _ s (with_mode-IsChecked (int_of mode) plr d e h)))
        (panic-Reads IsChecked _ s)
  edit_mode-Reads sess (text name) d s h = panic-Reads IsChecked _ s
  edit_mode-Reads sess (flag b) d s h = panic-Reads IsChecked _ s
  edit_mode-Reads sess other d s h = panic-Reads IsChecked _ s

  edit_field-Reads :
      (sess : Session) (key : String) (v : Input) (d : Diffs) (s : env.redis.Store)
      → IsChecked d
      → Reads IsChecked (edit_field env to_map sess key v d) s
  unfolding edit_field refuse
  edit_field-Reads sess key v d s h =
      if-Reads IsChecked (str_eq key "name") _ _ s (λ e. edit_name-Reads v d s h)
        (if-Reads IsChecked (str_eq key "hue") _ _ s (λ e. edit_hue-Reads v d s h)
          (if-Reads IsChecked (str_eq key "onlineMode") _ _ s (λ e. edit_mode-Reads sess v d s h)
            (panic-Reads IsChecked _ s)))

  edit_fields-Reads :
      (sess : Session) (fields : Dict Input) (d : Diffs) (s : env.redis.Store)
      → IsChecked d
      → Reads IsChecked (edit_fields env to_map sess fields d) s
  unfolding edit_fields
  edit_fields-Reads sess [] d s h = pure-Reads IsChecked d s h
  edit_fields-Reads sess ((key, v) ∷ fields) d s h =
      Reads-then IsChecked IsChecked _ _ s (edit_field-Reads sess key v d s h)
        (λ d' h'. edit_fields-Reads sess fields d' s h')

  -- The updates of these diffs are sent to Redis.
  abbrev pub Sends : Session → Diffs → env.redis.Store → env.redis.Store → Type 0
  Sends sess d s s' =
      (commands : Commands) × (update_player to_map env.marshal sess.game_id
          (for_player_diff sess.player_id d.external) (for_player_diff sess.player_id d.internal)
        ≡ some commands)
      × (s' ≡ (env.redis.exec_player commands.hset commands.publish s).1)

  executed_state : (x : Option Err × env.redis.Store) → (executed env to_map x).1 ≡ x.1
  unfolding executed
  executed_state (none, s) = refl
  executed_state (some e, s) = refl

  send-Sends :
      (sess : Session) (d : Diffs) (s : env.redis.Store) (c : Option Commands)
      → update_player to_map env.marshal sess.game_id
          (for_player_diff sess.player_id d.external)
          (for_player_diff sess.player_id d.internal)
        ≡ c
      → ((send env to_map c s).1 ≡ s) ⊎ Sends sess d s (send env to_map c s).1
  unfolding send
  send-Sends sess d s none e = inl refl
  send-Sends sess d s (some commands) e =
      inr (commands, e, executed_state (env.redis.exec_player commands.hset commands.publish s))

  if-Sends :
      (b : Bool) (m k : Handler env (Option (Dict Value))) (sess : Session) (d : Diffs)
      (s : env.redis.Store)
      → ((m s).1 ≡ s)
      → (((k s).1 ≡ s) ⊎ Sends sess d s (k s).1)
      → (((if b then m else k) s).1 ≡ s) ⊎ Sends sess d s ((if b then m else k) s).1
  if-Sends true m k sess d s h g = inl h
  if-Sends false m k sess d s h g = g

  send_diffs-Sends :
      (sess : Session) (d : Diffs) (s : env.redis.Store)
      → ((send_diffs env to_map sess d s).1 ≡ s) ⊎ Sends sess d s (send_diffs env to_map sess d s).1
  unfolding send_diffs
  send_diffs-Sends sess d s =
      let c =
        update_player to_map env.marshal sess.game_id (for_player_diff sess.player_id d.external)
          (for_player_diff sess.player_id d.internal) in
      if-Sends
        (is_empty (for_player_diff sess.player_id d.external)
          && is_empty (for_player_diff sess.player_id d.internal))
        (pure none) (send env to_map c >> pure (some d.internal)) sess d s refl
        (rw (kept_state (send env to_map c) (some d.internal) s) (send-Sends sess d s c refl))

  -- What is stored after a request of this player.
  abbrev pub Updates : String → env.redis.Store → env.redis.Store → Type 0
  Updates header s s' =
      (sess : Session) × (d : Diffs) × IsFrom env header s sess × IsChecked d × Sends sess d s s'

  -- What a player may change. A request to update a player leaves everything that is stored as it is,
  -- also where it ends in an error, or it comes with a session, and the update of that session's own
  -- player is sent: every field that is stored is a valid name, the whole part of a hue from 0 to 360,
  -- or one of the three online modes, and the others are told of no other fields than the name, the
  -- hue and whether the player is online.
  pub handle_update_player-IsChecked :
      (header : String) (body : Answer (Dict Input)) (s : env.redis.Store)
      → ((handle_update_player env to_map header body s).1 ≡ s)
        ⊎ Updates header s (handle_update_player env to_map header body s).1
  unfolding handle_update_player
  handle_update_player-IsChecked header body s =
      untouched_or _ _ _ s (Updates header s) (must_session-Reads env header s) (λ sess from.
        untouched_or _ _ _ s (Updates header s) (must_read-Reads env body s) (λ request read.
          untouched_or _ _ _ s (Updates header s) (refuse_if-Reads (is_empty_map request) _ s)
            (λ t some_fields.
              untouched_or _ _ _ s (Updates header s)
                (edit_fields-Reads sess request (record { external = []; internal = [] }) s
                  (tt, tt))
                (λ d checked. elim (send_diffs-Sends sess d s) [
                  | inl e ↦ inl e
                  | inr q ↦ inr (sess, d, from, checked, q)
                ]))))
