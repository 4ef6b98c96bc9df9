-- ===== src/Routes/Tests.antt =====
-- The handlers of server/routes on a game in memory.
use Prim.Native.String.{◌++◌}
use shadowroller.Common.{
  ℕ, ◌==◌, not, ◌&&◌, inl, pos, ltb_ℤ, ◌≡◌, refl, ◌⊎◌, true, false, List, [], ◌∷◌, length, keep,
  count, some, String, arith,
}
use shadowroller.Common.Dict.{Dict, lookup, assign}
use shadowroller.Errs.{bad_request, internal, wrap, is_internal}
use shadowroller.Errs.Answer.{ok, err}
use shadowroller.Http.Halt.{error}
use shadowroller.Action.{done, ended, ◌>>=◌, ◌>>◌}
use shadowroller.Player.{info, valid_name}
use shadowroller.Event.{roll, get_share, core_of}
use shadowroller.Event.Codec.{text}
use shadowroller.Redis.{answer, reply}
use shadowroller.Session.{Session}
use shadowroller.Http.Session.{session_from_header}
use shadowroller.Session.{err_no_session_data, get_session, remove_session, session_key}
use shadowroller.Lookup.Events.{get_event, get_between}
use shadowroller.Lookup.Players.{get_player, get_by_username}
use shadowroller.Lookup.Games.{GameInfo, get_players, get_info, log_player_in}
use shadowroller.Redis.Retry.{retry_watch_txn}
use shadowroller.Roll.Roller.Rounds.{Explodes}
use shadowroller.Lookup.Games.Members.{listed, log_player_in-listed}
use shadowroller.Event.{
  InitiativeRoll, get_type, for_roll, edge_roll, for_edge_roll, for_reroll, reroll,
  valid_reroll_type, get_id, get_player_id,
}
use shadowroller.Event.Codec.{parse}
use shadowroller.Event.Scan.{parse_ty}
use shadowroller.Event.Share.{is_share}
use shadowroller.Game.Share.{update_channel}
use shadowroller.Game.History.{post_event, delete_event, update_event, replace_commands}
use shadowroller.Roll.Roller.{is_miss}
use shadowroller.Update.{Value, for_player_diff, elements}
use shadowroller.Update
use shadowroller.Game.Players.{update_player, make_redis_command}
use shadowroller.Routes.Args.{
  Env, Handler, Input, run_pipeline, must_session, must, must_read, refuse_if,
}
use shadowroller.Routes.Args
use shadowroller.Routes.World.{ann, session, sneak, json, env, dusk, header}
use shadowroller.Routes.Args.Reads.{IsFrom}
use shadowroller.Routes.Edits.{
  ShareEventRequest, UpdateEventRequest, DeleteEventRequest, handle_share_event,
  handle_update_event, handle_delete_event,
}
use shadowroller.Routes.Edits.Owners.{Owns, edits-Owned}
use shadowroller.Routes.Events.{EventRange, last_id, handle_events}
use shadowroller.Routes.Events.Visible.{sees, last_or_zero, is_empty, handle_events-keep}
use shadowroller.Routes.Rolls.{RollRequest, RerollRequest, handle_roll, handle_reroll}
use shadowroller.Routes.Rolls.Posted.{dice_of, Allows, handle_roll_lem, handle_reroll_lem}
use shadowroller.Routes.Players
use shadowroller.Routes.Players.{Diffs, put_both, trim_space, handle_update_player}
use shadowroller.Routes.Players.Checked.{Updates, handle_update_player-IsChecked}
use shadowroller.Routes.Initiative.{handle_edit_initiative, edit_fields, edit_field}
use shadowroller.Routes.Auth.{has_player, handle_reauth}
use shadowroller.Session.Stored.{hashes}
use shadowroller.Redis.Memory.{Memory}
use shadowroller.Routes.Auth.Access.{game_of, without_session, handle_reauth_lem}

abbrev share_request : ShareEventRequest
share_request = record { id = pos 5; share = pos 1 }

abbrev update_request : UpdateEventRequest
update_request = record { id = pos 5; diff = ("title", Args.text "hide") ∷ [] }

abbrev delete_request : DeleteEventRequest
delete_request = record { id = pos 5 }

edits-Owned_example :
    (((handle_share_event env header (ok share_request) 7_000_000 dusk).1 ≡ dusk)
      ⊎ ((sess : Session) × (request : ShareEventRequest) × IsFrom env header dusk sess
          × (ok share_request ≡ ok request)
          × Owns env sess request.id dusk))
    × (((handle_update_event env header (ok update_request) 7_000_000 dusk).1 ≡ dusk)
        ⊎ ((sess : Session) × (request : UpdateEventRequest) × IsFrom env header dusk sess
            × (ok update_request ≡ ok request)
            × Owns env sess request.id dusk))
    × (((handle_delete_event env header (ok delete_request) dusk).1 ≡ dusk)
        ⊎ ((sess : Session) × (request : DeleteEventRequest) × IsFrom env header dusk sess
            × (ok delete_request ≡ ok request)
            × Owns env sess request.id dusk))
edits-Owned_example =
    edits-Owned env header 7_000_000 (ok share_request) (ok update_request) (ok delete_request) dusk

IsFrom-ann : IsFrom env header dusk session
unfolding session_from_header get_session lookup
IsFrom-ann = ("s1", refl, refl)

ann_found : get_player env.redis env.scan_player "ann" dusk ≡ ok ann
unfolding get_player lookup
ann_found = refl

abbrev one_event : EventRange
one_event = record { events = roll sneak ∷ []; last_id = 5; more = false }

handle_events-keep_example :
    (range : EventRange) × (handle_events env header "" "" dusk ≡ (done range, dusk))
    × (range.events ≡ keep (sees ann false) (roll sneak ∷ []))
    × (range.last_id ≡ last_or_zero (keep (sees ann false) (roll sneak ∷ [])))
    × (range.more
        ≡ not (is_empty (keep (sees ann false) (roll sneak ∷ [])))
          && (length {A = String} ("{}" ∷ []) == 2))
unfolding get_between answer lookup parse is_share get_share core_of
handle_events-keep_example =
    handle_events-keep env header "" "" "+inf" "-inf" dusk session ann false
      (("{}", roll sneak) ∷ []) IsFrom-ann (inl (refl, refl)) (inl (refl, refl)) ann_found refl refl
      ((refl, refl), tt)

abbrev roll_request : RollRequest
roll_request = record {
  count = pos 2;
  title = "hack";
  share = pos 0;
  edge = false;
  glitchy = pos 0;
}

allowed : Allows env header roll_request dusk session ann
unfolding is_share
allowed = (IsFrom-ann, refl, refl, refl, ann_found)

handle_roll_lem_example :
    (Allows env header roll_request dusk session ann
      → roll_request.edge ≡ false
      → length {A = ℕ} (6 ∷ 1 ∷ []) ≡ 2
      → handle_roll env header (ok roll_request) 7_000_000 (dice_of (6 ∷ 1 ∷ 3 ∷ [])) dusk
        ≡ run_pipeline env "dusk"
            (post_event env.marshal_event env.marshal "dusk"
              (roll (for_roll 7_000_000 ann (pos 0) "hack" (6 ∷ 1 ∷ []) (pos 0))))
            dusk)
    × (Allows env header roll_request dusk session ann
        → roll_request.edge ≡ true
        → Explodes 2 ((6 ∷ 1 ∷ []) ∷ (2 ∷ []) ∷ [])
        → handle_roll env header (ok roll_request) 7_000_000 (dice_of (6 ∷ 1 ∷ 2 ∷ 3 ∷ [])) dusk
          ≡ run_pipeline env "dusk"
              (post_event env.marshal_event env.marshal "dusk" (
                edge_roll (
                  for_edge_roll 7_000_000 ann
                    (pos 0)
                    "hack"
                    ((6 ∷ 1 ∷ []) ∷ (2 ∷ []) ∷ [])
                    (pos 0))))
              dusk)
    × (IsFrom env header dusk session
        → ltb_ℤ roll_request.count (pos 1) ≡ true
        → handle_roll env header (ok roll_request) 7_000_000 (dice_of (6 ∷ 1 ∷ [])) dusk
          ≡ (ended (error (wrap bad_request "Invalid roll count")), dusk))
handle_roll_lem_example =
    handle_roll_lem env header 7_000_000 dusk roll_request session ann (6 ∷ 1 ∷ []) (3 ∷ [])
      ((6 ∷ 1 ∷ []) ∷ (2 ∷ []) ∷ [])

posted :
    handle_roll env header (ok roll_request) 7_000_000 (dice_of (6 ∷ 1 ∷ 3 ∷ [])) dusk
    ≡ run_pipeline env "dusk"
        (post_event env.marshal_event env.marshal "dusk"
          (roll (for_roll 7_000_000 ann (pos 0) "hack" (6 ∷ 1 ∷ []) (pos 0))))
        dusk
posted =
    (handle_roll_lem env header 7_000_000 dusk roll_request session ann (6 ∷ 1 ∷ []) (3 ∷ []) []).0
      allowed refl refl

abbrev reroll_request : RerollRequest
reroll_request = record { roll_id = pos 5; type = "rerollFailures" }

handle_reroll_lem_example :
    (get_player env.redis env.scan_player "ann" dusk ≡ ok ann
      → length {A = ℕ} (6 ∷ []) ≡ count is_miss sneak.dice
      → handle_reroll env header (ok reroll_request) 7_000_000 (dice_of (6 ∷ 3 ∷ [])) dusk
        ≡ (run_pipeline env "dusk" (delete_event env.marshal_event env.marshal "dusk" (roll sneak))
              >> run_pipeline env "dusk" (
                  post_event env.marshal_event env.marshal "dusk"
                    (reroll (for_reroll 7_000_000 ann sneak ((6 ∷ []) ∷ (2 ∷ 5 ∷ []) ∷ [])))))
            dusk)
    × (count is_miss sneak.dice ≡ 0
        → handle_reroll env header (ok reroll_request) 7_000_000 (dice_of (3 ∷ [])) dusk
          ≡ (ended (error (wrap bad_request "Invalid previous roll")), dusk))
unfolding valid_reroll_type get_event answer parse_ty
handle_reroll_lem_example =
    handle_reroll_lem env header 7_000_000 dusk reroll_request session ann sneak 6 [] (3 ∷ [])
      (IsFrom-ann, refl, ("{}", refl, refl, refl, refl)) (omega arith, (omega arith, tt))

abbrev dusk_info : GameInfo
dusk_info = record { id = "dusk"; players = ("ann", info ann) ∷ []; gms = [] }

log_player_in-listed_example :
    (env.redis.hget "player_ids" "ann" dusk ≡ reply "ann")
    × (get_player env.redis env.scan_player "ann" dusk ≡ ok ann)
    × ((ids : List String) × (env.redis.smembers ("players:" ++ "dusk") dusk ≡ reply ids)
        × (listed ids "ann" ≡ true))
unfolding log_player_in get_by_username get_player lookup get_info get_players answer
    retry_watch_txn assign
log_player_in-listed_example =
    log_player_in-listed env.redis env.scan_player 2 env.watch (λ f x. refl) "dusk" "ann" dusk
      (dusk_info, ann) refl

-- Ann's session is left when she is no player of the game any more.
abbrev left : Memory
left = record dusk {
  hashes = ("player:bob", ("username", "bob") ∷ []) ∷ dusk.hashes;
  sets = ("players:dusk", "bob" ∷ []) ∷ [];
}

abbrev left_info : GameInfo
left_info = record {
  id = "dusk";
  players = ("bob", info (record ann { id = "bob" })) ∷ [];
  gms = [];
}

left_info-read : game_of env session left ≡ ok left_info
unfolding get_info get_players get_player lookup answer retry_watch_txn assign info
left_info-read = refl

ann_stays : get_player env.redis env.scan_player "ann" (without_session env session left) ≡ ok ann
unfolding get_player lookup remove_session session_key
ann_stays = refl

session_left : get_session env.redis env.scan_session "s1" left ≡ ok session
unfolding get_session lookup
session_left = refl

handle_reauth_lem_example :
    (handle_reauth env (ok "s1") left ≡ (
      done (record { player = ann; game_info = left_info; session = "s1" }),
      without_session env session left,
    ))
    × (session.id ≡ "s1")
    × (get_session env.redis env.scan_session "s1" (without_session env session left)
        ≡ err err_no_session_data)
unfolding has_player
handle_reauth_lem_example =
    handle_reauth_lem env (hashes (λ max min score. true)) "s1" left session left_info ann
      session_left left_info-read ann_stays

abbrev name_request : Dict Input
name_request = ("name", Args.text " Bea ") ∷ []

handle_update_player-IsChecked_example :
    ((handle_update_player env (λ plr. some []) header (ok name_request) dusk).1 ≡ dusk)
    ⊎ Updates env
        (λ plr. some [])
        header
        dusk
        (handle_update_player env (λ plr. some []) header (ok name_request) dusk).1
handle_update_player-IsChecked_example =
    handle_update_player-IsChecked env (λ plr. some []) header (ok name_request) dusk

name_trimmed :
    (handle_update_player env (λ plr. some []) header (ok name_request) dusk).0
    ≡ done (some (("name", Update.text "Bea") ∷ []))
unfolding handle_update_player ◌>>=◌ session_from_header must_session must must_read refuse_if
    get_session lookup assign put_both trim_space valid_name update_player Update.is_empty
    for_player_diff Players.edit_fields Players.edit_field make_redis_command
name_trimmed = refl

-- A roll that is named but gone is answered with 500, and an edit of it with 400.
gone :
    ((handle_reroll env header
        (ok reroll_request)
        7_000_000
        (dice_of [])
        (record dusk { history = [] })).0
      ≡ ended (error (wrap internal "late")))
    × ((handle_update_event env header
          (ok update_request)
          7_000_000
          (record dusk { history = [] })).0
        ≡ ended (error (wrap bad_request "late")))
unfolding handle_reroll handle_update_event ◌>>=◌ session_from_header must_session must must_read
    refuse_if get_session lookup get_event answer valid_reroll_type is_internal
gone = (refl, refl)

-- An edit of an initiative that changes nothing is still sent.
abbrev first : InitiativeRoll
first = record {
  core = record {
    id = 5;
    ty = "initiativeRoll";
    edit = 0;
    share = pos 0;
    player_id = "ann";
    player_name = "Ann";
  };
  title = "fight";
  base = pos 9;
  dice = 4 ∷ [];
  seized = false;
  blitzed = false;
}

abbrev initiative_env : Env
initiative_env = record env {
  json = record json {
    object = λ input. some (("ty", text "initiativeRoll") ∷ []);
    as_initiative_roll = λ input. some first;
  };
}

sent_unchanged :
    length
      (handle_edit_initiative initiative_env header
        (ok (record { id = pos 5; diff = ("title", Args.text "fight") ∷ [] }))
        7_000_000
        dusk).1.messages
    ≡ 1
unfolding handle_edit_initiative ◌>>=◌ session_from_header must_session must must_read refuse_if
    get_session lookup get_event answer parse get_type get_player_id core_of edit_fields edit_field
    run_pipeline update_event update_channel elements get_share get_id replace_commands
sent_unchanged = refl
