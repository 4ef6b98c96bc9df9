-- ===== src/Routes/Rolls/Posted.antt =====
-- What a request to roll or to reroll posts.
use shadowroller.Common.{
  ℕ, ◌≤◌, pos, ltb_ℤ, pos_part, ◌≡◌, refl, sym, ap, ◌∙◌, true, false, not, List, [], ◌∷◌, ◌++◌,
  replicate, length, count, concat, All, none, some, String, eq_refl,
}
use shadowroller.Errs.{bad_request, wrap}
use shadowroller.Errs.Answer.{Answer, ok}
use shadowroller.Http.Halt.{error}
use shadowroller.Action.{ended, ◌>>=◌, ◌>>◌}
use shadowroller.Action.Reads.{then_done, then_ended}
use shadowroller.Player.{Player}
use shadowroller.Roll.Roller.{is_miss, fill, reroll_misses}
use shadowroller.Roll.Roller.Rounds.{Explodes, exploding_sixes-rounds}
use shadowroller.Roll.Roller.Rerolls.{fill-append, reroll_misses-append, length-replicate}
use shadowroller.Event.{
  Roll, roll, edge_roll, reroll, for_roll, for_edge_roll, for_reroll, valid_reroll_type,
}
use shadowroller.Event.Share.{is_share}
use shadowroller.Event.Scan.{parse_ty}
use shadowroller.Game.History.{post_event, delete_event}
use shadowroller.Lookup.Events.{get_event}
use shadowroller.Lookup.Players.{get_player}
use shadowroller.Session.{Session}
use shadowroller.Routes.Args.{Env, Handler, Dice, as_is, as_internal, must, run_pipeline}
use shadowroller.Routes.Args.Reads.{
  must_ok, must_err, refuse_if-false, refuse_if-true, IsFrom, must_session-IsFrom, must_read_ok,
}
use shadowroller.Routes.Rolls.{
  RollRequest, RerollRequest, handle_roll, handle_reroll, rolled, filled, exploded, post,
  previous_roll, new_round, roll_requested, reroll_requested,
}

-- The dice of a request that goes on, with what the channel delivers.
abbrev pub dice_of : List ℕ → Dice
dice_of values = record { ctx = none; values = values }

filled_all :
    (count : ℕ) (ds rest : List ℕ)
    → length ds ≡ count
    → filled (fill none (replicate count 0) (ds ++ rest)) ≡ ok ds
unfolding filled
filled_all count ds rest enough =
    ap filled
      ((fill-append none (replicate count 0) ds rest).0 (length-replicate count 0 ∙ sym enough))

rolled_plain :
    (now : ℕ) (ds rest : List ℕ) (plr : Player) (request : RollRequest)
    → request.edge ≡ false
    → length ds ≡ pos_part request.count
    → rolled now (dice_of (ds ++ rest)) plr request
      ≡ ok (roll (for_roll now plr request.share request.title ds request.glitchy))
unfolding rolled
rolled_plain now ds rest plr request plain enough =
    rw (plain, filled_all (pos_part request.count) ds rest enough)

rolled_edge :
    (now : ℕ) (rounds : List (List ℕ)) (rest : List ℕ) (plr : Player) (request : RollRequest)
    → request.edge ≡ true
    → Explodes (pos_part request.count) rounds
    → rolled now (dice_of (concat rounds ++ rest)) plr request
      ≡ ok (edge_roll (for_edge_roll now plr request.share request.title rounds request.glitchy))
unfolding rolled exploded
rolled_edge now rounds rest plr request edge explodes =
    rw (edge, exploding_sixes-rounds none (pos_part request.count) rounds rest explodes)

module _ (env : Env) where
  -- The request is from a player who is stored, and it passes the tests.
  abbrev pub Allows : String → RollRequest → env.redis.Store → Session → Player → Type 0
  Allows header request s sess plr =
      IsFrom env header s sess
      × (ltb_ℤ request.count (pos 1) ≡ false)
      × (ltb_ℤ (pos env.max_single_roll) request.count ≡ false)
      × (is_share request.share ≡ true)
      × (get_player env.redis env.scan_player sess.player_id s ≡ ok plr)

  handle_roll-rolled :
      (header : String) (body : Answer RollRequest) (now : ℕ) (dice : Dice) (s : env.redis.Store)
      (request : RollRequest) (sess : Session) (plr : Player) {evt : _}
      → body ≡ ok request
      → Allows header request s sess plr
      → rolled now dice plr request ≡ ok evt
      → handle_roll env header body now dice s
        ≡ run_pipeline env sess.game_id
            (post_event env.marshal_event env.marshal sess.game_id evt)
            s
  unfolding handle_roll roll_requested post
  handle_roll-rolled header body now dice s request sess plr {evt} read
        (from, low, high, share, found) e =
      then_done _ _ s sess s (must_session-IsFrom env header s sess from)
      ∙ (then_done _ _ s request s (must_read_ok env body s request read)
          ∙ (then_done _ _ s tt s (refuse_if-false _ _ s low)
              ∙ (then_done _ _ s tt s (refuse_if-false _ _ s high)
                  ∙ (then_done _ _ s tt s (refuse_if-false _ _ s (ap not share))
                      ∙ (then_done _ _ s plr s (must_ok _ _ s plr found)
                          ∙ then_done _ _ s evt s (must_ok _ _ s evt e))))))

  handle_roll-refused :
      (header : String) (now : ℕ) (s : env.redis.Store) (request : RollRequest) (sess : Session)
      (ds : List ℕ)
      → IsFrom env header s sess
      → ltb_ℤ request.count (pos 1) ≡ true
      → handle_roll env header (ok request) now (dice_of ds) s
        ≡ (ended (error (wrap bad_request "Invalid roll count")), s)
  unfolding handle_roll roll_requested post
  handle_roll-refused header now s request sess ds from low =
      then_done _ _ s sess s (must_session-IsFrom env header s sess from)
      ∙ (then_done _ _ s request s (must_read_ok env (ok request) s request refl)
          ∙ then_ended _ _ s _ s (refuse_if-true _ _ s low))

  -- A request to roll, of a player who is stored, for at least one die and at most the maximum, with
  -- one of the three shares, while Redis answers and the request goes on. It posts one event to the
  -- session's game, and nothing else: if the channel delivers as many dice as were asked for, a roll
  -- of exactly those dice in their order; with edge, if it delivers the rounds of an explosion of that
  -- pool, an edge roll of those rounds. A count below one is refused before anything is stored.
  pub handle_roll_lem :
      (header : String) (now : ℕ) (s : env.redis.Store) (request : RollRequest) (sess : Session)
      (plr : Player) (ds rest : List ℕ) (rounds : List (List ℕ))
      → (Allows header request s sess plr
          → request.edge ≡ false
          → length ds ≡ pos_part request.count
          → handle_roll env header (ok request) now (dice_of (ds ++ rest)) s
            ≡ run_pipeline env sess.game_id
                (post_event env.marshal_event env.marshal sess.game_id
                  (roll (for_roll now plr request.share request.title ds request.glitchy)))
                s)
        × (Allows header request s sess plr
            → request.edge ≡ true
            → Explodes (pos_part request.count) rounds
            → handle_roll env header (ok request) now (dice_of (concat rounds ++ rest)) s
              ≡ run_pipeline env sess.game_id
                  (post_event env.marshal_event env.marshal sess.game_id (
                    edge_roll
                      (for_edge_roll now plr request.share request.title rounds request.glitchy)))
                  s)
        × (IsFrom env header s sess
            → ltb_ℤ request.count (pos 1) ≡ true
            → handle_roll env header (ok request) now (dice_of ds) s
              ≡ (ended (error (wrap bad_request "Invalid roll count")), s))
  handle_roll_lem header now s request sess plr ds rest rounds = (
    λ allows plain enough.
        handle_roll-rolled header (ok request) now (dice_of (ds ++ rest)) s request sess plr refl
          allows (rolled_plain now ds rest plr request plain enough),
    λ allows edge explodes.
        handle_roll-rolled header (ok request) now (dice_of (concat rounds ++ rest)) s request sess
          plr refl allows (rolled_edge now rounds rest plr request edge explodes),
    λ from low. handle_roll-refused header now s request sess ds from low,
  )

  -- The roll that a request to reroll names is of the request's player.
  abbrev pub Names : String → RerollRequest → env.redis.Store → Session → Roll → Type 0
  Names header request s sess previous =
      IsFrom env header s sess
      × (valid_reroll_type request.type ≡ true)
      × ((event_text : String) × (get_event env.redis env.print_int sess.game_id request.roll_id s
            ≡ ok event_text)
          × (parse_ty env.scanner event_text ≡ "roll")
          × (env.json.as_roll event_text ≡ some previous)
          × (previous.core.player_id ≡ sess.player_id))

  -- What `handleReroll` does once the new dice are rolled.
  abbrev rerolling : ℕ → Session → Roll → List ℕ → Handler env (Unit {0})
  rerolling now sess previous dice = do
    round ← must as_is (λ s. new_round env dice)
    plr ← must (as_internal env.print) (get_player env.redis env.scan_player sess.player_id)
    run_pipeline env sess.game_id
        (delete_event env.marshal_event env.marshal sess.game_id (roll previous))
    post env sess (reroll (for_reroll now plr previous (round ∷ previous.dice ∷ [])))

  until_round :
      (header : String) (now : ℕ) (dice : Dice) (s : env.redis.Store) (request : RerollRequest)
      (sess : Session) (previous : Roll) (ds : List ℕ)
      → Names header request s sess previous
      → filled (reroll_misses dice.ctx previous.dice dice.values) ≡ ok ds
      → handle_reroll env header (ok request) now dice s ≡ rerolling now sess previous ds s
  unfolding handle_reroll reroll_requested previous_roll
  until_round header now dice s request sess previous ds
        (from, valid, (event_text, read, is_roll, decoded, own)) e =
      then_done _ _ s sess s (must_session-IsFrom env header s sess from)
      ∙ (then_done _ _ s request s (must_read_ok env (ok request) s request refl)
          ∙ (then_done _ _ s tt s (refuse_if-false _ _ s (ap not valid))
              ∙ (then_done _ _ s event_text s (must_ok _ _ s event_text read)
                  ∙ (then_done _ _ s tt s (refuse_if-false _ _ s (rw is_roll))
                      ∙ (then_done _ _ s previous s (must_ok _ _ s previous (rw decoded))
                          ∙ (then_done _ _ s tt s
                                (refuse_if-false _ _ s (rw (own, eq_refl sess.player_id)))
                              ∙ then_done _ _ s ds s (must_ok _ _ s ds e)))))))

  -- Second Chance, for a request whose session's player is stored and owns the roll that it names,
  -- while Redis answers and the request goes on, on a roll of six-sided dice. If the channel delivers
  -- as many dice as the roll had misses, and that is at least one, the roll is deleted, and then a
  -- reroll of it is posted, with those dice as the new round and the roll's own dice behind them, under
  -- the roll's title and share. If the roll had no misses, the request is refused and nothing is stored.
  pub handle_reroll_lem :
      (header : String) (now : ℕ) (s : env.redis.Store) (request : RerollRequest) (sess : Session)
      (plr : Player) (previous : Roll) (die : ℕ) (ds rest : List ℕ)
      → Names header request s sess previous
      → All (λ d. d ≤ 6) previous.dice
      → (get_player env.redis env.scan_player sess.player_id s ≡ ok plr
          → length (die ∷ ds) ≡ count is_miss previous.dice
          → handle_reroll env header (ok request) now (dice_of ((die ∷ ds) ++ rest)) s
            ≡ (run_pipeline env sess.game_id
                    (delete_event env.marshal_event env.marshal sess.game_id (roll previous))
                  >> run_pipeline env sess.game_id (
                      post_event env.marshal_event env.marshal sess.game_id
                        (reroll (for_reroll now plr previous ((die ∷ ds) ∷ previous.dice ∷ [])))))
                s)
        × (count is_miss previous.dice ≡ 0
            → handle_reroll env header (ok request) now (dice_of rest) s
              ≡ (ended (error (wrap bad_request "Invalid previous roll")), s))
  unfolding new_round post filled
  handle_reroll_lem header now s request sess plr previous die ds rest names six = (
    λ found enough.
        until_round header now (dice_of ((die ∷ ds) ++ rest)) s request sess previous (die ∷ ds)
          names (rw (reroll_misses-append none previous.dice (die ∷ ds) rest six enough))
        ∙ (then_done _ _ s (die ∷ ds) s (must_ok _ _ s (die ∷ ds) refl)
            ∙ then_done _ _ s plr s (must_ok _ _ s plr found)),
    λ all_hits.
        until_round header now (dice_of rest) s request sess previous [] names
          (rw (reroll_misses-append none previous.dice [] rest six (sym all_hits)))
        ∙ then_ended _ _ s _ s (must_err _ _ s _ refl),
  )
