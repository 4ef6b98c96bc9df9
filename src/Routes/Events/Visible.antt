-- ===== src/Routes/Events/Visible.antt =====
-- A player is shown the part of the history that they may see.
use Prim.Native.String.{◌++◌}
use shadowroller.Common.{
  ℕ, ◌==◌, ◌≢◌, ◌⊎◌, inl, inr, not, ◌&&◌, ◌≡◌, refl, ap, ◌∙◌, Bool, true, false, List, [], ◌∷◌, map,
  length, none, some, String, keep, All, if◌then◌else◌, arith,
}
use shadowroller.Errs.Answer.{ok}
use shadowroller.Action.{Action, done}
use shadowroller.Action.Reads.{then_done}
use shadowroller.Player.{Player}
use shadowroller.Event.{Event, get_id, get_share}
use shadowroller.Event.Share.{is_share}
use shadowroller.Event.Scan.{valid_id}
use shadowroller.Game.Share.Channels.{str_eq_of_ne}
use shadowroller.Event.Codec.{parse, event}
use shadowroller.Game.Share.{player_can_see_event}
use shadowroller.Redis.{answer, reply}
use shadowroller.Lookup.Events.{get_between}
use shadowroller.Lookup.Players.{get_player}
use shadowroller.Session.{Session}
use shadowroller.Routes.Args.{Env, parsed}
use shadowroller.Routes.Args.Reads.{must_ok, refuse_if-false, IsFrom, must_session-IsFrom}
use shadowroller.Routes.Events.{
  EventRange, last_id, range_end, range_of, handle_events, visible, shown, game_has_gm,
}

-- Whether the player may see an event with a valid share.
abbrev pub sees : Player → Bool → Event → Bool
sees plr is_gm evt = elim (player_can_see_event plr is_gm evt) [ none ↦ false | some b ↦ b ]

can_see_valid :
    (plr : Player) (is_gm : Bool) (evt : Event)
    → is_share (get_share evt) ≡ true
    → player_can_see_event plr is_gm evt ≡ some (sees plr is_gm evt)
unfolding player_can_see_event is_share
can_see_valid plr is_gm evt h = ground arith

-- The id of the last event, and 0 if there is none.
abbrev pub last_or_zero : List Event → ℕ
last_or_zero [] = 0
last_or_zero (evt ∷ []) = get_id evt
last_or_zero (evt ∷ next ∷ evts) = last_or_zero (next ∷ evts)

abbrev pub is_empty : List Event → Bool
is_empty [] = true
is_empty (evt ∷ evts) = false

last_id_lem :
    (id : ℕ) (evt : Event) (evts : List Event) → last_id id (evt ∷ evts) ≡ last_or_zero (evt ∷ evts)
unfolding last_id
last_id_lem id evt [] = refl
last_id_lem id evt (next ∷ evts) = last_id_lem (get_id evt) next evts

module _ (env : Env) where
  -- A text that the server stores: it is read back as an event with a valid share.
  abbrev pub IsStored : String × Event → Type 0
  IsStored (text, evt) = (parse env.json text ≡ event evt) × (is_share (get_share evt) ≡ true)

  shown_first :
      (evt : Event) (b : Bool) (rest : Action env.redis.Store (List Event)) (s : env.redis.Store)
      (evts : List Event)
      → rest s ≡ (done evts, s)
      → shown env evt (some b) rest s ≡ (done (if b then evt ∷ evts else evts), s)
  unfolding shown
  shown_first evt true rest s evts e = then_done _ _ s evts s e
  shown_first evt false rest s evts e = e

  visible-keep :
      (plr : Player) (is_gm : Bool) (history : List (String × Event)) (s : env.redis.Store)
      → All IsStored history
      → visible env plr is_gm (map (λ x. x.0) history) s
        ≡ (done (keep (sees plr is_gm) (map (λ x. x.1) history)), s)
  unfolding visible shown
  visible-keep plr is_gm [] s h = refl
  visible-keep plr is_gm ((text, evt) ∷ history) s ((read, valid), h) =
      then_done _ _ s evt s (must_ok _ _ s evt (ap parsed read))
      ∙ rw (can_see_valid plr is_gm evt valid) (
          shown_first evt (sees plr is_gm evt) (visible env plr is_gm (map (λ x. x.0) history)) s
            (keep (sees plr is_gm) (map (λ x. x.1) history)) (visible-keep plr is_gm history s h))

  -- What is asked for: every id on that side of the history, or those up to a valid id.
  abbrev pub IsBound : String → String → String → Type 0
  IsBound unbounded id bound =
      ((id ≡ "") × (bound ≡ unbounded)) ⊎ ((id ≢ "") × (valid_id id ≡ true) × (bound ≡ id))

  range_end-IsBound :
      (unbounded id bound : String)
      → IsBound unbounded id bound
      → range_end unbounded id ≡ (bound, false)
  unfolding range_end
  range_end-IsBound unbounded id bound (inl (e, b)) = rw (e, b)
  range_end-IsBound unbounded id bound (inr (n, v, b)) = rw (str_eq_of_ne id "" n, v, b)

  -- The answer with these events, of a history in the range that is full or not.
  abbrev pub IsAnswer : List Event → Bool → EventRange → Type 0
  IsAnswer evts full range =
      (range.events ≡ evts)
      × (range.last_id ≡ last_or_zero evts)
      × (range.more ≡ not (is_empty evts) && full)

  range_of-IsAnswer :
      (max total : ℕ) (evts : List Event) → IsAnswer evts (total == max) (range_of max total evts)
  unfolding range_of
  range_of-IsAnswer max total [] = (refl, refl, refl)
  range_of-IsAnswer max total (evt ∷ evts) = (refl, last_id_lem 0 evt evts, refl)

  -- A request for events, with a session whose player is stored and with ids that are missing or valid,
  -- while Redis answers and the history in the range holds the texts of events with valid shares:
  -- nothing that is stored changes, and the answer has exactly the events in the range that the player
  -- may see, in their order, with the id of the last one of them, or 0 if there is none. It says that
  -- there is more exactly if there is one of them and the range has as many events as are read at once.
  pub handle_events-keep :
      (header newest oldest max min : String) (s : env.redis.Store) (sess : Session) (plr : Player)
      (is_gm : Bool) (history : List (String × Event))
      → IsFrom env header s sess
      → IsBound "+inf" newest max
      → IsBound "-inf" oldest min
      → get_player env.redis env.scan_player sess.player_id s ≡ ok plr
      → get_between env.redis sess.game_id max min env.max_event_range s
        ≡ ok (map (λ x. x.0) history)
      → env.redis.sis_member ("gm:" ++ sess.game_id) sess.player_id s ≡ reply is_gm
      → All IsStored history
      → (range : EventRange) × (handle_events env header newest oldest s ≡ (done range, s))
        × (range.events ≡ keep (sees plr is_gm) (map (λ x. x.1) history))
        × (range.last_id ≡ last_or_zero (keep (sees plr is_gm) (map (λ x. x.1) history)))
        × (range.more
            ≡ not (is_empty (keep (sees plr is_gm) (map (λ x. x.1) history)))
              && (length (map (λ x. x.0) history) == env.max_event_range))
  unfolding handle_events game_has_gm answer
  handle_events-keep header newest oldest max min s sess plr is_gm history from new old found texts
        gm h =
      let e = range_end-IsBound "+inf" newest max new in
      let e' = range_end-IsBound "-inf" oldest min old in
      let (same, last, more) =
        range_of-IsAnswer env.max_event_range (length (map (λ x. x.0) history))
          (keep (sees plr is_gm) (map (λ x. x.1) history)) in
      (
        range_of env.max_event_range (length (map (λ x. x.0) history))
            (keep (sees plr is_gm) (map (λ x. x.1) history)),
        then_done _ _ s sess s (must_session-IsFrom env header s sess from)
            ∙ (then_done _ _ s tt s (refuse_if-false _ _ s (ap (λ x. x.1) e))
                ∙ (then_done _ _ s tt s (refuse_if-false _ _ s (ap (λ x. x.1) e'))
                    ∙ (then_done _ _ s plr s (must_ok _ _ s plr found)
                        ∙ (then_done _ _ s (map (λ x. x.0) history) s (
                              must_ok _ _ s _ (
                                ap
                                  (λ x.
                                    get_between env.redis sess.game_id x (range_end "-inf" oldest).0
                                      env.max_event_range s)
                                  (ap (λ x. x.0) e)
                                ∙ ap
                                    (λ x.
                                      get_between env.redis sess.game_id max x env.max_event_range
                                        s)
                                    (ap (λ x. x.0) e')
                                ∙ texts))
                            ∙ (then_done _ _ s is_gm s (must_ok _ _ s is_gm (rw gm))
                                ∙ then_done _ _ s _ s (visible-keep plr is_gm history s h)))))),
        same,
        last,
        more,
      )
