-- ===== src/Routes/Edits/Owners.antt =====
-- Only the player of an event changes it.
use shadowroller.Common.{
  ℕ, ℤ, ◌≡◌, ◌≢◌, ◌⊎◌, inl, inr, false, not, [], String, str_eq, eq_iff, arith,
}
use shadowroller.Errs.{Err, bad_request, no_access, wrap}
use shadowroller.Errs.Answer.{Answer, ok}
use shadowroller.Http.Halt.{Panic}
use shadowroller.Game.History.{delete_event}
use shadowroller.Action.{◌>>=◌, ◌>>◌}
use shadowroller.Action.Reads.{Reads, untouched, Reads-then}
use shadowroller.Id.{new_event_id}
use shadowroller.Event.{Event, get_player_id, get_type, event_type_player_join, set_edit}
use shadowroller.Event.Codec.{parse, Parsed, event}
use shadowroller.Event.Codec
use shadowroller.Event.Share.{is_share}
use shadowroller.Lookup.Events.{get_event}
use shadowroller.Session.{Session}
use shadowroller.Routes.Args.{
  Env, Handler, as_is, as_bad_request, as_internal, must, refuse_if, parsed, must_session,
  must_read, run_pipeline,
}
use shadowroller.Routes.Args.Reads.{
  IsFrom, must-Reads, refuse_if-Reads, must_session-Reads, must_read-Reads,
}
use shadowroller.Routes.Edits.{
  ShareEventRequest, UpdateEventRequest, DeleteEventRequest, handle_share_event,
  handle_update_event, handle_delete_event, refuse_others, edit_fields, as_found, share_found,
  update_found, share_requested, update_requested, delete_requested,
}

parsed_event : (p : Parsed) (e : Event) → parsed p ≡ ok e → p ≡ event e
parsed_event (event a) e h = cc
parsed_event (Codec.failed a) e h = cc

module _ (env : Env) where
  -- The event with this id in the session's game is of the session's player, and not a join.
  abbrev pub Owns : Session → ℤ → env.redis.Store → Type 0
  Owns sess id s =
      (event_text : String) × (evt : Event) × (get_event env.redis env.print_int sess.game_id id s
        ≡ ok event_text)
      × (parse env.json event_text ≡ event evt)
      × (get_player_id evt ≡ sess.player_id)
      × (get_type evt ≢ event_type_player_join)

  -- The player of the request's session owns the event.
  abbrev pub OwnsOf : String → ℤ → env.redis.Store → Type 0
  OwnsOf header id s = (sess : Session) × IsFrom env header s sess × Owns sess id s

  refuse_others-Reads :
      (message player_id : String) (evt : Event) (s : env.redis.Store)
      → Reads
          (λ t. (get_player_id evt ≡ player_id) × (get_type evt ≢ event_type_player_join))
          (refuse_others env message player_id evt)
          s
  refuse_others-Reads message player_id evt s =
      let author = not (str_eq (get_player_id evt) player_id) in
      let join = str_eq (get_type evt) event_type_player_join in
      Reads-then (λ t. author ≡ false)
        (λ t. (get_player_id evt ≡ player_id) × (get_type evt ≢ event_type_player_join))
        (refuse_if author (wrap no_access message)) (λ t. refuse_if join (wrap no_access message)) s
        (refuse_if-Reads author (wrap no_access message) s)
        (λ t own.
          let (same, holds) = refuse_if-Reads join (wrap no_access message) s in
          (
            same,
            λ u e.
                let other = holds u e in
                (
                  ground (arith, eq_iff (get_player_id evt) player_id),
                  λ q. ground (arith, eq_iff (get_type evt) event_type_player_join),
                ),
          ))

  -- The part that the three handlers share, from the event's text on.
  abbrev from_event :
      (Err → Panic)
      → (Err → Panic)
      → String
      → Session
      → ℤ
      → (Event → Handler env (Unit {0}))
      → Handler env (Unit {0})
  from_event on_error on_parse message sess id k = do
    event_text ← must on_error (get_event env.redis env.print_int sess.game_id id)
    evt ← must on_parse (λ s. parsed (parse env.json event_text))
    refuse_others env message sess.player_id evt
    k evt

  found_event :
      (message : String) (sess : Session) (id : ℤ) (k : Event → Handler env (Unit {0}))
      (s : env.redis.Store) (event_text : String)
      → get_event env.redis env.print_int sess.game_id id s ≡ ok event_text
      → (evt : Event) → parsed (parse env.json event_text) ≡ ok evt
      → (((refuse_others env message sess.player_id evt >> k evt) s).1 ≡ s) ⊎ Owns sess id s
  found_event message sess id k s event_text is_text evt is_evt =
      untouched
        (λ t. (get_player_id evt ≡ sess.player_id) × (get_type evt ≢ event_type_player_join))
        (refuse_others env message sess.player_id evt) (λ t. k evt) s
        (refuse_others-Reads message sess.player_id evt s)
        (λ t own. inr (
          event_text,
          evt,
          is_text,
          parsed_event (parse env.json event_text) evt is_evt,
          own.0,
          own.1,
        ))

  found :
      (on_error on_parse : Err → Panic) (message : String) (sess : Session) (id : ℤ)
      (k : Event → Handler env (Unit {0})) (s : env.redis.Store)
      → ((from_event on_error on_parse message sess id k s).1 ≡ s) ⊎ Owns sess id s
  found on_error on_parse message sess id k s =
      untouched (λ event_text. get_event env.redis env.print_int sess.game_id id s ≡ ok event_text)
        (must on_error (get_event env.redis env.print_int sess.game_id id))
        (λ event_text. must on_parse (λ t. parsed (parse env.json event_text)) >>= λ evt.
          refuse_others env message sess.player_id evt >> k evt)
        s (must-Reads on_error (get_event env.redis env.print_int sess.game_id id) s)
        (λ event_text is_text.
          untouched (λ evt. parsed (parse env.json event_text) ≡ ok evt)
            (must on_parse (λ t. parsed (parse env.json event_text)))
            (λ evt. refuse_others env message sess.player_id evt >> k evt) s
            (must-Reads on_parse (λ t. parsed (parse env.json event_text)) s)
            (found_event message sess id k s event_text is_text))

  -- A request that its session and its body are read for.
  requested :
      {A : Type 0} (header : String) (body : Answer A) (k : Session → A → Handler env (Unit {0}))
      (s : env.redis.Store) {Q : Session → A → Type 0}
      → ((sess : Session) (request : A) → ((k sess request s).1 ≡ s) ⊎ Q sess request)
      → (((must_session env header >>= λ sess. must_read env body >>= k sess) s).1 ≡ s)
        ⊎ ((sess : Session) × (request : A) × IsFrom env header s sess
            × (body ≡ ok request)
            × Q sess request)
  requested header body k s h =
      untouched (IsFrom env header s) (must_session env header)
        (λ sess. must_read env body >>= k sess) s (must_session-Reads env header s)
        (λ sess from.
          untouched (λ request. body ≡ ok request) (must_read env body) (k sess) s
            (must_read-Reads env body s)
            (λ request read. elim (h sess request) [
              | inl same ↦ inl same
              | inr q ↦ inr (sess, request, from, read, q)
            ]))

  share_owned :
      (now : ℕ) (s : env.redis.Store) (sess : Session) (request : ShareEventRequest)
      → ((share_requested env now sess request s).1 ≡ s) ⊎ Owns sess request.id s
  unfolding share_requested
  share_owned now s sess request =
      let wrong = not (is_share request.share) in
      untouched {B = Unit {0}} (λ t. wrong ≡ false)
        (refuse_if wrong (wrap bad_request "Invalid share type"))
        (λ t.
          from_event (as_bad_request env.print) (as_internal env.print)
            "You may not edit this event" sess request.id
            (share_found env sess.game_id request.share now))
        s (refuse_if-Reads wrong (wrap bad_request "Invalid share type") s)
        (λ t right.
          found (as_bad_request env.print) (as_internal env.print) "You may not edit this event"
            sess request.id (share_found env sess.game_id request.share now) s)

  update_owned :
      (now : ℕ) (s : env.redis.Store) (sess : Session) (request : UpdateEventRequest)
      → ((update_requested env now sess request s).1 ≡ s) ⊎ Owns sess request.id s
  unfolding update_requested
  update_owned now s sess request =
      found (as_bad_request env.print) (as_bad_request env.print) "You may not update this event"
        sess request.id
        (λ evt.
          must as_is (λ x. edit_fields request.diff (set_edit (new_event_id now) evt, []))
          >>= update_found env sess.game_id)
        s

  delete_owned :
      (s : env.redis.Store) (sess : Session) (request : DeleteEventRequest)
      → ((delete_requested env sess request s).1 ≡ s) ⊎ Owns sess request.id s
  unfolding delete_requested
  delete_owned s sess request =
      found (as_found env.print) (as_bad_request env.print) "You may not delete this event." sess
        request.id
        (λ evt.
          run_pipeline env sess.game_id
            (delete_event env.marshal_event env.marshal sess.game_id evt))
        s

  -- Only the player of an event changes it. A request to share, to edit or to delete an event leaves
  -- everything that is stored as it is, also where it ends in an error, unless it comes with a
  -- session, and the event that it names is in that session's game, is of that session's player and is
  -- not a player join.
  pub edits-Owned :
      (header : String) (now : ℕ) (share : Answer ShareEventRequest)
      (update : Answer UpdateEventRequest) (delete : Answer DeleteEventRequest)
      (s : env.redis.Store)
      → (((handle_share_event env header share now s).1 ≡ s)
          ⊎ ((sess : Session) × (request : ShareEventRequest) × IsFrom env header s sess
              × (share ≡ ok request)
              × Owns sess request.id s))
        × (((handle_update_event env header update now s).1 ≡ s)
            ⊎ ((sess : Session) × (request : UpdateEventRequest) × IsFrom env header s sess
                × (update ≡ ok request)
                × Owns sess request.id s))
        × (((handle_delete_event env header delete s).1 ≡ s)
            ⊎ ((sess : Session) × (request : DeleteEventRequest) × IsFrom env header s sess
                × (delete ≡ ok request)
                × Owns sess request.id s))
  unfolding handle_share_event handle_update_event handle_delete_event
  edits-Owned header now share update delete s = (
    requested header share (share_requested env now) s (share_owned now s),
    requested header update (update_requested env now) s (update_owned now s),
    requested header delete (delete_requested env) s (delete_owned s),
  )
