-- ===== src/Lookup/Events.antt =====
-- server/event/event.go: GetByID, GetLatest, GetOlderThan and GetBetween, on the sorted set of a
-- game's history.
use Prim.Native.String.{◌++◌}
use shadowroller.Common.{ℕ, ℤ, List, [], ◌∷◌, String}
use shadowroller.Errs.{not_found, wrap, plain}
use shadowroller.Errs.Answer.{Answer, ok, err}
use shadowroller.Redis.{Client, answer}

first_event : Answer (List String) → Answer String
first_event (err e) = err (wrap e "finding event by ID")
first_event (ok []) = err (wrap not_found "event")
first_event (ok (evt ∷ evts)) = ok evt

-- The error is printed, not wrapped.
range_of : Answer (List String) → Answer (List String)
range_of (err e) = err (plain "finding events")
range_of (ok evts) = ok evts

module _ (redis : Client) where
  -- `GetByID`; `print` is the `%v` of an `int64`.
  unfoldable pub get_event : (ℤ → String) → String → ℤ → redis.Store → Answer String
  unfolding first_event
  get_event print game_id event_id s =
      let id = print event_id in
      first_event (answer (redis.zrev_range_by_score ("history:" ++ game_id) id id 1 s))

  unfoldable pub get_between : String → String → String → ℕ → redis.Store → Answer (List String)
  unfolding range_of
  get_between game_id newest oldest count s =
      range_of (answer (redis.zrev_range_by_score ("history:" ++ game_id) newest oldest count s))

  unfoldable pub get_older_than : String → String → ℕ → redis.Store → Answer (List String)
  unfolding get_between
  get_older_than game_id newest count s = get_between game_id newest "-inf" count s

  unfoldable pub get_latest : String → ℕ → redis.Store → Answer (List String)
  unfolding get_older_than
  get_latest game_id count s = get_older_than game_id "+inf" count s
