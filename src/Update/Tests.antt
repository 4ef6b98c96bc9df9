-- ===== src/Update/Tests.antt =====
-- The updates of server/update at concrete values.
use shadowroller.Common.{◌≡◌, refl, ◌⊎◌, [], ◌∷◌, none, some, true, String, arith}
use shadowroller.Update.{
  EventDiff, EventUpdate, event_delete, second_chance, event, type, event_id, time, player_id,
  is_empty, for_player_online, for_player_diff, elements, type_event_mod,
}
use shadowroller.Update.Filter.{
  with_filters, with_filter_player, with_exclude_gms, serialize, parse_exclude,
  parse_exclude-serialize,
}
use shadowroller.Update.Types.{first_type, first_type-elements}

abbrev rerolled : EventUpdate
rerolled = second_chance (record { id = 7; time = 9; diff = [] })

read_parts_of_updates :
    (event_id rerolled ≡ 7)
    × (time rerolled ≡ 9)
    × (player_id (for_player_online "ann" true) ≡ "ann")
    × (is_empty (for_player_diff "ann" []) ≡ true)
    × (with_filter_player "ann" (with_filters ("gms" ∷ []) (event rerolled)) ≡ none)
    × (with_exclude_gms (event rerolled) ≡ some (with_filters ("gms" ∷ []) (event rerolled)))
unfolding event_id time player_id for_player_online is_empty for_player_diff with_filter_player
    with_filters with_exclude_gms
read_parts_of_updates = (refl, refl, refl, refl, refl, refl)

parse_exclude-serialize_example :
    (payload : String) × (serialize
        (λ els. some "[\"-evt\",7]")
        ("ann" ∷ "gms" ∷ [])
        (event (event_delete 7))
      ≡ some payload)
    × (parse_exclude payload
        ≡ record { exclude_id = "ann"; exclude_gms = true; inner = "[\"-evt\",7]"; found = true })
parse_exclude-serialize_example =
    parse_exclude-serialize (λ els. some "[\"-evt\",7]") "ann" ("gms" ∷ []) (event (event_delete 7))
      (omega arith) refl

first_type-elements_example :
    (first_type (elements (event rerolled)) ≡ some (type (event rerolled)))
    ⊎ ((d : EventDiff) × (event rerolled ≡ event (second_chance d))
        × (first_type (elements (event rerolled)) ≡ some type_event_mod))
first_type-elements_example = first_type-elements (event rerolled)
