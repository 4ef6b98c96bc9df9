-- ===== src/Update/Types.antt =====
-- server/update: the type of an update, and the one that its text begins with.
use shadowroller.Common.{◌≡◌, refl, ◌⊎◌, inl, inr, List, ◌∷◌, Option, none, some, String}
use shadowroller.Update.{
  EventDiff, new_event, event_diff, second_chance, event_delete, player_online, player_diff,
  player_add, Update, event, player, with_filter, type, Element, type_text, elements, event_type,
  event_elements, player_type, player_elements, type_event_mod,
}

-- The update without its filters.
abbrev pub inner : Update → Update
inner (event u) = event u
inner (player u) = player u
inner (with_filter filter u) = inner u

abbrev pub first_type : List Element → Option String
first_type (type_text ty ∷ els) = some ty
first_type _ = none

-- The text of an update begins with its type, but for that of a second chance, which begins with the
-- type of a change to an event.
pub first_type-elements :
    (u : Update)
    → (first_type (elements u) ≡ some (type u))
      ⊎ ((d : EventDiff) × (inner u ≡ event (second_chance d))
          × (first_type (elements u) ≡ some type_event_mod))
unfolding elements type event_type player_type event_elements player_elements
first_type-elements (event (new_event e)) = inl refl
first_type-elements (event (event_diff d)) = inl refl
first_type-elements (event (second_chance d)) = inr (d, refl, refl)
first_type-elements (event (event_delete id)) = inl refl
first_type-elements (player (player_online id online)) = inl refl
first_type-elements (player (player_diff id diff)) = inl refl
first_type-elements (player (player_add p)) = inl refl
first_type-elements (with_filter filter u) = first_type-elements u
