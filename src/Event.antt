-- ===== src/Event.antt =====
-- server/event: the events of a game, their share state, and their constructors. Ids and times are
-- `int64` from the clock, so natural numbers; a share, a base and a glitch count are `int`.
pub mod Fields
pub mod Share
pub mod Codec
pub mod Scan
mod Tests
use shadowroller.Common.{ℕ, Bool, List, [], ◌∷◌, Option, none, some, String, str_eq, ℤ}
use shadowroller.Player.{Player}
use shadowroller.Id.{new_event_id}
use Share.{share_in_game}

abbrev pub event_type_roll : String
event_type_roll = "roll"

abbrev pub event_type_edge_roll : String
event_type_edge_roll = "edgeRoll"

abbrev pub event_type_reroll : String
event_type_reroll = "rerollFailures"

abbrev pub event_type_initiative_roll : String
event_type_initiative_roll = "initiativeRoll"

abbrev pub event_type_player_join : String
event_type_player_join = "playerJoin"

-- `core`; the field `ty` is its `Type`.
pub record Core : Type 0 where
  pub id : ℕ
  pub ty : String
  pub edit : ℕ
  pub share : ℤ
  pub player_id : String
  pub player_name : String

pub record Roll : Type 0 where
  pub core : Core
  pub title : String
  pub dice : List ℕ
  pub glitchy : ℤ

pub record EdgeRoll : Type 0 where
  pub core : Core
  pub title : String
  pub rounds : List (List ℕ)
  pub glitchy : ℤ

pub record Reroll : Type 0 where
  pub core : Core
  pub prev_id : ℕ
  pub title : String
  pub rounds : List (List ℕ)
  pub glitchy : ℤ

pub record InitiativeRoll : Type 0 where
  pub core : Core
  pub title : String
  pub base : ℤ
  pub dice : List ℕ
  pub seized : Bool
  pub blitzed : Bool

pub record PlayerJoin : Type 0 where
  pub core : Core

-- The implementations of the interface `Event`.
pub data Event : Type 0 where
  roll : Roll → Event
  edge_roll : EdgeRoll → Event
  reroll : Reroll → Event
  initiative_roll : InitiativeRoll → Event
  player_join : PlayerJoin → Event

-- The embedded `core`.
unfoldable pub core_of : Event → Core
core_of (roll e) = e.core
core_of (edge_roll e) = e.core
core_of (reroll e) = e.core
core_of (initiative_roll e) = e.core
core_of (player_join e) = e.core

-- A method with a pointer receiver writes to the embedded `core`.
unfoldable pub with_core : Core → Event → Event
with_core c (roll e) = roll (record e { core = c })
with_core c (edge_roll e) = edge_roll (record e { core = c })
with_core c (reroll e) = reroll (record e { core = c })
with_core c (initiative_roll e) = initiative_roll (record e { core = c })
with_core c (player_join e) = player_join (record e { core = c })

unfoldable pub get_id : Event → ℕ
get_id e = (core_of e).id

unfoldable pub get_type : Event → String
get_type e = (core_of e).ty

unfoldable pub get_player_id : Event → String
get_player_id e = (core_of e).player_id

unfoldable pub get_player_name : Event → String
get_player_name e = (core_of e).player_name

unfoldable pub get_edit : Event → ℕ
get_edit e = (core_of e).edit

unfoldable pub get_share : Event → ℤ
get_share e = (core_of e).share

unfoldable pub set_share : ℤ → Event → Event
set_share share e = with_core (record (core_of e) { share = share }) e

unfoldable pub set_edit : ℕ → Event → Event
set_edit edited e = with_core (record (core_of e) { edit = edited }) e

-- The first argument is the clock, for the id.
unfoldable pub make_core : ℕ → String → Player → ℤ → Core
make_core now_nanos ty player share = record {
  id = new_event_id now_nanos;
  ty = ty;
  edit = 0;
  share = share;
  player_id = player.id;
  player_name = player.name;
}

unfoldable pub for_roll : ℕ → Player → ℤ → String → List ℕ → ℤ → Roll
unfolding make_core
for_roll now player share title dice glitchy = record {
  core = make_core now event_type_roll player share;
  title = title;
  dice = dice;
  glitchy = glitchy;
}

unfoldable pub for_edge_roll : ℕ → Player → ℤ → String → List (List ℕ) → ℤ → EdgeRoll
unfolding make_core
for_edge_roll now player share title rounds glitchy = record {
  core = make_core now event_type_edge_roll player share;
  title = title;
  rounds = rounds;
  glitchy = glitchy;
}

unfoldable pub for_reroll : ℕ → Player → Roll → List (List ℕ) → Reroll
unfolding make_core get_share core_of
for_reroll now player previous rounds = record {
  core = make_core now event_type_reroll player (get_share (roll previous));
  prev_id = previous.core.id;
  title = previous.title;
  rounds = rounds;
  glitchy = previous.glitchy;
}

unfoldable pub for_initiative_roll :
    ℕ → Player → ℤ → String → ℤ → List ℕ → Bool → Bool → InitiativeRoll
unfolding make_core
for_initiative_roll now player share title base dice seized blitzed = record {
  core = make_core now event_type_initiative_roll player share;
  title = title;
  base = base;
  dice = dice;
  seized = seized;
  blitzed = blitzed;
}

-- `ForPlayerJoin`: joins are shared with the whole game.
unfoldable pub for_player_join : ℕ → Player → Event
unfolding make_core
for_player_join now player =
    player_join (record { core = make_core now event_type_player_join player share_in_game })

unfoldable pub valid_reroll_type : String → Bool
valid_reroll_type ty = str_eq ty event_type_reroll
