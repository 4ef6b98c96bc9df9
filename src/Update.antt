-- ===== src/Update.antt =====
-- server/update: the packets that tell the players of a game what has changed.
pub mod Filter
pub mod Types
mod Tests
use Prim.Native.String
use shadowroller.Common.{ℕ, Bool, true, false, List, [], ◌∷◌, Option, none, some, String, str_eq, ℤ}
use shadowroller.Common.Dict.{Dict, assign}
use shadowroller.Common.Float.{Float}
use shadowroller.Player.{Player, Info, info}
use shadowroller.Event.{Event, get_id, get_edit}

abbrev pub type_event_new : String
type_event_new = "+evt"

abbrev pub type_event_mod : String
type_event_mod = "~evt"

abbrev pub type_event_del : String
type_event_del = "-evt"

abbrev pub type_roll_second_chance : String
type_roll_second_chance = "^roll"

abbrev pub type_player_add : String
type_player_add = "+plr"

abbrev pub type_player_mod : String
type_player_mod = "~plr"

-- The values that the program puts into a `map[string]interface{}`.
pub data Value : Type 0 where
  text : String → Value
  whole : ℤ → Value
  number : Float → Value
  flag : Bool → Value
  dice : List ℕ → Value

pub record EventDiff : Type 0 where
  pub id : ℕ
  pub time : ℕ
  pub diff : Dict Value

-- The structs `newEvent`, `eventDiff`, `reroll` and `eventDelete`.
pub data EventUpdate : Type 0 where
  new_event : Event → EventUpdate
  event_diff second_chance : EventDiff → EventUpdate
  event_delete : ℕ → EventUpdate

-- The structs `playerOnline`, `playerDiff` and `playerAdd`.
pub data PlayerUpdate : Type 0 where
  player_online : String → Bool → PlayerUpdate
  player_diff : String → Dict Value → PlayerUpdate
  player_add : Player → PlayerUpdate

-- The interface `Update`, with the struct `withFilter`.
pub data Update : Type 0 where
  event : EventUpdate → Update
  player : PlayerUpdate → Update
  with_filter : List String → Update → Update

event_type : EventUpdate → String
event_type (new_event e) = type_event_new
event_type (event_diff d) = type_event_mod
event_type (second_chance d) = type_roll_second_chance
event_type (event_delete id) = type_event_del

player_type : PlayerUpdate → String
player_type (player_online id online) = type_player_mod
player_type (player_diff id diff) = type_player_mod
player_type (player_add p) = type_player_add

-- The method `Type`; `withFilter` embeds its update.
unfoldable pub type : Update → String
unfolding event_type player_type
type (event u) = event_type u
type (player u) = player_type u
type (with_filter filter u) = type u

unfoldable pub event_id : EventUpdate → ℕ
event_id (new_event e) = get_id e
event_id (event_diff d) = d.id
event_id (second_chance d) = d.id
event_id (event_delete id) = id

unfoldable pub time : EventUpdate → ℕ
time (new_event e) = get_id e
time (event_diff d) = d.time
time (second_chance d) = d.time
time (event_delete id) = 0

unfoldable pub player_id : PlayerUpdate → String
player_id (player_online id online) = id
player_id (player_diff id diff) = id
player_id (player_add p) = p.id

unfoldable pub is_empty : PlayerUpdate → Bool
is_empty (player_online id online) = false
is_empty (player_diff id []) = true
is_empty (player_diff id (field ∷ diff)) = false
is_empty (player_add p) = false

make_event_diff : Event → EventDiff
make_event_diff e = record { id = get_id e; time = get_edit e; diff = [] }

unfoldable pub for_new_event : Event → EventUpdate
for_new_event e = new_event e

unfoldable pub for_event_diff : Event → Dict Value → EventUpdate
for_event_diff e diff = event_diff (record { id = get_id e; time = get_edit e; diff = diff })

put : String → Value → EventDiff → EventDiff
put key v d = record d { diff = assign key v d.diff }

unfoldable pub for_event_share : Event → ℤ → EventUpdate
unfolding make_event_diff put
for_event_share e new_share = event_diff (put "share" (whole new_share) (make_event_diff e))

unfoldable pub for_event_rename : Event → String → EventUpdate
unfolding make_event_diff put
for_event_rename e new_title = event_diff (put "title" (text new_title) (make_event_diff e))

unfoldable pub for_second_chance : Event → List ℕ → EventUpdate
unfolding make_event_diff put
for_second_chance e round = second_chance (put "reroll" (dice round) (make_event_diff e))

unfoldable pub for_seize_initiative : Event → EventUpdate
unfolding make_event_diff put
for_seize_initiative e = event_diff (put "seized" (flag true) (make_event_diff e))

unfoldable pub for_event_delete : ℕ → EventUpdate
for_event_delete id = event_delete id

unfoldable pub for_player_online : String → Bool → PlayerUpdate
for_player_online id online = player_online id online

unfoldable pub for_player_diff : String → Dict Value → PlayerUpdate
for_player_diff id diff = player_diff id diff

unfoldable pub for_player_add : Player → PlayerUpdate
for_player_add p = player_add p

-- An element of the `[]interface{}` that a `MarshalJSON` encodes.
pub data Element : Type 0 where
  type_text : String → Element
  event_object : Event → Element
  number_of : ℕ → Element
  id_text : String → Element
  diff_object : Dict Value → Element
  info_object : Info → Element

event_elements : EventUpdate → List Element
event_elements (new_event e) = type_text type_event_new ∷ event_object e ∷ []
event_elements (event_diff d) =
    type_text type_event_mod ∷ number_of d.id ∷ diff_object d.diff ∷ number_of d.time ∷ []
event_elements (second_chance d) =
    type_text type_event_mod ∷ number_of d.id ∷ diff_object d.diff ∷ number_of d.time ∷ []
event_elements (event_delete id) = type_text type_event_del ∷ number_of id ∷ []

player_elements : PlayerUpdate → List Element
player_elements (player_online id online) =
    type_text type_player_mod ∷ id_text id ∷ diff_object (assign "online" (flag online) []) ∷ []
player_elements (player_diff id diff) =
    type_text type_player_mod ∷ id_text id ∷ diff_object diff ∷ []
player_elements (player_add p) = type_text type_player_add ∷ info_object (info p) ∷ []

-- What `MarshalJSON` hands to `json.Marshal`. The struct `reroll` embeds `eventDiff`, and
-- `withFilter` its update, with their `MarshalJSON`.
unfoldable pub elements : Update → List Element
unfolding event_elements player_elements
elements (event u) = event_elements u
elements (player u) = player_elements u
elements (with_filter filter u) = elements u
