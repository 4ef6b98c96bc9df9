-- ===== src/Event/Tests.antt =====
-- The events of server/event, at concrete players and texts.
use shadowroller.Common.{◌≡◌, refl, ◌↔◌, inr, true, false, [], ◌∷◌, none, some, pos, negsuc}
use shadowroller.Common.Dict.{lookup}
use shadowroller.Id.{new_event_id, timestamp_now}
use shadowroller.Player.{Player}
use shadowroller.Event.{
  edge_roll, roll, reroll, EdgeRoll, Roll, for_roll, for_reroll, for_edge_roll, for_player_join,
  get_type, get_id, get_player_name, get_edit, set_edit, get_share, core_of, with_core, make_core,
  valid_reroll_type,
}
use shadowroller.Event.Share.{
  share_private, share_gms, to_string, from_string, is_share, from_string-to_string,
}
use shadowroller.Event.Codec.{
  text, other, Json, event, failed, no_type, parse, IsEncoded, parse-marshal,
}
use shadowroller.Event.Scan.{Scanner, parse_ty, parse_id, parse_share, parse_share_never}

abbrev ann : Player
ann = record {
  id = "ann";
  name = "Ann";
  hue = pos 3;
  username = "ann";
  connections = pos 1;
  online_mode = pos 0;
}

-- A roll at five milliseconds, rerolled two milliseconds later.
abbrev first_roll : Roll
first_roll = for_roll 5_000_000 ann share_gms "sneak" (2 ∷ 5 ∷ []) (pos 0)

rerolled : get_share (reroll (for_reroll 7_000_000 ann first_roll ((6 ∷ []) ∷ []))) ≡ share_gms
unfolding get_share core_of for_reroll make_core for_roll
rerolled = refl

made :
    (get_id (roll first_roll) ≡ 5)
    × (get_player_name (roll first_roll) ≡ "Ann")
    × (get_edit (set_edit 9 (roll first_roll)) ≡ 9)
    × (valid_reroll_type "rerollFailures" ≡ true)
    × (to_string share_gms ≡ "gms")
unfolding get_id get_player_name get_edit set_edit core_of for_roll make_core valid_reroll_type
    to_string new_event_id timestamp_now with_core
made = (refl, refl, refl, refl, refl)

joined : get_type (for_player_join 5_000_000 ann) ≡ "playerJoin"
unfolding get_type core_of for_player_join make_core
joined = refl

abbrev rounds_of_two : EdgeRoll
rounds_of_two = for_edge_roll 5_000_000 ann share_private "push" ((6 ∷ []) ∷ (2 ∷ []) ∷ []) (pos 0)

-- A JSON library that knows one event.
abbrev json : Json
json = record {
  object = λ input. some (("ty", text "edgeRoll") ∷ []);
  as_roll = λ input. none;
  as_edge_roll = λ input. some rounds_of_two;
  as_reroll = λ input. none;
  as_initiative_roll = λ input. none;
  as_player_join = λ input. none;
  marshal = λ e. "{}";
}

rounds_of_two-IsEncoded : IsEncoded json (edge_roll rounds_of_two)
unfolding lookup get_type core_of for_edge_roll make_core
rounds_of_two-IsEncoded = record {
  fields = ("ty", text "edgeRoll") ∷ [];
  object-marshal = refl;
  ty_field = refl;
  decodes = refl;
}

parse-marshal_example : parse json "{}" ≡ event (edge_roll rounds_of_two)
unfolding for_edge_roll make_core
parse-marshal_example = parse-marshal json (edge_roll rounds_of_two) refl rounds_of_two-IsEncoded

no_type_field :
    parse (record json { object = λ input. some (("id", other) ∷ []) }) "{}" ≡ failed no_type
unfolding parse lookup
no_type_field = refl

from_string-to_string_example :
    ((is_share share_gms ≡ true) ↔ (from_string (to_string share_gms) ≡ (share_gms, true)))
    × (from_string "gms" ≡ (share_gms, true) → to_string share_gms ≡ "gms")
from_string-to_string_example = from_string-to_string share_gms "gms"

-- Expressions that find the type and the share of one text.
abbrev scanner : Scanner
scanner = record {
  find_ty = λ s. "ty:roll" ∷ "roll" ∷ [];
  find_id = λ s. [];
  find_share = λ s. "share:2" ∷ "2" ∷ [];
  atoi = λ s. (pos 2, false);
  find_share_groups = λ s. inr refl;
}

scanned : (parse_ty scanner "" ≡ "roll") × (parse_id scanner "" ≡ "????????")
unfolding parse_ty parse_id
scanned = (refl, refl)

parse_share_never_example : parse_share scanner "{\"share\":2}" ≡ some (negsuc 0, false)
parse_share_never_example = parse_share_never scanner "{\"share\":2}"
