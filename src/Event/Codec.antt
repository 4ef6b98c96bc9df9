-- ===== src/Event/Codec.antt =====
-- server/event/events.go, Parse: an event read back from its JSON text. The functions of
-- encoding/json are the parameter `Json`.
use shadowroller.Common.{◌≡◌, Option, none, some, String, str_eq, if◌then◌else◌}
use shadowroller.Common.Dict.{Dict, lookup}
use shadowroller.Event.{
  Event, roll, edge_roll, reroll, initiative_roll, player_join, Roll, EdgeRoll, Reroll,
  InitiativeRoll, PlayerJoin, get_type, core_of, event_type_roll, event_type_edge_roll,
  event_type_reroll, event_type_initiative_roll, event_type_player_join,
}

-- A value of `map[string]interface{}`: a `string`, or not.
pub data Field : Type 0 where
  text : String → Field
  other : Field

-- `json.Unmarshal` at the types that `Parse` uses, `none` for an error, and `json.Marshal` on events.
pub record Json : Type 0 where
  pub object : String → Option (Dict Field)
  pub as_roll : String → Option Roll
  pub as_edge_roll : String → Option EdgeRoll
  pub as_reroll : String → Option Reroll
  pub as_initiative_roll : String → Option InitiativeRoll
  pub as_player_join : String → Option PlayerJoin
  pub marshal : Event → String

pub data ParseError : Type 0 where
  not_an_object no_type type_not_text bad_event : ParseError
  unknown_type : String → ParseError

pub data Parsed : Type 0 where
  event : Event → Parsed
  failed : ParseError → Parsed

abbrev decoded {ℓ} : {A : Type ℓ} → (A → Event) → Option A → Parsed
decoded make none = failed bad_event
decoded make (some e) = event (make e)

module _ (json : Json) where
  -- The `switch` on the type.
  parse_as : String → String → Parsed
  parse_as input ty =
      if str_eq ty event_type_roll
      then decoded roll (json.as_roll input)
      else if str_eq ty event_type_edge_roll
      then decoded edge_roll (json.as_edge_roll input)
      else if str_eq ty event_type_reroll
      then decoded reroll (json.as_reroll input)
      else if str_eq ty event_type_initiative_roll
      then decoded initiative_roll (json.as_initiative_roll input)
      else if str_eq ty event_type_player_join
      then decoded player_join (json.as_player_join input)
      else failed (unknown_type ty)

  parse_field : String → Option Field → Parsed
  parse_field input none = failed no_type
  parse_field input (some other) = failed type_not_text
  parse_field input (some (text ty)) = parse_as input ty

  unfoldable pub parse : String → Parsed
  unfolding parse_field parse_as
  parse input = elim (json.object input) [
    | none ↦ failed not_an_object
    | some fields ↦ parse_field input (lookup "ty" fields)
  ]

-- The type text of an event is that of its struct.
abbrev pub HasType : Event → Type 0
HasType (roll e) = e.core.ty ≡ event_type_roll
HasType (edge_roll e) = e.core.ty ≡ event_type_edge_roll
HasType (reroll e) = e.core.ty ≡ event_type_reroll
HasType (initiative_roll e) = e.core.ty ≡ event_type_initiative_roll
HasType (player_join e) = e.core.ty ≡ event_type_player_join

-- Decoding the event's text into its struct gives the struct back.
abbrev pub Decodes : Json → Event → Type 0
Decodes json (roll e) = json.as_roll (json.marshal (roll e)) ≡ some e
Decodes json (edge_roll e) = json.as_edge_roll (json.marshal (edge_roll e)) ≡ some e
Decodes json (reroll e) = json.as_reroll (json.marshal (reroll e)) ≡ some e
Decodes json (initiative_roll e) =
    json.as_initiative_roll (json.marshal (initiative_roll e)) ≡ some e
Decodes json (player_join e) = json.as_player_join (json.marshal (player_join e)) ≡ some e

-- What encoding/json says of the text of a struct: it is an object with the tagged fields, and it
-- decodes to the struct.
pub record IsEncoded (json : Json) (e : Event) : Type 0 where
  pub fields : Dict Field
  pub object-marshal : json.object (json.marshal e) ≡ some fields
  pub ty_field : lookup "ty" fields ≡ some (text (get_type e))
  pub decodes : Decodes json e

module _ (json : Json) where
  parse_as-marshal :
      (e : Event)
      → HasType e
      → Decodes json e
      → parse_as json (json.marshal e) (get_type e) ≡ event e
  unfolding parse_as get_type core_of
  parse_as-marshal (roll e) h d = rw d (simp h)
  parse_as-marshal (edge_roll e) h d = rw d (simp h)
  parse_as-marshal (reroll e) h d = rw d (simp h)
  parse_as-marshal (initiative_roll e) h d = rw d (simp h)
  parse_as-marshal (player_join e) h d = rw d (simp h)

  -- Every event, of whichever of the five structs, is parsed back from its JSON text, where its type text
  -- is that of its struct, and the JSON text is an object with that type which decodes to the struct.
  pub parse-marshal :
      (e : Event) → HasType e → IsEncoded json e → parse json (json.marshal e) ≡ event e
  unfolding parse
  parse-marshal e h v = rw (v.object-marshal, parse, v.ty_field) (parse_as-marshal e h v.decodes)
