-- ===== src/Redis/Fields.antt =====
-- server/redis/structToMap.go: the fields of a struct as texts.
use shadowroller.Common.{
  Bool, true, false, String, List, [], ◌∷◌, Option, none, some, str_eq, if◌then◌else◌,
}
use shadowroller.Common.Dict.{Dict, assign}

-- `reflect.Kind`, the kinds of `stringableKinds` first.
pub data Kind : Type 0 where
  bool float32 float64 int int8 int16 int32 int64 string uint8 uint16 uint32 uint64 : Kind
  byte_slice slice struct other : Kind

unfoldable pub is_stringable : Kind → Bool
is_stringable byte_slice = false
is_stringable slice = false
is_stringable struct = false
is_stringable other = false
is_stringable _ = true

-- A field with its tag `redis`, if it has one, the text of its value by `%v`, or of its bytes, and
-- whether it can be read.
pub record StructField : Type 0 where
  pub name : String
  pub tag : Option String
  pub kind : Kind
  pub text : String
  pub can_interface : Bool

-- The name of the field in the map; `none` for the tag "-".
unfoldable field_name : StructField → Option String
field_name f = elim f.tag [
  | none ↦ some f.name
  | some tagged ↦ if str_eq tagged "-" then none else some tagged
]

unfoldable is_bytes : Kind → Bool
is_bytes byte_slice = true
is_bytes _ = false

-- One turn of the loop; `none` is an error.
unfoldable add_field : StructField → Dict String → Option (Dict String)
unfolding field_name is_bytes
add_field f result = elim (field_name f) [
  | none ↦ some result
  | some name ↦
      if is_bytes f.kind
      then some (assign name f.text result)
      else if is_stringable f.kind
      then if f.can_interface then some (assign name f.text result) else none
      else none
]

unfoldable add_fields : List StructField → Dict String → Option (Dict String)
unfolding add_field
add_fields [] result = some result
add_fields (f ∷ fs) result = elim (add_field f result) [
  | none ↦ none
  | some result' ↦ add_fields fs result'
]

-- `StructToStringMap` of a pointer to a struct with these fields.
unfoldable pub struct_to_string_map : List StructField → Option (Dict String)
unfolding add_fields
struct_to_string_map fields = add_fields fields []
