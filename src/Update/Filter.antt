-- ===== src/Update/Filter.antt =====
-- server/update/filter.go: updates that some of a channel's subscribers are to skip, and the
-- text that carries the filter. `json.Marshal` is a parameter.
use Prim.Native.Char.{code}
use Prim.Native.String.{String, ◌++◌}
use shadowroller.Common.{
  ◌≡◌, refl, Bool, true, false, ◌||◌, List, [], ◌∷◌, Option, none, some, str_eq, ◌==◌,
  if◌then◌else◌, All, arith,
}
use shadowroller.Common.Text.{
  split_once, split, join, Without, split_once-append, split-join, Without-join,
}
use shadowroller.Update.{Update, with_filter, Element, elements}

unfoldable pub with_filters : List String → Update → Update
with_filters filters u = with_filter filters u

-- `none` is the panic on an update that has a filter.
unfoldable pub with_filter_player : String → Update → Option Update
with_filter_player player_id (with_filter filter u) = none
with_filter_player player_id u = some (with_filter (player_id ∷ []) u)

unfoldable pub with_exclude_gms : Update → Option Update
with_exclude_gms (with_filter filter u) = none
with_exclude_gms u = some (with_filter ("gms" ∷ []) u)

-- `Serialize` of a filtered update, "-filter,... {inner}"; `none` is an error of `json.Marshal`.
serialized : List String → Option String → Option String
serialized filter none = none
serialized filter (some inner) = some (String.◌∷◌ "-" (join "," filter ++ String.◌∷◌ " " inner))

unfoldable pub serialize : (List Element → Option String) → List String → Update → Option String
unfolding serialized
serialize marshal filter u = serialized filter (marshal (elements u))

pub record Excluded : Type 0 where
  pub exclude_id : String
  pub exclude_gms : Bool
  pub inner : String
  pub found : Bool

not_excluded : String → Excluded
not_excluded input = record { exclude_id = ""; exclude_gms = false; inner = input; found = false }

-- The loop over the filters.
read_filters : String → Bool → String → List String → Excluded
read_filters id gms inner [] = record {
  exclude_id = id;
  exclude_gms = gms;
  inner = inner;
  found = true;
}
read_filters id gms inner (filter ∷ filters) =
    read_filters (if str_eq filter "gms" then id else filter)
      (if str_eq filter "gms" then true else gms) inner filters

read_parts : String → Option (String × String) → Excluded
unfolding read_filters not_excluded
read_parts input none = not_excluded input
read_parts input (some (filters, inner)) = elim (split b',' filters) [
  | [] ↦ not_excluded input
  | filter ∷ rest ↦ read_filters "" false inner (filter ∷ rest)
]

unfoldable pub parse_exclude : String → Excluded
unfolding read_parts not_excluded
parse_exclude String.[] = not_excluded ""
parse_exclude (String.◌∷◌ c input) =
    if code c == b'-'
    then read_parts (String.◌∷◌ c input) (split_once b' ' input)
    else not_excluded (String.◌∷◌ c input)

-- The players that a filter names, the last of them, and whether it names the GMs.
abbrev pub players_of : List String → List String
players_of [] = []
players_of (f ∷ fs) = if str_eq f "gms" then players_of fs else f ∷ players_of fs

abbrev pub last_or : String → List String → String
last_or id [] = id
last_or id (p ∷ ps) = last_or p ps

abbrev pub names_gms : List String → Bool
names_gms [] = false
names_gms (f ∷ fs) = str_eq f "gms" || names_gms fs

-- A filter that the text format can carry: no part of it holds a comma or a space.
abbrev pub IsPlain : List String → Type 0
IsPlain fs = All (Without (code ",")) fs × All (Without (code " ")) fs

read_filters_lem :
    (id : String) (gms : Bool) (inner : String) (fs : List String)
    → read_filters id gms inner fs ≡ record {
      exclude_id = last_or id (players_of fs);
      exclude_gms = gms || names_gms fs;
      inner = inner;
      found = true;
    }
unfolding read_filters
read_filters_lem id gms inner [] = ground arith
read_filters_lem id gms inner (f ∷ fs) = ground (
  arith,
  read_filters_lem (if str_eq f "gms" then id else f) (if str_eq f "gms" then true else gms) inner
      fs,
)

-- A filtered update survives the text format: where the update can be encoded, and the filter is not empty
-- and holds no comma and no space, parsing what `Serialize` wrote gives the update's own text back, tells
-- that a filter was found, whether it names the GMs, and the last of the players that it names.
pub parse_exclude-serialize :
    (marshal : List Element → Option String) (f : String) (fs : List String) (u : Update)
    {inner : String}
    → IsPlain (f ∷ fs)
    → marshal (elements u) ≡ some inner
    → (payload : String) × (serialize marshal (f ∷ fs) u ≡ some payload)
      × (parse_exclude payload ≡ record {
        exclude_id = last_or "" (players_of (f ∷ fs));
        exclude_gms = names_gms (f ∷ fs);
        inner = inner;
        found = true;
      })
unfolding serialize parse_exclude
parse_exclude-serialize marshal f fs u {inner} plain e = (
  String.◌∷◌ "-" (join "," (f ∷ fs) ++ String.◌∷◌ " " inner),
  rw e,
  rw
      (
        split_once-append " " (join "," (f ∷ fs)) inner
            (Without-join (code " ") "," (f ∷ fs) (omega arith) plain.1),
        read_parts,
        split-join "," f fs plain.0,
      )
      (read_filters_lem "" false inner (f ∷ fs)),
)

-- An encoded array begins with a bracket, and such a text is taken for one without a filter.
pub parse_exclude_unfiltered :
    (rest : String)
    → parse_exclude (String.◌∷◌ "[" rest)
      ≡ record { exclude_id = ""; exclude_gms = false; inner = String.◌∷◌ "[" rest; found = false }
unfolding parse_exclude
parse_exclude_unfiltered rest = refl
