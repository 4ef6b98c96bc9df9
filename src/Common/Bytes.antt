-- ===== src/Common/Bytes.antt =====
-- What the server uses of Go's `strings`, `path` and slices, over texts as lists of bytes.
pub mod Slices
pub mod Cuts
use Prim.Native.Char.{code}
use Prim.Native.Nat.{ℕ, zero, suc, ◌+◌, ◌-◌}
use Prim.Native.String
use Prim.Native.String.{String}
use mathlib.Core.Bool.{Bool, true, false, ◌&&◌, ◌||◌, not}
use mathlib.Core.List.{List, [], ◌∷◌, ◌++◌}
use mathlib.Core.Option.{Option, none, some}
use shadowroller.Common.Int.{ℤ, pos, negsuc, sub_ℕ}
use shadowroller.Common.Lists.{length, take, count}
use shadowroller.Common.Tests.{leb, ltb, ◌==◌, if◌then◌else◌}

abbrev pub Bytes : Type 0
Bytes = List ℕ

-- A text of ASCII characters.
abbrev pub bytes : String → Bytes
bytes String.[] = []
bytes (String.◌∷◌ c s) = code c ∷ bytes s

abbrev pub same : Bytes → Bytes → Bool
same [] [] = true
same [] (b ∷ t) = false
same (a ∷ s) [] = false
same (a ∷ s) (b ∷ t) = (a == b) && same s t

abbrev reverse_onto : List Bytes → List Bytes → List Bytes
reverse_onto out [] = out
reverse_onto out (e ∷ es) = reverse_onto (e ∷ out) es

abbrev reverse : List Bytes → List Bytes
reverse es = reverse_onto [] es

abbrev pub drop : ℕ → Bytes → Bytes
drop zero s = s
drop (suc n) [] = []
drop (suc n) (b ∷ s) = drop n s

-- `s[lo:hi]`; `none` is the panic of a slice out of range.
unfoldable pub slice : Bytes → ℤ → ℤ → Option Bytes
slice s (pos lo) (pos hi) =
    if leb lo hi && leb hi (length s) then some (take (hi - lo) (drop lo s)) else none
slice s (pos lo) (negsuc hi) = none
slice s (negsuc lo) hi = none

-- `strings.HasPrefix(s, prefix)`.
unfoldable pub has_prefix : Bytes → Bytes → Bool
has_prefix s [] = true
has_prefix [] (b ∷ prefix) = false
has_prefix (a ∷ s) (b ∷ prefix) = (a == b) && has_prefix s prefix

-- `strings.HasSuffix(s, suffix)`.
unfoldable pub has_suffix : Bytes → Bytes → Bool
has_suffix [] suffix = same [] suffix
has_suffix (b ∷ s) suffix = same (b ∷ s) suffix || has_suffix s suffix

-- `strings.Contains(s, part)`.
unfoldable pub contains : Bytes → Bytes → Bool
contains [] part = has_prefix [] part
contains (b ∷ s) part = has_prefix (b ∷ s) part || contains s part

-- The bytes before the first of that value, and those behind it.
unfoldable pub cut : ℕ → Bytes → Option (Bytes × Bytes)
cut sep [] = none
cut sep (b ∷ s) =
    if b == sep
    then some ([], s)
    else elim (cut sep s) [ none ↦ none | some (before, after) ↦ some (b ∷ before, after) ]

-- The bytes before the last of that value, and those behind it.
unfoldable pub cut_last : ℕ → Bytes → Option (Bytes × Bytes)
cut_last sep [] = none
cut_last sep (b ∷ s) = elim (cut_last sep s) [
  | some (before, after) ↦ some (b ∷ before, after)
  | none ↦ if b == sep then some ([], s) else none
]

-- The index of what was cut, and -1 if nothing was.
abbrev pub position : Option (Bytes × Bytes) → ℤ
position none = negsuc 0
position (some (before, after)) = pos (length before)

-- `strings.Index` and `strings.LastIndex` of one byte.
unfoldable pub index : ℕ → Bytes → ℤ
unfolding cut
index sep s = position (cut sep s)

unfoldable pub last_index : ℕ → Bytes → ℤ
unfolding cut_last
last_index sep s = position (cut_last sep s)

abbrev pub extend_first : ℕ → List Bytes → List Bytes
extend_first b [] = (b ∷ []) ∷ []
extend_first b (part ∷ parts) = (b ∷ part) ∷ parts

-- `strings.Split` at one byte.
unfoldable pub split_at : ℕ → Bytes → List Bytes
split_at sep [] = [] ∷ []
split_at sep (b ∷ s) = if b == sep then [] ∷ split_at sep s else extend_first b (split_at sep s)

-- `strings.Trim` of one byte.
unfoldable pub trim_left : ℕ → Bytes → Bytes
trim_left sep [] = []
trim_left sep (b ∷ s) = if b == sep then trim_left sep s else b ∷ s

abbrev pub or_nothing : ℕ → ℕ → Bytes → Bytes
or_nothing sep b [] = if b == sep then [] else b ∷ []
or_nothing sep b (c ∷ s) = b ∷ c ∷ s

unfoldable pub trim_right : ℕ → Bytes → Bytes
trim_right sep [] = []
trim_right sep (b ∷ s) = or_nothing sep b (trim_right sep s)

unfoldable pub trim : ℕ → Bytes → Bytes
unfolding trim_left trim_right
trim sep s = trim_left sep (trim_right sep s)

-- `path.Split`
unfoldable pub path_split : Bytes → Bytes × Bytes
unfolding cut_last
path_split s = elim (cut_last b'/' s) [
  | none ↦ ([], s)
  | some (before, after) ↦ (before ++ (b'/' ∷ []), after)
]

-- `path.Ext`
unfoldable pub path_ext : Bytes → Bytes
unfolding path_split cut_last
path_ext s = elim (cut_last b'.' (path_split s).1) [
  | none ↦ []
  | some (before, after) ↦ b'.' ∷ after
]

-- What may follow a lead byte: how many bytes, and the range of the first.
abbrev lead : ℕ → Option (ℕ × ℕ × ℕ)
lead b =
    if ltb b 128
    then some (0, 128, 191)
    else if ltb b 194
    then none
    else if ltb b 224
    then some (1, 128, 191)
    else if b == 224
    then some (2, 160, 191)
    else if b == 237
    then some (2, 128, 159)
    else if ltb b 240
    then some (2, 128, 191)
    else if b == 240
    then some (3, 144, 191)
    else if ltb b 244
    then some (3, 128, 191)
    else if b == 244
    then some (3, 128, 143)
    else none

-- `utf8.ValidString`, where that many bytes of a character are still to come.
utf8_from : ℕ → ℕ → ℕ → Bytes → Bool
utf8_from zero lo hi [] = true
utf8_from (suc n) lo hi [] = false
utf8_from zero lo hi (b ∷ s) = elim (lead b) [
  | none ↦ false
  | some (n, lo', hi') ↦ utf8_from n lo' hi' s
]
utf8_from (suc n) lo hi (b ∷ s) = leb lo b && leb b hi && utf8_from n 128 191 s

abbrev pub is_element : Bytes → Bool
is_element e = not (same e [] || same e (bytes ".") || same e (bytes ".."))

abbrev pub all_elements : List Bytes → Bool
all_elements [] = true
all_elements (e ∷ es) = is_element e && all_elements es

-- `fs.ValidPath`
unfoldable pub valid_path : Bytes → Bool
unfolding utf8_from split_at
valid_path name =
    utf8_from 0 0 0 name && (same name (bytes ".") || all_elements (split_at b'/' name))

abbrev pub join_at : ℕ → List Bytes → Bytes
join_at sep [] = []
join_at sep (e ∷ []) = e
join_at sep (e ∷ next ∷ es) = e ++ (sep ∷ join_at sep (next ∷ es))

-- The parent of the elements, the last one first; a path that is not rooted may climb.
abbrev up : Bool → List Bytes → List Bytes
up true [] = []
up false [] = bytes ".." ∷ []
up rooted (e ∷ es) = if same e (bytes "..") then bytes ".." ∷ e ∷ es else es

abbrev push : Bool → Bytes → List Bytes → List Bytes
push rooted e es =
    if same e [] || same e (bytes ".")
    then es
    else if same e (bytes "..")
    then up rooted es
    else e ∷ es

clean_from : Bool → List Bytes → List Bytes → List Bytes
clean_from rooted es [] = reverse es
clean_from rooted es (e ∷ rest) = clean_from rooted (push rooted e es) rest

-- `path.Clean`
unfoldable pub path_clean : Bytes → Bytes
unfolding clean_from split_at has_prefix
path_clean s =
    let rooted = has_prefix s (bytes "/") in
    let es = clean_from rooted [] (split_at b'/' s) in
    let out = (if rooted then bytes "/" else []) ++ join_at b'/' es in
    if same out [] then bytes "." else out

-- `path.Join` of two elements, of which those that are empty are ignored.
unfoldable pub path_join : Bytes → Bytes → Bytes
unfolding path_clean
path_join [] [] = []
path_join [] (b ∷ s) = path_clean (b ∷ s)
path_join (a ∷ dir) [] = path_clean (a ∷ dir)
path_join (a ∷ dir) (b ∷ s) = path_clean ((a ∷ dir) ++ (b'/' ∷ b ∷ s))
