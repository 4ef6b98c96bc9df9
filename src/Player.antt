-- ===== src/Player.antt =====
-- server/player/player.go: players and what others see of them. Ids and names are texts; an
-- `OnlineMode` is an `int`.
pub mod Names
mod Tests
use Prim.Native.Char.{code}
use Prim.Native.String
use Prim.Native.String.{len}
use shadowroller.Common.{
  ℕ, Bool, true, false, ◌&&◌, ◌||◌, not, List, [], ◌∷◌, Option, none, some, String, ltb, ◌==◌,
  str_eq, if◌then◌else◌, ℤ, pos, eqb_ℤ, ltb_ℤ,
}
use shadowroller.Common.Dict.{Dict, assign}

abbrev pub online_mode_auto : ℤ
online_mode_auto = pos 0

abbrev pub online_mode_online : ℤ
online_mode_online = pos 1

abbrev pub online_mode_offline : ℤ
online_mode_offline = pos 2

pub record Player : Type 0 where
  pub id : String
  pub name : String
  pub hue : ℤ
  pub username : String
  pub connections : ℤ
  pub online_mode : ℤ

pub record Info : Type 0 where
  pub id : String
  pub name : String
  pub hue : ℤ
  pub online : Bool

unfoldable pub is_online : Player → Bool
is_online p =
    if eqb_ℤ p.online_mode online_mode_auto
    then ltb_ℤ (pos 0) p.connections
    else if eqb_ℤ p.online_mode online_mode_online
    then true
    else if eqb_ℤ p.online_mode online_mode_offline
    then false
    else false

unfoldable pub info : Player → Info
info p = record { id = p.id; name = p.name; hue = p.hue; online = is_online p }

-- `none` is the panic.
unfoldable pub redis_key : Player → Option String
redis_key p = if str_eq p.id "" then none else some (String.◌++◌ "player:" p.id)

-- The id and the hue are random.
unfoldable pub make : String → ℤ → String → String → Player
make id hue username name = record {
  id = id;
  name = name;
  hue = hue;
  username = username;
  connections = pos 0;
  online_mode = online_mode_auto;
}

map_loop : Dict Player → List Player → Dict Player
map_loop result [] = result
map_loop result (plr ∷ players) = map_loop (assign plr.id plr result) players

unfoldable pub map_by_id : List Player → Dict Player
unfolding map_loop
map_by_id players = map_loop [] players

-- `strings.ContainsAny(name, "\r\n")`
has_newline : String → Bool
has_newline String.[] = false
has_newline (String.◌∷◌ c s) = code c == 13 || code c == 10 || has_newline s

-- `len` counts the bytes of UTF-8.
unfoldable pub valid_name : String → Bool
unfolding has_newline
valid_name name = ltb 0 (len name) && ltb (len name) 32 && not (has_newline name)
