-- ===== src/Game/Players/Tests.antt =====
-- Games and their GMs in a Redis that is made of functions.
use shadowroller.Common.{
  ◌≡◌, refl, Bool, true, false, ◌&&◌, ◌||◌, not, List, [], ◌∷◌, none, some, String, str_eq,
  if◌then◌else◌, arith, pos, eq_refl,
}
use shadowroller.Player.{Player, is_online, online_mode_auto}
use shadowroller.Update.{Element, player_diff, player_online, is_empty}
use shadowroller.Game.Connections.{connect_all}
use shadowroller.Game.Connections.Status.{status_message, last_message, last_message-connect_all}
use shadowroller.Game.Players.{
  Redis, is_gm, has_gm, get_gms, add_gm, make_redis_command, update_player,
}
use shadowroller.Game.Players.Gms.{IsRedis, is_gm-add_gm}

-- The sets, and the keys that have a hash.
abbrev Stored : Type 0
Stored = (String → List String) × (String → Bool)

insert_member : String → String → (String → List String) → String → List String
insert_member key m sets k = if str_eq key k then m ∷ sets k else sets k

set_hash : String → Stored → Bool → Bool × Stored
set_hash key s true = (false, s)
set_hash key (sets, hashes) false = (true, (sets, λ k. str_eq key k || hashes k))

abbrev redis : Redis
redis = record {
  Store = Stored;
  exists = λ key s. s.1 key;
  hset_nx = λ key field value s. set_hash key s (s.1 key);
  sis_member = λ key m s. is_gm (s.0 key) m;
  smembers = λ key s. s.0 key;
  sadd = λ key m s. (not (is_gm (s.0 key) m), (insert_member key m s.0, s.1));
}

is_gm-insert_member :
    (key key' m m' : String) (sets : String → List String)
    → is_gm (insert_member key m sets key') m'
      ≡ (str_eq key key' && str_eq m m') || is_gm (sets key') m'
unfolding insert_member is_gm
is_gm-insert_member key key' m m' sets = ground arith

set_hash_new : (key : String) (s : Stored) (b : Bool) → (set_hash key s b).0 ≡ not b
unfolding set_hash
set_hash_new key s true = refl
set_hash_new key s false = refl

set_hash_there : (key : String) (s : Stored) (b : Bool) → b ≡ true → (set_hash key s b).1 ≡ s
unfolding set_hash
set_hash_there key s true h = refl
set_hash_there key s false h = cc

has-set_hash :
    (key : String) (s : Stored) (b : Bool) → s.1 key ≡ b → (set_hash key s b).1.1 key ≡ true
unfolding set_hash
has-set_hash key s true h = h
has-set_hash key s false h = rw (eq_refl key)

abbrev laws : IsRedis redis
laws = record {
  sis_member-sadd = λ key key' m m' s. is_gm-insert_member key key' m m' s.0;
  is_gm-smembers = λ key m s. refl;
  hexists = λ key field s. s.1 key;
  hset_nx_new = λ key field value s. set_hash_new key s (s.1 key);
  hset_nx_there = λ key field value s h. set_hash_there key s (s.1 key) h;
  hexists-hset_nx = λ key field value s. has-set_hash key s (s.1 key) refl;
  exists-hexists = λ key field s h. h;
}

abbrev empty : Stored
empty = (λ key. [], λ key. false)

is_gm-add_gm_example :
    (is_gm (get_gms redis "g" (add_gm redis "g" "ann" empty)) "ann" ≡ true)
    × (has_gm redis "g" "ann" (add_gm redis "g" "ann" empty) ≡ has_gm redis "g" "ann" empty)
is_gm-add_gm_example = is_gm-add_gm redis laws "g" "g" "ann" "ann" empty

abbrev ann : Player
ann = record {
  id = "ann";
  name = "Ann";
  hue = pos 3;
  username = "ann";
  connections = pos 0;
  online_mode = online_mode_auto;
}

abbrev encode : List Element → String
encode els = "[]"

-- Two connections, and three departures.
last_message-connect_all_example :
    let r =
      connect_all (λ els. some (encode els)) "g" (true ∷ true ∷ false ∷ false ∷ false ∷ []) ann in
    last_message encode "g" (status_message encode "g" "ann" (is_online ann)) r.1
    ≡ status_message encode "g" "ann" (is_online r.0)
last_message-connect_all_example =
    last_message-connect_all encode "g" (true ∷ true ∷ false ∷ false ∷ false ∷ []) ann refl

nothing_to_update :
    (update_player (λ plr. none) (λ els. none) "g" (player_diff "ann" []) (player_diff "ann" [])
      ≡ none)
    × (make_redis_command (λ plr. none) (player_online "ann" true) ≡ none)
unfolding update_player make_redis_command is_empty
nothing_to_update = (refl, refl)
