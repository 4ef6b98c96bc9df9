-- ===== src/Player/Tests.antt =====
-- The players of server/player, at a concrete list.
use shadowroller.Common.{◌≡◌, refl, true, false, some, pos}
use shadowroller.Player.{Player, online_mode_auto, is_online, redis_key, make, valid_name}

abbrev ann : Player
ann = make "ann" (pos 40) "ann" "Ann"

abbrev renamed : Player
renamed = make "ann" (pos 40) "ann" "Anna"

abbrev connected : Player
connected = record {
  id = "bob";
  name = "Bob";
  hue = pos 1;
  username = "bob";
  connections = pos 2;
  online_mode = online_mode_auto;
}

online : (is_online connected ≡ true) × (is_online ann ≡ false)
unfolding is_online make
online = (refl, refl)

keyed : (redis_key connected ≡ some "player:bob")
unfolding redis_key
keyed = refl

named : (valid_name "Ann" ≡ true) × (valid_name "A\nnn" ≡ false) × (valid_name "" ≡ false)
unfolding valid_name
named = (refl, refl, refl)
