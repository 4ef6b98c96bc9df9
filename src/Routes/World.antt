-- ===== src/Routes/World.antt =====
-- A small game in memory, on which the handlers of server/routes are tested.
use shadowroller.Common.{pos, refl, inl, true, [], ◌∷◌, none, some, String}
use shadowroller.Player.{Player}
use shadowroller.Event.{Roll}
use shadowroller.Event.Codec.{Json, text}
use shadowroller.Event.Scan.{Scanner}
use shadowroller.Redis.Memory.{Memory, memory}
use shadowroller.Session.{Session}
use shadowroller.Routes.Args.{Env}

abbrev pub ann : Player
ann = record {
  id = "ann";
  name = "Ann";
  hue = pos 3;
  username = "ann";
  connections = pos 1;
  online_mode = pos 0;
}

abbrev pub session : Session
session = record {
  id = "s1";
  game_id = "dusk";
  player_id = "ann";
  persist = true;
  username = "ann";
}

abbrev pub sneak : Roll
sneak = record {
  core = record {
    id = 5;
    ty = "roll";
    edit = 0;
    share = pos 0;
    player_id = "ann";
    player_name = "Ann";
  };
  title = "sneak";
  dice = 2 ∷ 5 ∷ [];
  glitchy = pos 0;
}

-- Libraries that know one event, one session and one player.
abbrev pub json : Json
json = record {
  object = λ input. some (("ty", text "roll") ∷ []);
  as_roll = λ input. some sneak;
  as_edge_roll = λ input. none;
  as_reroll = λ input. none;
  as_initiative_roll = λ input. none;
  as_player_join = λ input. none;
  marshal = λ e. "{}";
}

abbrev pub scanner : Scanner
scanner = record {
  find_ty = λ s. "\"ty\":\"roll\"" ∷ "roll" ∷ [];
  find_id = λ s. [];
  find_share = λ s. [];
  atoi = λ s. (pos 0, true);
  find_share_groups = λ s. inl refl;
}

abbrev pub env : Env
env = record {
  redis = memory (λ max min score. true);
  scan_session = λ fields. some session;
  scan_player = λ fields. some ann;
  watch = λ f x. f x;
  json = json;
  scanner = scanner;
  marshal_event = λ e. some "{}";
  marshal = λ es. some "[]";
  print = λ e. "late";
  print_int = λ n. "5";
  max_single_roll = 100;
  max_event_range = 2;
  retries = 2;
  ttl = record { persist_days = 7; temp_secs = 900 };
}

-- The game "dusk" with Ann and her roll.
abbrev pub dusk : Memory
dusk = record {
  hashes =
      ("session:s1", ("gameID", "dusk") ∷ [])
      ∷ ("player:ann", ("username", "ann") ∷ [])
      ∷ ("game:dusk", ("event_id", "0") ∷ [])
      ∷ [];
  ids = ("ann", "ann") ∷ [];
  sets = ("players:dusk", "ann" ∷ []) ∷ [];
  history = (5, "{}") ∷ [];
  messages = [];
}

abbrev pub header : String
header = "Bearer s1"
