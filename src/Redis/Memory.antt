-- ===== src/Redis/Memory.antt =====
-- A client in memory, on which the tests run: hashes, one of them for the ids of the players, sets,
-- and the history of one game.
pub mod Laws
use shadowroller.Common.{
  ℕ, Bool, true, false, ◌&&◌, not, List, [], ◌∷◌, Option, none, some, String, str_eq, leb, ◌==◌,
  if◌then◌else◌, length,
}
use shadowroller.Common.Dict.{Dict, lookup, assign}
use shadowroller.Game.History.{Command, zrem_range_by_score, zadd_nx, publish}
use shadowroller.Game.Share.{Message}
use shadowroller.Update.{Value, text}
use shadowroller.Redis.{Client, Reply, nil_reply, reply}

pub record Memory : Type 0 where
  pub hashes : Dict (Dict String)
  pub ids : Dict String
  pub sets : Dict (List String)
  pub history : List (ℕ × String)
  pub messages : List Message

abbrev pub no_memory : Memory
no_memory = record { hashes = []; ids = []; sets = []; history = []; messages = [] }

abbrev pub or_empty {ℓ} : {A : Type ℓ} → Option (List A) → List A
or_empty none = []
or_empty (some xs) = xs

abbrev pub without {ℓ} : {V : Type ℓ} → String → Dict V → Dict V
without key [] = []
without key ((k, v) ∷ m) = let rest = without key m in if str_eq k key then rest else (k, v) ∷ rest

abbrev pub contains : List String → String → Bool
contains [] x = false
contains (y ∷ ys) x = if str_eq y x then true else contains ys x

abbrev pub outside : ℕ → ℕ → List (ℕ × String) → List (ℕ × String)
outside low high [] = []
outside low high ((score, member) ∷ h) =
    let rest = outside low high h in
    if leb low score && leb score high then rest else (score, member) ∷ rest

abbrev pub commanded : Command → Memory → Memory
commanded (zrem_range_by_score low high) m = record m { history = outside low high m.history }
commanded (zadd_nx score member) m = record m { history = (score, member) ∷ m.history }
commanded (publish message) m = record m { messages = message ∷ m.messages }

abbrev pub executed : List Command → Memory → Memory
executed [] m = m
executed (c ∷ cs) m = executed cs (commanded c m)

-- The members of the history with a score in the range.
abbrev pub between : (ℕ → Bool) → List (ℕ × String) → List String
between wanted [] = []
between wanted ((score, member) ∷ h) =
    let rest = between wanted h in if wanted score then member ∷ rest else rest

-- HSET of many fields.
abbrev pub set_fields : Dict String → Dict String → Dict String
set_fields [] old = old
set_fields ((k, v) ∷ fields) old = set_fields fields (assign k v old)

-- HMSET, on what the key holds.
abbrev pub stored_fields : Dict String → Dict String → Dict String
stored_fields fields [] = fields
stored_fields fields (f ∷ old) = set_fields fields (f ∷ old)

-- The texts of the fields of an update, without the values of other types.
abbrev pub texts : Dict Value → Dict String
texts [] = []
texts ((k, text v) ∷ fields) = (k, v) ∷ texts fields
texts ((k, _) ∷ fields) = texts fields

abbrev pub hset : Option (String × Dict Value) → Memory → Memory
hset none m = m
hset (some (key, fields)) m = record m {
  hashes = assign key (stored_fields (texts fields) (or_empty (lookup key m.hashes))) m.hashes;
}

abbrev pub published : Option Message → Memory → Memory
published none m = m
published (some message) m = record m { messages = message ∷ m.messages }

abbrev pub key_count {ℓ} : {A : Type ℓ} → List A → ℕ
key_count [] = 0
key_count (x ∷ xs) = 1

abbrev pub hget_reply : Option String → Reply String
hget_reply none = nil_reply
hget_reply (some value) = reply value

-- HSETNX.
abbrev pub is_new : Option String → Bool
is_new none = true
is_new (some value) = false

abbrev pub assign_new : String → String → Dict String → Option String → Dict String
assign_new field value m none = assign field value m
assign_new field value m (some old) = m

-- `wanted` reads the two bounds of a range.
abbrev pub memory : (String → String → ℕ → Bool) → Client
memory wanted = record {
  Store = Memory;
  hgetall = λ key m. reply (or_empty (lookup key m.hashes));
  hget = λ key field m. hget_reply (lookup field m.ids);
  exists = λ key m. elim (lookup key m.hashes) [ none ↦ reply 0 | some fields ↦ reply 1 ];
  hmset = λ key fields m. (
    reply true,
    record m {
      hashes = assign key (stored_fields fields (or_empty (lookup key m.hashes))) m.hashes;
    },
  );
  del = λ key m. (
    reply (key_count (or_empty (lookup key m.hashes))),
    record m { hashes = without key m.hashes },
  );
  expire = λ key n m. (reply true, m);
  persist = λ key m. (reply true, m);
  smembers = λ key m. reply (or_empty (lookup key m.sets));
  sis_member = λ key member m. reply (contains (or_empty (lookup key m.sets)) member);
  zrev_range_by_score = λ key max min count m. reply (between (wanted max min) m.history);
  hset_nx_hset = λ ids_key field value key fields m. (
    reply (is_new (lookup field m.ids), length fields),
    record m {
      hashes = assign key (stored_fields fields (or_empty (lookup key m.hashes))) m.hashes;
      ids = assign_new field value m.ids (lookup field m.ids);
    },
  );
  exec_player = λ command message m. (none, published message (hset command m));
  exec = λ game_id commands m. (none, executed commands m);
}
