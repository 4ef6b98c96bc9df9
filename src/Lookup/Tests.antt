-- ===== src/Lookup/Tests.antt =====
-- The lookups of events, players and games on a client in memory.
use Prim.Native.String.{◌++◌}
use shadowroller.Common.{
  ℕ, suc, ◌<◌, pos, ltb, ◌≡◌, refl, sym, ap, eq_refl, ◌∙◌, ◌≢◌, true, false, [], ◌∷◌, length,
  Option, none, some, String, str_eq, if◌then◌else◌,
}
use shadowroller.Common.Text.{differ}
use shadowroller.Common.Dict.{Dict, lookup, lookup-assign, distinct}
use shadowroller.Errs.{not_found, wrap}
use shadowroller.Errs.Answer.{ok, err}
use shadowroller.Action.{done}
use shadowroller.Player.{Player}
use shadowroller.Game.Share.Channels.{str_eq_of_ne}
use shadowroller.Redis.{Client, reply, answer}
use shadowroller.Redis.Retry.{
  Try, committed, tx_failed, no_more_retries, retry_watch_txn, retry_watch_txn_lem, outcome, after,
  AllFailed,
}
use shadowroller.Redis.Memory.{
  Memory, no_memory, memory, or_empty, stored_fields, hget_reply, is_new, assign_new,
}
use shadowroller.Redis.Memory.Laws.{
  lookup-without, or_empty_if, stored_fields_new, hashes_of, str_eq-append,
}
use shadowroller.Lookup.Events.{get_latest, get_older_than, get_between}
use shadowroller.Lookup.Players.{player_exists, get_id_of, get_by_username, create_player}
use shadowroller.Lookup.Players.Keys.{PlayerHashes}
use shadowroller.Lookup.Players.Created.{get_by_username-create_player}

abbrev client : Client
client = memory (λ max min score. true)

fields_of : String → Memory → Dict String
unfolding hashes_of
fields_of id m = hashes_of ("player:" ++ id) m

abbrev set_player : String → String → Dict String → Memory → Memory
set_player username id f m = (client.hset_nx_hset "player_ids" username id ("player:" ++ id) f m).1

fields-hset :
    (username id other : String) (f : Dict String) (m : Memory)
    → fields_of other (set_player username id f m)
      ≡ (if str_eq id other then stored_fields f (fields_of id m) else fields_of other m)
unfolding fields_of hashes_of
fields-hset username id other f m =
    rw
      (
        lookup-assign ("player:" ++ id) ("player:" ++ other)
            (stored_fields f (or_empty (lookup ("player:" ++ id) m.hashes))) m.hashes,
        str_eq-append "player:" id other,
      )
      (or_empty_if (str_eq id other)
        (some (stored_fields f (or_empty (lookup ("player:" ++ id) m.hashes))))
        (lookup ("player:" ++ other) m.hashes))

id_of-new :
    (username id other : String) (f : Dict String) (m : Memory)
    → lookup username m.ids ≡ none
    → lookup other (set_player username id f m).ids
      ≡ (if str_eq username other then some id else lookup other m.ids)
id_of-new username id other f m free =
    ap (λ x. lookup other (assign_new username id m.ids x)) free
    ∙ lookup-assign username other id m.ids

fields-del :
    (id other : String) (m : Memory)
    → fields_of other (client.del ("player:" ++ id) m).1
      ≡ (if str_eq id other then [] else fields_of other m)
unfolding fields_of hashes_of
fields-del id other m =
    rw
      (
        lookup-without ("player:" ++ id) ("player:" ++ other) m.hashes,
        str_eq-append "player:" id other,
      )
      (or_empty_if (str_eq id other) none (lookup ("player:" ++ other) m.hashes))

player_hashes : PlayerHashes client
unfolding fields_of hashes_of
player_hashes = record {
  fields = fields_of;
  id_of = λ username m. lookup username m.ids;
  hgetall-fields = λ id m. refl;
  hget-none = λ username m e. ap hget_reply e;
  hget-some = λ username id m e. ap hget_reply e;
  set_new = λ username id f m filled once fresh free. ap (λ x. reply (is_new x, length f)) free;
  set_taken =
      λ username id other f m filled taken. (length f, ap (λ x. reply (is_new x, length f)) taken);
  fields-set = λ username id f m filled once fresh key. ap (lookup key) (
      fields-hset username id id f m
      ∙ rw (eq_refl id) (stored_fields_new f (fields_of id m) fresh));
  other-set = λ username id other f m differs.
      fields-hset username id other f m ∙ rw (str_eq_of_ne id other (λ e. differs (sym e)));
  id_of-new = λ username id other f m filled free. id_of-new username id other f m free;
  id_of-taken =
      λ username id taken other f m e. ap (λ x. lookup other (assign_new username id m.ids x)) e;
  del_ok = λ id m. (_, refl);
  fields-del = fields-del;
  id_of-del = λ id other m. refl;
}

abbrev ann : Player
ann = record {
  id = "p1";
  name = "Ann";
  hue = pos 3;
  username = "ann";
  connections = pos 0;
  online_mode = pos 0;
}

abbrev scan : Dict String → Option Player
scan fields = some (record ann { id = "" })

abbrev to_map : Player → Option (Dict String)
to_map plr = some (("username", plr.username) ∷ [])

get_by_username-create_player_example :
    ((create_player client to_map ann no_memory).0 ≡ done none)
    × (get_by_username client scan "ann" (create_player client to_map ann no_memory).1 ≡ ok ann)
unfolding player_hashes fields_of hashes_of lookup distinct
get_by_username-create_player_example =
    get_by_username-create_player client player_hashes scan to_map ann ("username", "ann") []
      no_memory (differ "p1" "" refl) (differ "ann" "" refl) (refl, refl, λ m same. refl) refl refl

-- A transaction that finds a key changed until the third try.
abbrev watch : ℕ → Try × ℕ
watch n = if ltb n 2 then (tx_failed, suc n) else (committed, n)

retry_watch_txn_lem_example :
    (2 < 5
      → AllFailed watch 2 0
      → (watch (after watch 2 0)).0 ≢ tx_failed
      → retry_watch_txn watch 5 0 ≡ (outcome watch 3 (watch (after watch 2 0)).0, after watch 3 0))
    × (AllFailed watch 5 0 → retry_watch_txn watch 5 0 ≡ (no_more_retries, after watch 5 0))
retry_watch_txn_lem_example = retry_watch_txn_lem watch 5 2 0

abbrev two_events : Memory
two_events = record no_memory { history = (7, "b") ∷ (5, "a") ∷ [] }

latest : get_latest client "dusk" 2 two_events ≡ ok ("b" ∷ "a" ∷ [])
unfolding get_latest get_older_than get_between answer
latest = refl

missing :
    (player_exists client "p1" no_memory ≡ ok false)
    × (get_id_of client "ann" no_memory ≡ err (wrap not_found "player"))
unfolding player_exists get_id_of lookup answer
missing = (refl, refl)
