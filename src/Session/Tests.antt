-- ===== src/Session/Tests.antt =====
-- The theorems about sessions on a client in memory.
use shadowroller.Common.{arith, pos, ◌≡◌, refl, true, false, Option, none, some, String, str_eq}
use shadowroller.Common.Text.{differ}
use shadowroller.Common.Dict.{Dict, lookup}
use shadowroller.Errs.Answer.{ok, err}
use shadowroller.Action.{done}
use shadowroller.Redis.{Client, reply, answer}
use shadowroller.Redis.Memory.{no_memory, memory}
use shadowroller.Redis.Memory.Laws.{hashes_of}
use shadowroller.Player.{make}
use shadowroller.Session.{
  ttl_of, Session, Ttl, new_session, session_type, err_no_session_data, get_session, create_session,
  remove_session, session_key, session_exists, unexpire_session,
}
use shadowroller.Session.Stored.{hashes}
use shadowroller.Session.Lifetime.{Scans, session_map, get_session-create_session}

abbrev client : Client
client = memory (λ max min score. true)

abbrev text_or_empty : Option String → String
text_or_empty none = ""
text_or_empty (some s) = s

abbrev scan : Dict String → Option Session
scan fields = some (record {
  id = "";
  game_id = text_or_empty (lookup "gameID" fields);
  player_id = text_or_empty (lookup "playerID" fields);
  persist = str_eq (text_or_empty (lookup "persist" fields)) "true";
  username = text_or_empty (lookup "username" fields);
})

abbrev ttl : Ttl
ttl = record { persist_days = 7; temp_secs = 900 }

abbrev session : Session
session = record { id = "s1"; game_id = "dusk"; player_id = "p1"; persist = true; username = "ann" }

scan-Scans : Scans scan session
unfolding session_map lookup
scan-Scans fields same = rw (same "gameID", same "playerID", same "persist", same "username")

get_session-create_session_example :
    let m = (create_session client ttl session no_memory).1 in
    ((create_session client ttl session no_memory).0 ≡ done none)
    × (get_session client scan "s1" m ≡ ok session)
    × (get_session client scan "s2" m ≡ get_session client scan "s2" no_memory)
    × ((remove_session client session m).0 ≡ done none)
    × (get_session client scan "s1" (remove_session client session m).1 ≡ err err_no_session_data)
unfolding hashes hashes_of lookup ttl_of
get_session-create_session_example =
    get_session-create_session client ttl scan (hashes (λ max min score. true)) session "s2"
      no_memory (differ "s1" "" refl) (differ "dusk" "" refl) (differ "p1" "" refl)
      (omega arith, omega arith) refl scan-Scans (differ "s2" "s1" refl)

kinds :
    (session_type session ≡ "persist")
    × (new_session "s1" (make "p1" (pos 3) "ann" "Ann") "dusk" true ≡ session)
    × (session_exists client "s1" no_memory ≡ ok false)
    × ((unexpire_session client session no_memory).0 ≡ done (reply true))
unfolding session_type new_session make session_exists unexpire_session lookup answer session_key
kinds = (refl, refl, refl, refl)
