-- ===== src/Session/Lifetime.antt =====
-- A session in Redis from its creation to its removal.
use Prim.Native.String.{◌++◌}
use shadowroller.Common.{
  ◌≡◌, refl, ap, sym, ◌∙◌, ◌≢◌, inl, inr, true, [], ◌∷◌, Option, none, some, String, str_eq,
  if◌then◌else◌, eq_iff, Bool-cases, arith,
}
use shadowroller.Common.Dict.{
  Dict, assign, lookup, distinct, SameFields, has_fields, lookup-has_fields,
}
use shadowroller.Errs.Answer.{ok, err}
use shadowroller.Action.{done}
use shadowroller.Redis.{Client, reply}
use shadowroller.Redis.Fields.{struct_to_string_map, is_stringable}
use shadowroller.Game.Share.Channels.{str_eq_of_ne}
use shadowroller.Session.Keys.{IsTtl, Hashes}
use shadowroller.Session.Removal.{key_of, read, get_session-read, read_filled, remove_session-found}
use shadowroller.Session.{
  Session, Ttl, ttl_of, session_fields, err_no_session_data, get_session, create_session,
  remove_session, expire_session, scanned, after_hmset, keyed_create, keyed_expire, removed,
  error_of,
}

-- The map of a session, and that the library's `Scan` reads it back, in whatever order the fields come,
-- without the id.
unfoldable pub session_map : Session → Dict String
session_map sess =
    ("gameID", sess.game_id)
    ∷ ("playerID", sess.player_id)
    ∷ ("persist", if sess.persist then "true" else "false")
    ∷ ("username", sess.username)
    ∷ []

abbrev pub Scans : (Dict String → Option Session) → Session → Type 0
Scans scan sess =
    (fields : Dict String)
    → SameFields fields (session_map sess)
    → scan fields ≡ some (record sess { id = "" })

session_fields-map :
    (sess : Session) → struct_to_string_map (session_fields sess) ≡ some (session_map sess)
unfolding struct_to_string_map session_fields session_map is_stringable assign
session_fields-map sess = refl

module _ (redis : Client) (config : Ttl) (scan : Dict String → Option Session) where
  -- What is stored after a session is created.
  stored : Session → redis.Store → redis.Store
  stored sess s =
      let key = "session:" ++ sess.id in
      (redis.expire key (ttl_of config sess) (redis.hmset key (session_map sess) s).1).1

  known_fields :
      (h : Hashes redis) (sess : Session) (s : redis.Store)
      → h.fields sess.id s ≡ []
      → SameFields
          (h.fields sess.id (redis.hmset ("session:" ++ sess.id) (session_map sess) s).1)
          (session_map sess)
  unfolding session_map distinct lookup
  known_fields h sess s fresh = h.fields-hmset sess.id (session_map sess) s refl refl fresh

  map_filled :
      (sess : Session) (f : Dict String) → SameFields f (session_map sess) → has_fields f ≡ true
  unfolding session_map lookup
  map_filled sess f same = lookup-has_fields "gameID" sess.game_id f (same "gameID")

  expire_session-named :
      (h : Hashes redis) (sess : Session) (s : redis.Store)
      → sess.id ≢ ""
      → IsTtl (ttl_of config sess)
      → has_fields (h.fields sess.id s) ≡ true
      → expire_session redis config sess s
        ≡ (done (reply true), (redis.expire ("session:" ++ sess.id) (ttl_of config sess) s).1)
  unfolding expire_session keyed_expire
  expire_session-named h sess s named ttl filled =
      rw (expire_session, key_of sess named, h.expire_ok sess.id (ttl_of config sess) s ttl filled)

  create_session-stored :
      (h : Hashes redis) (sess : Session) (s : redis.Store)
      → sess.id ≢ ""
      → IsTtl (ttl_of config sess)
      → h.fields sess.id s ≡ []
      → create_session redis config sess s ≡ (done none, stored sess s)
  unfolding create_session keyed_create after_hmset expire_session keyed_expire error_of stored
      session_map
  create_session-stored h sess s named ttl fresh =
      let key = "session:" ++ sess.id in
      let s' = (redis.hmset key (session_map sess) s).1 in
      let expired =
        expire_session-named h sess s' named ttl
          (map_filled sess (h.fields sess.id s') (known_fields h sess s fresh)) in
      rw
        (
          create_session,
          session_fields-map sess,
          key_of sess named,
          h.hmset_ok sess.id (session_map sess) s refl,
          after_hmset,
          expired,
        )
        (ap (λ x. (done none, x.1)) expired)

  fields-stored :
      (h : Hashes redis) (sess : Session) (s : redis.Store)
      → IsTtl (ttl_of config sess)
      → h.fields sess.id s ≡ []
      → SameFields (h.fields sess.id (stored sess s)) (session_map sess)
  unfolding stored
  fields-stored h sess s ttl fresh key =
      ap (lookup key) (
        h.fields-expire sess.id sess.id (ttl_of config sess)
          (redis.hmset ("session:" ++ sess.id) (session_map sess) s).1 ttl)
      ∙ known_fields h sess s fresh key

  other-stored :
      (h : Hashes redis) (sess : Session) (other : String) (s : redis.Store)
      → IsTtl (ttl_of config sess)
      → other ≢ sess.id
      → h.fields other (stored sess s) ≡ h.fields other s
  unfolding stored
  other-stored h sess other s ttl differs =
      h.fields-expire sess.id other (ttl_of config sess)
        (redis.hmset ("session:" ++ sess.id) (session_map sess) s).1 ttl
      ∙ h.other-hmset sess.id other (session_map sess) s differs

  read_map :
      (sess : Session) (f : Dict String)
      → sess.game_id ≢ ""
      → sess.player_id ≢ ""
      → Scans scan sess
      → SameFields f (session_map sess)
      → read redis scan sess.id f ≡ ok sess
  unfolding scanned
  read_map sess f game player scans same =
      read_filled redis scan sess.id f (map_filled sess f same)
      ∙ rw (scans f same, str_eq_of_ne sess.game_id "" game, str_eq_of_ne sess.player_id "" player)

  get_session-stored :
      (h : Hashes redis) (sess : Session) (s : redis.Store)
      → sess.id ≢ ""
      → sess.game_id ≢ ""
      → sess.player_id ≢ ""
      → IsTtl (ttl_of config sess)
      → h.fields sess.id s ≡ []
      → Scans scan sess
      → get_session redis scan sess.id (stored sess s) ≡ ok sess
  get_session-stored h sess s named game player ttl fresh scans =
      get_session-read redis scan h sess.id (stored sess s) named
      ∙ read_map sess (h.fields sess.id (stored sess s)) game player scans
          (fields-stored h sess s ttl fresh)

  get_session-other :
      (h : Hashes redis) (sess : Session) (other : String) (s : redis.Store)
      → IsTtl (ttl_of config sess)
      → other ≢ sess.id
      → get_session redis scan other (stored sess s) ≡ get_session redis scan other s
  unfolding get_session
  get_session-other h sess other s ttl differs = elim (Bool-cases (str_eq other "")) [
    | inl e ↦ rw (get_session, e)
    | inr e ↦
        let named : other ≢ "" = λ q. ground (arith, eq_iff other "") in
        get_session-read redis scan h other (stored sess s) named
        ∙ (ap (read redis scan other) (other-stored h sess other s ttl differs)
            ∙ sym (get_session-read redis scan h other s named))
  ]

  -- The life of a session, while Redis answers and before its time to live is over: a session with an id
  -- that is not in use, a game and a player, whose fields the library scans back, and a time to live
  -- that is not zero, is created without an error. Then its id gives the session itself, and any other
  -- id what it gave before. It is removed without an error, and its id then gives the error for an
  -- unknown session.
  pub get_session-create_session :
      (h : Hashes redis) (sess : Session) (other : String) (s : redis.Store)
      → sess.id ≢ ""
      → sess.game_id ≢ ""
      → sess.player_id ≢ ""
      → IsTtl (ttl_of config sess)
      → h.fields sess.id s ≡ []
      → Scans scan sess
      → other ≢ sess.id
      → let s' = (create_session redis config sess s).1 in
        ((create_session redis config sess s).0 ≡ done none)
        × (get_session redis scan sess.id s' ≡ ok sess)
        × (get_session redis scan other s' ≡ get_session redis scan other s)
        × ((remove_session redis sess s').0 ≡ done none)
        × (get_session redis scan sess.id (remove_session redis sess s').1
            ≡ err err_no_session_data)
  get_session-create_session h sess other s named game player ttl fresh scans differs =
      let found = get_session-stored h sess s named game player ttl fresh scans in
      let (same, removed, gone) =
        remove_session-found redis scan h sess.id sess (stored sess s) found in
      rw (create_session-stored h sess s named ttl fresh)
        (refl, found, get_session-other h sess other s ttl differs, removed, gone)
