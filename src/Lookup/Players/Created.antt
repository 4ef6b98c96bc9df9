-- ===== src/Lookup/Players/Created.antt =====
-- A player who is created is found by the username, and a username is taken once.
use Prim.Native.String.{◌++◌}
use shadowroller.Common.{
  ℕ, ltb, ◌≡◌, ◌≢◌, refl, ap, sym, ◌∙◌, true, false, [], ◌∷◌, length, Option, none, some, String,
  eq_refl, arith,
}
use shadowroller.Common.Dict.{Dict, lookup, distinct, SameFields, has_fields}
use shadowroller.Errs.{bad_request, wrap}
use shadowroller.Errs.Answer.{ok}
use shadowroller.Action.{done}
use shadowroller.Game.Share.Channels.{str_eq_of_ne}
use shadowroller.Player.{Player, redis_key}
use shadowroller.Redis.{Client, reply}
use shadowroller.Lookup.Players.Keys.{PlayerHashes}
use shadowroller.Lookup.Players.{
  scanned, player_data, id_reply, undone, after_create, keyed_create, get_player, get_by_username,
  create_player,
}

module _ (redis : Client) (h : PlayerHashes redis) (scan : Dict String → Option Player)
    (to_map : Player → Option (Dict String)) where
  -- The player's struct gives these fields, and the library's `Scan` reads them back, in whatever
  -- order they come, without the id.
  abbrev pub HasMap : Player → String × String → Dict String → Type 0
  HasMap plr field f =
      (to_map plr ≡ some (field ∷ f))
      × (distinct (field ∷ f) ≡ true)
      × ((m : Dict String) → SameFields m (field ∷ f) → scan m ≡ some (record plr { id = "" }))

  after_hset : Player → Dict String → redis.Store → redis.Store
  after_hset plr f s =
      (redis.hset_nx_hset "player_ids" plr.username plr.id ("player:" ++ plr.id) f s).1

  named : (plr : Player) → plr.id ≢ "" → redis_key plr ≡ some ("player:" ++ plr.id)
  unfolding redis_key
  named plr n = rw (str_eq_of_ne plr.id "" n)

  ltb_self : (n : ℕ) → ltb n n ≡ false
  ltb_self n = ground arith

  create_new :
      (plr : Player) (f : Dict String) (s : redis.Store)
      → plr.id ≢ ""
      → to_map plr ≡ some f
      → has_fields f ≡ true
      → distinct f ≡ true
      → h.fields plr.id s ≡ []
      → h.id_of plr.username s ≡ none
      → create_player redis to_map plr s ≡ (done none, after_hset plr f s)
  unfolding create_player keyed_create after_create after_hset
  create_new plr f s n mapped filled once fresh free = rw (
    create_player,
    mapped,
    named plr n,
    h.set_new plr.username plr.id f s filled once fresh free,
    after_create,
    ltb_self (length f),
  )

  get_player-data :
      (id : String) (s : redis.Store)
      → id ≢ ""
      → get_player redis scan id s ≡ player_data scan id (reply (h.fields id s))
  unfolding get_player
  get_player-data id s n = rw (str_eq_of_ne id "" n, h.hgetall-fields id s)

  get_by_username-id :
      (username id : String) (s : redis.Store)
      → username ≢ ""
      → id ≢ ""
      → h.id_of username s ≡ some id
      → get_by_username redis scan username s ≡ get_player redis scan id s
  unfolding get_by_username id_reply
  get_by_username-id username id s n m e = rw (
    get_by_username,
    str_eq_of_ne username "" n,
    h.hget-some username id s e,
    str_eq_of_ne id "" m,
  )

  player_data-filled :
      (id key v : String) (m : Dict String)
      → lookup key m ≡ some v
      → player_data scan id (reply m) ≡ scanned id (scan m)
  unfolding player_data lookup
  player_data-filled id key v [] e = cc
  player_data-filled id key v (x ∷ m) e = refl

  scanned_again :
      (plr : Player) → plr.username ≢ "" → scanned plr.id (some (record plr { id = "" })) ≡ ok plr
  unfolding scanned
  scanned_again plr m = rw (str_eq_of_ne plr.username "" m)

  get_player-set :
      (plr : Player) (field : String × String) (f : Dict String) (s : redis.Store)
      → plr.username ≢ ""
      → HasMap plr field f
      → h.fields plr.id s ≡ []
      → player_data scan plr.id (reply (h.fields plr.id (after_hset plr (field ∷ f) s))) ≡ ok plr
  unfolding after_hset lookup
  get_player-set plr (key, v) f s m (mapped, once, scans) fresh =
      let stored = h.fields-set plr.username plr.id ((key, v) ∷ f) s refl once fresh in
      let first : lookup key ((key, v) ∷ f) ≡ some v = rw (eq_refl key) in
      player_data-filled plr.id key v (h.fields plr.id (after_hset plr ((key, v) ∷ f) s))
        (stored key ∙ first)
      ∙ (ap (scanned plr.id) (scans _ stored) ∙ scanned_again plr m)

  get_by_username-new :
      (plr : Player) (field : String × String) (f : Dict String) (s : redis.Store)
      → plr.id ≢ ""
      → plr.username ≢ ""
      → HasMap plr field f
      → h.fields plr.id s ≡ []
      → h.id_of plr.username s ≡ none
      → get_by_username redis scan plr.username (after_hset plr (field ∷ f) s) ≡ ok plr
  unfolding after_hset
  get_by_username-new plr field f s n m has_map fresh free =
      get_by_username-id plr.username plr.id (after_hset plr (field ∷ f) s) m n (
        h.id_of-new plr.username plr.id plr.username (field ∷ f) s refl free
        ∙ rw (eq_refl plr.username))
      ∙ (get_player-data plr.id (after_hset plr (field ∷ f) s) n
          ∙ get_player-set plr field f s m has_map fresh)

  -- What is stored once a player with a taken name is removed again.
  after_del : Player → Dict String → redis.Store → redis.Store
  after_del plr f s = (redis.del ("player:" ++ plr.id) (after_hset plr f s)).1

  create_taken :
      (plr : Player) (f : Dict String) (other : String) (s : redis.Store)
      → plr.id ≢ ""
      → to_map plr ≡ some f
      → has_fields f ≡ true
      → h.id_of plr.username s ≡ some other
      → create_player redis to_map plr s
        ≡ (done (some (wrap bad_request "player already exists")), after_del plr f s)
  unfolding create_player keyed_create after_create after_hset undone after_del
  create_taken plr f other s n mapped filled taken = rw (
    create_player,
    mapped,
    named plr n,
    (h.set_taken plr.username plr.id other f s filled taken).1,
    after_create,
    (h.del_ok plr.id (after_hset plr f s)).1,
  )

  fields-kept :
      (plr : Player) (f : Dict String) (other : String) (s : redis.Store)
      → other ≢ plr.id
      → h.fields other (after_del plr f s) ≡ h.fields other s
  unfolding after_del after_hset
  fields-kept plr f other s differs =
      h.fields-del plr.id other (after_hset plr f s)
      ∙ rw (str_eq_of_ne plr.id other (λ e. differs (sym e)))
          (h.other-set plr.username plr.id other f s differs)

  get_by_username-kept :
      (plr : Player) (f : Dict String) (other : String) (s : redis.Store)
      → plr.username ≢ ""
      → other ≢ ""
      → h.id_of plr.username s ≡ some other
      → other ≢ plr.id
      → get_by_username redis scan plr.username (after_del plr f s)
        ≡ get_by_username redis scan plr.username s
  unfolding after_del after_hset
  get_by_username-kept plr f other s m k taken differs =
      get_by_username-id plr.username other (after_del plr f s) m k (
        h.id_of-del plr.id plr.username (after_hset plr f s)
        ∙ (h.id_of-taken plr.username plr.id other plr.username f s taken ∙ taken))
      ∙ (get_player-data other (after_del plr f s) k
          ∙ (ap (λ x. player_data scan other (reply x)) (fields-kept plr f other s differs)
              ∙ (sym (get_player-data other s k)
                  ∙ sym (get_by_username-id plr.username other s m k taken))))

  -- A new player is created, while Redis answers: a player with an id that has no hash yet, and a
  -- username that no one has, whose fields the library scans back. There is no error, and the username
  -- then gives the player.
  pub get_by_username-create_player :
      (plr : Player) (field : String × String) (f : Dict String) (s : redis.Store)
      → plr.id ≢ ""
      → plr.username ≢ ""
      → HasMap plr field f
      → h.fields plr.id s ≡ []
      → h.id_of plr.username s ≡ none
      → ((create_player redis to_map plr s).0 ≡ done none)
        × (get_by_username redis scan plr.username (create_player redis to_map plr s).1 ≡ ok plr)
  get_by_username-create_player plr field f s n m has_map fresh free =
      rw (create_new plr (field ∷ f) s n has_map.0 refl has_map.1 fresh free)
        (refl, get_by_username-new plr field f s n m has_map fresh free)

  -- The creation of a player whose username another player has, while Redis answers: the error is a bad
  -- request, the username gives what it gave before, and the hash of the id is gone, also if it was
  -- there before.
  pub create_player_taken :
      (plr : Player) (field : String × String) (f : Dict String) (other : String) (s : redis.Store)
      → plr.id ≢ ""
      → plr.username ≢ ""
      → to_map plr ≡ some (field ∷ f)
      → h.id_of plr.username s ≡ some other
      → other ≢ ""
      → other ≢ plr.id
      → let s' = (create_player redis to_map plr s).1 in
        ((create_player redis to_map plr s).0
          ≡ done (some (wrap bad_request "player already exists")))
        × (get_by_username redis scan plr.username s' ≡ get_by_username redis scan plr.username s)
        × (h.fields plr.id s' ≡ [])
  unfolding after_del
  create_player_taken plr field f other s n m mapped taken k differs =
      rw (create_taken plr (field ∷ f) other s n mapped refl taken) (
        refl,
        get_by_username-kept plr (field ∷ f) other s m k taken differs,
        h.fields-del plr.id plr.id (after_hset plr (field ∷ f) s) ∙ rw (eq_refl plr.id),
      )
