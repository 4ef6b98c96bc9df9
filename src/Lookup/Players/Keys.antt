-- ===== src/Lookup/Players/Keys.antt =====
-- What Redis documents of the keys of the players.
use Prim.Native.String.{◌++◌}
use shadowroller.Common.{
  ℕ, ◌≡◌, ◌≢◌, true, false, [], length, Option, none, some, String, str_eq, if◌then◌else◌,
}
use shadowroller.Common.Dict.{Dict, distinct, SameFields, has_fields}
use shadowroller.Redis.{Client, nil_reply, reply}

-- What Redis documents of the hash of the ids and of the players' hashes, while it answers. The keys
-- of the players hold nothing but hashes, and a hash without fields is no key. In the transaction,
-- HSETNX sets a field that the hash does not have, and tells whether it did; HSET of some fields on a
-- key that holds none stores them and tells their number, and on one that does it tells how many are
-- new; without fields HSET is an error. DEL removes the key.
pub record PlayerHashes (redis : Client) : Type 0 where
  pub fields : String → redis.Store → Dict String
  pub id_of : String → redis.Store → Option String
  pub hgetall-fields :
      (id : String) (s : redis.Store) → redis.hgetall ("player:" ++ id) s ≡ reply (fields id s)
  pub hget-none :
      (username : String) (s : redis.Store)
      → id_of username s ≡ none
      → redis.hget "player_ids" username s ≡ nil_reply
  pub hget-some :
      (username id : String) (s : redis.Store)
      → id_of username s ≡ some id
      → redis.hget "player_ids" username s ≡ reply id
  pub set_new :
      (username id : String) (f : Dict String) (s : redis.Store)
      → has_fields f ≡ true
      → distinct f ≡ true
      → fields id s ≡ []
      → id_of username s ≡ none
      → (redis.hset_nx_hset "player_ids" username id ("player:" ++ id) f s).0
        ≡ reply (true, length f)
  pub set_taken :
      (username id other : String) (f : Dict String) (s : redis.Store)
      → has_fields f ≡ true
      → id_of username s ≡ some other
      → (count : ℕ) × ((redis.hset_nx_hset "player_ids" username id ("player:" ++ id) f s).0
          ≡ reply (false, count))
  pub fields-set :
      (username id : String) (f : Dict String) (s : redis.Store)
      → has_fields f ≡ true
      → distinct f ≡ true
      → fields id s ≡ []
      → SameFields
          (fields id (redis.hset_nx_hset "player_ids" username id ("player:" ++ id) f s).1)
          f
  pub other-set :
      (username id other : String) (f : Dict String) (s : redis.Store)
      → other ≢ id
      → fields other (redis.hset_nx_hset "player_ids" username id ("player:" ++ id) f s).1
        ≡ fields other s
  pub id_of-new :
      (username id other : String) (f : Dict String) (s : redis.Store)
      → has_fields f ≡ true
      → id_of username s ≡ none
      → id_of other (redis.hset_nx_hset "player_ids" username id ("player:" ++ id) f s).1
        ≡ (if str_eq username other then some id else id_of other s)
  pub id_of-taken :
      (username id taken other : String) (f : Dict String) (s : redis.Store)
      → id_of username s ≡ some taken
      → id_of other (redis.hset_nx_hset "player_ids" username id ("player:" ++ id) f s).1
        ≡ id_of other s
  pub del_ok :
      (id : String) (s : redis.Store) → (n : ℕ) × ((redis.del ("player:" ++ id) s).0 ≡ reply n)
  pub fields-del :
      (id other : String) (s : redis.Store)
      → fields other (redis.del ("player:" ++ id) s).1
        ≡ (if str_eq id other then [] else fields other s)
  pub id_of-del :
      (id other : String) (s : redis.Store)
      → id_of other (redis.del ("player:" ++ id) s).1 ≡ id_of other s
