-- ===== src/Session/Keys.antt =====
-- What Redis documents of the keys of the sessions.
use Prim.Native.String.{◌++◌}
use shadowroller.Common.{ℕ, ◌<◌, ◌^◌, ◌≡◌, ◌≢◌, true, [], String, str_eq, if◌then◌else◌}
use shadowroller.Common.Dict.{Dict, distinct, SameFields, has_fields}
use shadowroller.Redis.{Client, reply}

-- A time to live in seconds that EXPIRE takes, and that is not over at once.
abbrev pub IsTtl : ℕ → Type 0
IsTtl n = (0 < n) × (n < 2 ^ 32)

-- What Redis documents of hashes, while it answers and before a time to live is over. The keys of the
-- sessions hold nothing but hashes, and a hash without fields is no key. HMSET of some fields stores
-- them on a key that holds none, EXPIRE finds a key that is there and changes no field, DEL removes the
-- key and tells whether it was there, and each changes its own key alone.
pub record Hashes (redis : Client) : Type 0 where
  pub fields : String → redis.Store → Dict String
  pub hgetall-fields :
      (id : String) (s : redis.Store) → redis.hgetall ("session:" ++ id) s ≡ reply (fields id s)
  pub hmset_ok :
      (id : String) (f : Dict String) (s : redis.Store)
      → has_fields f ≡ true
      → (redis.hmset ("session:" ++ id) f s).0 ≡ reply true
  pub fields-hmset :
      (id : String) (f : Dict String) (s : redis.Store)
      → has_fields f ≡ true
      → distinct f ≡ true
      → fields id s ≡ []
      → SameFields (fields id (redis.hmset ("session:" ++ id) f s).1) f
  pub other-hmset :
      (id other : String) (f : Dict String) (s : redis.Store)
      → other ≢ id
      → fields other (redis.hmset ("session:" ++ id) f s).1 ≡ fields other s
  pub expire_ok :
      (id : String) (n : ℕ) (s : redis.Store)
      → IsTtl n
      → has_fields (fields id s) ≡ true
      → (redis.expire ("session:" ++ id) n s).0 ≡ reply true
  pub fields-expire :
      (id other : String) (n : ℕ) (s : redis.Store)
      → IsTtl n
      → fields other (redis.expire ("session:" ++ id) n s).1 ≡ fields other s
  pub del_ok :
      (id : String) (s : redis.Store)
      → (redis.del ("session:" ++ id) s).0 ≡ reply (if has_fields (fields id s) then 1 else 0)
  pub fields-del :
      (id other : String) (s : redis.Store)
      → fields other (redis.del ("session:" ++ id) s).1
        ≡ (if str_eq id other then [] else fields other s)
