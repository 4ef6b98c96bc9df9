-- ===== src/Session/Stored.antt =====
-- The hashes of the sessions in the client in memory.
use Prim.Native.String.{◌++◌}
use shadowroller.Common.{
  ℕ, ◌≡◌, refl, sym, ap, ◌∙◌, eq_refl, Bool, [], ◌∷◌, none, some, String, str_eq, if◌then◌else◌,
}
use shadowroller.Common.Dict.{Dict, lookup, lookup-assign, has_fields}
use shadowroller.Game.Share.Channels.{str_eq_of_ne}
use shadowroller.Redis.{Client, reply}
use shadowroller.Redis.Memory.{Memory, memory, or_empty, stored_fields, key_count}
use shadowroller.Redis.Memory.Laws.{
  lookup-without, or_empty_if, stored_fields_new, hashes_of, str_eq-append,
}
use shadowroller.Session.Keys.{Hashes}

pub key_count_of : (fields : Dict String) → key_count fields ≡ (if has_fields fields then 1 else 0)
key_count_of [] = refl
key_count_of (f ∷ fields) = refl

module _ (wanted : String → String → ℕ → Bool) where
  abbrev client : Client
  client = memory wanted

  abbrev fields_of : String → Memory → Dict String
  fields_of id m = hashes_of ("session:" ++ id) m

  pub fields_of-hmset :
      (id other : String) (f : Dict String) (m : Memory)
      → fields_of other (client.hmset ("session:" ++ id) f m).1
        ≡ (if str_eq id other then stored_fields f (fields_of id m) else fields_of other m)
  unfolding hashes_of
  fields_of-hmset id other f m =
      rw
        (
          lookup-assign ("session:" ++ id) ("session:" ++ other)
              (stored_fields f (or_empty (lookup ("session:" ++ id) m.hashes))) m.hashes,
          str_eq-append "session:" id other,
        )
        (or_empty_if (str_eq id other)
          (some (stored_fields f (or_empty (lookup ("session:" ++ id) m.hashes))))
          (lookup ("session:" ++ other) m.hashes))

  pub fields_of-del :
      (id other : String) (m : Memory)
      → fields_of other (client.del ("session:" ++ id) m).1
        ≡ (if str_eq id other then [] else fields_of other m)
  unfolding hashes_of
  fields_of-del id other m =
      rw
        (
          lookup-without ("session:" ++ id) ("session:" ++ other) m.hashes,
          str_eq-append "session:" id other,
        )
        (or_empty_if (str_eq id other) none (lookup ("session:" ++ other) m.hashes))

  unfoldable pub hashes : Hashes client
  unfolding hashes_of
  hashes = record {
    fields = fields_of;
    hgetall-fields = λ id m. refl;
    hmset_ok = λ id f m filled. refl;
    fields-hmset = λ id f m filled once fresh key.
        ap (lookup key) (
          fields_of-hmset id id f m ∙ rw (eq_refl id) (stored_fields_new f (fields_of id m) fresh));
    other-hmset = λ id other f m differs.
        fields_of-hmset id other f m ∙ rw (str_eq_of_ne id other (λ e. differs (sym e)));
    expire_ok = λ id n m ttl filled. refl;
    fields-expire = λ id other n m ttl. refl;
    del_ok = λ id m. ap reply (key_count_of (fields_of id m));
    fields-del = fields_of-del;
  }
