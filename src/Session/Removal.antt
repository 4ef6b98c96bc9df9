-- ===== src/Session/Removal.antt =====
-- A session that is found, and its removal.
use Prim.Native.String.{◌++◌}
use shadowroller.Common.{
  ◌||◌, Bool, ◌≡◌, refl, ap, sym, ◌∙◌, ◌≢◌, true, false, [], ◌∷◌, Option, none, some, String,
  str_eq, eq_refl, if◌then◌else◌,
}
use shadowroller.Common.Dict.{Dict, has_fields}
use shadowroller.Errs.Answer.{Answer, ok, err}
use shadowroller.Action.{done}
use shadowroller.Redis.{Client}
use shadowroller.Game.Share.Channels.{str_eq_of_ne}
use shadowroller.Session.Keys.{Hashes}
use shadowroller.Session.{
  Session, session_key, err_no_session_data, get_session, remove_session, is_empty, scanned,
  session_data, keyed_remove, removed,
}

pub key_of : (sess : Session) → sess.id ≢ "" → session_key sess ≡ some ("session:" ++ sess.id)
unfolding session_key
key_of sess h = rw (str_eq_of_ne sess.id "" h)

module _ (redis : Client) (scan : Dict String → Option Session) where
  -- What `GetByID` makes of the fields of the key.
  unfoldable pub read : String → Dict String → Answer Session
  read id fields = if is_empty fields then err err_no_session_data else scanned id (scan fields)

  pub get_session-read :
      (h : Hashes redis) (id : String) (s : redis.Store)
      → id ≢ ""
      → get_session redis scan id s ≡ read id (h.fields id s)
  unfolding get_session session_data read
  get_session-read h id s named = rw (str_eq_of_ne id "" named, h.hgetall-fields id s)

  read_nothing : (id : String) → read id [] ≡ err err_no_session_data
  unfolding read
  read_nothing id = refl

  pub read_filled :
      (id : String) (f : Dict String) → has_fields f ≡ true → read id f ≡ scanned id (scan f)
  unfolding read
  read_filled id [] h = cc
  read_filled id (x ∷ f) h = refl

  remove_session-filled :
      (h : Hashes redis) (sess : Session) (s : redis.Store)
      → sess.id ≢ ""
      → has_fields (h.fields sess.id s) ≡ true
      → remove_session redis sess s ≡ (done none, (redis.del ("session:" ++ sess.id) s).1)
  unfolding remove_session keyed_remove removed
  remove_session-filled h sess s named filled =
      rw (remove_session, key_of sess named, h.del_ok sess.id s, filled)

  get_session-removed :
      (h : Hashes redis) (sess : Session) (s : redis.Store)
      → sess.id ≢ ""
      → get_session redis scan sess.id (redis.del ("session:" ++ sess.id) s).1
        ≡ err err_no_session_data
  get_session-removed h sess s named =
      get_session-read h sess.id (redis.del ("session:" ++ sess.id) s).1 named
      ∙ (ap (read sess.id) (h.fields-del sess.id sess.id s ∙ rw (eq_refl sess.id))
          ∙ read_nothing sess.id)

  scanned_known :
      (id : String) (o : Option Session) (sess : Session) → scanned id o ≡ ok sess → sess.id ≡ id
  unfolding scanned
  scanned_known id none sess e = cc
  scanned_known id (some read_session) sess e =
      known_id (str_eq read_session.game_id "" || str_eq read_session.player_id "") e
    where
      known_id :
          (bad : Bool)
          → (if bad then err err_no_session_data else ok (record read_session { id = id }))
            ≡ ok sess
          → sess.id ≡ id
      known_id true q = cc
      known_id false q = sym (ap (λ a. elim a [ ok x ↦ x.id | err x ↦ id ]) q)

  read_known :
      (id : String) (f : Dict String) (sess : Session)
      → read id f ≡ ok sess
      → (has_fields f ≡ true) × (sess.id ≡ id)
  unfolding read
  read_known id [] sess e = cc
  read_known id (x ∷ f) sess e = (refl, scanned_known id (scan (x ∷ f)) sess e)

  -- A session that is found has its id, and its removal succeeds and makes the id unknown.
  pub remove_session-found :
      (h : Hashes redis) (id : String) (sess : Session) (s : redis.Store)
      → get_session redis scan id s ≡ ok sess
      → (sess.id ≡ id)
        × ((remove_session redis sess s).0 ≡ done none)
        × (get_session redis scan id (remove_session redis sess s).1 ≡ err err_no_session_data)
  unfolding get_session
  remove_session-found h id sess s e =
      let named : id ≢ "" = λ q. cc (sym (ap (λ i. get_session redis scan i s) q) ∙ e) in
      let (filled, same) =
        read_known id (h.fields id s) sess (sym (get_session-read h id s named) ∙ e) in
      let sess_named : sess.id ≢ "" = λ q. named (sym same ∙ q) in
      let removes =
        remove_session-filled h sess s sess_named
          (ap (λ i. has_fields (h.fields i s)) same ∙ filled) in
      (
        same,
        ap (λ x. x.0) removes,
        ap (λ x. get_session redis scan id x.1) removes
            ∙ (ap (λ i. get_session redis scan i (redis.del ("session:" ++ sess.id) s).1) (sym same)
                ∙ get_session-removed h sess s sess_named),
      )
