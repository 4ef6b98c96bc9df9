-- ===== src/Lookup/Players/Ids.antt =====
-- The ids of the players that are found in Redis.
use Prim.Native.String.{◌++◌}
use shadowroller.Common.{
  ◌≡◌, refl, ap, sym, ◌∙◌, Bool, true, false, [], ◌∷◌, Option, none, some, String, str_eq,
  if◌then◌else◌,
}
use shadowroller.Common.Dict.{Dict}
use shadowroller.Errs.{Err}
use shadowroller.Errs.Answer.{Answer, ok, err}
use shadowroller.Player.{Player}
use shadowroller.Redis.{Client, Reply, nil_reply, failed, reply}
use shadowroller.Lookup.Players.{scanned, player_data, id_reply, get_player, get_by_username}

pub ok_of_if :
    {A : Type 0} (b : Bool) (e : Err) (a c : A) → (if b then err e else ok a) ≡ ok c → a ≡ c
ok_of_if true e a c q = cc
ok_of_if false e a c q = cc

pub ok_of_unless :
    {A : Type 0} (b : Bool) (e : Err) (x : Answer A) (c : A)
    → (if b then err e else x) ≡ ok c
    → x ≡ ok c
ok_of_unless true e x c q = cc
ok_of_unless false e x c q = q

scanned_id : (id : String) (o : Option Player) (plr : Player) → scanned id o ≡ ok plr → plr.id ≡ id
unfolding scanned
scanned_id id none plr e = cc
scanned_id id (some p) plr e =
    sym (ap (λ q. q.id) (ok_of_if (str_eq p.username "") _ (record p { id = id }) plr e))

player_data_id :
    (scan : Dict String → Option Player) (id : String) (r : Reply (Dict String)) (plr : Player)
    → player_data scan id r ≡ ok plr
    → plr.id ≡ id
unfolding player_data
player_data_id scan id nil_reply plr e = cc
player_data_id scan id (failed q) plr e = cc
player_data_id scan id (reply []) plr e = cc
player_data_id scan id (reply (field ∷ fields)) plr e = scanned_id id (scan (field ∷ fields)) plr e

id_reply_ok : (r : Reply String) (id : String) → id_reply r ≡ ok id → r ≡ reply id
unfolding id_reply
id_reply_ok nil_reply id e = cc
id_reply_ok (failed q) id e = cc
id_reply_ok (reply found) id e = ap reply (ok_of_if (str_eq found "") _ found id e)

module _ (redis : Client) (scan : Dict String → Option Player) where
  pub get_player_id :
      (id : String) (s : redis.Store) (plr : Player)
      → get_player redis scan id s ≡ ok plr
      → plr.id ≡ id
  unfolding get_player
  get_player_id id s plr e = player_data_id scan id (redis.hgetall ("player:" ++ id) s) plr (
      ok_of_unless (str_eq id "") _ (player_data scan id (redis.hgetall ("player:" ++ id) s)) plr e)

  then_player :
      (x : Answer String) (s : redis.Store) (plr : Player)
      → (elim x [ err e ↦ err e | ok id ↦ get_player redis scan id s ]) ≡ ok plr
      → (id : String) × (x ≡ ok id) × (get_player redis scan id s ≡ ok plr)
  then_player (err q) s plr e = absurd cc
  then_player (ok id) s plr e = (id, refl, e)

  -- The user's name is mapped to the player's id.
  pub get_by_username_id :
      (username : String) (s : redis.Store) (plr : Player)
      → get_by_username redis scan username s ≡ ok plr
      → (redis.hget "player_ids" username s ≡ reply plr.id)
        × (get_player redis scan plr.id s ≡ ok plr)
  unfolding get_by_username
  get_by_username_id username s plr e =
      let (id, mapped, found) =
        then_player (id_reply (redis.hget "player_ids" username s)) s plr
          (ok_of_unless (str_eq username "") _ _ plr e) in
      let same = get_player_id id s plr found in
      (
        id_reply_ok (redis.hget "player_ids" username s) id mapped ∙ ap reply (sym same),
        ap (λ i. get_player redis scan i s) same ∙ found,
      )
