-- ===== src/Lookup/Games/Members.antt =====
-- Who is let into a game.
use Prim.Native.String
use shadowroller.Common.{
  ℕ, ◌≡◌, ◌≢◌, refl, sym, ap, ◌∙◌, Bool, true, false, ◌||◌, List, [], ◌∷◌, map, Option, none, some,
  String, str_eq, if◌then◌else◌, arith,
}
use shadowroller.Common.Dict.{Dict, lookup, assign, lookup-assign}
use shadowroller.Errs.{Err, wrap, not_found, no_access}
use shadowroller.Errs.Answer.{Answer, ok, err}
use shadowroller.Errs.Is.{is_not_found, is_bad_request}
use shadowroller.Player.{Player, Info, info}
use shadowroller.Redis.{Client, reply}
use shadowroller.Redis.Retry.{Try}
use shadowroller.Lookup.Players.{get_player, get_by_username}
use shadowroller.Lookup.Players.Ids.{get_by_username_id}
use shadowroller.Lookup.Games.Loaded.{not_ok, no_tries, ok_injective, Runs, ids_of, get_players_ids}
use shadowroller.Lookup.Games.{
  GameInfo, infos, get_players, info_with, present, checked, unless_not_found, get_info, member,
  joined, log_player_in,
}

abbrev pub listed : List String → String → Bool
listed [] id = false
listed (x ∷ xs) id = str_eq x id || listed xs id

is_some {ℓ} : {A : Type ℓ} → Option A → Bool
is_some none = false
is_some (some a) = true

lookup-infos :
    (id : String) (m : Dict Info) (plrs : List Player)
    → is_some (lookup id (infos m plrs))
      ≡ (is_some (lookup id m) || listed (map (λ p. p.id) plrs) id)
unfolding infos is_some
lookup-infos id m [] = ground arith
lookup-infos id m (plr ∷ plrs) =
    lookup-infos id (assign plr.id (info plr) m) plrs
    ∙ rw (lookup-assign plr.id id (info plr) m) (ground arith)

lookup-infos_none :
    (id : String) (plrs : List Player)
    → is_some (lookup id (infos [] plrs)) ≡ listed (map (λ p. p.id) plrs) id
unfolding is_some lookup
lookup-infos_none id plrs = lookup-infos id [] plrs

module _ (redis : Client) (scan : Dict String → Option Player) (retries : ℕ)
    (watch : (redis.Store × List Player → Try × (redis.Store × List Player))
      → redis.Store × List Player
      → Try × (redis.Store × List Player)) where
  of_gms :
      (game_id : String) (plrs : List Player) (x : Answer (List String)) (found : GameInfo)
      → elim x [
        | err e ↦ err (wrap e "getting GMs in game")
        | ok gms ↦ ok (record { id = game_id; players = infos [] plrs; gms = gms })
      ]
        ≡ ok found
      → found.players ≡ infos [] plrs
  of_gms game_id plrs (err q) found e = absurd (no_tries found e)
  of_gms game_id plrs (ok gms) found e = sym (ap (λ i. i.players) (ok_injective e))

  of_present :
      (game_id : String) (x : Answer Bool) (s : redis.Store) (found : GameInfo)
      → present redis scan retries watch game_id x s ≡ ok found
      → found.players ≡ infos [] []
  unfolding present info_with
  of_present game_id (err q) s found e = absurd (no_tries found e)
  of_present game_id (ok false) s found e = absurd (no_tries found e)
  of_present game_id (ok true) s found e = of_gms game_id [] _ found e

  of_checked :
      (game_id : String) (plrs : List Player) (s : redis.Store) (found : GameInfo)
      → checked redis scan retries watch game_id plrs s ≡ ok found
      → found.players ≡ infos [] plrs
  unfolding checked info_with
  of_checked game_id [] s found e = of_present game_id _ s found e
  of_checked game_id (plr ∷ plrs) s found e = of_gms game_id (plr ∷ plrs) _ found e

  of_failed :
      (game_id : String) (b : Bool) (q r : Err) (s : redis.Store) (found : GameInfo)
      → elim (if◌then◌else◌ {A = Answer (List Player)} b (err q) (err r)) [
        | err e ↦ err e
        | ok plrs ↦ checked redis scan retries watch game_id plrs s
      ]
        ≢ ok found
  of_failed game_id true q r s found e = cc
  of_failed game_id false q r s found e = cc

  of_players :
      (game_id : String) (x : Answer (List Player)) (s : redis.Store) (found : GameInfo)
      → elim (unless_not_found "getting players in game" x) [
        | err e ↦ err e
        | ok plrs ↦ checked redis scan retries watch game_id plrs s
      ]
        ≡ ok found
      → (plrs : List Player) × (x ≡ ok plrs) × (found.players ≡ infos [] plrs)
  unfolding unless_not_found
  of_players game_id (err q) s found e = absurd (of_failed game_id (is_not_found q) q _ s found e)
  of_players game_id (ok plrs) s found e = (plrs, refl, of_checked game_id plrs s found e)

  get_info_players :
      Runs watch
      → (game_id : String) (s : redis.Store) (found : GameInfo)
      → get_info redis scan retries watch game_id s ≡ ok found
      → (plrs : List Player) × (redis.smembers (String.◌++◌ "players:" game_id) s
          ≡ reply (ids_of redis scan retries watch plrs))
        × (found.players ≡ infos [] plrs)
  unfolding get_info
  get_info_players runs game_id s found e =
      let (plrs, got, players) =
        of_players game_id (get_players redis scan retries watch game_id s) s found e in
      (plrs, get_players_ids redis scan retries watch runs game_id s plrs got, players)

  of_member :
      (x : Option Info) (found : GameInfo) (plr : Player) (answer : GameInfo × Player)
      → elim x [ none ↦ err (wrap no_access "player to game") | some i ↦ ok (found, plr) ]
        ≡ ok answer
      → (is_some x ≡ true) × ((found, plr) ≡ answer)
  unfolding is_some
  of_member none found plr a e = absurd (no_tries a e)
  of_member (some i) found plr a e = (refl, ok_injective e)

  of_joined :
      (plr : Player) (x : Answer GameInfo) (a : GameInfo × Player)
      → joined redis scan retries watch plr x ≡ ok a
      → (x ≡ ok a.0) × (plr ≡ a.1) × (is_some (lookup plr.id a.0.players) ≡ true)
  unfolding joined member
  of_joined plr (err q) a e = absurd (not_ok (is_not_found q || is_bad_request q) _ _ a e)
  of_joined plr (ok found) a e =
      let (is_member, same) = of_member (lookup plr.id found.players) found plr a e in
      (
        ap (λ x. ok x.0) same,
        ap (λ x. x.1) same,
        ap (λ x. is_some (lookup plr.id x.0.players)) (sym same) ∙ is_member,
      )

  of_username :
      (game_id : String) (x : Answer Player) (s : redis.Store) (a : GameInfo × Player)
      → elim x [
        | err e ↦
            if is_not_found e then err (wrap not_found "player") else err (wrap e "getting player")
        | ok plr ↦ joined redis scan retries watch plr (get_info redis scan retries watch game_id s)
      ]
        ≡ ok a
      → (x ≡ ok a.1)
        × (get_info redis scan retries watch game_id s ≡ ok a.0)
        × (is_some (lookup a.1.id a.0.players) ≡ true)
  of_username game_id (err q) s a e = absurd (not_ok (is_not_found q) _ _ a e)
  of_username game_id (ok plr) s a e =
      let (info_is, same, is_member) =
        of_joined plr (get_info redis scan retries watch game_id s) a e in
      (ap ok same, info_is, ap (λ p. is_some (lookup p.id a.0.players)) (sym same) ∙ is_member)

  -- Whom a login lets in, where the library's transaction runs its function: if a name and a game are
  -- answered with a description of the game and a player, the name is mapped to that player's id, the
  -- player is stored under it, and the id is in the game's set of players.
  pub log_player_in-listed :
      Runs watch
      → (game_id username : String) (s : redis.Store) (a : GameInfo × Player)
      → log_player_in redis scan retries watch game_id username s ≡ ok a
      → (redis.hget "player_ids" username s ≡ reply a.1.id)
        × (get_player redis scan a.1.id s ≡ ok a.1)
        × ((ids : List String) × (redis.smembers (String.◌++◌ "players:" game_id) s ≡ reply ids)
            × (listed ids a.1.id ≡ true))
  unfolding log_player_in
  log_player_in-listed runs game_id username s a e =
      let (found, info_is, is_member) =
        of_username game_id (get_by_username redis scan username s) s a e in
      let (mapped, stored) = get_by_username_id redis scan username s a.1 found in
      let (plrs, members, players) = get_info_players runs game_id s a.0 info_is in
      (
        mapped,
        stored,
        (
          ids_of redis scan retries watch plrs,
          members,
          sym (lookup-infos_none a.1.id plrs)
              ∙ (ap (λ m. is_some (lookup a.1.id m)) (sym players) ∙ is_member),
        ),
      )
