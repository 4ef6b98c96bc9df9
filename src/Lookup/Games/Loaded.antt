-- ===== src/Lookup/Games/Loaded.antt =====
-- server/game/game.go: the players that GetPlayers loads are those of the game's set.
use Prim.Native.String
use mathlib.Core.List.{append-nil}
use shadowroller.Common.{
  ℕ, zero, suc, ◌≡◌, ◌≢◌, refl, sym, ap, ◌∙◌, Bool, true, false, List, [], ◌∷◌, ◌++◌, map, Option,
  String, if◌then◌else◌, arith,
}
use shadowroller.Common.Dict.{Dict}
use shadowroller.Errs.{Err, wrap}
use shadowroller.Errs.Answer.{Answer, ok, err}
use shadowroller.Errs.Is.{is_not_found}
use shadowroller.Player.{Player}
use shadowroller.Redis.{Client, Reply, nil_reply, failed, reply}
use shadowroller.Redis.Retry.{
  Try, committed, tx_failed, error, outcome, retry_watch_txn, retry_watch_txn_lem,
}
use shadowroller.Lookup.Players.{get_player}
use shadowroller.Lookup.Players.Ids.{get_player_id}
use shadowroller.Lookup.Games.{load_players, load_members, watched, retried, get_players}

-- `Watch` runs its function, and returns what that returns.
abbrev pub Runs : {S : Type 0} → ((S → Try × S) → S → Try × S) → Type 0
Runs {S = S} watch = (f : S → Try × S) (x : S) → watch f x ≡ f x

pub not_ok : {A : Type 0} (b : Bool) (e f : Err) (a : A) → (if b then err e else err f) ≢ ok a
not_ok true e f a q = cc
not_ok false e f a q = cc

pub ok_injective : {A : Type 0} {a b : A} → ok a ≡ ok b → a ≡ b
ok_injective e = cc

pub no_tries : {A : Type 0} {e : Err} (plrs : A) → err e ≢ ok plrs
no_tries plrs q = cc

map_append :
    (xs : List Player) (plr : Player)
    → map (λ p. p.id) (xs ++ (plr ∷ [])) ≡ map (λ p. p.id) xs ++ (plr.id ∷ [])
map_append [] plr = refl
map_append (x ∷ xs) plr = ap (◌∷◌ x.id) (map_append xs plr)

append_one :
    (xs : List String) (y : String) (ys : List String) → (xs ++ (y ∷ [])) ++ ys ≡ xs ++ (y ∷ ys)
append_one [] y ys = refl
append_one (x ∷ xs) y ys = ap (◌∷◌ x) (append_one xs y ys)

module _ (redis : Client) (scan : Dict String → Option Player) (retries : ℕ)
    (watch : (redis.Store × List Player → Try × (redis.Store × List Player))
      → redis.Store × List Player
      → Try × (redis.Store × List Player)) where
  abbrev pub ids_of : List Player → List String
  ids_of plrs = map (λ p. p.id) plrs

  -- The rest of the loop once the first player is read.
  next : Answer Player → List String → List Player → redis.Store → Try × List Player
  next (err e) ids plrs s = (error (wrap e "getting info on player"), plrs)
  next (ok plr) ids plrs s = load_players redis scan retries watch ids (plrs ++ (plr ∷ [])) s

  load-next :
      (id : String) (ids : List String) (plrs : List Player) (s : redis.Store)
      → load_players redis scan retries watch (id ∷ ids) plrs s
        ≡ next (get_player redis scan id s) ids plrs s
  unfolding load_players next
  load-next id ids plrs s =
      elim (get_player redis scan id s)
        as (λ x.
          elim x [
            | err e ↦ (error (wrap e "getting info on player"), plrs)
            | ok plr ↦ load_players redis scan retries watch ids (plrs ++ (plr ∷ [])) s
          ]
          ≡ next x ids plrs s) [ err e ↦ refl | ok plr ↦ refl ]

  -- A loop that is not failed by a watched key, and that loads these ids after those of the players.
  abbrev Loads : List String → List Player → Try × List Player → Type 0
  Loads ids plrs x = (x.0 ≢ tx_failed) × (x.0 ≡ committed → ids_of x.1 ≡ ids_of plrs ++ ids)

  next-Loads :
      (id : String) (ids : List String) (plrs : List Player) (s : redis.Store) (x : Answer Player)
      → get_player redis scan id s ≡ x
      → ((plr : Player)
          → Loads ids
              (plrs ++ (plr ∷ []))
              (load_players redis scan retries watch ids (plrs ++ (plr ∷ [])) s))
      → Loads (id ∷ ids) plrs (next x ids plrs s)
  unfolding next
  next-Loads id ids plrs s (err q) e rest = (λ h. cc, λ h. absurd cc)
  next-Loads id ids plrs s (ok plr) e rest = (
    (rest plr).0,
    λ h.
        (rest plr).1 h
        ∙ rw (map_append plrs plr, get_player_id redis scan id s plr e)
            (append_one (ids_of plrs) id ids),
  )

  load_players-Loads :
      (ids : List String) (plrs : List Player) (s : redis.Store)
      → Loads ids plrs (load_players redis scan retries watch ids plrs s)
  unfolding load_players
  load_players-Loads [] plrs s = (λ e. cc, λ e. sym (append-nil (ids_of plrs)))
  load_players-Loads (id ∷ ids) plrs s = rw (load-next id ids plrs s) (
      next-Loads id ids plrs s (get_player redis scan id s) refl
        (λ plr. load_players-Loads ids (plrs ++ (plr ∷ [])) s))

  -- The members of the game's set that a loaded list of players has.
  members_ids :
      (r : Reply (List String)) (s : redis.Store) (plrs : List Player)
      → load_members redis scan retries watch r [] s ≡ (committed, plrs)
      → r ≡ reply (ids_of plrs)
  unfolding load_members
  members_ids nil_reply s plrs e = absurd cc
  members_ids (failed q) s plrs e = absurd cc
  members_ids (reply []) s plrs e = absurd cc
  members_ids (reply (id ∷ ids)) s plrs e =
      let (same, loaded) = load_players-Loads (id ∷ ids) [] s in
      ap reply (sym (loaded (ap (λ x. x.0) e)) ∙ ap (λ x. ids_of x.1) e)

  members_never :
      (r : Reply (List String)) (s : redis.Store)
      → (load_members redis scan retries watch r [] s).0 ≢ tx_failed
  unfolding load_members
  members_never nil_reply s e = cc
  members_never (failed q) s e = cc
  members_never (reply []) s e = cc
  members_never (reply (id ∷ ids)) s e = (load_players-Loads (id ∷ ids) [] s).0 e

  -- The end of `RetryWatchTxn`, when its first try is known.
  retried_ok :
      (f : redis.Store × List Player → Try × (redis.Store × List Player)) (t : Try)
      (x : redis.Store × List Player) (plrs : List Player)
      → retried redis scan retries watch (outcome f 1 t, x) ≡ ok plrs
      → t ≢ tx_failed
      → (t ≡ committed) × (x.1 ≡ plrs)
  unfolding retried
  retried_ok f committed x plrs e never = (refl, cc)
  retried_ok f tx_failed x plrs e never = absurd (never refl)
  retried_ok f (error q) x plrs e never = absurd (not_ok (is_not_found q) _ _ plrs e)

  retried_first :
      (f : redis.Store × List Player → Try × (redis.Store × List Player)) (n : ℕ)
      (x : redis.Store × List Player) (plrs : List Player)
      → (f x).0 ≢ tx_failed
      → retried redis scan retries watch (retry_watch_txn f n x) ≡ ok plrs
      → ((f x).0 ≡ committed) × ((f x).1.1 ≡ plrs)
  unfolding retried
  retried_first f zero x plrs never e = absurd (
      no_tries plrs
        (ap (retried redis scan retries watch) (sym ((retry_watch_txn_lem f 0 0 x).1 tt)) ∙ e))
  retried_first f (suc n) x plrs never e =
      retried_ok f (f x).0 (f x).1 plrs
        (ap (retried redis scan retries watch)
            (sym ((retry_watch_txn_lem f (suc n) 0 x).0 (omega arith) tt never))
          ∙ e)
        never

  pub get_players_ids :
      Runs watch
      → (game_id : String) (s : redis.Store) (plrs : List Player)
      → get_players redis scan retries watch game_id s ≡ ok plrs
      → redis.smembers (String.◌++◌ "players:" game_id) s ≡ reply (ids_of plrs)
  unfolding get_players watched
  get_players_ids runs game_id s plrs e =
      let r = redis.smembers (String.◌++◌ "players:" game_id) s in
      let f = watched redis scan retries watch game_id in
      let runs_f = runs f (s, []) in
      let never : (watch f (s, [])).0 ≢ tx_failed =
        λ q. members_never r s (sym (ap (λ x. x.0) runs_f) ∙ q) in
      let (done_now, loaded) = retried_first (watch f) retries (s, []) plrs never e in
      members_ids r s plrs (
        ap (λ t. (t, (load_members redis scan retries watch r [] s).1))
          (sym (ap (λ x. x.0) runs_f) ∙ done_now)
        ∙ ap (λ p. (committed, p)) (sym (ap (λ x. x.1.1) runs_f) ∙ loaded))
