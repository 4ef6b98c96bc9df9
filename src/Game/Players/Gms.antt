-- ===== src/Game/Players/Gms.antt =====
-- The keys of server/game/game.go: what is seen of a game and a GM that were added.
use Prim.Native.Char.{code}
use Prim.Native.String.{◌++◌}
use text.Mathlib.TextLemmas.{cons-append, append_assoc, append_cancel_left, head-eq_of_cons-eq}
use shadowroller.Common.{
  ◌≡◌, sym, ap, ◌∙◌, ◌≢◌, Bool, true, ◌&&◌, ◌||◌, not, some, String, str_eq, arith, eq_iff,
}
use shadowroller.Errs.{bad_request, wrap}
use shadowroller.Game.Share.Channels.{eq_of_iff, str_eq_of_ne}
use shadowroller.Game.Players.{Redis, is_gm, game_exists, has_gm, get_gms, create, add_gm}

-- What Redis documents: SADD adds a member to the set at its key alone, SMEMBERS lists the members, and
-- HSETNX sets a field that is not there, after which its key exists.
pub record IsRedis (redis : Redis) : Type 0 where
  pub sis_member-sadd :
      (key key' m m' : String) (s : redis.Store)
      → redis.sis_member key' m' (redis.sadd key m s).1
        ≡ (str_eq key key' && str_eq m m') || redis.sis_member key' m' s
  pub is_gm-smembers :
      (key m : String) (s : redis.Store) → is_gm (redis.smembers key s) m ≡ redis.sis_member key m s
  pub hexists : String → String → redis.Store → Bool
  pub hset_nx_new :
      (key field value : String) (s : redis.Store)
      → (redis.hset_nx key field value s).0 ≡ not (hexists key field s)
  pub hset_nx_there :
      (key field value : String) (s : redis.Store)
      → hexists key field s ≡ true
      → (redis.hset_nx key field value s).1 ≡ s
  pub hexists-hset_nx :
      (key field value : String) (s : redis.Store)
      → hexists key field (redis.hset_nx key field value s).1 ≡ true
  pub exists-hexists :
      (key field : String) (s : redis.Store)
      → hexists key field s ≡ true
      → redis.exists key s ≡ true

gms_key_eq : (g g' : String) → str_eq ("gms:" ++ g) ("gms:" ++ g') ≡ str_eq g g'
gms_key_eq g g' = eq_of_iff _ _ (
  λ h. (eq_iff g g').1 (append_cancel_left "gms:" g g' ((eq_iff _ _).0 h)),
  λ h. (eq_iff _ _).1 (ap (λ k. "gms:" ++ k) ((eq_iff g g').0 h)),
)

other_letter : (s t : String) → String.◌∷◌ "s" s ≢ String.◌∷◌ ":" t
other_letter s t e = ground (arith, ap code (head-eq_of_cons-eq e))

gms-ne-gm : (g g' : String) → "gms:" ++ g ≢ "gm:" ++ g'
gms-ne-gm g g' e = other_letter (":" ++ g) ("" ++ g') (
    sym (cons-append "s" ":" g)
    ∙ (append_cancel_left "gm" ("s:" ++ g) (":" ++ g')
          (sym (append_assoc "gm" "s:" g) ∙ (e ∙ append_assoc "gm" ":" g'))
        ∙ cons-append ":" "" g'))

module _ (redis : Redis) (laws : IsRedis redis) where
  -- Once a GM is added to a game, they are among its GMs, as are those that were before, and no game and
  -- no one else is changed. But `HasGM` reads another key, and answers as if nobody had been added.
  pub is_gm-add_gm :
      (g g' p q : String) (s : redis.Store)
      → (is_gm (get_gms redis g' (add_gm redis g p s)) q
          ≡ (str_eq g g' && str_eq p q) || is_gm (get_gms redis g' s) q)
        × (has_gm redis g' q (add_gm redis g p s) ≡ has_gm redis g' q s)
  unfolding get_gms add_gm has_gm
  is_gm-add_gm g g' p q s = (
    rw (
      laws.is_gm-smembers ("gms:" ++ g') q (redis.sadd ("gms:" ++ g) p s).1,
      laws.is_gm-smembers ("gms:" ++ g') q s,
      laws.sis_member-sadd ("gms:" ++ g) ("gms:" ++ g') p q s,
      gms_key_eq g g',
    ),
    rw (
      laws.sis_member-sadd ("gms:" ++ g) ("gm:" ++ g') p q s,
      str_eq_of_ne ("gms:" ++ g) ("gm:" ++ g') (gms-ne-gm g g'),
    ),
  )

  -- A game exists once it is created; creating it again is a bad request and changes nothing.
  pub create_twice :
      (g : String) (s : redis.Store)
      → let s' = (create redis g s).1 in
        (game_exists redis g s' ≡ true)
        × (create redis g s' ≡ (some (wrap bad_request "creating game: game already exists"), s'))
  unfolding create game_exists
  create_twice g s =
      let there = laws.hexists-hset_nx ("game:" ++ g) "event_id" "0" s in
      let s' = (redis.hset_nx ("game:" ++ g) "event_id" "0" s).1 in
      (
        laws.exists-hexists ("game:" ++ g) "event_id" s' there,
        rw (
          laws.hset_nx_new ("game:" ++ g) "event_id" "0" s',
          there,
          laws.hset_nx_there ("game:" ++ g) "event_id" "0" s' there,
        ),
      )
