-- ===== src/Event/Fields.antt =====
-- server/event/events.go: writing one field of an event's core leaves the others.
use shadowroller.Common.{◌≡◌, refl, ap, ℤ}
use shadowroller.Event.{
  Event, roll, edge_roll, reroll, initiative_roll, player_join, Core, core_of, with_core, get_id,
  get_type, get_player_id, get_share, set_share,
}

pub core_of-with_core : (c : Core) (e : Event) → core_of (with_core c e) ≡ c
unfolding core_of with_core
core_of-with_core c (roll e) = refl
core_of-with_core c (edge_roll e) = refl
core_of-with_core c (reroll e) = refl
core_of-with_core c (initiative_roll e) = refl
core_of-with_core c (player_join e) = refl

module _ (share : ℤ) (e : Event) where
  pub get_share-set_share : get_share (set_share share e) ≡ share
  unfolding set_share get_share
  get_share-set_share =
      ap (λ c. c.share) (core_of-with_core (record (core_of e) { share = share }) e)

  pub get_player_id-set_share : get_player_id (set_share share e) ≡ get_player_id e
  unfolding set_share get_player_id
  get_player_id-set_share =
      ap (λ c. c.player_id) (core_of-with_core (record (core_of e) { share = share }) e)

  pub get_id-set_share : get_id (set_share share e) ≡ get_id e
  unfolding set_share get_id
  get_id-set_share = ap (λ c. c.id) (core_of-with_core (record (core_of e) { share = share }) e)

  pub get_type-set_share : get_type (set_share share e) ≡ get_type e
  unfolding set_share get_type
  get_type-set_share = ap (λ c. c.ty) (core_of-with_core (record (core_of e) { share = share }) e)
