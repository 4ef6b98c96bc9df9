-- ===== src/Game/Tests.antt =====
-- The history of a game, in sorted sets that are functions, with texts that are the ids in unary.
use text.Mathlib.TextLemmas.{nil≢cons, cons≢nil, tail-eq_of_cons-eq}
use shadowroller.Common.{
  ℕ, zero, suc, ◌≡◌, refl, ap, ◌≢◌, ◌↔◌, ◌⊎◌, String, [], ◌∷◌, Option, none, some, true, str_eq,
  if◌then◌else◌,
}
use shadowroller.Event.{Event, player_join, get_id, set_share, core_of}
use shadowroller.Event.Share.{share_in_game, share_private}
use shadowroller.Game.History.{sent, bulk_update, replace_commands}
use shadowroller.Game.History.Stored.{
  SortedSet, EventText, outside, or_new, execute, IsHistory, execute-replace_commands,
}

abbrev sets : SortedSet
sets = record {
  Set = String → Option ℕ;
  score = λ m s. s m;
  rem_range = λ low high s m. outside low high (s m);
  add_nx = λ n m s other. if str_eq m other then some (or_new n (s m)) else s other;
  score-rem_range = λ low high m s. refl;
  score-add_nx = λ n m other s. refl;
}

unary : ℕ → String
unary zero = ""
unary (suc n) = String.◌∷◌ "1" (unary n)

unary-injective : (m n : ℕ) → unary m ≡ unary n → m ≡ n
unfolding unary
unary-injective zero zero e = refl
unary-injective zero (suc n) e = absurd (nil≢cons e)
unary-injective (suc m) zero e = absurd (cons≢nil e)
unary-injective (suc m) (suc n) e = ap suc (unary-injective m n (tail-eq_of_cons-eq e))

abbrev texts : EventText
texts = record {
  text = λ e. unary (get_id e);
  text-id = λ e f same. unary-injective (get_id e) (get_id f) same;
}

abbrev joined : Event
joined = player_join (record {
  core = record {
    id = 2;
    ty = "playerJoin";
    edit = 0;
    share = share_in_game;
    player_id = "ann";
    player_name = "Ann";
  };
})

abbrev hidden : Event
hidden = set_share share_private joined

empty_IsHistory : IsHistory sets texts (λ m. none)
empty_IsHistory = record { member = λ m n h. cc; one_per_id = λ m m' n h h'. cc }

-- The history with the event as it was posted.
abbrev history : String → Option ℕ
history = execute sets (replace_commands (get_id joined) (texts.text joined)) (λ m. none)

history-IsHistory : IsHistory sets texts history
history-IsHistory = (execute-replace_commands sets texts joined (λ m. none) empty_IsHistory).0

execute-replace_commands_example :
    let s' = execute sets (replace_commands (get_id hidden) (texts.text hidden)) history in
    IsHistory sets texts s'
    × ((m : String) (n : ℕ)
        → (sets.score m s' ≡ some n) ↔ (
            ((texts.text hidden ≡ m) × (n ≡ get_id hidden))
            ⊎ ((sets.score m history ≡ some n) × (n ≢ get_id hidden))))
execute-replace_commands_example =
    execute-replace_commands sets texts hidden history history-IsHistory

replaced :
    bulk_update (λ e. some "{}") (λ els. none) (joined ∷ []) ≡ sent (replace_commands 2 "{}") true
unfolding bulk_update replace_commands get_id core_of
replaced = refl
