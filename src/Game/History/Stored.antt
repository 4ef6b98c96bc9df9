-- ===== src/Game/History/Stored.antt =====
-- The history of a game, as what is stored under its key in Redis: one text for each event's id.
use shadowroller.Common.{
  ℕ, ◌≡◌, refl, sym, ap, ◌∙◌, ◌≢◌, ◌↔◌, ◌⊎◌, inl, inr, Bool, true, false, ◌&&◌, List, [], ◌∷◌,
  Option, none, some, String, leb, str_eq, if◌then◌else◌, arith, eq_iff, Option-cases,
}
use shadowroller.Event.{Event, get_id}
use shadowroller.Game.Share.Channels.{str_eq_of_ne}
use shadowroller.Game.History.{Command, zrem_range_by_score, zadd_nx, publish, replace_commands}

abbrev pub outside : ℕ → ℕ → Option ℕ → Option ℕ
outside low high none = none
outside low high (some score) = if leb low score && leb score high then none else some score

abbrev pub or_new : ℕ → Option ℕ → ℕ
or_new new none = new
or_new new (some old) = old

-- Redis' sorted sets, with ZSCORE, and what ZREMRANGEBYSCORE and ZADD NX are documented to do to a
-- member's score: the first removes the members with a score in the range, the second adds a member
-- that is not there and leaves one that is.
pub record SortedSet : Type 1 where
  pub Set : Type 0
  pub score : String → Set → Option ℕ
  pub rem_range : ℕ → ℕ → Set → Set
  pub add_nx : ℕ → String → Set → Set
  pub score-rem_range :
      (low high : ℕ) (m : String) (s : Set)
      → score m (rem_range low high s) ≡ outside low high (score m s)
  pub score-add_nx :
      (n : ℕ) (m other : String) (s : Set)
      → score other (add_nx n m s)
        ≡ (if str_eq m other then some (or_new n (score m s)) else score other s)

-- `json.Marshal` on events: it does not fail, and its text holds the id.
pub record EventText : Type 0 where
  pub text : Event → String
  pub text-id : (e f : Event) → text e ≡ text f → get_id e ≡ get_id f

module _ (sets : SortedSet) where
  unfoldable pub execute : List Command → sets.Set → sets.Set
  execute [] s = s
  execute (zrem_range_by_score low high ∷ commands) s = execute commands (sets.rem_range low high s)
  execute (zadd_nx n member ∷ commands) s = execute commands (sets.add_nx n member s)
  execute (publish m ∷ commands) s = execute commands s

module _ (sets : SortedSet) (texts : EventText) where
  -- Every member is the text of an event, under its id, and no two have the same id.
  pub record IsHistory (s : sets.Set) : Type 0 where
    pub member :
        (m : String) (n : ℕ)
        → sets.score m s ≡ some n
        → (e : Event) × (m ≡ texts.text e) × (n ≡ get_id e)
    pub one_per_id :
        (m m' : String) (n : ℕ) → sets.score m s ≡ some n → sets.score m' s ≡ some n → m ≡ m'

outside_iff : (id n : ℕ) (o : Option ℕ) → (outside id id o ≡ some n) ↔ ((o ≡ some n) × (n ≢ id))
outside_iff id n none = (λ h. cc, λ h. cc)
outside_iff id n (some k) = ground arith

or_new_lem : (id : ℕ) (o : Option ℕ) → (o ≡ none) ⊎ (o ≡ some id) → or_new id (outside id id o) ≡ id
or_new_lem id o (inl e) = rw e
or_new_lem id o (inr e) = rw e (ground arith)

chosen :
    {b : Bool} (id n : ℕ) (o : Option ℕ)
    → (if b then some id else outside id id o) ≡ some n
    → ((b ≡ true) × (n ≡ id)) ⊎ ((b ≡ false) × (o ≡ some n) × (n ≢ id))
chosen {b = true} id n o h = inl (refl, ground arith)
chosen {b = false} id n o h = let (same, ne) = (outside_iff id n o).0 h in inr (refl, same, ne)

module _ (sets : SortedSet) (texts : EventText) where
  module _ (e : Event) (s : sets.Set) (h : IsHistory sets texts s) where
    -- The history once the event has replaced the one with its id.
    abbrev after : sets.Set
    after = sets.add_nx (get_id e) (texts.text e) (sets.rem_range (get_id e) (get_id e) s)

    old_score :
        (sets.score (texts.text e) s ≡ none) ⊎ (sets.score (texts.text e) s ≡ some (get_id e))
    old_score = elim (Option-cases (sets.score (texts.text e) s)) [
      | inl o ↦ inl o
      | inr (n, o) ↦
          let (f, same, id) = h.member (texts.text e) n o in
          inr (o ∙ ap some (id ∙ sym (texts.text-id e f same)))
    ]

    score-after :
        (m : String)
        → sets.score m after ≡ (
            if str_eq (texts.text e) m
            then some (get_id e)
            else outside (get_id e) (get_id e) (sets.score m s))
    score-after m = rw (
      sets.score-add_nx (get_id e) (texts.text e) m (sets.rem_range (get_id e) (get_id e) s),
      sets.score-rem_range (get_id e) (get_id e) (texts.text e) s,
      sets.score-rem_range (get_id e) (get_id e) m s,
      or_new_lem (get_id e) (sets.score (texts.text e) s) old_score,
    )

    score_cases :
        (m : String) (n : ℕ)
        → sets.score m after ≡ some n
        → ((texts.text e ≡ m) × (n ≡ get_id e)) ⊎ ((sets.score m s ≡ some n) × (n ≢ get_id e))
    score_cases m n q =
        elim (chosen {b = str_eq (texts.text e) m} (get_id e) n (sets.score m s)
          (sym (score-after m) ∙ q)) [
            | inl (same, id) ↦ inl ((eq_iff (texts.text e) m).0 same, id)
            | inr (other, o, ne) ↦ inr (o, ne)
          ]

    other_text :
        (m : String) (n : ℕ)
        → sets.score m s ≡ some n
        → n ≢ get_id e
        → str_eq (texts.text e) m ≡ false
    other_text m n o ne =
        let (f, same, id) = h.member m n o in
        str_eq_of_ne (texts.text e) m (λ q. ne (id ∙ sym (texts.text-id e f (q ∙ same))))

    score_back :
        (m : String) (n : ℕ)
        → ((texts.text e ≡ m) × (n ≡ get_id e)) ⊎ ((sets.score m s ≡ some n) × (n ≢ get_id e))
        → sets.score m after ≡ some n
    score_back m n (inl (same, id)) =
        rw (score-after m, (eq_iff (texts.text e) m).1 same) (ap some (sym id))
    score_back m n (inr (o, ne)) =
        rw (score-after m, other_text m n o ne)
          ((outside_iff (get_id e) n (sets.score m s)).1 (o, ne))

    after-IsHistory : IsHistory sets texts after
    after-IsHistory = record {
      member = λ m n q. elim (score_cases m n q) [
        | inl (same, id) ↦ (e, sym same, id)
        | inr (o, ne) ↦ h.member m n o
      ];
      one_per_id = λ m m' n p q. elim (score_cases m n p) [
        | inl (same, id) ↦ elim (score_cases m' n q) [
          | inl (same', id') ↦ sym same ∙ same'
          | inr (o, ne) ↦ absurd (ne id)
        ]
        | inr (o, ne) ↦ elim (score_cases m' n q) [
          | inl (same', id') ↦ absurd (ne id')
          | inr (o', ne') ↦ h.one_per_id m m' n o o'
        ]
      ];
    }

    -- The two commands with which `UpdateEvent`, `UpdateEventShare` and `BulkUpdate` write an event: where
    -- the history has one text for each id, it has so again; it has the text of the event, under its id,
    -- and of the others exactly those that it had under other ids.
    pub execute-replace_commands :
        let s' = execute sets (replace_commands (get_id e) (texts.text e)) s in
        IsHistory sets texts s'
        × ((m : String) (n : ℕ)
            → (sets.score m s' ≡ some n) ↔ (
                ((texts.text e ≡ m) × (n ≡ get_id e))
                ⊎ ((sets.score m s ≡ some n) × (n ≢ get_id e))))
    unfolding execute replace_commands
    execute-replace_commands = (after-IsHistory, λ m n. (score_cases m n, score_back m n))
