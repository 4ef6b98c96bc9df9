-- ===== src/Http/RateLimit/Overlap.antt =====
-- How many requests of one key are served where requests overlap.
use shadowroller.Common.{
  ℕ, suc, ◌+◌, ◌-◌, ◌≤◌, ◌≡◌, refl, ap, ◌∙◌, ◌&&◌, ◌||◌, not, inl, inr, Bool-cases, Bool, true,
  false, String, List, [], ◌∷◌, str_eq, ltb, leb, if◌then◌else◌, arith, eq_iff, count,
}
use shadowroller.Errs.{Err}
use shadowroller.Http.RateLimit.{
  Reply, Counters, missing, failed, found, served, limited, rate_limited, handle_all,
}
use shadowroller.Http.RateLimit.Window.{
  IsWorking, is_served, least, rate_limited-IsWorking, handle_all-served,
}

-- The two calls of Redis that a request makes, with the key of its address and window.
pub data Move : Type 0 where
  reads counts : String → Move

-- Whether a request that has read this is refused; it is halted where the count cannot be read.
unfoldable pub is_limited : ℕ → Reply → Bool
is_limited max missing = ltb max 0
is_limited max (found n) = ltb max n
is_limited max (failed err) = true

module _ (max : ℕ) (counters : Counters) where
  -- How many requests of the key are served, by what they read.
  unfoldable pub served_among : String → List Move → counters.Store → ℕ
  unfolding is_limited
  served_among key [] s = 0
  served_among key (counts other ∷ ms) s = served_among key ms (counters.incr other s).1
  served_among key (reads other ∷ ms) s =
      let rest = served_among key ms s in
      if str_eq other key && not (is_limited max (counters.get other s)) then suc rest else rest

-- A request is counted after it has read, and at most so many requests of the key, with so many at the
-- start, have read and are not counted yet.
abbrev pub overlaps : String → ℕ → ℕ → List Move → Bool
overlaps key most waiting [] = true
overlaps key most waiting (reads other ∷ ms) =
    let next = if str_eq other key then suc waiting else waiting in
    leb next most && overlaps key most next ms
overlaps key most waiting (counts other ∷ ms) =
    let next = if str_eq other key then waiting - 1 else waiting in
    (not (str_eq other key) || ltb 0 waiting) && overlaps key most next ms

both : (a b : Bool) → (a && b) ≡ true → (a ≡ true) × (b ≡ true)
both a b h = ground arith

read_step :
    (same refused : Bool) (max most waiting n rest : ℕ)
    → (same ≡ true → refused ≡ ltb max n)
    → leb (if same then suc waiting else waiting) most ≡ true
    → rest ≤ max + most - (n + (if same then suc waiting else waiting))
    → (if same && not refused then suc rest else rest) ≤ max + most - (n + waiting)
read_step true true max most waiting n rest e h r = omega (arith, r)
read_step true false max most waiting n rest e h r = let under = e refl in ground arith
read_step false refused max most waiting n rest e h r = ground arith

count_step :
    (same : Bool) (max most waiting n rest : ℕ)
    → (not same || ltb 0 waiting) ≡ true
    → rest ≤ max + most - ((if same then suc n else n) + (if same then waiting - 1 else waiting))
    → rest ≤ max + most - (n + waiting)
count_step true max most waiting n rest h r = ground arith
count_step false max most waiting n rest h r = r

module _ (max : ℕ) (counters : Counters) (working : IsWorking counters) where
  limited_lem :
      (key : String) (s : counters.Store)
      → is_limited max (counters.get key s) ≡ ltb max (working.tally key s)
  unfolding is_limited
  limited_lem key s = elim (Bool-cases (ltb 0 (working.tally key s))) [
    | inl e ↦ rw (working.get-tally key s, e)
    | inr e ↦ rw (working.get-tally key s, e) (ground arith)
  ]

  served_among-overlaps :
      (key : String) (most : ℕ) (moves : List Move) (waiting : ℕ) (s : counters.Store)
      → overlaps key most waiting moves ≡ true
      → served_among max counters key moves s ≤ max + most - (working.tally key s + waiting)
  unfolding served_among
  served_among-overlaps key most [] waiting s h = omega arith
  served_among-overlaps key most (counts other ∷ ms) waiting s h =
      let (fits, later) = both (not (str_eq other key) || ltb 0 waiting) _ h in
      count_step (str_eq other key) max most waiting (working.tally key s) _ fits (
        rw (working.tally-incr other key s) at (
          served_among-overlaps key most ms (if str_eq other key then waiting - 1 else waiting)
            (counters.incr other s).1 later))
  served_among-overlaps key most (reads other ∷ ms) waiting s h =
      let (fits, later) = both (leb (if str_eq other key then suc waiting else waiting) most) _ h in
      read_step (str_eq other key) _ max most waiting (working.tally key s) _
        (λ e. limited_lem other s ∙ ap (λ k. ltb max (working.tally k s)) ((eq_iff other key).0 e))
        fits
        (served_among-overlaps key most ms (if str_eq other key then suc waiting else waiting) s
          later)

module _ (print : Err → String) (max : ℕ) (counters : Counters) (working : IsWorking counters) where
  -- While the counters work, a request is served by what it reads, and then counted. Where requests
  -- overlap in whatever order, but at most a number of them at once have read and are not counted yet, as
  -- many of one key are served at most as the limit and that number together, less what the key was
  -- counted before. Where each is counted before the next one reads, as many are served as there are, or
  -- as are left of the limit and one more, whichever is less.
  pub rate_limited-overlaps :
      (key : String) (keys : List String) (most : ℕ) (moves : List Move) (s : counters.Store)
      → overlaps key most 0 moves ≡ true
      → (rate_limited print max counters key s ≡ (
        if is_limited max (counters.get key s) then limited else served,
        (counters.incr key s).1,
      ))
        × (served_among max counters key moves s ≤ max + most - working.tally key s)
        × (count (is_served key) (handle_all print max counters keys s)
            ≡ least (count (λ k. str_eq k key) keys) (suc max - working.tally key s))
  rate_limited-overlaps key keys most moves s h =
      let bound = served_among-overlaps max counters working key most moves 0 s h in
      (
        rw (limited_lem max counters working key s)
            (rate_limited-IsWorking print max counters working key s),
        omega (arith, bound),
        handle_all-served print max counters working key keys s,
      )
