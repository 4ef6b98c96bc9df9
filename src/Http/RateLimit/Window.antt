-- ===== src/Http/RateLimit/Window.antt =====
-- How many requests of one key are served while its counter lives.
use shadowroller.Common.{
  ℕ, suc, ◌-◌, ◌≡◌, refl, ap, ◌&&◌, not, ◌∙◌, inl, inr, Bool-cases, Bool, true, false, none, String,
  List, [], ◌∷◌, str_eq, ltb, leb, if◌then◌else◌, count, arith, eq_iff,
}
use shadowroller.Errs.{Err}
use shadowroller.Http.Halt.{returned, halt_internal}
use shadowroller.Http.RateLimit.{
  Counters, missing, found, Handled, served, limited, halted, after_incr, rate_limited, handle_all,
}

-- The counters work: there is a count for each key, GET reads it, and INCR adds one to that of its
-- key alone, without an error.
pub record IsWorking (counters : Counters) : Type 0 where
  pub tally : String → counters.Store → ℕ
  pub get-tally :
      (key : String) (s : counters.Store)
      → counters.get key s ≡ (if ltb 0 (tally key s) then found (tally key s) else missing)
  pub incr_ok : (key : String) (s : counters.Store) → (counters.incr key s).0 ≡ none
  pub tally-incr :
      (key other : String) (s : counters.Store)
      → tally other (counters.incr key s).1
        ≡ (if str_eq key other then suc (tally other s) else tally other s)

abbrev pub is_served : String → String × Handled → Bool
is_served key (other, served) = str_eq other key
is_served key (other, limited) = false
is_served key (other, halted end) = false

-- The smaller of two numbers.
abbrev pub least : ℕ → ℕ → ℕ
least a b = if leb a b then a else b

after_incr_lem : (over : Bool) → after_incr returned over ≡ (if over then limited else served)
unfolding after_incr
after_incr_lem true = refl
after_incr_lem false = refl

served_alike :
    (same over : Bool) (k key : String)
    → str_eq k key ≡ same
    → is_served key (k, if over then limited else served) ≡ same && not over
served_alike same true k key e = ground arith
served_alike same false k key e = ground arith

served_step :
    (max n m others : ℕ) (k key : String)
    → (str_eq k key ≡ true → m ≡ n)
    → (if is_served key (k, if ltb max m then limited else served)
        then suc (least others (suc max - (if str_eq k key then suc n else n)))
        else least others (suc max - (if str_eq k key then suc n else n)))
      ≡ least (if str_eq k key then suc others else others) (suc max - n)
served_step max n m others k key h =
    rw (served_alike (str_eq k key) (ltb max m) k key refl) (ground arith)

zero_of : {n : ℕ} → ltb 0 n ≡ false → n ≡ 0
zero_of h = ground arith

module _ (print : Err → String) (max : ℕ) (counters : Counters) (working : IsWorking counters) where
  rate_limited-found :
      (key : String) (s : counters.Store) (n : ℕ)
      → counters.get key s ≡ found n
      → rate_limited print max counters key s
        ≡ (if ltb max n then limited else served, (counters.incr key s).1)
  unfolding rate_limited halt_internal
  rate_limited-found key s n e =
      rw (rate_limited, e, working.incr_ok key s)
        (ap (λ h. (h, (counters.incr key s).1)) (after_incr_lem (ltb max n)))

  rate_limited-missing :
      (key : String) (s : counters.Store)
      → counters.get key s ≡ missing
      → rate_limited print max counters key s
        ≡ (if ltb max 0 then limited else served, (counters.incr key s).1)
  unfolding rate_limited halt_internal
  rate_limited-missing key s e =
      rw (rate_limited, e, working.incr_ok key s)
        (ap (λ h. (h, (counters.incr key s).1)) (after_incr_lem (ltb max 0)))

  pub rate_limited-IsWorking :
      (key : String) (s : counters.Store)
      → rate_limited print max counters key s
        ≡ (if ltb max (working.tally key s) then limited else served, (counters.incr key s).1)
  rate_limited-IsWorking key s = elim (Bool-cases (ltb 0 (working.tally key s))) [
    | inl e ↦ rate_limited-found key s (working.tally key s) (working.get-tally key s ∙ rw e)
    | inr e ↦ rw (zero_of e) (rate_limited-missing key s (working.get-tally key s ∙ rw e))
  ]

  -- While the counters work, of requests of which each has been counted before the count of the next is
  -- read, in whatever order the keys come: of those of one key as many are served as there are, or as are
  -- left of the limit and one more, whichever is less, where the count that the key has had before is
  -- taken off, and requests of other keys do not count. Of requests that overlap nothing is said: those
  -- that read the count before any is counted are all served.
  pub handle_all-served :
      (key : String) (keys : List String) (s : counters.Store)
      → count (is_served key) (handle_all print max counters keys s)
        ≡ least (count (λ k. str_eq k key) keys) (suc max - working.tally key s)
  unfolding handle_all
  handle_all-served key [] s = ground arith
  handle_all-served key (k ∷ ks) s =
      rw
        (
          rate_limited-IsWorking k s,
          handle_all-served key ks (counters.incr k s).1,
          working.tally-incr k key s,
        )
        (served_step max (working.tally key s) (working.tally k s)
          (count (λ other. str_eq other key) ks) k key
          (λ e. ap (λ other. working.tally other s) ((eq_iff k key).0 e)))
