-- ===== src/Shutdown/Clients.antt =====
-- The clients of server/shutdown/shutdown.go as a set of ids.
use shadowroller.Common.{
  ℕ, suc, ◌≡◌, refl, Bool, true, false, ◌&&◌, ◌||◌, not, List, [], ◌∷◌, ◌==◌, length, arith,
}
use shadowroller.Shutdown.{delete, append}

abbrev pub has : ℕ → List ℕ → Bool
has id [] = false
has id (c ∷ cs) = c == id || has id cs

abbrev pub Distinct : List ℕ → Type 0
Distinct [] = Unit
Distinct (c ∷ cs) = (has c cs ≡ false) × Distinct cs

pub has-delete :
    (id other : ℕ) (cs : List ℕ) → has other (delete id cs) ≡ has other cs && not (id == other)
unfolding delete
has-delete id other [] = refl
has-delete id other (c ∷ cs) = ground (arith, has-delete id other cs)

pub has-append : (id : ℕ) (xs ys : List ℕ) → has id (append xs ys) ≡ has id xs || has id ys
has-append id [] ys = refl
has-append id (x ∷ xs) ys = ground (arith, has-append id xs ys)

pub delete_absent : (id : ℕ) (cs : List ℕ) → has id cs ≡ false → delete id cs ≡ cs
unfolding delete
delete_absent id [] h = refl
delete_absent id (c ∷ cs) h = ground (arith, delete_absent id cs)

pub delete-Distinct : (id : ℕ) (cs : List ℕ) → Distinct cs → Distinct (delete id cs)
unfolding delete
delete-Distinct id [] h = tt
delete-Distinct id (c ∷ cs) (h, hs) = ground (arith, has-delete id c cs, delete-Distinct id cs hs)

pub length-delete :
    (id : ℕ) (cs : List ℕ)
    → Distinct cs
    → has id cs ≡ true
    → suc (length (delete id cs)) ≡ length cs
unfolding delete
length-delete id [] h m = ground arith
length-delete id (c ∷ cs) (h, hs) m = ground (arith, length-delete id cs hs, delete_absent id cs)
