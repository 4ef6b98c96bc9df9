-- ===== src/Routes/Frontend/Paths.antt =====
-- Which paths handleFrontendStatic lets through: the checks of the path, and the slices of it.
use shadowroller.Common.{
  ◌≡◌, ◌≢◌, refl, sym, ap, ◌∙◌, ℕ, ◌+◌, ◌≤◌, pos, sub_ℕ, Bool, true, false, not, ◌&&◌, ◌||◌, List,
  [], ◌∷◌, ◌++◌, some, ◌==◌, arith, count, length, All, count-append, length-append, take,
}
use shadowroller.Common.Bytes.{
  Bytes, bytes, same, slice, has_prefix, trim, trim_right, split_at, all_elements, is_element,
  valid_path,
}
use shadowroller.Common.Bytes.Cuts.{Without, trim-element}
use shadowroller.Common.Bytes.Slices.{
  take-append, take-length, slice-some, has_prefix-append, has_prefix-shorter, same-≡,
}
use shadowroller.Routes.Frontend.{valid_static_subdirs, string_array_contains, invalid_path}

tests :
    (alone valid_utf8 all : Bool)
    → (alone || not (valid_utf8 && (alone || all))) ≡ false
    → all ≡ true
tests alone valid_utf8 all h = ground arith

invalid_path-elements :
    (path : Bytes)
    → invalid_path path ≡ false
    → all_elements (split_at b'/' (trim b'/' path)) ≡ true
unfolding invalid_path valid_path
invalid_path-elements path h =
    tests (same (trim b'/' path) (bytes ".")) _ (all_elements (split_at b'/' (trim b'/' path))) h

-- A path that is let through does not end with a step up, nor with a step nowhere.
last-element :
    (g : ℕ) (before f : Bytes)
    → Without b'/' (g ∷ f)
    → trim_right b'/' (b'/' ∷ g ∷ f) ≡ b'/' ∷ g ∷ f
    → is_element (g ∷ f) ≡ false
    → invalid_path (before ++ (b'/' ∷ g ∷ f)) ≢ false
last-element g before f n kept bad h =
    let good = trim-element b'/' g before f n kept (invalid_path-elements _ h) in ground arith

no_step :
    (before after : Bytes)
    → invalid_path (before ++ (b'/' ∷ after)) ≡ false
    → (after ≢ bytes ".") × (after ≢ bytes "..")
unfolding trim_right
no_step before after h = (
  λ e.
      last-element b'.' before [] ((λ q. omega arith), tt) refl refl
        (sym (ap (λ x. invalid_path (before ++ (b'/' ∷ x))) e) ∙ h),
  λ e.
      last-element b'.' before (b'.' ∷ []) ((λ q. omega arith), ((λ q. omega arith), tt)) refl refl
        (sym (ap (λ x. invalid_path (before ++ (b'/' ∷ x))) e) ∙ h),
)

-- What lies between `/static` and the last separator, where it is sliced without a panic.
between :
    (r sub_dir : Bytes)
    → slice
        (bytes "/static" ++ (r ++ (b'/' ∷ [])))
        (pos 7)
        (sub_ℕ (length (bytes "/static" ++ (r ++ (b'/' ∷ [])))) 1)
      ≡ some sub_dir
    → sub_dir ≡ r
between r sub_dir e =
    let len = length-append r (b'/' ∷ []) in
    let hi : sub_ℕ (length (bytes "/static" ++ (r ++ (b'/' ∷ [])))) 1 ≡ pos (7 + length r) =
      ground arith in
    let (a, b, c) = slice-some _ _ _ _ (rw hi at e) in
    c ∙ ap (λ n. take n (r ++ (b'/' ∷ []))) (omega arith) ∙ take-append r (b'/' ∷ [])

-- The first byte is cut off of it.
without_first :
    (r sub : Bytes) → slice r (pos 1) (pos (length r)) ≡ some sub → (x : ℕ) × (r ≡ x ∷ sub)
without_first [] sub e = let (a, b, c) = slice-some _ _ _ _ e in ground arith
without_first (x ∷ r) sub e =
    let (a, b, c) = slice-some _ _ _ _ e in
    (x, ap (◌∷◌ x) (sym (c ∙ ap (λ n. take n r) (omega arith) ∙ take-length r)))

dir_length :
    (before sub_dir : Bytes)
    → slice (before ++ (b'/' ∷ [])) (pos 7) (sub_ℕ (length (before ++ (b'/' ∷ []))) 1)
      ≡ some sub_dir
    → 7 ≤ length before
dir_length before sub_dir e =
    let len = length-append before (b'/' ∷ []) in
    let hi : sub_ℕ (length (before ++ (b'/' ∷ []))) 1 ≡ pos (length before) = ground arith in
    let (a, b, c) = slice-some _ _ _ _ (rw hi at e) in a

-- The subdirectory that the handler slices out of the directory.
directory_lem :
    (before after sub_dir sub : Bytes)
    → has_prefix (before ++ (b'/' ∷ after)) (bytes "/static") ≡ true
    → slice (before ++ (b'/' ∷ [])) (pos 7) (sub_ℕ (length (before ++ (b'/' ∷ []))) 1)
      ≡ some sub_dir
    → slice sub_dir (pos 1) (pos (length sub_dir)) ≡ some sub
    → (x : ℕ) × (before ≡ bytes "/static" ++ (x ∷ sub))
directory_lem before after sub_dir sub starts e e' =
    let (r, q) = has_prefix-append before (bytes "/static") (
      has_prefix-shorter before (b'/' ∷ after) (bytes "/static") (dir_length before sub_dir e)
        starts) in
    let sub_dir_lem = between r sub_dir (
      sym (ap (λ b. slice (b ++ (b'/' ∷ [])) (pos 7) (sub_ℕ (length (b ++ (b'/' ∷ []))) 1)) q)
      ∙ e) in
    let (x, q') =
      without_first r sub (sym (ap (λ b. slice b (pos 1) (pos (length b))) sub_dir_lem) ∙ e') in
    (x, q ∙ ap (λ b. bytes "/static" ++ b) q')

contained-step :
    (P : Bytes → Type 0) (a s : Bytes) (test others : Bool)
    → same a s ≡ test
    → (test || others) ≡ true
    → P a
    → (others ≡ true → P s)
    → P s
contained-step P a s true others e h p rest = rw (sym (same-≡ a s e)) p
contained-step P a s false others e h p rest = rest h

-- What holds of all that are listed holds of one that is found.
contained :
    (P : Bytes → Type 0) (array : List Bytes) (s : Bytes)
    → string_array_contains array s ≡ true
    → All P array
    → P s
unfolding string_array_contains
contained P [] s h all = ground arith
contained P (a ∷ array) s h (p, all) =
    contained-step P a s (same a s) (string_array_contains array s) refl h p
      (λ g. contained P array s g all)

third_slash :
    (x : ℕ) (sub : Bytes)
    → string_array_contains valid_static_subdirs sub ≡ true
    → (count (λ b. b == b'/') (bytes "/static" ++ ((x ∷ sub) ++ (b'/' ∷ []))) == 3) ≡ true
    → x ≡ b'/'
third_slash x sub listed three =
    let none_inside =
      contained (λ s. count (λ b. b == b'/') s ≡ 0) valid_static_subdirs sub listed
        (refl, (refl, (refl, tt))) in
    let counted = count-append (λ b. b == b'/') sub (b'/' ∷ []) in ground arith

-- The path of a name in one of the three directories, directly in it; an empty name is the path of
-- the directory.
abbrev pub IsStatic : Bytes → Bytes → Type 0
IsStatic path name =
    (sub : Bytes) × (string_array_contains valid_static_subdirs sub ≡ true)
    × (path ≡ bytes "/static/" ++ (sub ++ (b'/' ∷ name)))
    × Without b'/' name
    × (name ≢ bytes ".")
    × (name ≢ bytes "..")

-- The checks of the handler on a path that was cut.
pub checked-IsStatic :
    (before after sub_dir sub : Bytes)
    → Without b'/' after
    → has_prefix (before ++ (b'/' ∷ after)) (bytes "/static") ≡ true
    → invalid_path (before ++ (b'/' ∷ after)) ≡ false
    → (count (λ b. b == b'/') (before ++ (b'/' ∷ [])) == 3) ≡ true
    → slice (before ++ (b'/' ∷ [])) (pos 7) (sub_ℕ (length (before ++ (b'/' ∷ []))) 1)
      ≡ some sub_dir
    → slice sub_dir (pos 1) (pos (length sub_dir)) ≡ some sub
    → string_array_contains valid_static_subdirs sub ≡ true
    → IsStatic (before ++ (b'/' ∷ after)) after
checked-IsStatic before after sub_dir sub n starts v three e e' listed =
    let (x, q) = directory_lem before after sub_dir sub starts e e' in
    let slash =
      third_slash x sub listed
        (sym (ap (λ b. count (λ c. c == b'/') (b ++ (b'/' ∷ [])) == 3) q) ∙ three) in
    let whole = q ∙ ap (λ y. bytes "/static" ++ (y ∷ sub)) slash in
    let (one, two) = no_step before after v in
    (sub, listed, ap (λ b. b ++ (b'/' ∷ after)) whole, n, one, two)
