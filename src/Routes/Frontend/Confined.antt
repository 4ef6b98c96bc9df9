-- ===== src/Routes/Frontend/Confined.antt =====
-- Which files can be reached under /static.
use shadowroller.Common.{
  ◌≡◌, refl, sym, ap, ◌∙◌, ◌⊎◌, inl, pos, sub_ℕ, Bool, true, false, not, ◌||◌, List, [], ◌∷◌, ◌++◌,
  Option, none, some, ◌==◌, arith, count, length,
}
use shadowroller.Common.Bytes.{Bytes, bytes, slice, has_prefix, cut_last, path_split, path_join}
use shadowroller.Common.Bytes.Cuts.{Without, IsCut, cut_last-IsCut}
use shadowroller.Errs.Answer.{Answer, ok}
use shadowroller.Action.{Action, done}
use shadowroller.Action.Yields.{Yields, Yields-then, Yields-skip, pure-Yields, or_panic-Yields}
use shadowroller.Routes.Args.Reads.{refuse_if-Yields}
use shadowroller.Routes.Frontend.{
  Files, Served, Request, HeaderCall, valid_static_subdirs, string_array_contains, invalid_path,
  in_bounds, open_frontend_file, open_unzipped, open_at, failed, serve_opened, serve_static,
  handle_frontend_static,
}
use shadowroller.Routes.Frontend.Paths.{IsStatic, checked-IsStatic}

in_bounds-Yields : {A : Type 0} (o : Option A) → Yields (λ a. o ≡ some a) (in_bounds o)
unfolding in_bounds
in_bounds-Yields none s a e = cc
in_bounds-Yields (some b) s a e = cc

module _ {File Info : Type 0} (env : Files File Info) where
  -- The file is the one at the path, or its zipped form.
  abbrev pub IsAt : Bytes → File → Type 0
  IsAt path file =
      (env.open_file (path_join env.base_path path) ≡ ok file)
      ⊎ (env.open_file (path_join env.base_path (path ++ bytes ".gz")) ≡ ok file)

  unzipped-IsAt :
      (path : Bytes) (use_zipped : Bool) (file : File) (answer : Answer File)
      → env.open_file (path_join env.base_path path) ≡ answer
      → (open_unzipped env path use_zipped false).file ≡ ok file
      → answer ≡ ok file
  unfolding open_unzipped open_at failed
  unzipped-IsAt path use_zipped file answer a e = ground arith

  open-IsAt :
      (path : Bytes) (use_zipped : Bool) (file : File)
      → (open_frontend_file env path use_zipped false).file ≡ ok file
      → IsAt path file
  unfolding open_frontend_file open_at
  open-IsAt path true file e = ground (arith, unzipped-IsAt path true file _ refl)
  open-IsAt path false file e = inl (unzipped-IsAt path false file _ refl e)

  abbrev Is : Bytes → Bytes → Served File Info → Type 0
  Is path name served = (served.name ≡ name) × IsAt path served.file

  serve_opened-Yields :
      (path name : Bytes) (use_zipped : Bool) (last : Action (List HeaderCall) (Unit {0}))
      → Yields
          (Is path name)
          (serve_opened env (open_frontend_file env path use_zipped false) name last)
  unfolding serve_opened
  serve_opened-Yields path name use_zipped last =
      Yields-then _ _ _ _ (or_panic-Yields _ _) λ file e. Yields-skip _ _ _ λ info.
        Yields-skip _ _ _ λ u.
          Yields-skip _ _ _
            λ u'. Yields-skip _ _ _ λ u''. pure-Yields _ _ (refl, open-IsAt path use_zipped file e)

  serve_static-Yields :
      (request : Request) (sub name : Bytes)
      → Yields (Is request.path name) (serve_static env request sub name)
  unfolding serve_static
  serve_static-Yields request sub name = Yields-skip _ _ _ λ u.
      Yields-skip _ _ _ λ etag. Yields-skip _ _ _ λ u'. serve_opened-Yields request.path name _ _

cut_lem :
    (path : Bytes)
    → has_prefix path (bytes "/static") ≡ true
    → (cut : Option (Bytes × Bytes)) → cut_last b'/' path ≡ cut
    → IsCut b'/' path cut
    → (before after : Bytes) × (path_split path ≡ (before ++ (b'/' ∷ []), after))
      × (path ≡ before ++ (b'/' ∷ after))
      × Without b'/' after
unfolding path_split has_prefix
cut_lem [] starts none e h = ground arith
cut_lem (b ∷ path) starts none e h = ground arith
cut_lem path starts (some (before, after)) e (q, n) = (before, after, rw (path_split, e), q, n)

split_lem :
    (path : Bytes)
    → has_prefix path (bytes "/static") ≡ true
    → (before after : Bytes) × (path_split path ≡ (before ++ (b'/' ∷ []), after))
      × (path ≡ before ++ (b'/' ∷ after))
      × Without b'/' after
unfolding path_split
split_lem path starts = cut_lem path starts (cut_last b'/' path) refl (cut_last-IsCut b'/' path)

-- The checks of the handler, by the two parts that it cuts the path into.
checked_split :
    (path sub_dir sub : Bytes)
    → has_prefix path (bytes "/static") ≡ true
    → invalid_path path ≡ false
    → (count (λ b. b == b'/') (path_split path).0 == 3) ≡ true
    → slice (path_split path).0 (pos 7) (sub_ℕ (length (path_split path).0) 1) ≡ some sub_dir
    → slice sub_dir (pos 1) (pos (length sub_dir)) ≡ some sub
    → string_array_contains valid_static_subdirs sub ≡ true
    → IsStatic path (path_split path).1
checked_split path sub_dir sub starts v three e e' listed =
    let (before, after, p, q, n) = split_lem path starts in
    let dir : (path_split path).0 ≡ before ++ (b'/' ∷ []) = ap (λ x. x.0) p in
    let name : (path_split path).1 ≡ after = ap (λ x. x.1) p in
    rw (name, q)
      (checked-IsStatic before after sub_dir sub n
        (sym (ap (λ x. has_prefix x (bytes "/static")) q) ∙ starts) (sym (ap invalid_path q) ∙ v)
        (sym (ap (λ d. count (λ b. b == b'/') d == 3) dir) ∙ three)
        (sym (ap (λ d. slice d (pos 7) (sub_ℕ (length d) 1)) dir) ∙ e) e' listed)

passed :
    (invalid three : Bool) → (invalid || not three) ≡ false → (invalid ≡ false) × (three ≡ true)
passed invalid three h = ground arith

listed_of : (listed : Bool) → not listed ≡ false → listed ≡ true
listed_of listed h = ground arith

module _ {File Info : Type 0} (env : Files File Info) where
  -- A request under /static that is served has the path /static/<directory>/<name>, with one of the
  -- directories media, js and css, and a name that holds no separator and is no step to the same or to
  -- the upper directory; and what is served by that name is what opens at that path of the base path, or
  -- at that path with .gz. The name may be empty, and then the path is that of the directory itself.
  pub handle_frontend_static-IsStatic :
      (request : Request) (calls : List HeaderCall) (served : Served File Info)
      → has_prefix request.path (bytes "/static") ≡ true
      → (handle_frontend_static env request calls).0 ≡ done served
      → IsStatic request.path served.name × IsAt env request.path served.file
  unfolding handle_frontend_static
  handle_frontend_static-IsStatic request calls served starts =
      Yields-then _ (λ v. IsStatic request.path v.name × IsAt env request.path v.file) _ _
        (refuse_if-Yields _ _)
        (λ u ok_path. Yields-then _ _ _ _ (in_bounds-Yields _) λ sub_dir e.
          Yields-then _ _ _ _ (in_bounds-Yields _) λ sub e'.
            Yields-then _ _ _ _ (refuse_if-Yields _ _) λ u' listed s v h.
              let (name_lem, at) = serve_static-Yields env request sub _ s v h in
              let (v_path, three) = passed (invalid_path request.path) _ ok_path in
              let static =
                checked_split request.path sub_dir sub starts v_path three e e'
                  (listed_of _ listed) in
              (rw name_lem static, at))
        calls served
