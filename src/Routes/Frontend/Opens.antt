-- ===== src/Routes/Frontend/Opens.antt =====
-- Which file is opened: the first of a list of candidates.
use shadowroller.Common.{◌≡◌, Bool, true, false, List, [], ◌∷◌, ◌++◌, Option, none, some, arith}
use shadowroller.Common.Bytes.{Bytes, bytes, path_join}
use shadowroller.Errs.Answer.{Answer, ok, err}
use shadowroller.Routes.Frontend.{
  Files, Opened, open_frontend_file, open_unzipped, open_default, open_index, open_at, failed,
}

-- A path, and whether it is a zipped file and the default.
abbrev pub Candidate : Type 0
Candidate = Bytes × Bool × Bool

abbrev only_if : Bool → Candidate → List Candidate → List Candidate
only_if true c cs = c ∷ cs
only_if false c cs = cs

abbrev defaults : Bool → Bool → List Candidate
defaults use_zipped true =
    only_if use_zipped (bytes "index.html.gz", true, true) ((bytes "index.html", false, true) ∷ [])
defaults use_zipped false = []

abbrev pub candidates : Bytes → Bool → Bool → List Candidate
candidates path use_zipped use_default =
    only_if use_zipped (path ++ bytes ".gz", true, false)
      ((path, false, false) ∷ defaults use_zipped use_default)

module _ {File Info : Type 0} (env : Files File Info) where
  -- The first candidate that can be opened.
  unfoldable pub first_opened : List Candidate → Option (File × Bool × Bool)
  first_opened [] = none
  first_opened ((path, zipped, defaulted) ∷ cs) =
      elim (env.open_file (path_join env.base_path path)) [
        | ok file ↦ some (file, zipped, defaulted)
        | err e ↦ first_opened cs
      ]

  abbrev pub found : Answer File → Bool → Bool → Option (File × Bool × Bool)
  found (ok file) zipped defaulted = some (file, zipped, defaulted)
  found (err e) zipped defaulted = none

  -- The file with its flags, where there is one.
  abbrev pub outcome : Opened File → Option (File × Bool × Bool)
  outcome opened = found opened.file opened.zipped opened.defaulted

  index_lem :
      (outcome (open_index env) ≡ first_opened ((bytes "index.html", false, true) ∷ []))
      × ((open_index env).defaulted ≡ true)
  unfolding open_index open_at failed first_opened
  index_lem = ground arith

  default_lem :
      (use_zipped : Bool)
      → (outcome (open_default env use_zipped) ≡ first_opened (defaults use_zipped true))
        × ((open_default env use_zipped).defaulted ≡ true)
  unfolding open_default open_at first_opened
  default_lem true = ground (arith, index_lem)
  default_lem false = index_lem

  unzipped_lem :
      (path : Bytes) (use_zipped use_default : Bool)
      → outcome (open_unzipped env path use_zipped use_default)
        ≡ first_opened ((path, false, false) ∷ defaults use_zipped use_default)
  unfolding open_unzipped open_at failed first_opened
  unzipped_lem path use_zipped true = ground (arith, default_lem use_zipped)
  unzipped_lem path use_zipped false = ground arith

  -- The file that is opened, with its two flags, is the first that can be opened of: the zipped
  -- file, if zipped files are wanted; the file; and if a default is wanted, the zipped index, if
  -- zipped files are wanted, and the index. There is an error exactly where none of these can be
  -- opened.
  pub open_frontend_file-first_opened :
      (path : Bytes) (use_zipped use_default : Bool)
      → outcome (open_frontend_file env path use_zipped use_default)
        ≡ first_opened (candidates path use_zipped use_default)
  unfolding open_frontend_file open_at first_opened
  open_frontend_file-first_opened path true use_default =
      ground (arith, unzipped_lem path true use_default)
  open_frontend_file-first_opened path false use_default = unzipped_lem path false use_default
