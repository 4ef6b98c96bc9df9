-- ===== src/Routes/Frontend.antt =====
-- server/routes/frontend.go: the files of the web client. A path is its bytes; a handler's state is
-- the calls that it makes on the response's header, and its result is what `ServeContent` is given.
mod Tests
pub mod Opens
pub mod Etags
pub mod Paths
pub mod Confined
use shadowroller.Common.{
  ℕ, ℤ, pos, negsuc, sub_ℕ, ◌+ℤ◌, ◌-ℤ◌, ltb_ℤ, eqb_ℤ, ◌==◌, Bool, true, false, ◌&&◌, ◌||◌, not,
  List, [], ◌∷◌, ◌++◌, length, count, Option, none, some, String, if◌then◌else◌,
}
use shadowroller.Common.Bytes.{
  Bytes, bytes, same, slice, has_prefix, has_suffix, contains, index, last_index, trim, path_split,
  path_ext, path_join, valid_path,
}
use shadowroller.Errs.{Err, bad_request, not_found, plain, wrap}
use shadowroller.Errs.Answer.{Answer, ok, err}
use shadowroller.Http.Halt.{value}
use shadowroller.Action.{Action, done, pure, panic, ◌>>=◌, ◌>>◌, or_panic}
use shadowroller.Routes.Args.{as_internal, refuse_if}

abbrev pub hash_length : ℕ
hash_length = 8

abbrev pub valid_static_subdirs : List Bytes
valid_static_subdirs = bytes "media" ∷ bytes "js" ∷ bytes "css" ∷ []

-- `stringArrayContains`
unfoldable pub string_array_contains : List Bytes → Bytes → Bool
string_array_contains [] s = false
string_array_contains (in_array ∷ array) s = same in_array s || string_array_contains array s

unfoldable pub invalid_path : Bytes → Bool
unfolding trim valid_path
invalid_path path =
    let trimmed = trim b'/' path in same trimmed (bytes ".") || not (valid_path trimmed)

unfoldable pub append_to : Bytes → Option Bytes → Option Bytes
append_to ext none = none
append_to ext (some s) = some (s ++ ext)

-- The three kinds of `etagForFile`; `none` is a slice out of range.
css_etag : Bytes → ℤ → Option Bytes
unfolding slice append_to path_ext
css_etag name last_dot =
    if ltb_ℤ (pos (length name) -ℤ last_dot) (pos 2)
    then some []
    else append_to (path_ext name) (slice name (last_dot -ℤ pos hash_length) last_dot)

media_etag : Bytes → ℤ → Option Bytes
unfolding slice
media_etag name last_dot =
    if eqb_ℤ last_dot (negsuc 0) || ltb_ℤ (pos (length name)) (last_dot -ℤ pos hash_length -ℤ pos 3)
    then some []
    else slice name (last_dot -ℤ pos hash_length) last_dot

js_etag : Bytes → ℤ → Option Bytes
unfolding slice append_to path_ext
js_etag name offset =
    if eqb_ℤ offset (negsuc 0) || ltb_ℤ (pos (length name)) (offset +ℤ pos hash_length +ℤ pos 3)
    then some []
    else append_to (path_ext name) (slice name offset (offset +ℤ pos hash_length))

-- `etagForFile`
unfoldable pub etag_for_file : Bytes → Bytes → Option Bytes
unfolding css_etag media_etag js_etag has_prefix has_suffix index last_index
etag_for_file sub_folder name =
    if same sub_folder (bytes "css")
    then if has_suffix name (bytes ".map")
      then css_etag name (sub_ℕ (length name) (length (bytes ".chunk.css.map")))
      else if has_suffix name (bytes ".css")
      then css_etag name (sub_ℕ (length name) (length (bytes ".chunk.css")))
      else some []
    else if same sub_folder (bytes "media")
    then media_etag name (last_index b'.' name)
    else if same sub_folder (bytes "js")
    then if has_prefix name (bytes "runtime-main.")
      then js_etag name (pos (length (bytes "runtime-main.")))
      else if has_prefix name (bytes "main.")
      then js_etag name (pos (length (bytes "main.")))
      else js_etag name (index b'.' name +ℤ pos 1)
    else some []

-- What is configured, and the file system: `os.Open`, `file.Stat`, `errors.Is(err,
-- os.ErrNotExist)`, and how an error and a path are printed.
pub record Files (File Info : Type 0) : Type 0 where
  pub base_path : Bytes
  pub gzipped : Bool
  pub open_file : Bytes → Answer File
  pub stat : File → Answer Info
  pub is_not_exist : Err → Bool
  pub print : Err → String
  pub print_path : Bytes → String

-- What `openFrontendFile` returns.
pub record Opened (File : Type 0) : Type 0 where
  pub file : Answer File
  pub zipped : Bool
  pub defaulted : Bool

pub data HeaderCall : Type 0 where
  set add : String → Bytes → HeaderCall

-- The arguments of `ServeContent`.
pub record Served (File Info : Type 0) : Type 0 where
  pub name : Bytes
  pub info : Info
  pub file : File

pub record Request : Type 0 where
  pub path : Bytes
  pub accept_encoding : Bytes

-- `resetPath`
abbrev pub index_target : Bytes × Bytes
index_target = (bytes "/index.html", bytes "index.html")

-- The path that `handleFrontendBase` opens, and the name that it serves it by.
unfoldable pub base_target : Bytes → Bytes × Bytes
unfolding path_split
base_target path =
    let (dir, file) = path_split path in
    if same dir (bytes "/") && same file []
    then index_target
    else if not (count (λ b. b == b'/') dir == 1)
    then index_target
    else (path, file)

header : HeaderCall → Action (List HeaderCall) (Unit {0})
header call calls = (done tt, calls ++ (call ∷ []))

header_if : Bool → HeaderCall → Action (List HeaderCall) (Unit {0})
unfolding header
header_if true call = header call
header_if false call = pure tt

in_bounds : {A : Type 0} → Option A → Action (List HeaderCall) A
in_bounds none = panic (value "slice bounds out of range")
in_bounds (some a) = pure a

module _ {File Info : Type 0} (env : Files File Info) where
  open_at : Bytes → Answer File
  unfolding path_join
  open_at path = env.open_file (path_join env.base_path path)

  -- The attempt at a file, and what comes where it cannot be opened.
  abbrev attempt : Answer File → Bool → Bool → (Err → Opened File) → Opened File
  attempt (ok file) zipped defaulted other = record {
    file = ok file;
    zipped = zipped;
    defaulted = defaulted;
  }
  attempt (err e) zipped defaulted other = other e

  failed : Bool → Err → Opened File
  failed defaulted e = record { file = err e; zipped = false; defaulted = defaulted }

  open_index : Opened File
  unfolding open_at failed
  open_index = attempt (open_at (bytes "index.html")) false true λ e.
      if not (env.is_not_exist e)
      then failed true (wrap e "opening defaulted /index")
      else failed true (wrap e "got not found for /index")

  open_default : Bool → Opened File
  unfolding open_at open_index
  open_default use_zipped =
      if use_zipped
      then attempt (open_at (bytes "index.html.gz")) true true (λ e. open_index)
      else open_index

  open_unzipped : Bytes → Bool → Bool → Opened File
  unfolding open_at failed open_default
  open_unzipped file_path use_zipped use_default =
      attempt (open_at file_path) false false
        λ e. if not use_default then failed false (plain (env.print e)) else open_default use_zipped

  -- `openFrontendFile`
  unfoldable pub open_frontend_file : Bytes → Bool → Bool → Opened File
  unfolding open_at open_unzipped
  open_frontend_file file_path use_zipped use_default =
      if use_zipped
      then attempt (open_at (file_path ++ bytes ".gz")) true false
          (λ e. open_unzipped file_path use_zipped use_default)
      else open_unzipped file_path use_zipped use_default

  fetch_gzipped : Request → Bool
  unfolding contains
  fetch_gzipped request = env.gzipped && contains request.accept_encoding (bytes "gzip")

  -- The end of both handlers: the file's information, the headers and `ServeContent`.
  serve_opened :
      Opened File
      → Bytes
      → Action (List HeaderCall) (Unit {0})
      → Action (List HeaderCall) (Served File Info)
  unfolding header header_if
  serve_opened opened name last_header = do
    file ← or_panic (as_internal env.print) opened.file
    info ← or_panic (as_internal env.print) (env.stat file)
    header (add "Vary" (bytes "Accept-Encoding"))
    header_if opened.zipped (add "Content-Encoding" (bytes "gzip"))
    last_header
    pure (record { name = name; info = info; file = file })

  -- `handleFrontendStatic` once the subdirectory and the name of the file are known.
  serve_static : Request → Bytes → Bytes → Action (List HeaderCall) (Served File Info)
  unfolding header header_if in_bounds serve_opened has_suffix
  serve_static request sub_dir file = do
    header (set "Cache-Control" (bytes "max-age=31536000, public, immutable"))
    etag ← in_bounds (etag_for_file sub_dir file)
    header_if (not (same etag [])) (add "Etag" etag)
    serve_opened (open_frontend_file request.path (fetch_gzipped request) false) file
        (header_if (has_suffix file (bytes ".map")) (set "Content-Type" (bytes "application/json")))

  -- `handleFrontendStatic`
  unfoldable pub handle_frontend_static : Request → Action (List HeaderCall) (Served File Info)
  unfolding in_bounds serve_static fetch_gzipped path_split slice
  handle_frontend_static request = do
    let dir = (path_split request.path).0
    refuse_if (invalid_path request.path || not (count (λ b. b == b'/') dir == 3))
        (wrap bad_request (env.print_path request.path))
    sub_dir ← in_bounds (slice dir (pos (length (bytes "static/"))) (sub_ℕ (length dir) 1))
    sub_name ← in_bounds (slice sub_dir (pos 1) (pos (length sub_dir)))
    refuse_if (not (string_array_contains valid_static_subdirs sub_name))
        (wrap not_found (env.print_path sub_dir))
    serve_static request sub_name (path_split request.path).1

  -- `handleFrontendBase`
  unfoldable pub handle_frontend_base : Request → Action (List HeaderCall) (Served File Info)
  unfolding serve_opened base_target fetch_gzipped
  handle_frontend_base request =
      let (path, file) = base_target request.path in
      let opened = open_frontend_file path (fetch_gzipped request) true in
      serve_opened opened (if opened.defaulted then bytes "index.html" else file) (pure tt)
