-- ===== src/Routes/Frontend/Tests.antt =====
-- Runs of the handlers of the web client's files.
use shadowroller.Common.{◌≡◌, refl, ℕ, none, some, [], ◌∷◌, ◌++◌, ◌≢◌, true, false, if◌then◌else◌}
use shadowroller.Common.Bytes.{
  Bytes, bytes, same, contains, slice, has_prefix, has_suffix, index, last_index, cut, cut_last,
  path_ext, path_split, trim, trim_left, trim_right, valid_path, path_clean, path_join, split_at,
}
use shadowroller.Common.Bytes.Cuts.{Without}
use shadowroller.Errs.{not_found}
use shadowroller.Errs.Answer.{ok, err}
use shadowroller.Action.{done, ◌>>=◌}
use shadowroller.Routes.Args.{refuse_if}
use shadowroller.Routes.Frontend.{
  Files, Request, Served, etag_for_file, invalid_path, append_to, open_frontend_file,
  string_array_contains, handle_frontend_static,
}
use shadowroller.Routes.Frontend.Opens.{
  outcome, candidates, first_opened, open_frontend_file-first_opened,
}
use shadowroller.Routes.Frontend.Confined.{IsAt, handle_frontend_static-IsStatic}
use shadowroller.Routes.Frontend.Paths.{IsStatic}
use shadowroller.Routes.Frontend.Etags.{last_eight, has_none, etag_for_file_lem}

test_etag_js :
    etag_for_file (bytes "js") (bytes "main.0123abcd.chunk.js") ≡ some (bytes "0123abcd.js")
unfolding etag_for_file has_prefix has_suffix index last_index cut cut_last path_ext path_split
    slice append_to
test_etag_js = refl

test_etag_css :
    etag_for_file (bytes "css") (bytes "main.0123abcd.chunk.css.map") ≡ some (bytes "0123abcd.map")
unfolding etag_for_file has_prefix has_suffix index last_index cut cut_last path_ext path_split
    slice append_to
test_etag_css = refl

test_etag_media : etag_for_file (bytes "media") (bytes "f.js") ≡ none
unfolding etag_for_file has_prefix has_suffix index last_index cut cut_last path_ext path_split
    slice append_to
test_etag_media = refl

test_path : path_join (bytes "/srv/") (bytes "/a/../b//c") ≡ bytes "/srv/b/c"
unfolding path_join path_clean split_at has_prefix
test_path = refl

test_invalid : invalid_path (bytes "/static/js/..") ≡ true
unfolding invalid_path trim trim_left trim_right valid_path split_at
test_invalid = refl

test_valid : invalid_path (bytes "/static/js/") ≡ false
unfolding invalid_path trim trim_left trim_right valid_path split_at
test_valid = refl

-- A file is its path.
abbrev disk : Files Bytes ℕ
disk = record {
  base_path = bytes "/srv";
  gzipped = true;
  open_file = λ path.
      if same path (bytes "/srv/static/js/main.0123abcd.chunk.js.gz")
      then ok path
      else if same path (bytes "/srv/index.html")
      then ok path
      else err not_found;
  stat = λ file. ok 7;
  is_not_exist = λ e. true;
  print = λ e. "";
  print_path = λ path. "";
}

abbrev script : Request
script = record {
  path = bytes "/static/js/main.0123abcd.chunk.js";
  accept_encoding = bytes "gzip, br";
}

abbrev script_served : Served Bytes ℕ
script_served = record {
  name = bytes "main.0123abcd.chunk.js";
  info = 7;
  file = bytes "/srv/static/js/main.0123abcd.chunk.js.gz";
}

script_starts : has_prefix script.path (bytes "/static") ≡ true
unfolding has_prefix
script_starts = refl

script-done : (handle_frontend_static disk script []).0 ≡ done script_served
unfolding handle_frontend_static refuse_if ◌>>=◌ etag_for_file has_prefix has_suffix contains index
    last_index cut cut_last path_ext path_split slice invalid_path trim trim_left trim_right
    valid_path path_clean path_join split_at append_to open_frontend_file string_array_contains
script-done = refl

handle_frontend_static-IsStatic_example :
    IsStatic script.path script_served.name × IsAt disk script.path script_served.file
handle_frontend_static-IsStatic_example =
    handle_frontend_static-IsStatic disk script [] script_served script_starts script-done

open_frontend_file-first_opened_example :
    outcome disk (open_frontend_file disk (bytes "join/abc") true true)
    ≡ first_opened disk (candidates (bytes "join/abc") true true)
open_frontend_file-first_opened_example =
    open_frontend_file-first_opened disk (bytes "join/abc") true true

stem_Without : Without b'/' (bytes "logo.0123abcd")
stem_Without = has_none b'/' (bytes "logo.0123abcd") refl

ext_Without : Without b'.' (bytes "png")
ext_Without = has_none b'.' (bytes "png") refl

etag_for_file_lem_example :
    (etag_for_file (bytes "media") (bytes "logo.0123abcd" ++ (b'.' ∷ bytes "png"))
      ≡ last_eight (bytes "logo.0123abcd"))
    × (etag_for_file (bytes "css") (bytes "logo.0123abcd" ++ bytes ".chunk.css")
        ≡ append_to (bytes ".css") (last_eight (bytes "logo.0123abcd")))
    × (etag_for_file (bytes "css") (bytes "logo.0123abcd" ++ bytes ".chunk.css.map")
        ≡ append_to (bytes ".map") (last_eight (bytes "logo.0123abcd")))
    × (etag_for_file (bytes "js") (bytes "f.js") ≢ none)
etag_for_file_lem_example =
    etag_for_file_lem (bytes "logo.0123abcd") (bytes "png") (bytes "f.js") stem_Without ext_Without

-- A path without a name is that of a directory, which opens as well.
abbrev directory_disk : Files Bytes ℕ
directory_disk = record disk { open_file = λ path. ok path; gzipped = false }

directory-done :
    (handle_frontend_static directory_disk
      (record { path = bytes "/static/js/"; accept_encoding = [] })
      []).0
    ≡ done (record { name = []; info = 7; file = bytes "/srv/static/js" })
unfolding handle_frontend_static refuse_if ◌>>=◌ etag_for_file has_prefix has_suffix contains index
    last_index cut cut_last path_ext path_split slice invalid_path trim trim_left trim_right
    valid_path path_clean path_join split_at append_to open_frontend_file string_array_contains
directory-done = refl

test_path_empty : path_join [] (bytes "index.html") ≡ bytes "index.html"
unfolding path_join path_clean split_at has_prefix
test_path_empty = refl
