-- ===== src/Routes/Frontend/Etags.antt =====
-- The hash that etagForFile takes out of a file's name.
use shadowroller.Common.{
  ◌≡◌, ◌≢◌, refl, sym, ap, ◌∙◌, ℕ, zero, suc, ◌+◌, ◌-◌, ◌≤◌, ℤ, pos, negsuc, ◌-ℤ◌, ◌+ℤ◌, ltb_ℤ,
  eqb_ℤ, sub_ℕ, ltb, Bool, true, false, ◌||◌, [], ◌∷◌, ◌++◌, Option, none, some, ◌==◌, ==_self,
  ==_of_ne, if◌then◌else◌, arith, count, length, length-append, take,
}
use shadowroller.Common.Bytes.{
  Bytes, bytes, slice, drop, has_suffix, cut, cut_last, index, last_index, path_ext, path_split,
  position,
}
use shadowroller.Common.Bytes.Cuts.{Without}
use shadowroller.Common.Bytes.Slices.{take-append, same-≡}
use shadowroller.Routes.Frontend.{etag_for_file, css_etag, media_etag, js_etag, append_to}

-- The last eight bytes; there may be fewer.
abbrev pub last_eight : Bytes → Option Bytes
last_eight stem = if ltb (length stem) 8 then none else some (drop (length stem - 8) stem)

drop-append : (n : ℕ) (s t : Bytes) → n ≤ length s → drop n (s ++ t) ≡ drop n s ++ t
drop-append zero s t h = refl
drop-append (suc n) [] t h = ground arith
drop-append (suc n) (b ∷ s) t h = drop-append n s t (omega arith)

length-drop : (n : ℕ) (s : Bytes) → length (drop n s) ≡ length s - n
length-drop zero s = omega arith
length-drop (suc n) [] = omega arith
length-drop (suc n) (b ∷ s) = omega (arith, length-drop n s)

slice-in_range :
    (s : Bytes) (lo hi : ℕ)
    → lo ≤ hi
    → hi ≤ length s
    → slice s (pos lo) (pos hi) ≡ some (take (hi - lo) (drop lo s))
unfolding slice
slice-in_range s lo hi h g = ground arith

eight_before :
    (stem t : Bytes)
    → 8 ≤ length stem
    → take (length stem - (length stem - 8)) (drop (length stem - 8) (stem ++ t))
      ≡ drop (length stem - 8) stem
eight_before stem t h =
    let dropped = length-drop (length stem - 8) stem in
    ap (take (length stem - (length stem - 8))) (drop-append (length stem - 8) stem t (omega arith))
    ∙ ap (λ n. take n (drop (length stem - 8) stem ++ t)) (sym dropped)
    ∙ take-append (drop (length stem - 8) stem) t

slice-eight :
    (stem t : Bytes) (lo : ℤ) (few : Bool)
    → (pos (length stem) -ℤ pos 8) ≡ lo
    → ltb (length stem) 8 ≡ few
    → slice (stem ++ t) lo (pos (length stem))
      ≡ (if few then none else some (drop (length stem - 8) stem))
unfolding slice
slice-eight stem t (negsuc n) true e f = refl
slice-eight stem t (pos lo) true e f = ground arith
slice-eight stem t (negsuc n) false e f = ground arith
slice-eight stem t (pos lo) false e f =
    let long : 8 ≤ length stem = ground arith in
    let all = length-append stem t in
    let at : lo ≡ length stem - 8 = ground arith in
    ap (λ n. slice (stem ++ t) (pos n) (pos (length stem))) at
    ∙ slice-in_range (stem ++ t) (length stem - 8) (length stem) (omega arith) (omega arith)
    ∙ ap some (eight_before stem t long)

slice-last_eight :
    (stem t : Bytes)
    → slice (stem ++ t) (pos (length stem) -ℤ pos 8) (pos (length stem)) ≡ last_eight stem
slice-last_eight stem t = slice-eight stem t _ _ refl refl

cut_last-Without : (sep : ℕ) (s : Bytes) → Without sep s → cut_last sep s ≡ none
unfolding cut_last
cut_last-Without sep [] h = refl
cut_last-Without sep (b ∷ s) (n, h) = rw (cut_last-Without sep s h, ==_of_ne b sep n)

cut_last-append :
    (sep : ℕ) (a b : Bytes) → Without sep b → cut_last sep (a ++ (sep ∷ b)) ≡ some (a, b)
unfolding cut_last
cut_last-append sep [] b h = rw (cut_last-Without sep b h, ==_self sep)
cut_last-append sep (c ∷ a) b h = rw (cut_last-append sep a b h)

media_etag_lem : (stem t : Bytes) → media_etag (stem ++ t) (pos (length stem)) ≡ last_eight stem
unfolding media_etag
media_etag_lem stem t =
    let all = length-append stem t in
    let kept : (eqb_ℤ (pos (length stem)) (negsuc 0)
          || ltb_ℤ (pos (length (stem ++ t))) (pos (length stem) -ℤ pos 8 -ℤ pos 3))
        ≡ false =
      ground arith in
    rw kept (slice-last_eight stem t)

media_lem :
    (stem ext : Bytes)
    → Without b'.' ext
    → etag_for_file (bytes "media") (stem ++ (b'.' ∷ ext)) ≡ last_eight stem
unfolding etag_for_file media_etag last_index
media_lem stem ext h =
    let found = cut_last-append b'.' stem ext h in
    let all = length-append stem (b'.' ∷ ext) in
    let sliced = slice-last_eight stem (b'.' ∷ ext) in
    let at : last_index b'.' (stem ++ (b'.' ∷ ext)) ≡ pos (length stem) = ground arith in
    ap (media_etag (stem ++ (b'.' ∷ ext))) at ∙ media_etag_lem stem (b'.' ∷ ext)

js_etag-some : (name : Bytes) (offset : ℕ) → js_etag name (pos offset) ≢ none
unfolding js_etag append_to slice
js_etag-some name offset e = ground arith

position-next : (o : Option (Bytes × Bytes)) → (offset : ℕ) × (position o +ℤ pos 1 ≡ pos offset)
position-next none = (0, refl)
position-next (some (before, after)) = (length before + 1, ground arith)

index-next : (sep : ℕ) (s : Bytes) → (offset : ℕ) × (index sep s +ℤ pos 1 ≡ pos offset)
unfolding index
index-next sep s = position-next (cut sep s)

js_never : (name : Bytes) → etag_for_file (bytes "js") name ≢ none
unfolding etag_for_file
js_never name e =
    let (offset, next) = index-next b'.' name in
    let all = js_etag-some name in
    ground (arith, js_etag-some name 13, js_etag-some name 5, js_etag-some name offset)

has_suffix-append :
    (s t suffix : Bytes)
    → length suffix ≤ length t
    → has_suffix (s ++ t) suffix ≡ has_suffix t suffix
unfolding has_suffix
has_suffix-append [] t suffix h = refl
has_suffix-append (b ∷ s) t suffix h =
    let all = length-append s t in
    let other : b ∷ (s ++ t) ≢ suffix =
      λ e. let lengths : length (b ∷ (s ++ t)) ≡ length suffix = ap length e in omega arith in
    ground (arith, has_suffix-append s t suffix h, same-≡ (b ∷ (s ++ t)) suffix)

Without-append : (sep : ℕ) (s t : Bytes) → Without sep s → Without sep t → Without sep (s ++ t)
Without-append sep [] t h g = g
Without-append sep (b ∷ s) t (n, h) g = (n, Without-append sep s t h g)

append_assoc : (s t u : Bytes) → (s ++ t) ++ u ≡ s ++ (t ++ u)
append_assoc [] t u = refl
append_assoc (b ∷ s) t u = ap (◌∷◌ b) (append_assoc s t u)

path_ext-append :
    (stem t ext : Bytes)
    → Without b'/' stem
    → Without b'/' (t ++ (b'.' ∷ ext))
    → Without b'.' ext
    → path_ext (stem ++ (t ++ (b'.' ∷ ext))) ≡ b'.' ∷ ext
unfolding path_ext path_split
path_ext-append stem t ext h g n =
    let whole = cut_last-Without b'/' _ (Without-append b'/' stem (t ++ (b'.' ∷ ext)) h g) in
    let found =
      ap (cut_last b'.') (sym (append_assoc stem t (b'.' ∷ ext)))
      ∙ cut_last-append b'.' (stem ++ t) ext n in
    rw (path_ext, path_split, whole, found)

pub has_none : (sep : ℕ) (s : Bytes) → count (λ b. b == sep) s ≡ 0 → Without sep s
has_none sep [] e = tt
has_none sep (b ∷ s) e = (λ q. ground arith, has_none sep s (ground arith))

css_etag_lem :
    (stem t ext : Bytes)
    → 2 ≤ length t
    → path_ext (stem ++ t) ≡ ext
    → css_etag (stem ++ t) (pos (length stem)) ≡ append_to ext (last_eight stem)
unfolding css_etag
css_etag_lem stem t ext h e =
    let all = length-append stem t in
    let kept : ltb_ℤ (pos (length (stem ++ t)) -ℤ pos (length stem)) (pos 2) ≡ false =
      ground arith in
    rw (kept, slice-last_eight stem t, e)

css_lem :
    (stem : Bytes)
    → Without b'/' stem
    → (etag_for_file (bytes "css") (stem ++ bytes ".chunk.css")
        ≡ append_to (bytes ".css") (last_eight stem))
      × (etag_for_file (bytes "css") (stem ++ bytes ".chunk.css.map")
          ≡ append_to (bytes ".map") (last_eight stem))
unfolding etag_for_file has_suffix
css_lem stem h =
    let no_map = has_suffix-append stem (bytes ".chunk.css") (bytes ".map") (omega arith) in
    let is_css = has_suffix-append stem (bytes ".chunk.css") (bytes ".css") (omega arith) in
    let is_map = has_suffix-append stem (bytes ".chunk.css.map") (bytes ".map") (omega arith) in
    let all = length-append stem (bytes ".chunk.css") in
    let all_map = length-append stem (bytes ".chunk.css.map") in
    let ext =
      path_ext-append stem (bytes ".chunk") (bytes "css") h
        (has_none b'/' (bytes ".chunk.css") refl) (has_none b'.' (bytes "css") refl) in
    let ext_map =
      path_ext-append stem (bytes ".chunk.css") (bytes "map") h
        (has_none b'/' (bytes ".chunk.css.map") refl) (has_none b'.' (bytes "map") refl) in
    let css = css_etag_lem stem (bytes ".chunk.css") (bytes ".css") (omega arith) ext in
    let map = css_etag_lem stem (bytes ".chunk.css.map") (bytes ".map") (omega arith) ext_map in
    let at : sub_ℕ (length (stem ++ bytes ".chunk.css")) 10 ≡ pos (length stem) = ground arith in
    let at_map : sub_ℕ (length (stem ++ bytes ".chunk.css.map")) 14 ≡ pos (length stem) =
      ground arith in
    (rw (no_map, is_css, at) css, rw (is_map, at_map) map)

-- Of a stem without a separator of paths and an extension without a dot: the etag of the media file
-- <stem>.<extension> is the last eight bytes of the stem; that of a stylesheet <stem>.chunk.css, and
-- of its map <stem>.chunk.css.map, is these bytes with .css or .map. Where the stem has fewer than
-- eight bytes, the slice is out of range, and the handler panics; for a script of any name it does
-- not.
pub etag_for_file_lem :
    (stem ext name : Bytes)
    → Without b'/' stem
    → Without b'.' ext
    → (etag_for_file (bytes "media") (stem ++ (b'.' ∷ ext)) ≡ last_eight stem)
      × (etag_for_file (bytes "css") (stem ++ bytes ".chunk.css")
          ≡ append_to (bytes ".css") (last_eight stem))
      × (etag_for_file (bytes "css") (stem ++ bytes ".chunk.css.map")
          ≡ append_to (bytes ".map") (last_eight stem))
      × (etag_for_file (bytes "js") name ≢ none)
etag_for_file_lem stem ext name h n =
    let (css, map) = css_lem stem h in (media_lem stem ext n, css, map, js_never name)
