-- ===== src/Compress/Asset.antt =====
-- framework/src/compress/minify.c and compress_utils.c: the minifier that a content type asks for.
pub mod Fits
use cweb.Base.{
  ℕ, Bool, true, false, ◌&&◌, ◌||◌, [], ◌∷◌, Option, none, some, ◌==◌, ◌>>=◌, if◌then◌else◌, length,
  Bytes, codes, to_lower,
}
use cweb.Compress.Css.{minify_css}
use cweb.Compress.Js.{minify_js}
use cweb.Compress.Html.{minify_html}

-- The loop over `i`: the needle stands at the front, whatever the case.
unfoldable pub starts_with_ci : Bytes → Bytes → Bool
unfolding to_lower
starts_with_ci s [] = true
starts_with_ci [] (n ∷ ns) = false
starts_with_ci (c ∷ cs) (n ∷ ns) = to_lower c == to_lower n && starts_with_ci cs ns

contains_token_ci : Bytes → Bytes → Bool
unfolding starts_with_ci
contains_token_ci haystack [] = false
contains_token_ci [] (n ∷ ns) = false
contains_token_ci (c ∷ cs) (n ∷ ns) =
    starts_with_ci (c ∷ cs) (n ∷ ns) || contains_token_ci cs (n ∷ ns)

pub data MinifyKind : Type 0 where
  plain html css js : MinifyKind

pub detect_minify_kind : Option Bytes → MinifyKind
unfolding contains_token_ci
detect_minify_kind none = MinifyKind.plain
detect_minify_kind (some content_type) =
    if contains_token_ci content_type (codes "text/html")
      || contains_token_ci content_type (codes "application/xhtml")
    then MinifyKind.html
    else if contains_token_ci content_type (codes "text/css")
    then MinifyKind.css
    else if contains_token_ci content_type (codes "javascript")
    then MinifyKind.js
    else MinifyKind.plain

pub minify_as : MinifyKind → Bytes → Option Bytes
minify_as MinifyKind.plain input = some input
minify_as MinifyKind.html input = minify_html input
minify_as MinifyKind.css input = minify_css input
minify_as MinifyKind.js input = minify_js input

-- The output; for an empty input it is NULL, and where nothing is left the input is copied. The outer `none` means that a
-- minifier ran out of turns.
pub minify_asset : Bytes → Option Bytes → Option (Option Bytes)
unfolding detect_minify_kind minify_as
minify_asset [] content_type = some none
minify_asset (c ∷ cs) content_type =
    minify_as (detect_minify_kind content_type) (c ∷ cs) >>= λ produced.
    some (some (if length produced == 0 then c ∷ cs else produced))
