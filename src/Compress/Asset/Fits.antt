-- ===== src/Compress/Asset/Fits.antt =====
-- What minify_asset gives.
use cweb.Base.{
  ℕ, suc, ◌≤◌, ◌<◌, ◌≡◌, refl, ap, [], ◌∷◌, Option, none, some, ◌==◌, ◌>>=◌, if◌then◌else◌,
  if_cases, length, Bytes, arith, false,
}
use cweb.Compress.Css.Fits.{minify_css-fits}
use cweb.Compress.Js.Fits.{minify_js-fits}
use cweb.Compress.Html.Fits.{minify_html-fits}
use cweb.Compress.Asset.{MinifyKind, detect_minify_kind, minify_as, minify_asset}

minify_as-fits :
    (kind : MinifyKind) (input : Bytes)
    → (out : Bytes) × (minify_as kind input ≡ some out) × (length out ≤ length input)
unfolding minify_as
minify_as-fits MinifyKind.plain input = (input, refl, omega arith)
minify_as-fits MinifyKind.html input = minify_html-fits input
minify_as-fits MinifyKind.css input = minify_css-fits input
minify_as-fits MinifyKind.js input = minify_js-fits input

positive : (n : ℕ) → (n == 0) ≡ false → 0 < n
positive n e = ground arith

-- Whatever the content type, the minifier of a text that is not empty ends and gives a text that is not empty and not
-- longer, so that it fits the buffer of one byte more with its NUL.
pub minify_asset-fits :
    (input : Bytes) (content_type : Option Bytes)
    → 0 < length input
    → (out : Bytes) × (minify_asset input content_type ≡ some (some out))
      × (0 < length out)
      × (length out ≤ length input)
unfolding minify_asset
minify_asset-fits [] content_type h = elim h [ ]
minify_asset-fits (c ∷ cs) content_type h =
    let (out, gives, fits) = minify_as-fits (detect_minify_kind content_type) (c ∷ cs) in
    (
      (if length out == 0 then c ∷ cs else out),
      ap (λ o. o >>= λ p. some (some (if length p == 0 then c ∷ cs else p))) gives,
      if_cases (λ (p : Bytes). 0 < length p) (length out == 0) (c ∷ cs) out (λ e. omega arith)
          (positive (length out)),
      if_cases (λ (p : Bytes). length p ≤ suc (length cs)) (length out == 0) (c ∷ cs) out
          (λ e. omega arith) (λ e. fits),
    )

-- The minifiers always end.
pub minify_total :
    (body : Bytes) (content_type : Option Bytes)
    → (m : Option Bytes) × (minify_asset body content_type ≡ some m)
unfolding minify_asset
minify_total [] content_type = (none, refl)
minify_total (c ∷ cs) content_type =
    let r = minify_asset-fits (c ∷ cs) content_type (omega arith) in (some r.0, r.1)
