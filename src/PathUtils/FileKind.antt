-- ===== src/PathUtils/FileKind.antt =====
-- `cweb_is_path_file`, `path_is_textbased` and `cweb_is_path_img`: what the extension says.
use mathlib.Core.List.{head-eq_of_cons-eq, tail-eq_of_cons-eq}
use cweb.Base.{
  All, ℕ, suc, ◌≡◌, inl, inr, refl, sym, ◌∙◌, Bool, true, false, not, ◌&&◌, ◌||◌, List, [], ◌∷◌,
  map, Option, none, some, arith, ltb, ◌==◌, if◌then◌else◌, drop, Bytes, codes, Bool-cases,
  Option-cases, case_eq, to_lower, bytes_eq, bytes_eq_iff,
}

-- strrchr(s, c), as an offset
unfoldable pub strrchr : Bytes → ℕ → Option ℕ
strrchr [] c = none
strrchr (x ∷ xs) c = elim (strrchr xs c) [
  | some i ↦ some (suc i)
  | none ↦ if x == c then some 0 else none
]

is_path_file : Bytes → Bool
is_path_file path = elim (strrchr path b'.') [
  | none ↦ false
  | some last_dot ↦ elim (strrchr path b'/') [
    | none ↦ true
    | some last_slash ↦ ltb last_slash last_dot
  ]
]

-- The loop over a table of extensions.
unfoldable pub has_ext : Bytes → List Bytes → Bool
has_ext ext [] = false
has_ext ext (e ∷ es) = case_eq ext e || has_ext ext es

abbrev text_exts : List Bytes
text_exts =
    codes "html"
    ∷ codes "htm"
    ∷ codes "css"
    ∷ codes "js"
    ∷ codes "json"
    ∷ codes "xml"
    ∷ codes "txt"
    ∷ codes "csv"
    ∷ codes "md"
    ∷ codes "yaml"
    ∷ codes "yml"
    ∷ []

abbrev img_exts : List Bytes
img_exts =
    codes "png"
    ∷ codes "jpg"
    ∷ codes "jpeg"
    ∷ codes "gif"
    ∷ codes "bmp"
    ∷ codes "webp"
    ∷ codes "svg"
    ∷ []

-- A path without an extension counts as HTML.
path_is_textbased : Bytes → Bool
path_is_textbased path = elim (strrchr path b'.') [
  | none ↦ true
  | some dot ↦ has_ext (drop (suc dot) path) text_exts
]

unfoldable pub is_path_img : Bytes → Bool
is_path_img path = elim (strrchr path b'.') [
  | none ↦ false
  | some dot ↦ has_ext (drop (suc dot) path) img_exts
]

-- A text that has been put in lower case equals one of the names.
is_one_of : Bytes → List Bytes → Bool
is_one_of s [] = false
is_one_of s (e ∷ es) = bytes_eq s e || is_one_of s es

case_eq_lower : (a b : Bytes) → map to_lower b ≡ b → case_eq a b ≡ bytes_eq (map to_lower a) b
unfolding case_eq bytes_eq
case_eq_lower [] [] h = refl
case_eq_lower [] (y ∷ b) h = refl
case_eq_lower (x ∷ a) [] h = refl
case_eq_lower (x ∷ a) (y ∷ b) h =
    ground (arith, case_eq_lower a b (tail-eq_of_cons-eq h), head-eq_of_cons-eq h)

has_ext_lower :
    (ext : Bytes) (es : List Bytes)
    → All (λ e. map to_lower e ≡ e) es
    → has_ext ext es ≡ is_one_of (map to_lower ext) es
unfolding has_ext is_one_of
has_ext_lower ext [] h = refl
has_ext_lower ext (e ∷ es) h = rw (case_eq_lower ext e h.0, has_ext_lower ext es h.1)

one_of_excludes :
    (s : Bytes) (es fs : List Bytes)
    → All (λ e. is_one_of e fs ≡ false) es
    → is_one_of s es ≡ true
    → is_one_of s fs ≡ false
unfolding is_one_of
one_of_excludes s [] fs h y = cc
one_of_excludes s (e ∷ es) fs h y = elim (Bool-cases (bytes_eq s e)) [
  | inl q ↦ rw ((bytes_eq_iff s e).0 q) h.0
  | inr n ↦ one_of_excludes s es fs h.1 (ground arith)
]

text_lower : All (λ e. map to_lower e ≡ e) text_exts
unfolding to_lower
text_lower =
    (refl, (refl, (refl, (refl, (refl, (refl, (refl, (refl, (refl, (refl, (refl, tt)))))))))))

img_lower : All (λ e. map to_lower e ≡ e) img_exts
unfolding to_lower
img_lower = (refl, (refl, (refl, (refl, (refl, (refl, (refl, tt)))))))

img_no_text : All (λ e. is_one_of e text_exts ≡ false) img_exts
unfolding is_one_of bytes_eq
img_no_text = (refl, (refl, (refl, (refl, (refl, (refl, (refl, tt)))))))

-- No path counts as an image and as text.
img_not_text : (path : Bytes) → is_path_img path ≡ true → path_is_textbased path ≡ false
unfolding is_path_img path_is_textbased
img_not_text path y = elim (Option-cases (strrchr path b'.')) [
  | inl e ↦ absurd (ground arith)
  | inr (dot, e) ↦
      let ext = drop (suc dot) path in
      rw (e, path_is_textbased)
        (has_ext_lower ext text_exts text_lower
          ∙ one_of_excludes (map to_lower ext) img_exts text_exts img_no_text
              (sym (has_ext_lower ext img_exts img_lower) ∙ (rw (e, is_path_img) at y)))
]

lacks_slash : Bytes → Bool
lacks_slash [] = true
lacks_slash (c ∷ cs) = not (c == b'/') && lacks_slash cs

-- Some dot of the text has no slash behind it.
has_free_dot : Bytes → Bool
unfolding lacks_slash
has_free_dot [] = false
has_free_dot (c ∷ cs) = has_free_dot cs || (c == b'.' && lacks_slash cs)

abbrev is_none : Option ℕ → Bool
is_none none = true
is_none (some i) = false

slash_none : (s : Bytes) → is_none (strrchr s b'/') ≡ lacks_slash s
unfolding strrchr lacks_slash
slash_none [] = refl
slash_none (c ∷ cs) = ground (arith, slash_none cs)

-- A path names a file exactly when a dot stands in its last segment.
is_path_file_lem : (path : Bytes) → is_path_file path ≡ has_free_dot path
unfolding is_path_file strrchr has_free_dot
is_path_file_lem [] = refl
is_path_file_lem (c ∷ cs) = ground (arith, is_path_file_lem cs, slash_none cs)
