-- ===== src/FileCache/Mime/Table.antt =====
-- What the table of MIME types holds.
use cweb.Base.{
  ℕ, ◌≡◌, refl, ◌∙◌, sym, Bool, true, ◌&&◌, List, [], ◌∷◌, Option, none, some, inl, inr, if_true,
  if_false, Bool-cases, Bytes, codes, case_eq, lacks, lacks-Lacks, Lacks, drop, arith,
}
use cweb.PathUtils.FileKind.{strrchr}
use cweb.FileCache.Mime.{MimeMapping, mime_mappings, find_mapping, mapping_of, get_mime_type}

types_lack : List MimeMapping → Bool
types_lack [] = true
types_lack (m ∷ ms) = lacks 0 m.mime_type && types_lack ms

find_mapping-Lacks :
    (ext : Bytes) (ms : List MimeMapping) (m : MimeMapping)
    → types_lack ms ≡ true
    → find_mapping ext ms ≡ some m
    → Lacks 0 m.mime_type
unfolding find_mapping types_lack
find_mapping-Lacks ext [] m h e = absurd (cc e)
find_mapping-Lacks ext (x ∷ xs) m h e = elim (Bool-cases (case_eq ext x.extension)) [
  | inl hit ↦
      lacks-Lacks 0 m.mime_type
        (ground (arith, sym (if_true _ (some x) (find_mapping ext xs) hit) ∙ e))
  | inr miss ↦
      find_mapping-Lacks ext xs m (ground arith)
        (sym (if_false _ (some x) (find_mapping ext xs) miss) ∙ e)
]

known_lack : types_lack mime_mappings ≡ true
unfolding types_lack
known_lack = refl

default_lack : lacks 0 (codes "application/octet-stream") ≡ true
default_lack = refl

-- No MIME type holds a NUL.
pub get_mime_type-Lacks : (filename : Bytes) → Lacks 0 (get_mime_type filename)
unfolding get_mime_type mapping_of
get_mime_type-Lacks filename = known (mapping_of filename) (λ m. found (strrchr filename b'.') m)
  where
    known :
        (o : Option MimeMapping)
        → ((m : MimeMapping) → o ≡ some m → Lacks 0 m.mime_type)
        → Lacks 0 (elim o [ none ↦ codes "application/octet-stream" | some m ↦ m.mime_type ])
    known none h = lacks-Lacks 0 (codes "application/octet-stream") default_lack
    known (some m) h = h m refl

    found :
        (o : Option ℕ) (m : MimeMapping)
        → (elim o [ none ↦ none | some dot ↦ find_mapping (drop dot filename) mime_mappings ])
          ≡ some m
        → Lacks 0 m.mime_type
    found none m e = absurd (cc e)
    found (some dot) m e = find_mapping-Lacks (drop dot filename) mime_mappings m known_lack e
