-- ===== src/FileCache/Mime.antt =====
-- framework/src/filecache/getter_isser.c: what the end of a file name says of the file, and the
-- patterns of excluded files. fnmatch with FNM_PATHNAME is an argument.
pub mod Table
use cweb.Base.{
  ℕ, Bool, true, false, ◌&&◌, ◌||◌, List, [], ◌∷◌, Option, none, some, ◌==◌, if◌then◌else◌, length,
  drop, Bytes, codes, get_or, case_eq, starts_with, reverse,
}
use cweb.PathUtils.FileKind.{strrchr}

pub record MimeMapping : Type 0 where
  pub extension : Bytes
  pub mime_type : Bytes
  pub priority : ℕ

abbrev mapping : Bytes → Bytes → ℕ → MimeMapping
mapping extension mime_type priority = record {
  extension = extension;
  mime_type = mime_type;
  priority = priority;
}

abbrev pub mime_mappings : List MimeMapping
mime_mappings =
    mapping (codes ".html") (codes "text/html") 100
    ∷ mapping (codes ".htm") (codes "text/html") 100
    ∷ mapping (codes ".css") (codes "text/css") 90
    ∷ mapping (codes ".js") (codes "application/javascript") 80
    ∷ mapping (codes ".json") (codes "application/json") 70
    ∷ mapping (codes ".png") (codes "image/png") 60
    ∷ mapping (codes ".jpg") (codes "image/jpeg") 60
    ∷ mapping (codes ".jpeg") (codes "image/jpeg") 60
    ∷ mapping (codes ".gif") (codes "image/gif") 50
    ∷ mapping (codes ".svg") (codes "image/svg+xml") 70
    ∷ mapping (codes ".ico") (codes "image/x-icon") 40
    ∷ mapping (codes ".pdf") (codes "application/pdf") 30
    ∷ mapping (codes ".txt") (codes "text/plain") 20
    ∷ mapping (codes ".xml") (codes "application/xml") 30
    ∷ mapping (codes ".woff") (codes "font/woff") 85
    ∷ mapping (codes ".woff2") (codes "font/woff2") 85
    ∷ mapping (codes ".ttf") (codes "font/ttf") 85
    ∷ mapping (codes ".eot") (codes "application/vnd.ms-fontobject") 85
    ∷ mapping (codes ".mp4") (codes "video/mp4") 10
    ∷ mapping (codes ".webm") (codes "video/webm") 10
    ∷ mapping (codes ".mp3") (codes "audio/mpeg") 10
    ∷ mapping (codes ".wav") (codes "audio/wav") 10
    ∷ mapping (codes ".zip") (codes "application/zip") 5
    ∷ []

-- The loop over the table.
unfoldable pub find_mapping : Bytes → List MimeMapping → Option MimeMapping
unfolding case_eq
find_mapping ext [] = none
find_mapping ext (m ∷ ms) = if case_eq ext m.extension then some m else find_mapping ext ms

unfoldable pub mapping_of : Bytes → Option MimeMapping
unfolding find_mapping strrchr
mapping_of filename = elim (strrchr filename b'.') [
  | none ↦ none
  | some dot ↦ find_mapping (drop dot filename) mime_mappings
]

unfoldable pub get_mime_type : Bytes → Bytes
unfolding mapping_of
get_mime_type filename = elim (mapping_of filename) [
  | none ↦ codes "application/octet-stream"
  | some m ↦ m.mime_type
]

pub get_resource_priority : Bytes → ℕ
unfolding mapping_of
get_resource_priority filename = elim (mapping_of filename) [ none ↦ 0 | some m ↦ m.priority ]

-- The argument `lookup_path` is that of server_config.
unfoldable pub is_static_file : Bytes → Bytes → Bool
unfolding mapping_of starts_with
is_static_file lookup_path path =
    starts_with path lookup_path && elim (mapping_of path) [ none ↦ false | some m ↦ true ]

-- pat[plen - 1] == '/' && strncmp(rel_path, pat, plen) == 0
abbrev is_dir_prefix : Bytes → Bytes → Bool
is_dir_prefix pat rel_path = get_or (reverse pat) 0 0 == b'/' && starts_with rel_path pat

unfoldable pub is_excluded_path : (Bytes → Bytes → Bool) → List Bytes → Bytes → Bool
unfolding starts_with
is_excluded_path fnmatch [] rel_path = false
is_excluded_path fnmatch ([] ∷ pats) rel_path = is_excluded_path fnmatch pats rel_path
is_excluded_path fnmatch ((c ∷ pat) ∷ pats) rel_path =
    fnmatch (c ∷ pat) rel_path
    || is_dir_prefix (c ∷ pat) rel_path
    || is_excluded_path fnmatch pats rel_path
