-- ===== src/PathUtils/Segments.antt =====
-- `cweb_split_path_segments`, and the matching of route patterns on segments.
pub mod Split
pub mod Match
use cweb.Base.{
  ℕ, zero, suc, ◌-◌, Bool, true, false, not, List, [], ◌∷◌, Option, none, some, leb, ◌==◌,
  if◌then◌else◌, length, take, drop, Bytes, codes, strchr, bytes_eq, get_elem?,
}

-- while (*p == '/') ++p
pub skip_slashes : Bytes → Bytes
skip_slashes [] = []
skip_slashes (c ∷ cs) = if c == b'/' then skip_slashes cs else c ∷ cs

-- next ? next - p : strlen(p), cut to UTILS_MAX_PATH_LEN - 1
pub segment_length : Bytes → Option ℕ → ℕ
segment_length p none = if leb 256 (length p) then 255 else length p
segment_length p (some next) = if leb 256 next then 255 else next

-- p = next ? next : p + len
pub after_segment : Bytes → Option ℕ → ℕ → Bytes
after_segment p none len = drop len p
after_segment p (some next) len = drop next p

-- The loop, with `room` for the segments that are still allowed.
unfoldable pub split_path_segments : ℕ → Bytes → List Bytes
unfolding skip_slashes segment_length after_segment
split_path_segments zero p = []
split_path_segments (suc room) p = elim (skip_slashes p) [
  | [] ↦ []
  | c ∷ cs ↦
      let next = strchr (c ∷ cs) b'/' in
      let len = segment_length (c ∷ cs) next in
      take len (c ∷ cs) ∷ split_path_segments room (after_segment (c ∷ cs) next len)
]

path_segment_count : Bytes → ℕ
path_segment_count path = length (split_path_segments 16 path)

-- A negative index gives NULL too; here an index is a natural number.
get_path_segment : Bytes → ℕ → Option Bytes
get_path_segment path index = get_elem? (split_path_segments 16 path) index

-- pseg[i][0] == ':'
pub is_param : Bytes → Bool
is_param [] = false
is_param (c ∷ cs) = c == b':'

-- The loop of `cweb_path_matches` on the segments of the pattern and of the path.
unfoldable pub match_segments : List Bytes → List Bytes → Bool
unfolding is_param
match_segments [] [] = true
match_segments [] (a ∷ as') = false
match_segments (p ∷ ps) [] = false
match_segments (p ∷ ps) (a ∷ as') =
    let rest = match_segments ps as' in
    if bytes_eq p (codes "*")
    then true
    else if is_param p
    then rest
    else if not (bytes_eq p a)
    then false
    else rest

unfoldable pub path_matches : Bytes → Bytes → Bool
path_matches pattern path =
    match_segments (split_path_segments 16 pattern) (split_path_segments 16 path)

-- pseg[i][0] == ':' && strcmp(pseg[i] + 1, param_name) == 0
pub names_param : Bytes → Bytes → Bool
names_param [] name = false
names_param (c ∷ cs) name = if c == b':' then bytes_eq cs name else false

pub find_path_param : List Bytes → List Bytes → Bytes → Option Bytes
unfolding names_param
find_path_param [] as' name = none
find_path_param (p ∷ ps) [] name = none
find_path_param (p ∷ ps) (a ∷ as') name =
    if names_param p name then some a else find_path_param ps as' name

pub get_path_param : Bytes → Bytes → Bytes → Option Bytes
get_path_param pattern path name =
    find_path_param (split_path_segments 16 pattern) (split_path_segments 16 path) name
