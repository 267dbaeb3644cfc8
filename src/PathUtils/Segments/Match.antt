-- ===== src/PathUtils/Segments/Match.antt =====
-- `cweb_path_matches` against a relation on segments, and the parameters of a matched path.
use cweb.Base.{
  ◌≡◌, ◌≢◌, inl, inr, true, List, [], ◌∷◌, some, arith, Bytes, codes, bytes_eq_iff, bytes_eq_refl,
  Bool-cases,
}
use cweb.PathUtils.Segments.{
  is_param, match_segments, path_matches, names_param, find_path_param, get_path_param,
  split_path_segments,
}

-- A pattern of segments fits a path: `*` takes one segment and all that follow it, `:name` any one
-- segment, and any other segment only itself.
pub data Matches : List Bytes → List Bytes → Type 0 where
  end : Matches [] []
  star : {p a : Bytes} {ps rest : List Bytes} → p ≡ codes "*" → Matches (p ∷ ps) (a ∷ rest)
  param :
      {p a : Bytes} {ps rest : List Bytes}
      → is_param p ≡ true
      → Matches ps rest
      → Matches (p ∷ ps) (a ∷ rest)
  literal :
      {p a : Bytes} {ps rest : List Bytes} → p ≡ a → Matches ps rest → Matches (p ∷ ps) (a ∷ rest)

-- A pattern declares `:name` before any `*`.
pub data Declares (name : Bytes) : List Bytes → Type 0 where
  here : {p : Bytes} {ps : List Bytes} → p ≡ b':' ∷ name → Declares name (p ∷ ps)
  there : {p : Bytes} {ps : List Bytes} → p ≢ codes "*" → Declares name ps → Declares name (p ∷ ps)

find_declared :
    {name : Bytes} {ps : List Bytes} (rest : List Bytes)
    → Declares name ps
    → match_segments ps rest ≡ true
    → (v : Bytes) × (find_path_param ps rest name ≡ some v)
unfolding match_segments find_path_param
find_declared [] (here e) m = absurd (ground arith)
find_declared [] (there e d) m = absurd (ground arith)
find_declared {name} (a ∷ rest) (here {p} {ps} e) m =
    (a, rw (e, names_param) (rw (bytes_eq_refl name)))
find_declared {name} (a ∷ rest) (there {p} {ps} e d) m = elim (Bool-cases (names_param p name)) [
  | inl y ↦ (a, rw y)
  | inr n ↦ rw n (find_declared rest d (ground (arith, bytes_eq_iff p (codes "*"))))
]

-- Where a path matches a pattern that declares a parameter before any `*`, the parameter has a value.
get_path_param_found :
    (pattern path name : Bytes)
    → path_matches pattern path ≡ true
    → Declares name (split_path_segments 16 pattern)
    → (v : Bytes) × (get_path_param pattern path name ≡ some v)
unfolding path_matches get_path_param
get_path_param_found pattern path name m d = find_declared (split_path_segments 16 path) d m
