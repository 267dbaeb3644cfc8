-- ===== src/PathUtils/Examples.antt =====
-- Runs of the functions on request paths, and instances of the theorems.
use cweb.Base.{
  ℕ, zero, suc, ◌≡◌, refl, true, List, [], ◌∷◌, ◌++◌, arith, length, All, Bytes, codes, bytes_eq,
  strchr, case_eq,
}
use cweb.PathUtils.RouteBase.{get_route_base}
use cweb.PathUtils.Query.{QueryParam, parse_query}
use cweb.PathUtils.Query.RoundTrip.{IsPlain, format_query, parse-format_query}
use cweb.PathUtils.Segments.{split_path_segments, match_segments, path_matches}
use cweb.PathUtils.Segments.Split.{IsSegment, join_segments, split-join_segments}
use cweb.PathUtils.Segments.Match.{Declares, here, there}
use cweb.PathUtils.Normal.{normalize_path}
use cweb.PathUtils.Decode.{url_decode, url_encode, decode_loop, url_decode-encode}
use cweb.PathUtils.FileKind.{is_path_img, has_ext, strrchr}

abbrev order_path : Bytes
order_path = codes "/shop/orders/7?sort=up&page=2"

base_run : get_route_base order_path ≡ codes "/shop"
unfolding get_route_base
base_run = refl

abbrev sort_page : List QueryParam
sort_page =
    record { key = codes "sort"; value = codes "up" }
    ∷ record { key = codes "page"; value = codes "2" }
    ∷ []

sort_page-IsPlain : All IsPlain sort_page
sort_page-IsPlain = omega arith

-- A value of 300 bytes with an `=` in it is cut, and what is left is read as one more parameter.
abbrev long_run : ℕ → Bytes
long_run n = elim n [ zero ↦ codes "k=v" | suc (m → rest) ↦ b'x' ∷ rest ]

abbrev long_query : Bytes
long_query = codes "a=" ++ long_run 255

phantom_param : length (parse_query 16 long_query) ≡ 2
unfolding parse_query strchr
phantom_param = refl

parse-format_query_example : parse_query 16 (format_query sort_page) ≡ sort_page
parse-format_query_example = parse-format_query 16 sort_page sort_page-IsPlain (omega arith)

abbrev user_segments : List Bytes
user_segments = codes "users" ∷ codes "7" ∷ []

user_segments-IsSegment : All IsSegment user_segments
user_segments-IsSegment = ground arith

split-join_segments_example : split_path_segments 16 (join_segments user_segments) ≡ user_segments
split-join_segments_example =
    split-join_segments 16 user_segments user_segments-IsSegment (omega arith)

abbrev user_pattern : Bytes
user_pattern = join_segments (codes "users" ∷ codes ":id" ∷ [])

user_pattern-split : split_path_segments 16 user_pattern ≡ codes "users" ∷ codes ":id" ∷ []
unfolding split_path_segments strchr
user_pattern-split = refl

user_matches : path_matches user_pattern (codes "/users/7") ≡ true
unfolding path_matches match_segments split_path_segments strchr bytes_eq
user_matches = refl

user-Declares : Declares (codes "id") (split_path_segments 16 user_pattern)
user-Declares = rw user_pattern-split (there (λ e. cc) (here refl))

normalize_run : normalize_path (codes "//a///b//") ≡ codes "/a/b"
unfolding normalize_path
normalize_run = refl

decode_run : url_decode (codes "a%20b+c%zz") 64 ≡ codes "a b c%zz"
unfolding url_decode decode_loop
decode_run = refl

url_decode-encode_example : url_decode (url_encode (codes "a b&c=1")) 8 ≡ codes "a b&c=1"
url_decode-encode_example = url_decode-encode (codes "a b&c=1") 8 (omega arith) (omega arith)

logo_is_img : is_path_img (codes "/assets/logo.PNG") ≡ true
unfolding is_path_img has_ext strrchr case_eq
logo_is_img = refl
