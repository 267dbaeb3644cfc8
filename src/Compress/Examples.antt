-- ===== src/Compress/Examples.antt =====
-- The minifiers and the choice of an encoding at concrete inputs.
use cweb.Base.{
  ℕ, ◌≤◌, ◌<◌, ◌≡◌, refl, sym, ◌∙◌, inl, inr, true, [], ◌∷◌, Option, none, some, ltb, leb,
  if◌then◌else◌, if_false, Bool-cases, length, Bytes, codes, bytes_eq, bytes_eq_iff, strstr,
  starts_with, replicate, arith,
}
use cweb.Http.{Request, Response, get_response_header, find_header}
use cweb.Compress.Css.{minify_css}
use cweb.Compress.Js.{minify_js}
use cweb.Compress.Html.{minify_html}
use cweb.Compress.Asset.{starts_with_ci, minify_asset}
use cweb.Compress.Asset.Fits.{minify_asset-fits}
use cweb.Compress.Encoding.{
  Doubles, CompressionType, pick_compression, read_items, read_item, item_of, drop_trailing,
  skip_separators, until_comma, extract_q, choose, encoding_name, minified_body, auto_compress,
}
use cweb.Compress.Encoding.Quality.{IsLast, pick_compression_listed}
use cweb.Compress.Encoding.Items.{list_items}
use cweb.Compress.Encoding.Accepted.{decoded, auto_compress-decoded}

abbrev sheet : Bytes
sheet = codes "a { color : red ; } /* x */ b{}"

minified : minify_css sheet ≡ some (codes "a{color:red;}b{}")
unfolding minify_css
minified = refl

-- The blank of a descendant selector is lost.
descendant_lost : minify_css (codes "div .x{}") ≡ some (codes "div.x{}")
unfolding minify_css
descendant_lost = refl

-- The blanks around a sign in an expression are lost too.
sum_joined : minify_css (codes "a{w:calc(1px + 2px)}") ≡ some (codes "a{w:calc(1px+2px)}")
unfolding minify_css
sum_joined = refl

script_shrinks : minify_js (codes "var a = 'x  y' ; // end") ≡ some (codes "var a='x  y';")
unfolding minify_js
script_shrinks = refl

-- The end of a line between two bytes of which one is punctuation is dropped, and with it the end of the statement.
lines_joined : minify_js (codes "f(1)\ng(2)") ≡ some (codes "f(1)g(2)")
unfolding minify_js
lines_joined = refl

-- A return before an expression reads the slash as a division.
regex_after_return : minify_js (codes "return /a  b/") ≡ some (codes "return/a b/")
unfolding minify_js
regex_after_return = refl

page_shrinks :
    minify_html (codes "<p  class='a  b'> <!-- x --> hi  you </p><pre> a </pre>")
    ≡ some (codes "<p class='a  b'>hi you</p><pre> a </pre>")
unfolding minify_html
page_shrinks = refl

minify_asset-fits_example :
    (out : Bytes) × (minify_asset sheet (some (codes "text/css")) ≡ some (some out))
    × (0 < length out)
    × (length out ≤ length sheet)
minify_asset-fits_example = minify_asset-fits sheet (some (codes "text/css")) (omega arith)

-- Qualities as numbers: 0 is -1.0, 1 is 0.0 and 2 is 1.0.
abbrev few_values : Doubles
few_values = record {
  Double = ℕ;
  lt = ltb;
  le = leb;
  q_zero = 1;
  q_one = 2;
  q_minus_one = 0;
  strtod = λ s. if bytes_eq s (codes "0") then 1 else 2;
}

abbrev accept : Bytes
accept = codes "gzip, br;q=0"

gzip_chosen : pick_compression few_values (some accept) ≡ CompressionType.comp_gzip
unfolding pick_compression read_items read_item item_of drop_trailing skip_separators until_comma
    extract_q choose starts_with_ci strstr starts_with bytes_eq
gzip_chosen = refl

pick_compression_listed_example :
    (item : Bytes) × IsLast (encoding_name CompressionType.comp_gzip) (list_items accept) item
    × (ltb 1 (extract_q few_values item) ≡ true)
pick_compression_listed_example =
    pick_compression_listed few_values accept CompressionType.comp_gzip refl gzip_chosen (λ e. cc e)

-- The list in question has two items, and no other stretch of the header is one.
items_of_header : list_items (codes " gzip ,, br;q=0") ≡ codes "gzip" ∷ codes "br;q=0" ∷ []
unfolding list_items
items_of_header = refl

-- A page of 5000 bytes, and an encoder that knows it.
page : Bytes
page = replicate 5000 b'a'

encode_page : Bytes → Option Bytes
encode_page body = if bytes_eq body page then some (1 ∷ []) else none

decode_page : Bytes → Option Bytes
decode_page out = some page

page_back : (body out : Bytes) → encode_page body ≡ some out → decode_page out ≡ some body
unfolding encode_page decode_page
page_back body out e = elim (Bool-cases (bytes_eq body page)) [
  | inl same ↦ cc ((bytes_eq_iff body page).0 same)
  | inr other ↦ absurd (cc (sym (if_false (bytes_eq body page) (some (1 ∷ [])) none other) ∙ e))
]

abbrev page_response : Response
page_response = record { status_code = 200; headers = []; body = page }

abbrev gzip_request : Request
gzip_request = record {
  method = codes "GET";
  path = codes "/";
  version = codes "HTTP/1.1";
  headers = record { key = codes "Accept-Encoding"; value = codes "gzip" } ∷ [];
  session_id = none;
}

no_encoding : get_response_header page_response (codes "Content-Encoding") ≡ none
unfolding get_response_header find_header
no_encoding = refl

auto_compress-decoded_example :
    (m : Option Bytes) × (minify_asset page
        (get_response_header page_response (codes "Content-Type"))
      ≡ some m)
    × (sent : Response) × (auto_compress few_values encode_page encode_page gzip_request
          page_response
        ≡ some sent)
    × (decoded few_values encode_page encode_page decode_page decode_page page_back page_back sent
        ≡ some (minified_body page m))
    × (length sent.body ≤ length page)
auto_compress-decoded_example =
    auto_compress-decoded few_values encode_page encode_page decode_page decode_page page_back
      page_back gzip_request page_response (record { room = omega arith; plain = no_encoding })
