-- ===== src/Http.antt =====
-- framework/src/Http/http.c: requests as they are read, header tables, and responses as they are
-- written. Allocation succeeds, and no argument is NULL.
pub mod Lines
pub mod Table
pub mod Requests
mod Examples
use cweb.Base.{
  ℕ, zero, suc, ◌+◌, Bool, true, false, ◌||◌, List, [], ◌∷◌, ◌++◌, Option, none, some, ltb, ◌==◌,
  if◌then◌else◌, length, take, drop, Bytes, codes, strchr, strstr, bytes_eq, case_eq, is_space,
  skip_spaces, c_string, strtok, decimal,
}

abbrev pub max_headers : ℕ
max_headers = 64

pub record Header : Type 0 where
  pub key : Bytes
  pub value : Bytes

-- `body` is never set by the code; `session` and `using_session` are set by the server.
pub record Request : Type 0 where
  pub method : Bytes
  pub path : Bytes
  pub version : Bytes
  pub headers : List Header
  pub session_id : Option Bytes

-- `body_len` is the length of the body, 0 for NULL.
pub record Response : Type 0 where
  pub status_code : ℕ
  pub headers : List Header
  pub body : Bytes

-- strcasecmp(headers[i].key, key) == 0, for the first such i
unfoldable pub find_header : Bytes → List Header → Option Bytes
unfolding case_eq
find_header key [] = none
find_header key (h ∷ hs) = if case_eq h.key key then some h.value else find_header key hs

pub get_request_header : Request → Bytes → Option Bytes
unfolding find_header
get_request_header req key = find_header key req.headers

unfoldable pub get_response_header : Response → Bytes → Option Bytes
unfolding find_header
get_response_header res key = find_header key res.headers

abbrev is_cookie_end : ℕ → Bool
is_cookie_end c = c == b';' || c == b' '

-- The cookies of one header, in order.
find_cookie : Bytes → List Bytes → Option Bytes
unfolding strchr bytes_eq
find_cookie name [] = none
find_cookie name (c ∷ cs) =
    let rest = find_cookie name cs in
    elim (strchr c b'=') [
      | none ↦ rest
      | some i ↦ if bytes_eq (take i c) name then some (drop (suc i) c) else rest
    ]

-- Only the first Cookie header counts.
pub get_cookie_value : Bytes → List Header → Option Bytes
unfolding find_header find_cookie strtok
get_cookie_value name hs = elim (find_header (codes "Cookie") hs) [
  | none ↦ none
  | some value ↦ find_cookie name (strtok is_cookie_end value)
]

-- A conversion `%ns` of sscanf: its field, and the text behind it.
pub scan_field : ℕ → Bytes → Bytes × Bytes
unfolding is_space
scan_field zero s = ([], s)
scan_field (suc n) [] = ([], [])
scan_field (suc n) (c ∷ cs) =
    let (word, rest) = scan_field n cs in if is_space c then ([], c ∷ cs) else (c ∷ word, rest)

pub scan_word : ℕ → Bytes → Bytes × Bytes
unfolding scan_field skip_spaces
scan_word n s = scan_field n (skip_spaces s)

-- One turn of the loop over the header lines; `strtok` gives no empty line, so it never breaks.
pub read_header : List Header → Bytes → List Header
unfolding strchr skip_spaces
read_header hs line = elim (strchr line b':') [
  | none ↦ hs
  | some colon ↦
      if ltb (length hs) max_headers
      then hs ++ record { key = take colon line; value = skip_spaces (drop (suc colon) line) } ∷ []
      else hs
]

pub read_headers : List Header → List Bytes → List Header
unfolding read_header
read_headers hs [] = hs
read_headers hs (line ∷ lines) = read_headers (read_header hs line) lines

abbrev pub is_line_end : ℕ → Bool
is_line_end c = c == b'\r' || c == b'\n'

-- sscanf(line, "%15s %2047s %15s", ...), then the headers.
pub read_request : List Bytes → Option Request
unfolding scan_word read_headers get_cookie_value
read_request [] = none
read_request (line ∷ lines) =
    let (method, s) = scan_word 15 line in
    let (path, t) = scan_word 2047 s in
    let headers = read_headers [] lines in
    some (record {
      method = method;
      path = path;
      version = (scan_word 15 t).0;
      headers = headers;
      session_id = get_cookie_value (codes "session_id") headers;
    })

unfoldable pub parse_request : Bytes → Option Request
unfolding read_request strtok c_string
parse_request raw = read_request (strtok is_line_end (c_string raw))

create_response : Response
create_response = record { status_code = 0; headers = []; body = [] }

-- A header for which the table has no room is dropped.
pub add_response_header : Response → Bytes → Bytes → Response
add_response_header res key value =
    if ltb (length res.headers) max_headers
    then record res { headers = res.headers ++ record { key = key; value = value } ∷ [] }
    else res

abbrev contains : Bytes → Bytes → Bool
contains s word = elim (strstr s word) [ none ↦ false | some i ↦ true ]

abbrev cache_headers : Response → Bytes → Response
cache_headers res content_type =
    if contains content_type (codes "image/")
      || contains content_type (codes "text/css")
      || contains content_type (codes "application/javascript")
      || contains content_type (codes "font/")
    then add_response_header
        (add_response_header res (codes "Cache-Control")
          (codes "public, max-age=31536000, immutable"))
        (codes "Expires") (codes "Thu, 31 Dec 2025 23:59:59 GMT")
    else if contains content_type (codes "text/html")
    then add_response_header res (codes "Cache-Control") (codes "public, max-age=300")
    else res

add_performance_headers : Response → Bytes → Response
add_performance_headers res content_type =
    add_response_header
      (add_response_header (cache_headers res content_type) (codes "Vary")
        (codes "Accept-Encoding"))
      (codes "X-Content-Type-Options") (codes "nosniff")

get_status_message : ℕ → Bytes
get_status_message code =
    if code == 200
    then codes "OK"
    else if code == 404
    then codes "Not Found"
    else if code == 500
    then codes "Internal Server Error"
    else codes "Unknown"

abbrev pub crlf : Bytes
crlf = b'\r' ∷ b'\n' ∷ []

header_lines : List Header → Bytes
header_lines [] = []
header_lines (h ∷ hs) = h.key ++ (codes ": " ++ (h.value ++ (crlf ++ header_lines hs)))

abbrev status_line : ℕ → Bytes
status_line code =
    codes "HTTP/1.1 " ++ (decimal code ++ (codes " " ++ (get_status_message code ++ crlf)))

-- The response with the header that the call adds, and the bytes that it returns.
pub serialize_response : Response → Response × Bytes
unfolding add_response_header header_lines get_status_message decimal
serialize_response res =
    let full = add_response_header res (codes "Content-Length") (decimal (length res.body)) in
    (full, status_line full.status_code ++ (header_lines full.headers ++ (crlf ++ full.body)))
