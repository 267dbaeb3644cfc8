-- ===== src/Http/Examples.antt =====
-- The theorems on http.c at concrete requests and responses.
use cweb.Base.{
  ◌≡◌, refl, [], ◌∷◌, ◌++◌, Option, some, none, Bytes, codes, lacks-Lacks, skip_spaces, is_space,
  arith,
}
use cweb.Http.{
  Header, Request, Response, crlf, parse_request, get_response_header, serialize_response,
}
use cweb.Http.Lines.{parse_request_blank}
use cweb.Http.Requests.{IsWord, IsField, format_request, request_of, parse-format_request}

abbrev head : Bytes
head = codes "POST /login HTTP/1.1"

parse_request_blank_example :
    parse_request (head ++ (crlf ++ (crlf ++ codes "Cookie: session_id=1")))
    ≡ parse_request (head ++ (crlf ++ codes "Cookie: session_id=1"))
parse_request_blank_example =
    parse_request_blank head (codes "Cookie: session_id=1") (lacks-Lacks 0 head refl)

-- So a body can bring the cookie that names the session.
abbrev session_of : Option Request → Option Bytes
session_of none = none
session_of (some r) = r.session_id

body_cookie :
    session_of (parse_request (head ++ (crlf ++ (crlf ++ codes "Cookie: session_id=1"))))
    ≡ some (codes "1")
unfolding parse_request
body_cookie = refl

abbrev host : Header
host = record { key = codes "Host"; value = codes "localhost" }

path-IsWord : IsWord 2047 (codes "/a")
unfolding is_space
path-IsWord = record { in_word = ground arith; not_empty = ground arith; fits = omega arith }

version-IsWord : IsWord 15 (codes "HTTP/1.1")
unfolding is_space
version-IsWord = record { in_word = ground arith; not_empty = ground arith; fits = omega arith }

host-IsField : IsField host
unfolding skip_spaces
host-IsField = record {
  key_in_line = ground arith;
  value_in_line = ground arith;
  key_no_colon = lacks-Lacks b':' host.key refl;
  value_trimmed = refl;
}

get-IsWord : IsWord 15 (codes "GET")
unfolding is_space
get-IsWord = record { in_word = ground arith; not_empty = ground arith; fits = omega arith }

parse-format_request_example :
    parse_request (format_request (codes "GET") (codes "/a") (codes "HTTP/1.1") (host ∷ []))
    ≡ some (request_of (codes "GET") (codes "/a") (codes "HTTP/1.1") (host ∷ []))
parse-format_request_example =
    parse-format_request (codes "GET") (codes "/a") (codes "HTTP/1.1") (host ∷ []) get-IsWord
      path-IsWord version-IsWord (host-IsField, tt) (omega arith)

abbrev page : Response
page = record { status_code = 200; headers = host ∷ []; body = codes "hello" }

no_length : get_response_header page (codes "Content-Length") ≡ none
unfolding get_response_header
no_length = refl

served :
    (serialize_response page).1
    ≡ codes "HTTP/1.1 200 OK\r\nHost: localhost\r\nContent-Length: 5\r\n\r\nhello"
unfolding serialize_response
served = refl
