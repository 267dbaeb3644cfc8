-- ===== src/Fetch/Examples.antt =====
-- Requests and answers of the HTTP client.
use cweb.Base.{
  ◌+◌, ◌≤◌, ◌≡◌, refl, [], ◌∷◌, ◌++◌, reverse, Option, none, some, length, Bytes, codes,
}
use cweb.Fetch.{
  FetchMethod, FetchQueryParam, FetchRequest, request_create, request_add_query_param,
  url_buffer_size, request_build_url, response_get_header,
}
use cweb.Fetch.Url.{add_query_params, query_text, build_url-joined}

abbrev page : FetchQueryParam
page = record { name = codes "page"; value = codes "2" }

abbrev sort : FetchQueryParam
sort = record { name = codes "sort"; value = codes "up" }

abbrev as_is : Bytes → Bytes
as_is text = text

build_url-joined_example :
    let r =
      request_add_query_param sort (
        add_query_params (page ∷ []) (request_create FetchMethod.fetch_get (codes "http://a/b"))) in
    ((request_build_url (λ s. some (as_is s)) r).final_url
      ≡ some (codes "http://a/b" ++ (codes "?" ++ query_text as_is (sort ∷ reverse (page ∷ [])))))
    × (length (codes "http://a/b" ++ (codes "?" ++ query_text as_is (sort ∷ reverse (page ∷ []))))
          + 1
        ≤ url_buffer_size (λ s. some (as_is s)) r)
build_url-joined_example =
    build_url-joined as_is FetchMethod.fetch_get (codes "http://a/b") (page ∷ []) sort

-- An encoder that fails on the empty text.
abbrev picky : Bytes → Option Bytes
picky [] = none
picky (c ∷ cs) = some (c ∷ cs)

abbrev blank : FetchQueryParam
blank = record { name = []; value = [] }

abbrev failing : FetchRequest
failing = record (request_create FetchMethod.fetch_get (codes "u")) {
  query_params = page ∷ blank ∷ blank ∷ [];
}

-- Two parameters that cannot be encoded each leave an ampersand that the buffer has no room for.
buffer_overrun :
    ((request_build_url picky failing).final_url ≡ some (codes "u?page=2&&"))
    × (url_buffer_size picky failing ≡ 10)
unfolding request_build_url url_buffer_size request_create
buffer_overrun = (refl, refl)

abbrev status : Bytes
status = codes "HTTP/1.1 200 OK"

abbrev fields : Bytes
fields = codes "\nServer: x\r\nETag:\t7\r\n\r\n"

etag_found : (response_get_header (status ++ 13 ∷ fields) (codes "etag")).1 ≡ some (codes "7")
unfolding response_get_header
etag_found = refl
