-- ===== src/Http/Table.antt =====
-- The header tables of http.c, as `cweb_serialize_response` uses them.
use cweb.Base.{
  ◌≡◌, inl, inr, refl, ap₂, ◌∙◌, true, List, [], ◌∷◌, ◌++◌, Option, none, some, ltb, if◌then◌else◌,
  length, Bytes, codes, case_eq, decimal, Bool-cases,
}
use cweb.Http.{
  Header, Response, max_headers, find_header, get_response_header, add_response_header,
  serialize_response,
}

-- The value found before, or the new one.
abbrev pub or_else : Option Bytes → Option Bytes → Option Bytes
or_else none other = other
or_else (some v) other = some v

find_header-append :
    (k : Bytes) (hs : List Header) (h : Header)
    → find_header k (hs ++ h ∷ [])
      ≡ or_else (find_header k hs) (if case_eq h.key k then some h.value else none)
unfolding find_header
find_header-append k [] h = refl
find_header-append k (x ∷ xs) h = elim (Bool-cases (case_eq x.key k)) [
  | inl e ↦ rw e refl
  | inr e ↦ rw e (find_header-append k xs h)
]

or_else-none : (o : Option Bytes) → o ≡ or_else o none
or_else-none none = refl
or_else-none (some v) = refl

-- After a header is added, a lookup finds what it found before; where it found nothing, it finds the new
-- value, if the table had room for it and the key is the same but for the case of its letters.
pub get-add_response_header :
    (res : Response) (key value k : Bytes)
    → get_response_header (add_response_header res key value) k
      ≡ or_else (get_response_header res k) (
          if ltb (length res.headers) max_headers
          then (if case_eq key k then some value else none)
          else none)
unfolding add_response_header get_response_header find_header
get-add_response_header res key value k = elim (Bool-cases (ltb (length res.headers) max_headers)) [
  | inl e ↦ rw e (find_header-append k res.headers (record { key = key; value = value }))
  | inr e ↦ rw e (or_else-none (find_header k res.headers))
]

-- A header leaves the body as it is.
pub body-add_response_header :
    (res : Response) (key value : Bytes) → (add_response_header res key value).body ≡ res.body
unfolding add_response_header
body-add_response_header res key value = elim (Bool-cases (ltb (length res.headers) max_headers)) [
  | inl e ↦ rw e refl
  | inr e ↦ rw e refl
]

abbrev content_length : Bytes
content_length = codes "Content-Length"

same_key : case_eq content_length content_length ≡ true
unfolding case_eq
same_key = refl

-- A response that has no Content-Length yet is sent with the length of its body, but for one with 64
-- headers: that one is sent with none.
serialize_response-length :
    (res : Response)
    → get_response_header res (codes "Content-Length") ≡ none
    → get_response_header (serialize_response res).0 (codes "Content-Length")
      ≡ (if ltb (length res.headers) max_headers then some (decimal (length res.body)) else none)
unfolding serialize_response
serialize_response-length res h =
    get-add_response_header res content_length (decimal (length res.body)) content_length
    ∙ ap₂
        (λ o b. or_else o (
          if ltb (length res.headers) max_headers
          then (if b then some (decimal (length res.body)) else none)
          else none))
        h same_key
