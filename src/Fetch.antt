-- ===== src/Fetch.antt =====
-- framework/src/fetch: the requests of the HTTP client, what is sent of them and what becomes of an answer. The library
-- that transfers is curl: what it says of a transfer, and its encoding of a text, are arguments. No argument is NULL,
-- allocation succeeds, and the progress callback and the times are not followed.
pub mod Url
pub mod Answers
mod Examples
use cweb.Base.{
  ℕ, suc, ◌+◌, Bool, true, false, not, ◌&&◌, ◌||◌, List, [], ◌∷◌, ◌++◌, map, Option, none, some,
  ltb, ◌==◌, ◌>>=◌, if◌then◌else◌, length, take, drop, Bytes, codes, c_string, case_eq, strchr,
  strtok,
}

pub data FetchMethod : Type 0 where
  fetch_get fetch_post fetch_put fetch_delete fetch_patch fetch_head fetch_options : FetchMethod

pub data FetchError : Type 0 where
  fetch_ok fetch_error_memory fetch_error_invalid_param fetch_error_curl fetch_error_json
        fetch_error_timeout fetch_error_network :
      FetchError

pub record FetchHeader : Type 0 where
  pub name : Bytes
  pub value : Bytes

pub record FetchFormField : Type 0 where
  pub name : Bytes
  pub value : Option Bytes
  pub filename : Option Bytes
  pub content_type : Option Bytes

pub record FetchQueryParam : Type 0 where
  pub name : Bytes
  pub value : Bytes

pub record FetchResponse : Type 0 where
  pub status_code : ℕ
  pub body : Option Bytes
  pub body_size : ℕ
  pub headers : Option Bytes
  pub headers_size : ℕ
  pub error : FetchError

pub record FetchRequest : Type 0 where
  pub method : FetchMethod
  pub url : Bytes
  pub final_url : Option Bytes
  pub headers : List FetchHeader
  pub body : Bytes
  pub form_fields : List FetchFormField
  pub query_params : List FetchQueryParam
  pub response : FetchResponse
  pub response_buffer : Option Bytes
  pub header_buffer : Option Bytes
  pub has_callback : Bool
  pub is_executing : Bool
  pub is_cancelled : Bool

pub request_create : FetchMethod → Bytes → FetchRequest
request_create method url = record {
  method = method;
  url = url;
  final_url = none;
  headers = [];
  body = [];
  form_fields = [];
  query_params = [];
  response = record {
    status_code = 0;
    body = none;
    body_size = 0;
    headers = none;
    headers_size = 0;
    error = fetch_ok;
  };
  response_buffer = none;
  header_buffer = none;
  has_callback = false;
  is_executing = false;
  is_cancelled = false;
}

request_set_header : Bytes → Bytes → FetchRequest → FetchRequest
request_set_header name value r = record r {
  headers = record { name = name; value = value } ∷ r.headers;
}

request_set_body : Bytes → FetchRequest → FetchRequest
request_set_body content r = record r { body = content }

-- With the text of the JSON value, where it has one.
request_set_json_body : Option Bytes → FetchRequest → FetchError × FetchRequest
unfolding request_set_header request_set_body
request_set_json_body none r = (fetch_error_json, r)
request_set_json_body (some json_string) r = (
  fetch_ok,
  request_set_header (codes "Content-Type") (codes "application/json")
      (request_set_body json_string r),
)

request_add_form_field : Bytes → Bytes → FetchRequest → FetchRequest
request_add_form_field name value r =
    let field : FetchFormField = record {
      name = name;
      value = some value;
      filename = none;
      content_type = none;
    } in
    record r { form_fields = field ∷ r.form_fields }

request_add_form_file : Bytes → Bytes → Option Bytes → FetchRequest → FetchRequest
request_add_form_file name filename content_type r =
    let field : FetchFormField = record {
      name = name;
      value = none;
      filename = some filename;
      content_type = content_type;
    } in
    record r { form_fields = field ∷ r.form_fields }

pub request_add_query_param : FetchQueryParam → FetchRequest → FetchRequest
request_add_query_param param r = record r { query_params = param ∷ r.query_params }

request_set_callback : Bool → FetchRequest → FetchRequest
request_set_callback callback r = record r { has_callback = callback }

-- The text of a parameter, where curl encodes both parts.
abbrev encoded_param : (Bytes → Option Bytes) → FetchQueryParam → Option (Bytes × Bytes)
encoded_param encode p = encode p.name >>= λ n. encode p.value >>= λ v. some (n, v)

-- params_len
pub params_length : (Bytes → Option Bytes) → List FetchQueryParam → ℕ
params_length encode [] = 0
params_length encode (p ∷ ps) =
    elim (encoded_param encode p) [ none ↦ 0 | some (n, v) ↦ length n + length v + 2 ]
    + params_length encode ps

-- The size of the buffer for the URL of a request that has parameters.
pub url_buffer_size : (Bytes → Option Bytes) → FetchRequest → ℕ
unfolding params_length
url_buffer_size encode r = length r.url + params_length encode r.query_params + 2

-- The loop that writes the parameters behind what is there.
pub append_params : (Bytes → Option Bytes) → Bool → Bytes → List FetchQueryParam → Bytes
append_params encode first url [] = url
append_params encode first url (p ∷ ps) =
    let spaced = if first then url else url ++ codes "&" in
    elim (encoded_param encode p) [
      | none ↦ append_params encode first spaced ps
      | some (n, v) ↦ append_params encode false (spaced ++ (n ++ (codes "=" ++ v))) ps
    ]

pub request_build_url : (Bytes → Option Bytes) → FetchRequest → FetchRequest
unfolding append_params
request_build_url encode r = elim r.query_params [
  | [] ↦ record r { final_url = some r.url }
  | p ∷ ps ↦ record r { final_url = some (append_params encode true (r.url ++ codes "?") (p ∷ ps)) }
]

-- The header lines that curl is given: the client's, then the request's.
header_line : FetchHeader → Bytes
header_line h = h.name ++ (codes ": " ++ h.value)

request_lines : List FetchHeader → FetchRequest → List Bytes
unfolding header_line
request_lines default_headers r = map header_line default_headers ++ map header_line r.headers

-- `added` says whether curl takes the transfer.
request_execute : (Bytes → Option Bytes) → Bool → FetchRequest → FetchError × FetchRequest
unfolding request_build_url
request_execute encode added r =
    let built = request_build_url encode r in
    let started =
      if added
      then (fetch_ok, record built { is_executing = true })
      else (fetch_error_curl, built) in
    if r.is_executing then (fetch_error_invalid_param, r) else started

request_cancel : FetchRequest → FetchError × FetchRequest
request_cancel r =
    if r.is_executing
    then (fetch_ok, record r { is_cancelled = true; is_executing = false })
    else (fetch_error_invalid_param, r)

-- A buffer with bytes behind its own.
abbrev grown : Option Bytes → Bytes → Bytes
grown none contents = contents
grown (some buffer) contents = buffer ++ contents

write_callback : Bytes → FetchRequest → FetchRequest
write_callback contents r = record r { response_buffer = some (grown r.response_buffer contents) }

header_callback : Bytes → FetchRequest → FetchRequest
header_callback contents r = record r { header_buffer = some (grown r.header_buffer contents) }

-- The copies of the buffers; strdup ends at the first NUL, the size is that of the buffer.
abbrev pub with_body : Option Bytes → FetchResponse → FetchResponse
with_body none res = res
with_body (some buffer) res = record res {
  body = some (c_string buffer);
  body_size = length buffer;
}

abbrev with_headers : Option Bytes → FetchResponse → FetchResponse
with_headers none res = res
with_headers (some buffer) res = record res {
  headers = some (c_string buffer);
  headers_size = length buffer;
}

-- `fetch_check_multi_info` on the message that a transfer is done, with the status and whether it went well; the result
-- says whether the callback is called.
check_done : ℕ → Bool → FetchRequest → FetchRequest × Bool
unfolding c_string
check_done status went_well r =
    let res =
      with_headers r.header_buffer
        (with_body r.response_buffer (record r.response { status_code = status })) in
    let answered = record r {
      response = record res { error = if went_well then fetch_ok else fetch_error_curl };
      is_executing = false;
    } in
    if r.is_cancelled
    then (record r { is_executing = false }, false)
    else (answered, r.has_callback)

-- The default headers of a client.
remove_default_header : Bytes → List FetchHeader → List FetchHeader
unfolding case_eq
remove_default_header name [] = []
remove_default_header name (h ∷ hs) =
    let rest = remove_default_header name hs in if case_eq h.name name then hs else h ∷ rest

set_default_header : Bytes → Bytes → List FetchHeader → List FetchHeader
unfolding remove_default_header
set_default_header name value hs =
    record { name = name; value = value } ∷ remove_default_header name hs

abbrev pub ends_line : ℕ → Bool
ends_line c = c == 13 || c == 10

skip_blanks : Bytes → Bytes
skip_blanks [] = []
skip_blanks (c ∷ cs) = let rest = skip_blanks cs in if c == b' ' || c == 9 then rest else c ∷ cs

-- The name's place and the value of a line that is a header of that name.
pub header_in : Bytes → Bytes → Option (ℕ × Bytes)
unfolding case_eq strchr skip_blanks
header_in line name = strchr line b':' >>= λ colon.
    if case_eq (take colon line) name
    then some (colon, skip_blanks (drop (suc colon) line))
    else none

abbrev pub first_match : List Bytes → Bytes → Option Bytes
first_match [] name = none
first_match (line ∷ lines) name = elim (header_in line name) [
  | some (colon, value) ↦ some value
  | none ↦ first_match lines name
]

-- What is left of the first line: strtok puts a NUL behind it, and a match one in place of its colon.
abbrev pub cut_line : Bytes → Bytes → Bytes
cut_line line name = elim (header_in line name) [
  | none ↦ line
  | some (colon, value) ↦ take colon line
]

-- The delimiters before the first line.
abbrev pub line_ends : Bytes → Bytes
line_ends [] = []
line_ends (c ∷ cs) = let rest = line_ends cs in if ends_line c then c ∷ rest else []

-- A lookup where strtok gives those lines.
abbrev pub looked_up : Bytes → Bytes → List Bytes → Bytes × Option Bytes
looked_up headers name [] = (headers, none)
looked_up headers name (line ∷ lines) =
    (line_ends headers ++ cut_line line name, first_match (line ∷ lines) name)

-- `fetch_response_get_header`: the string of the headers as the call leaves it, and the value.
pub response_get_header : Bytes → Bytes → Bytes × Option Bytes
unfolding strtok header_in
response_get_header headers name = looked_up headers name (strtok ends_line headers)
