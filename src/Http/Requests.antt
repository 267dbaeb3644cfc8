-- ===== src/Http/Requests.antt =====
-- The round trip of a request through `cweb_parse_request`.
use cweb.Base.{
  drop-append_past, ℕ, zero, suc, ◌+◌, ◌≤◌, ◌<◌, ◌≡◌, ◌≢◌, refl, ap, ap₂, sym, ◌∙◌, false, List, [],
  ◌∷◌, ◌++◌, some, none, ltb, if◌then◌else◌, length, length-append, take, drop, take-append, Bytes,
  codes, All, All-append, Lacks, is_space, skip_spaces, c_string, strtok, map, strchr-append, arith,
  lt→ltb, if_true, append_assoc, append-nil,
}
use cweb.Base.Tokens.{strtok_whole, IsWhole, c_string-append}
use cweb.Http.{
  Header, Request, max_headers, crlf, is_line_end, scan_field, scan_word, read_header, read_headers,
  read_request, parse_request, get_cookie_value,
}
use cweb.Http.Lines.{strtok-crlf}

-- A byte of a word, and a byte of a line: neither ends its text.
abbrev IsInWord : ℕ → Type 0
IsInWord c = (is_space c ≡ false) × (c ≢ 0)

abbrev IsInLine : ℕ → Type 0
IsInLine c = (is_line_end c ≡ false) × (c ≢ 0)

pub record IsWord (n : ℕ) (w : Bytes) : Type 0 where
  pub in_word : All IsInWord w
  pub not_empty : w ≢ []
  pub fits : length w ≤ n

-- A header whose line is read back as it is.
pub record IsField (h : Header) : Type 0 where
  pub key_in_line : All IsInLine h.key
  pub value_in_line : All IsInLine h.value
  pub key_no_colon : Lacks b':' h.key
  pub value_trimmed : skip_spaces h.value ≡ h.value

abbrev request_line : Bytes → Bytes → Bytes → Bytes
request_line method path version = method ++ (32 ∷ (path ++ (32 ∷ version)))

abbrev field_line : Header → Bytes
field_line h = h.key ++ (b':' ∷ 32 ∷ h.value)

format_headers : List Header → Bytes
format_headers [] = []
format_headers (h ∷ hs) = field_line h ++ (crlf ++ format_headers hs)

-- The text of a request with no body.
pub format_request : Bytes → Bytes → Bytes → List Header → Bytes
format_request method path version hs =
    request_line method path version ++ (crlf ++ format_headers hs)

scan_field_word :
    (n : ℕ) (w rest : Bytes)
    → All IsInWord w
    → length w ≤ n
    → scan_field n (w ++ (32 ∷ rest)) ≡ (w, 32 ∷ rest)
unfolding scan_field
scan_field_word zero [] rest h b = refl
scan_field_word zero (c ∷ cs) rest h b = absurd (omega arith)
scan_field_word (suc n) [] rest h b = refl
scan_field_word (suc n) (c ∷ cs) rest h b =
    rw (scan_field_word n cs rest h.1 (omega arith), h.0.0) refl

scan_field_last : (n : ℕ) (w : Bytes) → All IsInWord w → length w ≤ n → scan_field n w ≡ (w, [])
unfolding scan_field
scan_field_last zero [] h b = refl
scan_field_last zero (c ∷ cs) h b = absurd (omega arith)
scan_field_last (suc n) [] h b = refl
scan_field_last (suc n) (c ∷ cs) h b = rw (scan_field_last n cs h.1 (omega arith), h.0.0) refl

skip_spaces_word : (w rest : Bytes) → All IsInWord w → w ≢ [] → skip_spaces (w ++ rest) ≡ w ++ rest
unfolding skip_spaces
skip_spaces_word [] rest h n = absurd (n refl)
skip_spaces_word (c ∷ cs) rest h n = rw h.0.0 refl

skip_one : (s : Bytes) → skip_spaces (32 ∷ s) ≡ skip_spaces s
unfolding skip_spaces
skip_one s = refl

scan_word_first :
    (n : ℕ) (w rest : Bytes) → IsWord n w → scan_word n (w ++ (32 ∷ rest)) ≡ (w, 32 ∷ rest)
unfolding scan_word
scan_word_first n w rest h =
    ap (scan_field n) (skip_spaces_word w _ h.in_word h.not_empty)
    ∙ scan_field_word n w rest h.in_word h.fits

scan_word_next :
    (n : ℕ) (w rest : Bytes) → IsWord n w → scan_word n (32 ∷ (w ++ (32 ∷ rest))) ≡ (w, 32 ∷ rest)
unfolding scan_word
scan_word_next n w rest h =
    ap (scan_field n) (skip_one (w ++ (32 ∷ rest))) ∙ scan_word_first n w rest h

scan_word_last : (n : ℕ) (w : Bytes) → IsWord n w → scan_word n (32 ∷ w) ≡ (w, [])
unfolding scan_word
scan_word_last n w h =
    ap (scan_field n) (
      skip_one w
      ∙ ap skip_spaces (sym (append-nil w))
      ∙ skip_spaces_word w [] h.in_word h.not_empty
      ∙ append-nil w)
    ∙ scan_field_last n w h.in_word h.fits

-- Words and fields as pieces of lines.
in_word_line : (c : ℕ) → IsInWord c → IsInLine c
unfolding is_space
in_word_line c h = ground arith

words_line : (w : Bytes) → All IsInWord w → All IsInLine w
words_line [] h = tt
words_line (c ∷ cs) h = (in_word_line c h.0, words_line cs h.1)

blank-IsInLine : IsInLine 32
blank-IsInLine = (refl, λ e. absurd (omega arith))

colon-IsInLine : IsInLine b':'
colon-IsInLine = (refl, λ e. absurd (omega arith))

request_line-IsInLine :
    (m p v : Bytes)
    → All IsInWord m
    → All IsInWord p
    → All IsInWord v
    → All IsInLine (request_line m p v)
request_line-IsInLine m p v a b c =
    All-append IsInLine m _ (words_line m a)
      (blank-IsInLine, All-append IsInLine p _ (words_line p b) (blank-IsInLine, words_line v c))

field_line-IsInLine : (h : Header) → IsField h → All IsInLine (field_line h)
field_line-IsInLine h f =
    All-append IsInLine h.key _ f.key_in_line (colon-IsInLine, (blank-IsInLine, f.value_in_line))

IsWhole-of : (s : Bytes) → All IsInLine s → IsWhole is_line_end s
IsWhole-of [] h = tt
IsWhole-of (c ∷ cs) h = (h.0.0, IsWhole-of cs h.1)

no_nul_of : (s : Bytes) → All IsInLine s → Lacks 0 s
no_nul_of [] h = tt
no_nul_of (c ∷ cs) h = (h.0.1, no_nul_of cs h.1)

append_cons_ne : (s : Bytes) (c : ℕ) (rest : Bytes) → s ++ (c ∷ rest) ≢ []
append_cons_ne [] c rest e = cc e
append_cons_ne (x ∷ xs) c rest e = cc e

format_headers_no_nul : (hs : List Header) → All IsField hs → Lacks 0 (format_headers hs)
unfolding format_headers
format_headers_no_nul [] h = tt
format_headers_no_nul (h ∷ hs) (f, fs) =
    All-append (λ c. c ≢ 0) (field_line h) _ (no_nul_of _ (field_line-IsInLine h f))
      ((λ e. absurd (omega arith)), ((λ e. absurd (omega arith)), format_headers_no_nul hs fs))

strtok_headers :
    (hs : List Header) → All IsField hs → strtok is_line_end (format_headers hs) ≡ map field_line hs
unfolding format_headers strtok
strtok_headers [] h = refl
strtok_headers (h ∷ hs) (f, fs) =
    strtok-crlf (field_line h) (format_headers hs)
    ∙ ap₂ (λ a b. a ++ b)
        (strtok_whole is_line_end (field_line h) (IsWhole-of _ (field_line-IsInLine h f))
          (append_cons_ne h.key b':' _))
        (strtok_headers hs fs)

read_header_line :
    (acc : List Header) (h : Header)
    → IsField h
    → length acc < max_headers
    → read_header acc (field_line h) ≡ acc ++ h ∷ []
unfolding read_header
read_header_line acc h f b =
    let line = field_line h in
    ap
      (λ o. elim o [
        | none ↦ acc
        | some colon ↦
            if ltb (length acc) max_headers
            then acc
              ++ record { key = take colon line; value = skip_spaces (drop (suc colon) line) } ∷ []
            else acc
      ])
      (strchr-append h.key (32 ∷ h.value) b':' f.key_no_colon)
    ∙ if_true _ _ _ (lt→ltb _ _ b)
    ∙ ap₂ (λ k v. acc ++ record { key = k; value = v } ∷ [])
        (take-append h.key (b':' ∷ 32 ∷ h.value))
        (ap skip_spaces (drop-append_past h.key (32 ∷ h.value) b':')
          ∙ skip_one h.value
          ∙ f.value_trimmed)

read_headers_lines :
    (acc hs : List Header)
    → All IsField hs
    → length acc + length hs ≤ max_headers
    → read_headers acc (map field_line hs) ≡ acc ++ hs
unfolding read_headers
read_headers_lines acc [] h b = sym (append-nil acc)
read_headers_lines acc (h ∷ hs) (f, fs) b =
    ap (λ a. read_headers a (map field_line hs)) (read_header_line acc h f (omega arith))
    ∙ read_headers_lines (acc ++ h ∷ []) hs fs (omega (arith, length-append acc (h ∷ [])))
    ∙ append_assoc acc (h ∷ []) hs

c_string_all : (s : Bytes) → Lacks 0 s → c_string s ≡ s
unfolding c_string
c_string_all s h = ap c_string (sym (append-nil s)) ∙ c_string-append s [] h ∙ append-nil s

format_request_lines :
    (method path version : Bytes) (hs : List Header)
    → All IsInLine (request_line method path version)
    → All IsField hs
    → strtok is_line_end (c_string (format_request method path version hs))
      ≡ request_line method path version ∷ map field_line hs
unfolding format_request
format_request_lines method path version hs l fs =
    let line = request_line method path version in
    ap (strtok is_line_end) (
      c_string_all (line ++ (crlf ++ format_headers hs)) (
        All-append (λ c. c ≢ 0) line _ (no_nul_of line l)
          (
            (λ e. absurd (omega arith)),
            ((λ e. absurd (omega arith)), format_headers_no_nul hs fs),
          )))
    ∙ strtok-crlf line (format_headers hs)
    ∙ ap₂ (λ a b. a ++ b)
        (strtok_whole is_line_end line (IsWhole-of line l) (append_cons_ne method 32 _))
        (strtok_headers hs fs)

-- The request that a method, a path, a version and headers stand for.
abbrev pub request_of : Bytes → Bytes → Bytes → List Header → Request
request_of method path version hs = record {
  method = method;
  path = path;
  version = version;
  headers = hs;
  session_id = get_cookie_value (codes "session_id") hs;
}

-- A request is read back as it was written: the method and the version have at most 15 bytes and the
-- path at most 2047, none of them empty or with a blank in it, and there are at most 64 headers, whose keys
-- have no colon and whose values do not begin with a blank.
pub parse-format_request :
    (method path version : Bytes) (hs : List Header)
    → IsWord 15 method
    → IsWord 2047 path
    → IsWord 15 version
    → All IsField hs
    → length hs ≤ max_headers
    → parse_request (format_request method path version hs)
      ≡ some (request_of method path version hs)
unfolding parse_request
parse-format_request method path version hs m p v fs b =
    ap read_request (
      format_request_lines method path version hs
        (request_line-IsInLine method path version m.in_word p.in_word v.in_word) fs)
    ∙ read_lines
  where
    read_lines :
        read_request (request_line method path version ∷ map field_line hs)
        ≡ some (request_of method path version hs)
    read_lines =
        let line = request_line method path version in
        let first = scan_word_first 15 method (path ++ (32 ∷ version)) m in
        let second = ap (λ r. scan_word 2047 r.1) first ∙ scan_word_next 2047 path version p in
        let third =
          ap (λ r. (scan_word 15 r.1).0) second ∙ ap (λ r. r.0) (scan_word_last 15 version v) in
        let path' = (scan_word 2047 (scan_word 15 line).1).0 in
        let version' = (scan_word 15 (scan_word 2047 (scan_word 15 line).1).1).0 in
        let headers' = read_headers [] (map field_line hs) in
        ap (λ r. some (request_of r.0 path' version' headers')) first
        ∙ ap (λ r. some (request_of method r.0 version' headers')) second
        ∙ ap₂ (λ w h. some (request_of method path w h)) third
            (read_headers_lines [] hs fs (omega arith))
