-- ===== src/Http/Lines.antt =====
-- How `cweb_parse_request` cuts a request into lines.
use cweb.Base.{ℕ, ◌≡◌, refl, ap, sym, ◌∙◌, true, [], ◌∷◌, ◌++◌, Bytes, Lacks, c_string, strtok}
use cweb.Base.Tokens.{strtok-append, c_string-append}
use cweb.Http.{parse_request, read_request, is_line_end, crlf}

-- A delimiter in front adds no token.
strtok_skips :
    (c : ℕ) (rest : Bytes)
    → is_line_end c ≡ true
    → strtok is_line_end (c ∷ rest) ≡ strtok is_line_end rest
unfolding strtok
strtok_skips c rest h = strtok-append is_line_end [] c rest h

crlf_skipped : (rest : Bytes) → strtok is_line_end (crlf ++ rest) ≡ strtok is_line_end rest
crlf_skipped rest = strtok_skips b'\r' (b'\n' ∷ rest) refl ∙ strtok_skips b'\n' rest refl

-- What stands behind a line end is read as the lines that follow.
pub strtok-crlf :
    (s rest : Bytes)
    → strtok is_line_end (s ++ (crlf ++ rest)) ≡ strtok is_line_end s ++ strtok is_line_end rest
strtok-crlf s rest =
    strtok-append is_line_end s b'\r' (b'\n' ∷ rest) refl
    ∙ ap (λ ts. strtok is_line_end s ++ ts) (strtok_skips b'\n' rest refl)

c_string-crlf : (rest : Bytes) → c_string (crlf ++ rest) ≡ crlf ++ c_string rest
unfolding c_string
c_string-crlf rest = refl

-- The blank line between head and body parts nothing: a request with it reads as the one without it, so
-- that the lines of a body are read as further headers.
pub parse_request_blank :
    (head body : Bytes)
    → Lacks 0 head
    → parse_request (head ++ (crlf ++ (crlf ++ body))) ≡ parse_request (head ++ (crlf ++ body))
unfolding parse_request
parse_request_blank head body h =
    let lines = strtok is_line_end in
    ap read_request (
      ap lines (
        c_string-append head (crlf ++ (crlf ++ body)) h
        ∙ ap (λ t. head ++ t)
            (c_string-crlf (crlf ++ body) ∙ ap (λ t. crlf ++ t) (c_string-crlf body)))
      ∙ strtok-crlf head (crlf ++ c_string body)
      ∙ ap (λ ts. lines head ++ ts) (crlf_skipped (c_string body))
      ∙ sym (strtok-crlf head (c_string body))
      ∙ ap lines
          (sym (c_string-append head (crlf ++ body) h ∙ ap (λ t. head ++ t) (c_string-crlf body))))
