-- ===== src/Template/Lexer.antt =====
-- framework/src/templatengine/lexer.c: the tokens of a template. The input is a C string, so it holds
-- no NUL, and `length` is its length; allocation succeeds.
pub mod Moves
pub mod Progress
pub mod Places
pub mod Verbatim
use cweb.Base.{
  skip_spaces, ℕ, zero, suc, ◌+◌, ◌-◌, Bool, true, false, not, ◌&&◌, ◌||◌, List, [], ◌∷◌, ◌++◌,
  Option, none, some, ltb, leb, ◌==◌, if◌then◌else◌, length, get_or, drop, Bytes, codes,
  starts_with, is_space, is_alnum,
}
use cweb.Template.Security.{sanitize_c_code}

pub data TokenType : Type 0 where
  token_html token_c_code token_variable token_cloop token_cif token_celse token_cendloop
        token_cendif token_cstyle token_cendstyle token_eof token_error :
      TokenType

pub record Token : Type 0 where
  pub type : TokenType
  pub value : Option Bytes
  pub line : ℕ
  pub column : ℕ

pub record Lexer : Type 0 where
  pub input : Bytes
  pub position : ℕ
  pub line : ℕ
  pub column : ℕ

-- The room of a buffer before its NUL: MAX_BUFFER_SIZE - 1.
abbrev pub buffer_room : ℕ
buffer_room = 8191

abbrev pub lexer_create : Bytes → Lexer
lexer_create input = record { input = input; position = 0; line = 1; column = 1 }

-- Both are NUL behind the end.
unfoldable pub lexer_peek : Lexer → ℕ
lexer_peek l = get_or l.input l.position 0

unfoldable pub lexer_peek_ahead : Lexer → ℕ → ℕ
lexer_peek_ahead l offset = get_or l.input (l.position + offset) 0

unfoldable lexer_peek_back : Lexer → ℕ → ℕ
lexer_peek_back l offset =
    if ltb l.position offset then 0 else get_or l.input (l.position - offset) 0

unfoldable pub lexer_advance : Lexer → Lexer × ℕ
lexer_advance l =
    let c = get_or l.input l.position 0 in
    if leb (length l.input) l.position
    then (l, 0)
    else if c == b'\n'
    then (record l { position = suc l.position; line = suc l.line; column = 1 }, c)
    else (record l { position = suc l.position; column = suc l.column }, c)

abbrev lexer_create_token : TokenType → Option Bytes → Lexer → Token
lexer_create_token t v start = record {
  type = t;
  value = v;
  line = start.line;
  column = start.column;
}

abbrev any_prefix : Bytes → List Bytes → Bool
any_prefix p [] = false
any_prefix p (t ∷ ts) = starts_with p t || any_prefix p ts

-- The last of the first `n` places from `i` on where one of the tags stands.
unfoldable last_tag : List Bytes → ℕ → ℕ → Bytes → Option ℕ → Option ℕ
last_tag tags zero i p found = found
last_tag tags (suc n) i p found =
    last_tag tags n (suc i) (drop 1 p) (if any_prefix p tags then some i else found)

-- last_open && (!last_close || last_open > last_close)
unfoldable is_open : Option ℕ → Option ℕ → Bool
is_open none close = false
is_open (some i) none = true
is_open (some i) (some j) = ltb j i

unfoldable is_inside_style_tag : Lexer → Bool
unfolding last_tag is_open starts_with
is_inside_style_tag l =
    is_open (last_tag (codes "<style" ∷ codes "<cstyle" ∷ []) l.position 0 l.input none)
      (last_tag (codes "</style>" ∷ codes "</cstyle>" ∷ []) l.position 0 l.input none)

unfoldable is_inside_script_tag : Lexer → Bool
unfolding last_tag is_open starts_with
is_inside_script_tag l =
    is_open (last_tag (codes "<script" ∷ []) l.position 0 l.input none)
      (last_tag (codes "</script>" ∷ []) l.position 0 l.input none)

-- c == '<' && lexer_peek_ahead(lexer, 1) == '%'
unfoldable pub at_c_code : Lexer → Bool
unfolding lexer_peek lexer_peek_ahead
at_c_code l = lexer_peek l == b'<' && lexer_peek_ahead l 1 == b'%'

abbrev control_tags : List Bytes
control_tags =
    codes "<cloop"
    ∷ codes "<cif"
    ∷ codes "<celse>"
    ∷ codes "</cloop>"
    ∷ codes "</cif>"
    ∷ codes "<cstyle"
    ∷ codes "</cstyle>"
    ∷ []

unfoldable pub at_control_tag : Lexer → Bool
unfolding lexer_peek starts_with
at_control_tag l = lexer_peek l == b'<' && any_prefix (drop l.position l.input) control_tags

-- The loop that sets `looks_like_variable`, from `lookahead` on.
unfoldable looks_like_variable : ℕ → ℕ → Lexer → Bool → Bool
unfolding lexer_peek_ahead is_alnum
looks_like_variable zero lookahead l seen = seen
looks_like_variable (suc n) lookahead l seen =
    let c = lexer_peek_ahead l lookahead in
    let rest = looks_like_variable n (suc lookahead) l (is_alnum c || seen) in
    if c == 0 || c == b'}'
    then seen
    else if c == b'-' && lexer_peek_ahead l (suc lookahead) == b'>'
    then true
    else rest

unfoldable pub at_variable : Lexer → Bool
unfolding lexer_peek is_inside_style_tag is_inside_script_tag looks_like_variable
at_variable l =
    lexer_peek l == b'{'
    && not (is_inside_style_tag l)
    && not (is_inside_script_tag l)
    && looks_like_variable 99 1 l false

-- Where HTML ends before the end of the input.
unfoldable pub ends_html : Lexer → Bool
unfolding at_c_code at_control_tag at_variable
ends_html l = at_c_code l || at_control_tag l || at_variable l

-- The loops below have room for `room` more bytes in the buffer, and return those that they add.
unfoldable pub html_loop : ℕ → Lexer → Lexer × Bytes
unfolding lexer_peek lexer_advance ends_html
html_loop zero l = (l, [])
html_loop (suc room) l =
    let (l', c) = lexer_advance l in
    let (stop, cs) = html_loop room l' in
    if lexer_peek l == 0 || ends_html l then (l, []) else (stop, c ∷ cs)

-- A buffer that holds nothing makes the end-of-file token.
abbrev pub html_token : Bytes → Lexer → Token
html_token [] l = lexer_create_token token_eof none l
html_token (c ∷ cs) l = lexer_create_token token_html (some (c ∷ cs)) l

unfoldable pub lexer_read_html : Lexer → Lexer × Token
unfolding html_loop
lexer_read_html l = let (stop, b) = html_loop buffer_room l in (stop, html_token b l)

unfoldable pub c_code_loop : ℕ → Lexer → Lexer × Bytes
unfolding lexer_peek lexer_peek_ahead lexer_advance
c_code_loop zero l = (l, [])
c_code_loop (suc room) l =
    let (l', c) = lexer_advance l in
    let (stop, cs) = c_code_loop room l' in
    if lexer_peek l == 0
    then (l, [])
    else if lexer_peek l == b'%' && lexer_peek_ahead l 1 == b'>'
    then ((lexer_advance l').0, [])
    else (stop, c ∷ cs)

unfoldable pub lexer_read_c_code : Lexer → Lexer × Token
unfolding c_code_loop lexer_advance sanitize_c_code
lexer_read_c_code l =
    let (stop, code) = c_code_loop buffer_room (lexer_advance (lexer_advance l).0).0 in
    if sanitize_c_code code
    then (stop, lexer_create_token token_c_code (some code) l)
    else (stop, lexer_create_token token_error (some (codes "Invalid C code detected")) l)

unfoldable pub variable_loop : ℕ → Lexer → Lexer × Bytes
unfolding lexer_peek lexer_advance
variable_loop zero l = (l, [])
variable_loop (suc room) l =
    let (l', c) = lexer_advance l in
    let (stop, cs) = variable_loop room l' in
    if lexer_peek l == 0 || lexer_peek l == b'}' then (l, []) else (stop, c ∷ cs)

abbrev cons_unless_end : ℕ → Bytes → Bytes
cons_unless_end c [] = if is_space c then [] else c ∷ []
cons_unless_end c (d ∷ ds) = c ∷ d ∷ ds

unfoldable drop_end_spaces : Bytes → Bytes
unfolding is_space
drop_end_spaces [] = []
drop_end_spaces (c ∷ cs) = cons_unless_end c (drop_end_spaces cs)

-- The byte at `start` is never cut off.
unfoldable trim : Bytes → Bytes
unfolding skip_spaces drop_end_spaces
trim s = elim (skip_spaces s) [ [] ↦ [] | c ∷ cs ↦ c ∷ drop_end_spaces cs ]

unfoldable pub skip_byte : ℕ → Lexer → Lexer
unfolding lexer_peek lexer_advance
skip_byte c l = if lexer_peek l == c then (lexer_advance l).0 else l

unfoldable pub lexer_read_variable : Lexer → Lexer × Token
unfolding variable_loop lexer_advance skip_byte trim
lexer_read_variable l =
    let (stop, name) = variable_loop buffer_room (lexer_advance l).0 in
    (skip_byte b'}' stop, lexer_create_token token_variable (some (trim name)) l)

-- is_inside_tag_condition(lexer) > 0
unfoldable pub is_inside_tag_condition : Lexer → Bool
unfolding lexer_peek lexer_peek_back
is_inside_tag_condition l =
    not (lexer_peek l == 0) && (not (lexer_peek l == b'>') || lexer_peek_back l 1 == b'-')

unfoldable pub tag_loop : ℕ → Lexer → Lexer × Bytes
unfolding lexer_peek lexer_advance is_inside_tag_condition
tag_loop zero l = (l, [])
tag_loop (suc room) l =
    let (l', c) = lexer_advance l in
    let (stop, cs) = tag_loop room l' in
    if lexer_peek l == 0 || not (is_inside_tag_condition l) then (l, []) else (stop, c ∷ cs)

unfoldable pub tag_type : Bytes → TokenType
unfolding starts_with
tag_type b =
    if starts_with b (codes "<cloop")
    then token_cloop
    else if starts_with b (codes "<cif")
    then token_cif
    else if starts_with b (codes "<celse>")
    then token_celse
    else if starts_with b (codes "</cloop>")
    then token_cendloop
    else if starts_with b (codes "</cif>")
    then token_cendif
    else if starts_with b (codes "<cstyle")
    then token_cstyle
    else if starts_with b (codes "</cstyle>")
    then token_cendstyle
    else token_error

-- The closing `>` is added whether the buffer has room for it or not.
unfoldable pub close_tag : Lexer × Bytes → Lexer × Bytes
unfolding lexer_peek lexer_advance
close_tag (l, b) =
    if lexer_peek l == b'>' then ((lexer_advance l).0, b ++ (lexer_advance l).1 ∷ []) else (l, b)

unfoldable pub lexer_read_control_tag : Lexer → Lexer × Token
unfolding tag_loop close_tag tag_type
lexer_read_control_tag l =
    let (stop, b) = close_tag (tag_loop buffer_room l) in
    (stop, lexer_create_token (tag_type b) (some b) l)

unfoldable pub lexer_next_token : Lexer → Lexer × Token
unfolding at_c_code at_control_tag at_variable lexer_read_html lexer_read_c_code lexer_read_variable
    lexer_read_control_tag
lexer_next_token l =
    if leb (length l.input) l.position
    then (l, lexer_create_token token_eof none l)
    else if at_c_code l
    then lexer_read_c_code l
    else if at_control_tag l
    then lexer_read_control_tag l
    else if at_variable l
    then lexer_read_variable l
    else lexer_read_html l
