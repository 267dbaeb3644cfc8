-- ===== src/Compress/Js.antt =====
-- framework/src/compress/minify_js.c, with the table of compress.c: the minifier of scripts.
pub mod Fits
use cweb.Base.{
  ℕ, Bool, true, false, ◌&&◌, ◌||◌, not, [], ◌∷◌, Option, some, ◌==◌, ◌>>=◌, if◌then◌else◌, length,
  get_or, drop, Bytes, codes, reverse, is_space, is_alnum, skip_spaces,
}
use cweb.Compress.Turns.{one_of, last_byte, next_byte, is_empty, drop_blanks, turns}

is_js_ident_char : ℕ → Bool
unfolding is_alnum
is_js_ident_char c = is_alnum c || c == b'_' || c == b'$'

-- kJsPunctuation
js_is_punct : ℕ → Bool
js_is_punct c = one_of c (codes "()[]{},;:?+-*%&|^!=<>~/.")

pub is_regex_prefix : ℕ → Bool
is_regex_prefix c = c == 0 || one_of c (codes "(=:,?!&|^%+-~{}[;")

-- The local variables. A quote is open where `in_string` holds.
pub record JsState : Type 0 where
  pub in_string : Bool
  pub string_quote : ℕ
  pub in_regex : Bool
  pub in_single_comment : Bool
  pub in_multi_comment : Bool
  pub prev_sig : ℕ
  pub out : Bytes

pub single_comment_turn : ℕ → Bytes → JsState → Bytes × JsState
single_comment_turn c rest s =
    let ends = c == b'\n' || c == b'\r' in
    let line = not (is_empty s.out) && not (last_byte s.out == b'\n') in
    let s' = record s { in_single_comment = false } in
    (rest, if ends then (if line then record s' { out = b'\n' ∷ s.out } else s') else s)

-- Behind the end of a comment.
pub close_multi_comment : Bytes → JsState → JsState
close_multi_comment rest s =
    let joins = is_js_ident_char s.prev_sig && is_js_ident_char (next_byte rest) in
    let s' = record s { in_multi_comment = false } in
    let spaced = if last_byte s.out == 32 then s' else record s' { out = 32 ∷ s.out } in
    if joins then record spaced { prev_sig = 32 } else s'

pub multi_comment_turn : ℕ → Bytes → JsState → Bytes × JsState
multi_comment_turn c rest s =
    if c == b'*' && get_or rest 0 0 == b'/'
    then (drop 1 rest, close_multi_comment (drop 1 rest) s)
    else (rest, s)

pub push : ℕ → JsState → JsState
push c s = record s { out = c ∷ s.out }

-- c == '\\' && i + 1 < len: both bytes are copied.
pub copy_escaped : ℕ → Bytes → JsState → Bytes × JsState
copy_escaped c rest s = (drop 1 rest, push (get_or rest 0 0) (push c s))

abbrev escapes : ℕ → Bytes → Bool
escapes c rest = c == b'\\' && not (is_empty rest)

pub string_turn : ℕ → Bytes → JsState → Bytes × JsState
string_turn c rest s =
    let closed = record (push c s) { in_string = false; prev_sig = s.string_quote } in
    if escapes c rest
    then copy_escaped c rest s
    else (rest, if c == s.string_quote then closed else push c s)

pub regex_turn : ℕ → Bytes → JsState → Bytes × JsState
regex_turn c rest s =
    let closed = record (push c s) { in_regex = false; prev_sig = b'/' } in
    if escapes c rest then copy_escaped c rest s else (rest, if c == b'/' then closed else push c s)

-- Blanks are read to their end; one of them stays between two bytes that are no punctuation.
pub js_space_turn : Bytes → JsState → Bytes × JsState
js_space_turn rest s =
    let dropped = is_empty s.out || js_is_punct s.prev_sig || js_is_punct (next_byte rest) in
    (skip_spaces rest, if dropped then s else record (push 32 s) { prev_sig = 32 })

-- Outside of strings, expressions and comments.
pub code_turn : ℕ → Bytes → JsState → Bytes × JsState
code_turn c rest s =
    if one_of c (codes "'\"`")
    then (rest, record (push c s) { in_string = true; string_quote = c })
    else if c == b'/' && get_or rest 0 0 == b'/'
    then (drop 1 rest, record s { in_single_comment = true })
    else if c == b'/' && get_or rest 0 0 == b'*'
    then (drop 1 rest, record s { in_multi_comment = true })
    else if c == b'/' && is_regex_prefix s.prev_sig
    then (rest, record (push c s) { in_regex = true; prev_sig = 0 })
    else if is_space c
    then js_space_turn rest s
    else (rest, record (push c s) { prev_sig = c })

pub js_turn : ℕ → Bytes → JsState → Bytes × JsState
js_turn c rest s =
    if s.in_single_comment
    then single_comment_turn c rest s
    else if s.in_multi_comment
    then multi_comment_turn c rest s
    else if s.in_string
    then string_turn c rest s
    else if s.in_regex
    then regex_turn c rest s
    else code_turn c rest s

-- One turn for each byte is enough. Blanks at the end are cut off.
unfoldable pub minify_js : Bytes → Option Bytes
unfolding js_turn single_comment_turn multi_comment_turn close_multi_comment string_turn regex_turn
    code_turn js_space_turn copy_escaped push is_regex_prefix js_is_punct is_js_ident_char last_byte
    next_byte skip_spaces is_space drop_blanks turns
minify_js input =
    let start : JsState = record {
      in_string = false;
      string_quote = 0;
      in_regex = false;
      in_single_comment = false;
      in_multi_comment = false;
      prev_sig = 0;
      out = [];
    } in
    turns js_turn (length input) input start >>= λ s. some (reverse (drop_blanks s.out))
