-- ===== src/Compress/Css.antt =====
-- framework/src/compress/minify_css.c, with the table of compress.c: the minifier of style sheets.
pub mod Fits
use cweb.Base.{
  ℕ, zero, suc, ◌≡◌, Bool, true, false, not, ◌&&◌, ◌||◌, List, [], ◌∷◌, Option, none, some, ◌==◌,
  ◌>>=◌, if◌then◌else◌, length, get_or, drop, Bytes, codes, reverse, is_space, skip_spaces,
}
use cweb.Compress.Turns.{one_of, last_byte, next_byte, is_empty, drop_blanks, turns}

-- kCssPunctuation
css_is_punct : ℕ → Bool
css_is_punct c = one_of c (codes ",;:{})(>+~*=[]|!&^%#.")

-- The local variables; the last byte of the output comes first.
pub record CssState : Type 0 where
  pub in_comment : Bool
  pub last_space : Bool
  pub out : Bytes

abbrev is_sign : ℕ → Bool
is_sign c = c == b'+' || c == b'-'

pub need_space : Bytes → Bytes → Bool
unfolding css_is_punct last_byte next_byte skip_spaces
need_space out rest =
    let prev = last_byte (skip_spaces out) in
    let right = next_byte rest in
    (not (css_is_punct prev) && not (css_is_punct right)) || is_sign right || is_sign prev

-- Behind the end of a comment. The source's int positions are those of a text below 2^31 bytes.
pub close_comment : Bytes → CssState → CssState
unfolding need_space last_byte
close_comment rest s =
    let open' : CssState = record s { in_comment = false } in
    if need_space s.out rest && not (last_byte s.out == 32)
    then record open' { out = 32 ∷ s.out; last_space = true }
    else open'

-- The two tests that drop a blank between `prev` and the next byte.
pub drops_space : Bytes → Bytes → Bool
unfolding css_is_punct last_byte next_byte
drops_space out rest =
    is_empty out
    || one_of (last_byte out) (codes ":,;\n\r\t")
    || css_is_punct (last_byte out)
    || css_is_punct (next_byte rest)

pub before_colon : ℕ → Bytes → Bytes
unfolding drop_blanks
before_colon c out = if c == b':' || c == b';' then drop_blanks out else out

pub before_brace : ℕ → Bool → Bytes → Bytes
unfolding last_byte
before_brace c last_space out =
    if last_space && one_of c (codes "}{;,") && last_byte out == 32 then drop 1 out else out

pub write_byte : ℕ → CssState → CssState
unfolding before_colon before_brace
write_byte c s = record s {
  out = c ∷ before_brace c s.last_space (before_colon c s.out);
  last_space = false;
}

-- One turn of the loop at the byte `c`: the rest that is still to be read, and the new state. The first is
-- a turn in a comment, the second one at a blank.
pub comment_turn : ℕ → Bytes → CssState → Bytes × CssState
unfolding close_comment
comment_turn c rest s =
    if c == b'*' && get_or rest 0 0 == b'/'
    then (drop 1 rest, close_comment (drop 1 rest) s)
    else (rest, s)

pub space_turn : Bytes → CssState → Bytes × CssState
unfolding drops_space skip_spaces
space_turn rest s =
    if s.last_space || drops_space s.out rest
    then (rest, s)
    else (skip_spaces rest, record s { out = 32 ∷ s.out; last_space = true })

pub css_turn : ℕ → Bytes → CssState → Bytes × CssState
unfolding comment_turn space_turn write_byte is_space
css_turn c rest s =
    let text = if is_space c then space_turn rest s else (rest, write_byte c s) in
    let opening =
      if c == b'/' && get_or rest 0 0 == b'*'
      then (drop 1 rest, record s { in_comment = true })
      else text in
    if s.in_comment then comment_turn c rest s else opening

-- One turn for each byte is enough.
unfoldable pub minify_css : Bytes → Option Bytes
unfolding css_turn turns
minify_css input =
    turns css_turn (length input) input
      (record { in_comment = false; last_space = false; out = [] })
    >>= λ s. some (reverse s.out)
