-- ===== src/Compress/Html.antt =====
-- framework/src/compress/minify_html.c: the minifier of pages.
pub mod Fits
use cweb.Base.{
  ℕ, suc, ◌-◌, Bool, true, false, ◌&&◌, ◌||◌, not, [], ◌∷◌, List, Option, none, some, ltb, ◌==◌,
  ◌>>=◌, if◌then◌else◌, length, get_or, drop, Bytes, codes, reverse, is_space, is_alnum,
  skip_spaces, case_eq, starts_with,
}
use cweb.Compress.Turns.{last_byte, next_byte, is_empty, turns}

-- strncasecmp over the whole name, whose length is tested first
pub is_preserve_tag : Bytes → Bool
unfolding case_eq
is_preserve_tag name =
    case_eq name (codes "pre")
    || case_eq name (codes "textarea")
    || case_eq name (codes "script")
    || case_eq name (codes "style")

-- The local variables.
pub record HtmlState : Type 0 where
  pub preserve_depth : ℕ
  pub out : Bytes

-- What is read after a comment: the text from behind its end. Where it has none, the loop stops before the last
-- two bytes, of which the next turn skips one.
pub skip_comment : Bytes → Bytes
unfolding starts_with
skip_comment [] = []
skip_comment (c ∷ cs) =
    let rest = skip_comment cs in
    if ltb (length cs) 2 then cs else if starts_with (c ∷ cs) (codes "-->") then drop 2 cs else rest

abbrev in_name : ℕ → Bool
in_name c = is_alnum c || c == b'-' || c == b':'

tag_name : Bytes → Bytes
unfolding is_alnum
tag_name [] = []
tag_name (c ∷ cs) = if in_name c then c ∷ tag_name cs else []

pub is_closing : Bytes → Bool
is_closing rest = get_or rest 0 0 == b'/'

-- The name behind `<` or `</` and blanks.
pub name_at : Bytes → Bytes
unfolding tag_name is_closing skip_spaces
name_at rest = tag_name (skip_spaces (if is_closing rest then drop 1 rest else rest))

-- The variables of the loop over a tag; the open quote, if one is open.
pub record TagState : Type 0 where
  pub quote : Option ℕ
  pub wrote_space : Bool
  pub out : Bytes

abbrev is_quote : ℕ → Bool
is_quote ch = ch == b'\'' || ch == b'"'

abbrev unquoted : Option ℕ → Bool
unquoted none = true
unquoted (some q) = false

abbrev next_quote : ℕ → Option ℕ → Option ℕ
next_quote ch none = some ch
next_quote ch (some q) = if q == ch then none else some q

-- A byte of a tag that does not end it.
pub tag_byte : ℕ → TagState → TagState
unfolding is_space
tag_byte ch t =
    let pushed = record t { out = ch ∷ t.out } in
    let spaced = record t { wrote_space = true; out = 32 ∷ t.out } in
    if is_quote ch
    then record pushed { quote = next_quote ch t.quote; wrote_space = false }
    else if unquoted t.quote && is_space ch
    then (if t.wrote_space then t else spaced)
    else if is_space ch
    then pushed
    else record pushed { wrote_space = false }

-- What is left behind the tag, whether it has an end, and the output.
pub tag_loop : Bytes → TagState → Bytes × Bool × Bytes
unfolding tag_byte
tag_loop [] t = ([], false, t.out)
tag_loop (ch ∷ rest) t =
    let more = tag_loop rest (tag_byte ch t) in
    if unquoted t.quote && ch == b'>' then (rest, true, ch ∷ t.out) else more

next_depth : Bool → Bool → ℕ → ℕ
next_depth closing preserve_tag depth =
    if closing && preserve_tag && ltb 0 depth
    then depth - 1
    else if not closing && preserve_tag
    then suc depth
    else depth

pub copy_tag : Bool → Bool → Bytes → HtmlState → Bytes × HtmlState
unfolding tag_loop next_depth
copy_tag closing preserve_tag tag s =
    let r = tag_loop tag (record { quote = none; wrote_space = false; out = s.out }) in
    (
      r.0,
      record {
        preserve_depth =
            if r.1 then next_depth closing preserve_tag s.preserve_depth else s.preserve_depth;
        out = r.2;
      },
    )

pub tag_turn : Bytes → HtmlState → Bytes × HtmlState
unfolding skip_comment name_at is_closing is_preserve_tag copy_tag starts_with
tag_turn rest s =
    let preserve_tag = is_preserve_tag (name_at rest) in
    if s.preserve_depth == 0 && starts_with rest (codes "!--")
    then (skip_comment (drop 3 rest), s)
    else if ltb 0 s.preserve_depth && not preserve_tag && not (is_closing rest)
    then (rest, record s { out = b'<' ∷ s.out })
    else copy_tag (is_closing rest) preserve_tag (b'<' ∷ rest) s

-- Blanks are read to their end; one of them stays inside of a text.
pub html_space_turn : Bytes → HtmlState → Bytes × HtmlState
unfolding last_byte next_byte skip_spaces
html_space_turn rest s =
    let prev = last_byte s.out in
    let next = next_byte rest in
    let dropped = prev == b'>' || prev == 0 || next == b'<' || next == 0 in
    (skip_spaces rest, if dropped then s else record s { out = 32 ∷ s.out })

pub html_turn : ℕ → Bytes → HtmlState → Bytes × HtmlState
unfolding tag_turn html_space_turn is_space
html_turn c rest s =
    let pushed : Bytes × HtmlState = (rest, record s { out = c ∷ s.out }) in
    if c == b'<'
    then tag_turn rest s
    else if ltb 0 s.preserve_depth
    then pushed
    else if is_space c
    then html_space_turn rest s
    else pushed

-- One turn for each byte is enough. Blanks at the end are cut off.
unfoldable pub minify_html : Bytes → Option Bytes
unfolding html_turn turns skip_spaces
minify_html input =
    turns html_turn (length input) input (record { preserve_depth = 0; out = [] }) >>= λ s.
    some (reverse (skip_spaces s.out))
