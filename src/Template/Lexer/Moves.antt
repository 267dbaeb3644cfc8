-- ===== src/Template/Lexer/Moves.antt =====
-- How the readers of lexer.c go through the input: each is a row of calls of `lexer_advance`.
use cweb.Base.{
  ℕ, zero, suc, inl, inr, Bool, true, false, not, ◌&&◌, ◌||◌, leb, ◌==◌, if◌then◌else◌, length,
  Bytes, Bool-cases,
}
use cweb.Template.Lexer.{
  Lexer, Token, lexer_peek, lexer_peek_ahead, lexer_advance, html_loop, c_code_loop, variable_loop,
  tag_loop, skip_byte, close_tag, lexer_read_html, lexer_read_c_code, lexer_read_variable,
  lexer_read_control_tag, lexer_next_token, ends_html, is_inside_tag_condition, buffer_room,
  at_c_code, at_control_tag, at_variable,
}
use cweb.Template.Security.{sanitize_c_code}

abbrev pub after_advance : Lexer → Lexer
after_advance l = (lexer_advance l).0

pub data Moves : Lexer → Lexer → Type 0 where
  stay : {l : Lexer} → Moves l l
  go : {l m : Lexer} → Moves (after_advance l) m → Moves l m

pub Moves-trans : {l m n : Lexer} → Moves l m → Moves m n → Moves l n
Moves-trans stay k = k
Moves-trans (go h) k = go (Moves-trans h k)

-- Either way of a test.
Moves-if :
    {A : Type 0} {l : Lexer} (b : Bool) (x y : Lexer × A)
    → Moves l x.0
    → Moves l y.0
    → Moves l (if b then x else y).0
Moves-if true x y h k = h
Moves-if false x y h k = k

pub html_loop-Moves : (room : ℕ) (l : Lexer) → Moves l (html_loop room l).0
unfolding html_loop
html_loop-Moves zero l = stay
html_loop-Moves (suc room) l =
    Moves-if (lexer_peek l == 0 || ends_html l) _ _ stay
      (go (html_loop-Moves room (after_advance l)))

pub tag_loop-Moves : (room : ℕ) (l : Lexer) → Moves l (tag_loop room l).0
unfolding tag_loop
tag_loop-Moves zero l = stay
tag_loop-Moves (suc room) l =
    Moves-if (lexer_peek l == 0 || not (is_inside_tag_condition l)) _ _ stay
      (go (tag_loop-Moves room (after_advance l)))

variable_loop-Moves : (room : ℕ) (l : Lexer) → Moves l (variable_loop room l).0
unfolding variable_loop
variable_loop-Moves zero l = stay
variable_loop-Moves (suc room) l =
    Moves-if (lexer_peek l == 0 || lexer_peek l == b'}') _ _ stay
      (go (variable_loop-Moves room (after_advance l)))

pub c_code_loop-Moves : (room : ℕ) (l : Lexer) → Moves l (c_code_loop room l).0
unfolding c_code_loop
c_code_loop-Moves zero l = stay
c_code_loop-Moves (suc room) l = Moves-if (lexer_peek l == 0) _ _ stay (
    Moves-if (lexer_peek l == b'%' && lexer_peek_ahead l 1 == b'>') _ _ (go (go stay))
      (go (c_code_loop-Moves room (after_advance l))))

read_c_code-Moves : (l : Lexer) → Moves (after_advance l) (lexer_read_c_code l).0
unfolding lexer_read_c_code
read_c_code-Moves l =
    let start = after_advance (after_advance l) in
    let h = c_code_loop-Moves buffer_room start in
    go (Moves-if {A = Token} (sanitize_c_code (c_code_loop buffer_room start).1) (_, _) (_, _) h h)

skip_byte-Moves : (c : ℕ) (l : Lexer) → Moves l (skip_byte c l)
unfolding skip_byte
skip_byte-Moves c l = elim (Bool-cases (lexer_peek l == c)) [
  | inl e ↦ rw e (go stay)
  | inr e ↦ rw e stay
]

pub read_variable-Moves : (l : Lexer) → Moves (after_advance l) (lexer_read_variable l).0
unfolding lexer_read_variable
read_variable-Moves l =
    Moves-trans (variable_loop-Moves buffer_room (after_advance l)) (skip_byte-Moves b'}' _)

pub close_tag-Moves : (l : Lexer) (b : Bytes) → Moves l (close_tag (l, b)).0
unfolding close_tag
close_tag-Moves l b = Moves-if (lexer_peek l == b'>') _ _ (go stay) stay

read_control_tag-Moves : (l : Lexer) → Moves l (lexer_read_control_tag l).0
unfolding lexer_read_control_tag
read_control_tag-Moves l = Moves-trans (tag_loop-Moves buffer_room l) (close_tag-Moves _ _)

pub next_token-Moves : (l : Lexer) → Moves l (lexer_next_token l).0
unfolding lexer_next_token lexer_read_html
next_token-Moves l = Moves-if (leb (length l.input) l.position) _ _ stay (
    Moves-if (at_c_code l) _ _ (go (read_c_code-Moves l)) (
      Moves-if (at_control_tag l) _ _ (read_control_tag-Moves l) (
        Moves-if (at_variable l) _ _ (go (read_variable-Moves l)) (html_loop-Moves buffer_room l))))
