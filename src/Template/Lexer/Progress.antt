-- ===== src/Template/Lexer/Progress.antt =====
-- Every call of `lexer_next_token` gets ahead, and keeps the line and the column of its place.
use cweb.Base.{
  ℕ, zero, suc, ◌≤◌, ◌<◌, ◌≡◌, ◌≢◌, refl, ap, sym, ◌∙◌, subst, Bool, true, false, not, ◌&&◌, ◌||◌,
  [], ◌∷◌, ◌==◌, leb, if◌then◌else◌, length, Bytes, get_or, Lacks, leb→le, if_false, arith,
}
use cweb.Template.Lexer.{
  Lexer, Token, TokenType, token_eof, token_html, token_c_code, token_variable, token_cloop,
  token_cif, token_celse, token_cendloop, token_cendif, token_cstyle, token_cendstyle, token_error,
  lexer_peek, lexer_advance, html_loop, c_code_loop, tag_loop, html_token, close_tag, tag_type,
  lexer_read_html, lexer_read_c_code, lexer_read_variable, lexer_read_control_tag, lexer_next_token,
  ends_html, is_inside_tag_condition, buffer_room, at_c_code, at_control_tag, at_variable,
}
use cweb.Template.Security.{sanitize_c_code}
use cweb.Template.Lexer.Moves.{
  after_advance, Moves, stay, go, read_variable-Moves, html_loop-Moves, c_code_loop-Moves,
  tag_loop-Moves, close_tag-Moves, Moves-trans,
}

pub advance_position :
    (l : Lexer) → l.position < length l.input → (after_advance l).position ≡ suc l.position
unfolding lexer_advance
advance_position l h = ground arith

advance_bound :
    (l : Lexer) → l.position ≤ length l.input → (after_advance l).position ≤ length l.input
unfolding lexer_advance
advance_bound l h = ground arith

advance_le : (l : Lexer) → l.position ≤ (after_advance l).position
unfolding lexer_advance
advance_le l = ground arith

pub advance_input : (l : Lexer) → (after_advance l).input ≡ l.input
unfolding lexer_advance
advance_input l = ground arith

pub Moves-input : {l m : Lexer} → Moves l m → m.input ≡ l.input
Moves-input stay = refl
Moves-input {l = l} (go h) = Moves-input h ∙ advance_input l

pub Moves-le : {l m : Lexer} → Moves l m → l.position ≤ m.position
Moves-le stay = omega arith
Moves-le {l = l} (go h) = omega (arith, advance_le l, Moves-le h)

pub Moves-bound :
    {l m : Lexer} → Moves l m → l.position ≤ length l.input → m.position ≤ length l.input
Moves-bound stay b = b
Moves-bound {l = l} (go h) b =
    let e = ap length (advance_input l) in
    let r = Moves-bound h (rw e (advance_bound l b)) in omega (arith, e, r)

-- A text without NUL has none in range.
get_or-Lacks : (s : Bytes) (i : ℕ) → Lacks 0 s → i < length s → get_or s i 0 ≢ 0
get_or-Lacks [] i h b = absurd (omega arith)
get_or-Lacks (x ∷ xs) zero h b = h.0
get_or-Lacks (x ∷ xs) (suc i) h b = get_or-Lacks xs i h.1 (omega arith)

peek_ne : (l : Lexer) → Lacks 0 l.input → l.position < length l.input → (lexer_peek l == 0) ≡ false
unfolding lexer_peek
peek_ne l h b = let n = get_or-Lacks l.input l.position h b in ground arith

and_left : (a b : Bool) → (a && b) ≡ true → a ≡ true
and_left true b h = refl
and_left false b h = h

control_peek : (l : Lexer) → at_control_tag l ≡ true → (lexer_peek l == b'<') ≡ true
unfolding at_control_tag
control_peek l h = and_left (lexer_peek l == b'<') _ h

inside_at_control : (l : Lexer) → at_control_tag l ≡ true → is_inside_tag_condition l ≡ true
unfolding is_inside_tag_condition
inside_at_control l h = let p = control_peek l h in ground (arith, p)

stop_false :
    (l : Lexer)
    → Lacks 0 l.input
    → l.position < length l.input
    → at_control_tag l ≡ true
    → (lexer_peek l == 0 || not (is_inside_tag_condition l)) ≡ false
stop_false l h b c = rw (peek_ne l h b, inside_at_control l c) refl

tag_loop_go :
    (room : ℕ) (l : Lexer)
    → Lacks 0 l.input
    → l.position < length l.input
    → at_control_tag l ≡ true
    → tag_loop (suc room) l ≡ (
      (tag_loop room (after_advance l)).0,
      (lexer_advance l).1 ∷ (tag_loop room (after_advance l)).1,
    )
unfolding tag_loop
tag_loop_go room l h b c =
    if_false (lexer_peek l == 0 || not (is_inside_tag_condition l)) _ _ (stop_false l h b c)

html_loop_go :
    (room : ℕ) (l : Lexer)
    → Lacks 0 l.input
    → l.position < length l.input
    → ends_html l ≡ false
    → html_loop (suc room) l ≡ (
      (html_loop room (after_advance l)).0,
      (lexer_advance l).1 ∷ (html_loop room (after_advance l)).1,
    )
unfolding html_loop
html_loop_go room l h b c = let n = peek_ne l h b in rw (n, c) refl

if_ne :
    (b : Bool) (x y : TokenType) → x ≢ token_eof → y ≢ token_eof → (if b then x else y) ≢ token_eof
if_ne true x y h k = h
if_ne false x y h k = k

tag_type-ne : (b : Bytes) → tag_type b ≢ token_eof
unfolding tag_type
tag_type-ne b =
    if_ne _ token_cloop _ (λ e. cc e)
      (if_ne _ token_cif _ (λ e. cc e)
        (if_ne _ token_celse _ (λ e. cc e)
          (if_ne _ token_cendloop _ (λ e. cc e)
            (if_ne _ token_cendif _ (λ e. cc e)
              (if_ne _ token_cstyle _ (λ e. cc e)
                (if_ne _ token_cendstyle token_error (λ e. cc e) (λ e. cc e)))))))

html_ne : token_html ≢ token_eof
html_ne e = cc e

code_ne : token_c_code ≢ token_eof
code_ne e = cc e

variable_ne : token_variable ≢ token_eof
variable_ne e = cc e

error_ne : token_error ≢ token_eof
error_ne e = cc e

-- What a reader gives where there is input left: it gets ahead, inside the input, and makes a token.
pub record IsAhead (l : Lexer) (r : Lexer × Token) : Type 0 where
  pub gets_ahead : l.position < r.0.position
  pub stays_inside : r.0.position ≤ length l.input
  pub keeps_input : r.0.input ≡ l.input
  pub makes_token : r.1.type ≢ token_eof

IsAhead-by :
    (l : Lexer) (r : Lexer × Token)
    → l.position < length l.input
    → Moves (after_advance l) r.0
    → r.1.type ≢ token_eof
    → IsAhead l r
IsAhead-by l r b h n = record {
  gets_ahead = omega (arith, advance_position l b, Moves-le h);
  stays_inside = Moves-bound (go h) (omega arith);
  keeps_input = Moves-input (go h);
  makes_token = n;
}

IsAhead-if :
    (l : Lexer) (b : Bool) (x y : Lexer × Token)
    → (b ≡ true → IsAhead l x)
    → (b ≡ false → IsAhead l y)
    → IsAhead l (if b then x else y)
IsAhead-if l true x y h k = h refl
IsAhead-if l false x y h k = k refl

read_c_code-IsAhead : (l : Lexer) → l.position < length l.input → IsAhead l (lexer_read_c_code l)
unfolding lexer_read_c_code
read_c_code-IsAhead l b =
    let start = after_advance (after_advance l) in
    let h : Moves (after_advance l) (c_code_loop buffer_room start).0 =
      go (c_code_loop-Moves buffer_room start) in
    IsAhead-if l (sanitize_c_code (c_code_loop buffer_room start).1) _ _
      (λ e. IsAhead-by l (_, _) b h code_ne) (λ e. IsAhead-by l (_, _) b h error_ne)

read_variable-IsAhead :
    (l : Lexer) → l.position < length l.input → IsAhead l (lexer_read_variable l)
unfolding lexer_read_variable
read_variable-IsAhead l b = IsAhead-by l _ b (read_variable-Moves l) variable_ne

read_control_tag-IsAhead :
    (l : Lexer)
    → Lacks 0 l.input
    → l.position < length l.input
    → at_control_tag l ≡ true
    → IsAhead l (lexer_read_control_tag l)
unfolding lexer_read_control_tag
read_control_tag-IsAhead l h b c =
    let e = tag_loop_go 8190 l h b c in
    IsAhead-by l _ b
      (Moves-trans (subst (Moves (after_advance l)) (sym (ap (λ r. r.0) e)) (tag_loop-Moves 8190 _))
        (close_tag-Moves _ _))
      (tag_type-ne (close_tag (tag_loop buffer_room l)).1)

read_html-IsAhead :
    (l : Lexer)
    → Lacks 0 l.input
    → l.position < length l.input
    → ends_html l ≡ false
    → IsAhead l (lexer_read_html l)
unfolding lexer_read_html
read_html-IsAhead l h b c =
    let e = html_loop_go 8190 l h b c in
    subst (λ r. IsAhead l (r.0, html_token r.1 l)) (sym e)
      (IsAhead-by l (_, _) b (html_loop-Moves 8190 (after_advance l)) html_ne)

none_end_html :
    (l : Lexer)
    → at_c_code l ≡ false
    → at_control_tag l ≡ false
    → at_variable l ≡ false
    → ends_html l ≡ false
unfolding ends_html
none_end_html l a b c = rw (a, b, c) refl

-- Where the input has no NUL and is not at its end, the next token is not the end of file, the
-- lexer gets ahead by at least one byte, and it stays inside the input.
pub next_token-IsAhead :
    (l : Lexer) → Lacks 0 l.input → l.position < length l.input → IsAhead l (lexer_next_token l)
unfolding lexer_next_token
next_token-IsAhead l h b =
    IsAhead-if l (leb (length l.input) l.position) _ _ (λ e. absurd (omega (arith, leb→le _ _ e)))
      (λ e.
        IsAhead-if l (at_c_code l) _ _ (λ e. read_c_code-IsAhead l b)
          (λ n. IsAhead-if l (at_control_tag l) _ _ (read_control_tag-IsAhead l h b) (λ m.
            IsAhead-if l (at_variable l) _ _ (λ e. read_variable-IsAhead l b)
              (λ k. read_html-IsAhead l h b (none_end_html l n m k)))))
