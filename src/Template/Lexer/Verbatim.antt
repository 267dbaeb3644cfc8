-- ===== src/Template/Lexer/Verbatim.antt =====
-- The text of HTML and of control tags, which lexer.c copies from the input as it stands.
use native.Mathlib.Numerals.{unary_clauses}
use cweb.Base.{
  take-suc, ℕ, zero, suc, ◌-◌, ◌≤◌, ◌<◌, ◌≡◌, refl, ap, ap₂, sym, ◌∙◌, subst, Bool, true, false,
  not, ◌||◌, [], ◌∷◌, ◌++◌, some, ◌==◌, leb, length, take, drop, Bytes, get_or, arith, if_cases,
}
use cweb.Template.Lexer.{
  Lexer, Token, TokenType, token_c_code, token_variable, token_eof, token_error, lexer_peek,
  lexer_advance, html_token, html_loop, tag_loop, close_tag, c_code_loop, buffer_room,
  lexer_read_c_code, lexer_read_control_tag, lexer_next_token, at_c_code, at_control_tag,
  at_variable, ends_html, is_inside_tag_condition,
}
use cweb.Template.Security.{sanitize_c_code}
use cweb.Template.Lexer.Moves.{after_advance, Moves, html_loop-Moves, tag_loop-Moves}
use cweb.Template.Lexer.Progress.{Moves-le, Moves-input, advance_position, advance_input}

-- The input between two places of a lexer.
abbrev source_text : Lexer → Lexer → Bytes
source_text l m = take (m.position - l.position) (drop l.position l.input)

minus_self : (n : ℕ) → n - n ≡ 0
minus_self n = omega arith

minus_suc : (a b : ℕ) → suc a - suc b ≡ a - b
minus_suc a b = omega arith

slice_cons :
    (s : Bytes) (i j : ℕ)
    → i < length s
    → i < j
    → take (j - i) (drop i s) ≡ get_or s i 0 ∷ take (j - suc i) (drop (suc i) s)
slice_cons [] i j h k = absurd (omega arith)
slice_cons (x ∷ xs) zero (suc j) h k = simp unary_clauses refl
slice_cons (x ∷ xs) zero zero h k = absurd (omega arith)
slice_cons (x ∷ xs) (suc i) zero h k = absurd (omega arith)
slice_cons (x ∷ xs) (suc i) (suc j) h k =
    ap (λ n. take n (drop i xs)) (minus_suc j i)
    ∙ slice_cons xs i j (omega arith) (omega arith)
    ∙ ap (λ n. get_or xs i 0 ∷ take n (drop (suc i) xs)) (sym (minus_suc j (suc i)))

slice_snoc :
    (s : Bytes) (i j : ℕ)
    → i ≤ j
    → j < length s
    → take (suc j - i) (drop i s) ≡ take (j - i) (drop i s) ++ get_or s j 0 ∷ []
slice_snoc [] i j h k = absurd (omega arith)
slice_snoc (x ∷ xs) zero j h k = simp unary_clauses (take-suc (x ∷ xs) j 0 k)
slice_snoc (x ∷ xs) (suc i) zero h k = absurd (omega arith)
slice_snoc (x ∷ xs) (suc i) (suc j) h k =
    simp unary_clauses (slice_snoc xs i j (omega arith) (omega arith))

in_range : (s : Bytes) (i : ℕ) → (get_or s i 0 == 0) ≡ false → i < length s
in_range [] i h = absurd (cc h)
in_range (x ∷ xs) zero h = omega arith
in_range (x ∷ xs) (suc i) h = omega (arith, in_range xs i h)

peek_in_range : (l : Lexer) → (lexer_peek l == 0) ≡ false → l.position < length l.input
unfolding lexer_peek
peek_in_range l n = in_range l.input l.position n

advance_byte :
    (l : Lexer) → l.position < length l.input → (lexer_advance l).1 ≡ get_or l.input l.position 0
unfolding lexer_advance
advance_byte l b = ground arith

-- A loop adds the bytes that it reads, here where its test does not end it.
go_on :
    (l m : Lexer) (v : Bytes)
    → (lexer_peek l == 0) ≡ false
    → Moves (after_advance l) m
    → v ≡ source_text (after_advance l) m
    → (lexer_advance l).1 ∷ v ≡ source_text l m
go_on l m v n h e =
    let b = peek_in_range l n in
    let at = advance_position l b in
    let ahead : l.position < m.position = omega (arith, at, Moves-le h) in
    let tail = e ∙ ap₂ (λ p s. take (m.position - p) (drop p s)) at (advance_input l) in
    ap₂ (λ c w. c ∷ w) (advance_byte l b) tail
    ∙ sym (slice_cons l.input l.position m.position b ahead)

stop_here : (l : Lexer) → [] ≡ source_text l l
stop_here l = rw (minus_self l.position) refl

or_left : (a b : Bool) → (a || b) ≡ false → a ≡ false
or_left false b h = refl
or_left true b h = h

html_loop_text : (room : ℕ) (l : Lexer) → (html_loop room l).1 ≡ source_text l (html_loop room l).0
unfolding html_loop
html_loop_text zero l = stop_here l
html_loop_text (suc room) l =
    if_cases (λ (r : Lexer × Bytes). r.1 ≡ source_text l r.0) (lexer_peek l == 0 || ends_html l) _ _
      (λ e. stop_here l)
      (λ e.
        go_on l _ _ (or_left _ _ e) (html_loop-Moves room _)
          (html_loop_text room (after_advance l)))

tag_loop_text : (room : ℕ) (l : Lexer) → (tag_loop room l).1 ≡ source_text l (tag_loop room l).0
unfolding tag_loop
tag_loop_text zero l = stop_here l
tag_loop_text (suc room) l =
    if_cases (λ (r : Lexer × Bytes). r.1 ≡ source_text l r.0)
      (lexer_peek l == 0 || not (is_inside_tag_condition l)) _ _ (λ e. stop_here l)
      (λ e.
        go_on l _ _ (or_left _ _ e) (tag_loop-Moves room _) (tag_loop_text room (after_advance l)))

gt_in_range : (l : Lexer) → (lexer_peek l == b'>') ≡ true → l.position < length l.input
gt_in_range l g = peek_in_range l (ground arith)

close_on :
    (l m : Lexer) (b : Bytes)
    → Moves l m
    → b ≡ source_text l m
    → m.position < length m.input
    → b ++ (lexer_advance m).1 ∷ [] ≡ source_text l (after_advance m)
close_on l m b h e range =
    let same = Moves-input h in
    ap₂ (λ w c. w ++ c ∷ []) e (advance_byte m range ∙ ap (λ s. get_or s m.position 0) same)
    ∙ sym (
        slice_snoc l.input l.position m.position (Moves-le h)
          (subst (λ s. m.position < length s) same range))
    ∙ ap (λ p. take (p - l.position) (drop l.position l.input)) (sym (advance_position m range))

close_tag_text :
    (l m : Lexer) (b : Bytes)
    → Moves l m
    → b ≡ source_text l m
    → (close_tag (m, b)).1 ≡ source_text l (close_tag (m, b)).0
unfolding close_tag
close_tag_text l m b h e =
    if_cases (λ (r : Lexer × Bytes). r.1 ≡ source_text l r.0) (lexer_peek m == b'>') _ _
      (λ g. close_on l m b h e (gt_in_range m g)) (λ g. e)

-- The types of token whose text is that of the input.
abbrev is_verbatim : TokenType → Bool
is_verbatim token_c_code = false
is_verbatim token_variable = false
is_verbatim token_eof = false
is_verbatim token_error = false
is_verbatim _ = true

abbrev HasText : Lexer → Lexer × Token → Type 0
HasText l (m, t) = is_verbatim t.type ≡ true → t.value ≡ some (source_text l m)

html_token-HasText : (l m : Lexer) (b : Bytes) → b ≡ source_text l m → HasText l (m, html_token b l)
html_token-HasText l m [] e h = absurd (cc h)
html_token-HasText l m (c ∷ cs) e h = ap some e

read_c_code-HasText : (l : Lexer) → HasText l (lexer_read_c_code l)
unfolding lexer_read_c_code
read_c_code-HasText l =
    let code = (c_code_loop buffer_room (after_advance (after_advance l))).1 in
    if_cases (HasText l) (sanitize_c_code code) _ _ (λ e. untrue) (λ e. untrue)
  where
    untrue : {A : Type 0} → false ≡ true → A
    untrue h = absurd (cc h)

read_control_tag-HasText : (l : Lexer) → HasText l (lexer_read_control_tag l)
unfolding lexer_read_control_tag
read_control_tag-HasText l h =
    ap some (close_tag_text l _ _ (tag_loop-Moves buffer_room l) (tag_loop_text buffer_room l))

-- Nothing of the HTML and of the control tags is lost or changed: such a token's text is the input
-- from where the lexer stood to where it stops.
next_token_verbatim :
    (l : Lexer)
    → is_verbatim (lexer_next_token l).1.type ≡ true
    → (lexer_next_token l).1.value ≡ some (source_text l (lexer_next_token l).0)
unfolding lexer_next_token
next_token_verbatim l =
    if_cases (HasText l) (leb (length l.input) l.position) _ _ (λ e h. absurd (cc h))
      (λ e.
        if_cases (HasText l) (at_c_code l) _ _ (λ e. read_c_code-HasText l)
          (λ e.
            if_cases (HasText l) (at_control_tag l) _ _ (λ e. read_control_tag-HasText l)
              (λ e.
                if_cases (HasText l) (at_variable l) _ _ (λ e h. absurd (cc h))
                  (λ e.
                    html_token-HasText l (html_loop buffer_room l).0 _
                      (html_loop_text buffer_room l)))))
