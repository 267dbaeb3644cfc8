-- ===== src/Template/Lexer/Places.antt =====
-- The line and the column that lexer.c keeps.
use cweb.Base.{
  take-suc, ℕ, suc, ◌<◌, ◌≡◌, refl, ap, sym, ◌∙◌, false, [], ◌∷◌, ◌++◌, ◌==◌, leb, if◌then◌else◌,
  length, take, Bytes, get_or, arith, if_cases, if_true, if_false,
}
use cweb.Template.Lexer.{
  Lexer, Token, lexer_advance, lexer_next_token, lexer_create, html_token, html_loop, c_code_loop,
  buffer_room, lexer_read_c_code, at_c_code, at_control_tag, at_variable,
}
use cweb.Template.Security.{sanitize_c_code}
use cweb.Template.Lexer.Moves.{after_advance, Moves, stay, go, next_token-Moves}

abbrev newlines : Bytes → ℕ
newlines [] = 0
newlines (c ∷ cs) = if c == b'\n' then suc (newlines cs) else newlines cs

-- The column behind a text that starts in column `k`.
abbrev column_after : ℕ → Bytes → ℕ
column_after k [] = k
column_after k (c ∷ cs) = if c == b'\n' then column_after 1 cs else column_after (suc k) cs

-- The line is one more than the line ends before the place; the column counts from the last of them.
record IsPlaced (l : Lexer) : Type 0 where
  pub right_line : l.line ≡ suc (newlines (take l.position l.input))
  pub right_column : l.column ≡ column_after 1 (take l.position l.input)

create-IsPlaced : (input : Bytes) → IsPlaced (lexer_create input)
create-IsPlaced input = record { right_line = refl; right_column = refl }

newlines-append :
    (s : Bytes) (c : ℕ)
    → newlines (s ++ c ∷ []) ≡ (if c == b'\n' then suc (newlines s) else newlines s)
newlines-append [] c = refl
newlines-append (x ∷ xs) c = ground (arith, newlines-append xs c)

column_after-append :
    (s : Bytes) (k c : ℕ)
    → column_after k (s ++ c ∷ []) ≡ (if c == b'\n' then 1 else suc (column_after k s))
column_after-append [] k c = refl
column_after-append (x ∷ xs) k c =
    ground (arith, column_after-append xs 1 c, column_after-append xs (suc k) c)

leb-false : (a b : ℕ) → leb a b ≡ false → b < a
leb-false a b h = ground arith

advance-IsPlaced : (l : Lexer) → IsPlaced l → IsPlaced (after_advance l)
unfolding lexer_advance
advance-IsPlaced l p =
    let s = l.input in
    let c = get_or s l.position 0 in
    if_cases (λ (r : Lexer × ℕ). IsPlaced r.0) (leb (length s) l.position) _ _ (λ e. p)
      (λ e.
        let snoc = take-suc s l.position 0 (leb-false (length s) l.position e) in
        let lines = ap newlines snoc ∙ newlines-append (take l.position s) c in
        let columns = ap (column_after 1) snoc ∙ column_after-append (take l.position s) 1 c in
        if_cases (λ (r : Lexer × ℕ). IsPlaced r.0) (c == b'\n') _ _
          (λ n. record {
            right_line = ap suc (p.right_line ∙ sym (lines ∙ if_true _ _ _ n));
            right_column = sym (columns ∙ if_true _ _ _ n);
          })
          (λ n. record {
            right_line = p.right_line ∙ ap suc (sym (lines ∙ if_false _ _ _ n));
            right_column = ap suc p.right_column ∙ sym (columns ∙ if_false _ _ _ n);
          }))

Moves-IsPlaced : {m n : Lexer} → Moves m n → IsPlaced m → IsPlaced n
Moves-IsPlaced stay q = q
Moves-IsPlaced (go h) q = Moves-IsPlaced h (advance-IsPlaced _ q)

-- A token has the place that its reader starts from.
abbrev StartsAt : Lexer → Lexer × Token → Type 0
StartsAt l r = (r.1.line ≡ l.line) × (r.1.column ≡ l.column)

html_token-StartsAt : (l m : Lexer) (b : Bytes) → StartsAt l (m, html_token b l)
html_token-StartsAt l m [] = (refl, refl)
html_token-StartsAt l m (c ∷ cs) = (refl, refl)

read_c_code-StartsAt : (l : Lexer) → StartsAt l (lexer_read_c_code l)
unfolding lexer_read_c_code
read_c_code-StartsAt l =
    let code = (c_code_loop buffer_room (after_advance (after_advance l))).1 in
    if_cases (StartsAt l) (sanitize_c_code code) _ _ (λ e. (refl, refl)) (λ e. (refl, refl))

next_token-StartsAt : (l : Lexer) → StartsAt l (lexer_next_token l)
unfolding lexer_next_token
next_token-StartsAt l =
    if_cases (StartsAt l) (leb (length l.input) l.position) _ _ (λ e. (refl, refl))
      (λ e.
        if_cases (StartsAt l) (at_c_code l) _ _ (λ e. read_c_code-StartsAt l)
          (λ e.
            if_cases (StartsAt l) (at_control_tag l) _ _ (λ e. (refl, refl))
              (λ e.
                if_cases (StartsAt l) (at_variable l) _ _ (λ e. (refl, refl))
                  (λ e. html_token-StartsAt l (html_loop buffer_room l).0 _))))

-- From a place whose line and column are those of the text before it, the next token has that line
-- and column, and the lexer stops at a place whose line and column are right again.
next_token-IsPlaced :
    (l : Lexer)
    → IsPlaced l
    → IsPlaced (lexer_next_token l).0
      × ((lexer_next_token l).1.line ≡ suc (newlines (take l.position l.input)))
      × ((lexer_next_token l).1.column ≡ column_after 1 (take l.position l.input))
next_token-IsPlaced l p =
    let (line, column) = next_token-StartsAt l in
    (Moves-IsPlaced (next_token-Moves l) p, line ∙ p.right_line, column ∙ p.right_column)
