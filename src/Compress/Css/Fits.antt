-- ===== src/Compress/Css/Fits.antt =====
-- The minified style sheet fits the buffer, which is as long as the input.
use native.Mathlib.Nat.{le_refl}
use cweb.Compress.Turns.{last_byte, drop_blanks}
use cweb.Compress.Turns.Bounds.{
  IsTurn, idle-IsTurn, turns_fit, skip_spaces_le, drop_one_le, drop_blanks_le,
}
use cweb.Base.{
  get_or, ◌||◌, ℕ, suc, ◌≤◌, ◌≡◌, refl, Bool, true, false, ◌&&◌, not, [], ◌∷◌, some, ◌==◌,
  if◌then◌else◌, if_cases, length, drop, Bytes, is_space, skip_spaces, arith,
}
use cweb.Compress.Css.{
  CssState, close_comment, before_colon, before_brace, write_byte, comment_turn, space_turn,
  drops_space, css_turn, minify_css, need_space,
}

before_colon_le : (c : ℕ) (out : Bytes) → length (before_colon c out) ≤ length out
unfolding before_colon
before_colon_le c out =
    if_cases (λ s. length s ≤ length out) _ (drop_blanks out) out (λ e. drop_blanks_le out)
      (λ e. omega arith)

before_brace_le :
    (c : ℕ) (last_space : Bool) (out : Bytes) → length (before_brace c last_space out) ≤ length out
unfolding before_brace
before_brace_le c last_space out =
    if_cases (λ s. length s ≤ length out) _ (drop 1 out) out (λ e. drop_one_le out)
      (λ e. omega arith)

write_byte_le : (c : ℕ) (s : CssState) → length (write_byte c s).out ≤ suc (length s.out)
unfolding write_byte
write_byte_le c s =
    omega (arith, before_brace_le c s.last_space (before_colon c s.out), before_colon_le c s.out)

-- One byte more at most, where a comment ends.
close_comment_le :
    (rest : Bytes) (s : CssState) → length (close_comment rest s).out ≤ suc (length s.out)
unfolding close_comment
close_comment_le rest s =
    if_cases (λ (t : CssState). length t.out ≤ suc (length s.out))
      (need_space s.out rest && not (last_byte s.out == 32))
      (record { in_comment = false; last_space = true; out = 32 ∷ s.out })
      (record s { in_comment = false }) (λ e. le_refl (suc (length s.out)))
      (λ e. le_suc (length s.out))
  where
    le_suc : (n : ℕ) → n ≤ suc n
    le_suc n = omega arith

abbrev Fits : Bytes → CssState → Bytes × CssState → Type 0
Fits rest s r = IsTurn rest s.out r.0 r.1.out

comment_turn-IsTurn : (c : ℕ) (rest : Bytes) (s : CssState) → Fits rest s (comment_turn c rest s)
unfolding comment_turn
comment_turn-IsTurn c rest s =
    if_cases (Fits rest s) (c == b'*' && get_or rest 0 0 == b'/')
      (drop 1 rest, close_comment (drop 1 rest) s) (rest, s)
      (λ e. record {
        reads = drop_one_le rest;
        writes = omega (arith, drop_one_le rest, close_comment_le (drop 1 rest) s);
      })
      (λ e. idle-IsTurn rest s.out)

space_turn-IsTurn : (rest : Bytes) (s : CssState) → Fits rest s (space_turn rest s)
unfolding space_turn
space_turn-IsTurn rest s =
    if_cases (Fits rest s) (s.last_space || drops_space s.out rest) (rest, s)
      (skip_spaces rest, record s { out = 32 ∷ s.out; last_space = true })
      (λ e. idle-IsTurn rest s.out)
      (λ e. record { reads = skip_spaces_le rest; writes = omega (arith, skip_spaces_le rest) })

css_turn-IsTurn : (c : ℕ) (rest : Bytes) (s : CssState) → Fits rest s (css_turn c rest s)
unfolding css_turn
css_turn-IsTurn c rest s =
    let text = if is_space c then space_turn rest s else (rest, write_byte c s) in
    if_cases (Fits rest s) s.in_comment (comment_turn c rest s) _
      (λ e. comment_turn-IsTurn c rest s)
      (λ e.
        if_cases (Fits rest s) (c == b'/' && get_or rest 0 0 == b'*')
          (drop 1 rest, record s { in_comment = true }) text
          (λ e. record { reads = drop_one_le rest; writes = omega (arith, drop_one_le rest) })
          (λ e.
            if_cases (Fits rest s) (is_space c) (space_turn rest s) (rest, write_byte c s)
              (λ e. space_turn-IsTurn rest s)
              (λ e. record {
                reads = le_refl (length rest);
                writes = omega (arith, write_byte_le c s);
              })))

-- Minifying a style sheet ends, with at most one turn for each of its bytes, and the result is never longer
-- than the input, so it fits the output buffer.
pub minify_css-fits :
    (input : Bytes) → (out : Bytes) × (minify_css input ≡ some out) × (length out ≤ length input)
unfolding minify_css
minify_css-fits input =
    turns_fit css_turn (λ s. s.out) (λ s. s.out) css_turn-IsTurn (λ s. le_refl (length s.out)) input
      (record { in_comment = false; last_space = false; out = [] }) refl
