-- ===== src/Compress/Html/Fits.antt =====
-- The minified page fits the buffer, which is as long as the input.
use native.Mathlib.Nat.{le_refl}
use cweb.Base.{
  ℕ, suc, ◌+◌, ◌≤◌, ◌≡◌, refl, Bool, true, false, ◌&&◌, not, [], ◌∷◌, none, some, ltb, ◌==◌,
  if◌then◌else◌, if_cases, length, drop, length-drop, Bytes, codes, is_space, skip_spaces,
  starts_with, arith,
}
use cweb.Compress.Turns.Bounds.{IsTurn, push-IsTurn, turns_fit, skip_spaces_le}
use cweb.Compress.Html.{
  HtmlState, TagState, skip_comment, is_closing, name_at, is_preserve_tag, tag_byte, tag_loop,
  copy_tag, tag_turn, html_space_turn, html_turn, minify_html,
}

abbrev Fits : Bytes → HtmlState → Bytes × HtmlState → Type 0
Fits rest s r = IsTurn rest s.out r.0 r.1.out

skip_comment_le : (s : Bytes) → length (skip_comment s) ≤ length s
unfolding skip_comment
skip_comment_le [] = omega arith
skip_comment_le (c ∷ cs) =
    let rest = skip_comment_le cs in
    let P = λ (t : Bytes). length t ≤ suc (length cs) in
    if_cases P (ltb (length cs) 2) cs _ (λ e. omega arith)
      (λ e.
        if_cases P (starts_with (c ∷ cs) (codes "-->")) (drop 2 cs) (skip_comment cs)
          (λ e. omega (arith, length-drop 2 cs)) (λ e. omega arith))

tag_byte_le : (ch : ℕ) (t : TagState) → length (tag_byte ch t).out ≤ suc (length t.out)
unfolding tag_byte
tag_byte_le ch t = ground arith

tag_loop_le :
    (rest : Bytes) (t : TagState)
    → length (tag_loop rest t).2 + length (tag_loop rest t).0 ≤ length rest + length t.out
unfolding tag_loop
tag_loop_le [] t = omega arith
tag_loop_le (ch ∷ rest) t =
    let more = tag_loop_le rest (tag_byte ch t) in
    if_cases
      (λ (r : Bytes × Bool × Bytes). length r.2 + length r.0 ≤ suc (length rest) + length t.out) _
      (rest, true, ch ∷ t.out) (tag_loop rest (tag_byte ch t)) (λ e. omega arith)
      (λ e. omega (arith, tag_byte_le ch t))

tag_loop_reads : (rest : Bytes) (t : TagState) → length (tag_loop rest t).0 ≤ length rest
unfolding tag_loop
tag_loop_reads [] t = omega arith
tag_loop_reads (ch ∷ rest) t =
    let more = tag_loop_reads rest (tag_byte ch t) in
    if_cases (λ (r : Bytes × Bool × Bytes). length r.0 ≤ suc (length rest)) _
      (rest, true, ch ∷ t.out) (tag_loop rest (tag_byte ch t)) (λ e. omega arith) (λ e. omega arith)

-- At least the byte that opens the tag is read.
tag_loop_reads_on :
    (ch : ℕ) (rest : Bytes) (t : TagState) → length (tag_loop (ch ∷ rest) t).0 ≤ length rest
unfolding tag_loop
tag_loop_reads_on ch rest t =
    if_cases (λ (r : Bytes × Bool × Bytes). length r.0 ≤ length rest) _ (rest, true, ch ∷ t.out)
      (tag_loop rest (tag_byte ch t)) (λ e. le_refl (length rest))
      (λ e. tag_loop_reads rest (tag_byte ch t))

copy_tag-Fits :
    (closing preserve_tag : Bool) (rest : Bytes) (s : HtmlState)
    → Fits rest s (copy_tag closing preserve_tag (b'<' ∷ rest) s)
unfolding copy_tag
copy_tag-Fits closing preserve_tag rest s =
    let start : TagState = record { quote = none; wrote_space = false; out = s.out } in
    record {
      reads = tag_loop_reads_on b'<' rest start;
      writes = omega (arith, tag_loop_le (b'<' ∷ rest) start);
    }

tag_turn-Fits : (rest : Bytes) (s : HtmlState) → Fits rest s (tag_turn rest s)
unfolding tag_turn
tag_turn-Fits rest s =
    let preserve_tag = is_preserve_tag (name_at rest) in
    let copied = copy_tag (is_closing rest) preserve_tag (b'<' ∷ rest) s in
    let inside : Bytes × HtmlState = (rest, record s { out = b'<' ∷ s.out }) in
    let lost = skip_comment_le (drop 3 rest) in
    if_cases (Fits rest s) (s.preserve_depth == 0 && starts_with rest (codes "!--"))
      (skip_comment (drop 3 rest), s) _
      (λ e. record {
        reads = omega (arith, length-drop 3 rest);
        writes = omega (arith, length-drop 3 rest);
      })
      (λ e.
        if_cases (Fits rest s) (ltb 0 s.preserve_depth && not preserve_tag && not (is_closing rest))
          inside copied (λ e. push-IsTurn rest s.out b'<')
          (λ e. copy_tag-Fits (is_closing rest) preserve_tag rest s))

html_space_turn-Fits : (rest : Bytes) (s : HtmlState) → Fits rest s (html_space_turn rest s)
unfolding html_space_turn
html_space_turn-Fits rest s =
    if_cases (λ (t : HtmlState). Fits rest s (skip_spaces rest, t)) _ s
      (record s { out = 32 ∷ s.out })
      (λ e. record { reads = skip_spaces_le rest; writes = omega (arith, skip_spaces_le rest) })
      (λ e. record { reads = skip_spaces_le rest; writes = omega (arith, skip_spaces_le rest) })

html_turn-Fits : (c : ℕ) (rest : Bytes) (s : HtmlState) → Fits rest s (html_turn c rest s)
unfolding html_turn
html_turn-Fits c rest s =
    let pushed : Bytes × HtmlState = (rest, record s { out = c ∷ s.out }) in
    let text = if is_space c then html_space_turn rest s else pushed in
    if_cases (Fits rest s) (c == b'<') (tag_turn rest s)
      (if ltb 0 s.preserve_depth then pushed else text) (λ e. tag_turn-Fits rest s)
      (λ e.
        if_cases (Fits rest s) (ltb 0 s.preserve_depth) pushed text (λ e. push-IsTurn rest s.out c)
          (λ e.
            if_cases (Fits rest s) (is_space c) (html_space_turn rest s) pushed
              (λ e. html_space_turn-Fits rest s) (λ e. push-IsTurn rest s.out c)))

-- Minifying a page ends, with at most one turn for each of its bytes, and the result is never longer than the input,
-- so it fits the output buffer.
pub minify_html-fits :
    (input : Bytes) → (out : Bytes) × (minify_html input ≡ some out) × (length out ≤ length input)
unfolding minify_html
minify_html-fits input =
    turns_fit html_turn (λ s. s.out) (λ s. skip_spaces s.out) html_turn-Fits
      (λ s. skip_spaces_le s.out) input (record { preserve_depth = 0; out = [] }) refl
