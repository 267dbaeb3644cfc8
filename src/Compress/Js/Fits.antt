-- ===== src/Compress/Js/Fits.antt =====
-- The minified script fits the buffer, which is as long as the input.
use native.Mathlib.Nat.{le_refl}
use cweb.Base.{
  ℕ, suc, ◌≤◌, ◌≡◌, refl, true, false, ◌&&◌, ◌||◌, not, [], ◌∷◌, some, ◌==◌, if◌then◌else◌,
  if_cases, length, get_or, drop, Bytes, codes, is_space, skip_spaces, arith,
}
use cweb.Compress.Turns.{one_of, last_byte, is_empty, drop_blanks}
use cweb.Compress.Turns.Bounds.{
  IsTurn, idle-IsTurn, push-IsTurn, turns_fit, skip_spaces_le, drop_one_le, drop_blanks_le,
}
use cweb.Compress.Js.{
  JsState, single_comment_turn, close_multi_comment, multi_comment_turn, push, copy_escaped,
  string_turn, regex_turn, js_space_turn, code_turn, js_turn, minify_js, is_regex_prefix,
}

abbrev Fits : Bytes → JsState → Bytes × JsState → Type 0
Fits rest s r = IsTurn rest s.out r.0 r.1.out

-- What a turn leaves of the output, at the same rest: as it was, or with one byte more.
abbrev OneMore : JsState → JsState → Type 0
OneMore s s' = length s'.out ≤ suc (length s.out)

same-OneMore : (s : JsState) → OneMore s s
same-OneMore s = omega arith

one_more-IsTurn :
    (rest out out' : Bytes) → length out' ≤ suc (length out) → IsTurn rest out rest out'
one_more-IsTurn rest out out' h = record { reads = le_refl (length rest); writes = omega arith }

skips-IsTurn :
    (rest out out' : Bytes) → length out' ≤ suc (length out) → IsTurn rest out (drop 1 rest) out'
skips-IsTurn rest out out' h = record {
  reads = drop_one_le rest;
  writes = omega (arith, drop_one_le rest);
}

single_comment_turn-Fits :
    (c : ℕ) (rest : Bytes) (s : JsState) → Fits rest s (single_comment_turn c rest s)
unfolding single_comment_turn
single_comment_turn-Fits c rest s = one_more-IsTurn rest s.out _ (
    if_cases (OneMore s) (c == b'\n' || c == b'\r') _ s
      (λ e.
        if_cases (OneMore s) _ (record s { in_single_comment = false; out = b'\n' ∷ s.out })
          (record s { in_single_comment = false }) (λ e. le_refl (suc (length s.out)))
          (λ e. same-OneMore s))
      (λ e. same-OneMore s))

close_multi_comment-OneMore : (rest : Bytes) (s : JsState) → OneMore s (close_multi_comment rest s)
unfolding close_multi_comment
close_multi_comment-OneMore rest s =
    let s' = record s { in_multi_comment = false } in
    if_cases (OneMore s) _ _ s'
      (λ e.
        if_cases (λ (t : JsState). OneMore s (record t { prev_sig = 32 })) (last_byte s.out == 32)
          s' (record s' { out = 32 ∷ s.out }) (λ e. same-OneMore s)
          (λ e. le_refl (suc (length s.out))))
      (λ e. same-OneMore s)

multi_comment_turn-Fits :
    (c : ℕ) (rest : Bytes) (s : JsState) → Fits rest s (multi_comment_turn c rest s)
unfolding multi_comment_turn
multi_comment_turn-Fits c rest s =
    if_cases (Fits rest s) (c == b'*' && get_or rest 0 0 == b'/')
      (drop 1 rest, close_multi_comment (drop 1 rest) s) (rest, s)
      (λ e. skips-IsTurn rest s.out _ (close_multi_comment-OneMore (drop 1 rest) s))
      (λ e. idle-IsTurn rest s.out)

copy_escaped-Fits :
    (c : ℕ) (rest : Bytes) (s : JsState)
    → not (is_empty rest) ≡ true
    → Fits rest s (copy_escaped c rest s)
unfolding copy_escaped push
copy_escaped-Fits c [] s h = absurd (cc h)
copy_escaped-Fits c (d ∷ rest) s h = record { reads = omega arith; writes = omega arith }

string_turn-Fits : (c : ℕ) (rest : Bytes) (s : JsState) → Fits rest s (string_turn c rest s)
unfolding string_turn push
string_turn-Fits c rest s =
    if_cases (Fits rest s) (c == b'\\' && not (is_empty rest)) (copy_escaped c rest s) _
      (λ e. copy_escaped-Fits c rest s (ground arith))
      (λ e. one_more-IsTurn rest s.out _ (
        if_cases (OneMore s) (c == s.string_quote)
          (record s { in_string = false; prev_sig = s.string_quote; out = c ∷ s.out }) (push c s)
          (λ e. le_refl (suc (length s.out))) (λ e. le_refl (suc (length s.out)))))

regex_turn-Fits : (c : ℕ) (rest : Bytes) (s : JsState) → Fits rest s (regex_turn c rest s)
unfolding regex_turn push
regex_turn-Fits c rest s =
    if_cases (Fits rest s) (c == b'\\' && not (is_empty rest)) (copy_escaped c rest s) _
      (λ e. copy_escaped-Fits c rest s (ground arith))
      (λ e. one_more-IsTurn rest s.out _ (
        if_cases (OneMore s) (c == b'/')
          (record s { in_regex = false; prev_sig = b'/'; out = c ∷ s.out }) (push c s)
          (λ e. le_refl (suc (length s.out))) (λ e. le_refl (suc (length s.out)))))

js_space_turn-Fits : (rest : Bytes) (s : JsState) → Fits rest s (js_space_turn rest s)
unfolding js_space_turn push
js_space_turn-Fits rest s =
    if_cases (λ (t : JsState). Fits rest s (skip_spaces rest, t)) _ s
      (record s { prev_sig = 32; out = 32 ∷ s.out })
      (λ e. record { reads = skip_spaces_le rest; writes = omega (arith, skip_spaces_le rest) })
      (λ e. record { reads = skip_spaces_le rest; writes = omega (arith, skip_spaces_le rest) })

code_turn-Fits : (c : ℕ) (rest : Bytes) (s : JsState) → Fits rest s (code_turn c rest s)
unfolding code_turn push
code_turn-Fits c rest s =
    let text : Bytes × JsState = (rest, record (push c s) { prev_sig = c }) in
    let blank : Bytes × JsState = if is_space c then js_space_turn rest s else text in
    let regex : Bytes × JsState =
      if c == b'/' && is_regex_prefix s.prev_sig
      then (rest, record (push c s) { in_regex = true; prev_sig = 0 })
      else blank in
    let multi : Bytes × JsState =
      if c == b'/' && get_or rest 0 0 == b'*'
      then (drop 1 rest, record s { in_multi_comment = true })
      else regex in
    let single : Bytes × JsState =
      if c == b'/' && get_or rest 0 0 == b'/'
      then (drop 1 rest, record s { in_single_comment = true })
      else multi in
    if_cases (Fits rest s) (one_of c (codes "'\"`"))
      (rest, record (push c s) { in_string = true; string_quote = c }) single
      (λ e. push-IsTurn rest s.out c)
      (λ e.
        if_cases (Fits rest s) (c == b'/' && get_or rest 0 0 == b'/') _ multi
          (λ e. skips-IsTurn rest s.out s.out (same-OneMore s))
          (λ e.
            if_cases (Fits rest s) (c == b'/' && get_or rest 0 0 == b'*') _ regex
              (λ e. skips-IsTurn rest s.out s.out (same-OneMore s))
              (λ e.
                if_cases (Fits rest s) (c == b'/' && is_regex_prefix s.prev_sig) _ blank
                  (λ e. push-IsTurn rest s.out c)
                  (λ e.
                    if_cases (Fits rest s) (is_space c) (js_space_turn rest s) text
                      (λ e. js_space_turn-Fits rest s) (λ e. push-IsTurn rest s.out c)))))

js_turn-Fits : (c : ℕ) (rest : Bytes) (s : JsState) → Fits rest s (js_turn c rest s)
unfolding js_turn
js_turn-Fits c rest s =
    let in_regex = if s.in_regex then regex_turn c rest s else code_turn c rest s in
    let in_string = if s.in_string then string_turn c rest s else in_regex in
    let in_multi = if s.in_multi_comment then multi_comment_turn c rest s else in_string in
    if_cases (Fits rest s) s.in_single_comment (single_comment_turn c rest s) in_multi
      (λ e. single_comment_turn-Fits c rest s)
      (λ e.
        if_cases (Fits rest s) s.in_multi_comment (multi_comment_turn c rest s) in_string
          (λ e. multi_comment_turn-Fits c rest s)
          (λ e.
            if_cases (Fits rest s) s.in_string (string_turn c rest s) in_regex
              (λ e. string_turn-Fits c rest s)
              (λ e.
                if_cases (Fits rest s) s.in_regex (regex_turn c rest s) (code_turn c rest s)
                  (λ e. regex_turn-Fits c rest s) (λ e. code_turn-Fits c rest s))))

-- Minifying a script ends, with at most one turn for each of its bytes, and the result is never longer than the
-- input, so it fits the output buffer.
pub minify_js-fits :
    (input : Bytes) → (out : Bytes) × (minify_js input ≡ some out) × (length out ≤ length input)
unfolding minify_js
minify_js-fits input =
    turns_fit js_turn (λ s. s.out) (λ s. drop_blanks s.out) js_turn-Fits (λ s. drop_blanks_le s.out)
      input _ refl
