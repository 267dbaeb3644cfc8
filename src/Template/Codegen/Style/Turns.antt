-- ===== src/Template/Codegen/Style/Turns.antt =====
-- The loop over the attributes of a tag ends by itself: its fuel never runs out.
use cweb.Base.{
  ℕ, zero, suc, ◌-◌, ◌≤◌, ◌<◌, ◌≡◌, refl, Bool, true, false, ◌||◌, [], ◌∷◌, Option, none, some,
  ◌==◌, ◌>>=◌, if◌then◌else◌, if_cases, length, length-take, length-drop, drop, Bytes, codes,
  bytes_eq, is_space, skip_spaces, arith,
}
use cweb.Compress.Turns.Bounds.{skip_spaces_le}
use cweb.Template.Codegen.Style.{
  CstyleTagInfo, AttrState, is_value_quote, text_before, attr_text, drop_to, skip_value,
  skip_equals, add_attr, keep_attr, attr_turn, attr_loop,
}

length-drop_to : (p : ℕ → Bool) (s : Bytes) → length (drop_to p s) ≤ length s
unfolding drop_to
length-drop_to p [] = omega arith
length-drop_to p (c ∷ cs) =
    let h = length-drop_to p cs in
    if_cases (λ (r : Bytes). length r ≤ length (c ∷ cs)) (p c) (c ∷ cs) (drop_to p cs)
      (λ _. omega arith) (λ _. omega (arith, h))

length-skip_value : (s : Bytes) → length (skip_value s) ≤ length s
length-skip_value [] = omega arith
length-skip_value (c ∷ cs) =
    let quoted = drop_to (λ x. x == c) cs in
    if_cases (λ (r : Bytes). length r ≤ length (c ∷ cs)) (is_value_quote c) (drop 1 quoted)
      (drop_to is_space (c ∷ cs))
      (λ _. omega (arith, length-drop 1 quoted, length-drop_to (λ x. x == c) cs))
      (λ _. length-drop_to is_space (c ∷ cs))

length-skip_equals : (s : Bytes) → length (skip_equals s).0 ≤ length s
length-skip_equals [] = omega arith
length-skip_equals (c ∷ cs) =
    if_cases (λ (r : Bytes × Bool). length r.0 ≤ length (c ∷ cs)) (c == b'=')
      (skip_value (skip_spaces cs), true) (c ∷ cs, false)
      (λ _. omega (arith, length-skip_value (skip_spaces cs), skip_spaces_le cs)) (λ _. omega arith)

-- A turn that goes on leaves less than that.
abbrev Leaves : ℕ → Option (Bytes × AttrState) → Type 0
Leaves n none = Unit
Leaves n (some (rest, s)) = length rest < n

kept_cursor :
    (n : ℕ) (cursor : Bytes) (o : Option AttrState)
    → length cursor < n
    → Leaves n (o >>= λ s'. some (cursor, s'))
kept_cursor n cursor none h = tt
kept_cursor n cursor (some s) h = h

keep_attr-Leaves :
    (n : ℕ) (name text cursor : Bytes) (s : AttrState)
    → (0 < length name → length cursor < n)
    → Leaves n (keep_attr name text cursor s)
unfolding keep_attr
keep_attr-Leaves n name text cursor s h =
    let inlined : AttrState = record s { info = record s.info { inline_style = true } } in
    let added = add_attr text s >>= λ s'. some (cursor, s') in
    if_cases (Leaves n) (length name == 0) none
      (if bytes_eq name (codes "setinline") then some (cursor, inlined) else added) (λ _. tt)
      (λ named.
        let less = h (ground arith) in
        if_cases (Leaves n) (bytes_eq name (codes "setinline")) (some (cursor, inlined)) added
          (λ _. less) (λ _. kept_cursor n cursor (add_attr text s) less))

attr_turn-Leaves : (start : Bytes) (s : AttrState) → Leaves (length start) (attr_turn start s)
unfolding attr_turn
attr_turn-Leaves start s =
    let after_name = drop_to (λ c. is_space c || c == b'=') start in
    let after_spaces = skip_spaces after_name in
    let (cursor, has_value) = skip_equals after_spaces in
    keep_attr-Leaves (length start) (text_before start after_name)
      (attr_text (text_before start cursor) has_value) cursor s
      (λ named. omega (
        arith,
        named,
        length-take (length start - length after_name) start,
        length-skip_equals after_spaces,
        skip_spaces_le after_name,
      ))

same_turn :
    (n m : ℕ) (bound : ℕ) (o : Option (Bytes × AttrState)) (info : CstyleTagInfo)
    → Leaves bound o
    → ((cursor : Bytes) (s : AttrState)
        → length cursor < bound
        → attr_loop n cursor s ≡ attr_loop m cursor s)
    → elim o [ none ↦ info | some (rest, s') ↦ attr_loop n rest s' ]
      ≡ elim o [ none ↦ info | some (rest, s') ↦ attr_loop m rest s' ]
same_turn n m bound none info l h = refl
same_turn n m bound (some (rest, s)) info l h = h rest s l

-- With fuel for each byte of the buffer, more fuel changes nothing.
attr_loop_enough :
    (n m : ℕ) (cursor : Bytes) (s : AttrState)
    → length cursor ≤ n
    → length cursor ≤ m
    → attr_loop n cursor s ≡ attr_loop m cursor s
unfolding attr_loop
attr_loop_enough zero zero cursor s h k = refl
attr_loop_enough zero (suc m) [] s h k = refl
attr_loop_enough zero (suc m) (c ∷ cs) s h k = absurd (omega (arith, h))
attr_loop_enough (suc n) zero [] s h k = refl
attr_loop_enough (suc n) zero (c ∷ cs) s h k = absurd (omega (arith, k))
attr_loop_enough (suc n) (suc m) cursor s h k =
    let start = skip_spaces cursor in
    same_turn n m (length start) (attr_turn start s) s.info (attr_turn-Leaves start s)
      (λ rest s' less.
        attr_loop_enough n m rest s' (omega (arith, less, skip_spaces_le cursor, h))
          (omega (arith, less, skip_spaces_le cursor, k)))
