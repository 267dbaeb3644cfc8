-- ===== src/Template/Codegen/Style/Fits.antt =====
-- The array of a cstyle tag's attributes is never overrun.
use cweb.Base.{
  ℕ, zero, suc, ◌+◌, ◌-◌, ◌≤◌, ◌<◌, ltb→lt, ◌≡◌, ap, sym, ◌∙◌, inl, inr, true, ◌||◌, [], ◌∷◌, ◌++◌,
  Option, none, some, ltb, leb, ◌==◌, ◌>>=◌, if◌then◌else◌, if_cases, if_true, if_false, Bool-cases,
  length, length-append, length-take, take, drop, Bytes, codes, bytes_eq, strchr, strstr,
  skip_spaces, arith,
}
use cweb.Template.Codegen.Style.{
  CstyleTagInfo, AttrState, attributes_size, add_attr, keep_attr, attr_turn, attr_loop,
  read_attributes, read_tag, no_info, parse_cstyle_tag_info,
}

-- The attributes and the NUL behind them.
abbrev Fits : CstyleTagInfo → Type 0
Fits info = length info.attributes + 1 ≤ attributes_size

-- A copy of at most the room that is left.
copy-Fits :
    (out text : Bytes)
    → length out + 1 ≤ attributes_size
    → length (
          out
          ++ take
              (if leb (attributes_size - length out) (length text)
                then attributes_size - length out - 1
                else length text)
              text)
        + 1
      ≤ attributes_size
copy-Fits out text h =
    let n =
      if leb (attributes_size - length out) (length text)
      then attributes_size - length out - 1
      else length text in
    let le : n + length out + 1 ≤ attributes_size = ground arith in
    omega (arith, length-append out (take n text), length-take n text)

abbrev KeepsFit : Option AttrState → Type 0
KeepsFit none = Unit
KeepsFit (some s) = Fits s.info

spaced-Fits :
    (s : AttrState)
    → (s.first_attr || ltb (length s.info.attributes + 1) attributes_size) ≡ true
    → Fits s.info
    → length (if s.first_attr then s.info.attributes else s.info.attributes ++ (b' ' ∷ [])) + 1
      ≤ attributes_size
spaced-Fits s guard h =
    let out = s.info.attributes in
    let with_blank = out ++ (b' ' ∷ []) in
    elim (Bool-cases s.first_attr) [
      | inl first ↦ omega (arith, ap length (if_true s.first_attr out with_blank first))
      | inr later ↦
          let room : length out + 1 < attributes_size =
            ltb→lt _ _ (sym (ap (λ b. b || ltb (length out + 1) attributes_size) later) ∙ guard) in
          omega (
            arith,
            ap length (if_false s.first_attr out with_blank later),
            length-append out (b' ' ∷ []),
          )
    ]

add_attr-KeepsFit : (text : Bytes) (s : AttrState) → Fits s.info → KeepsFit (add_attr text s)
unfolding add_attr
add_attr-KeepsFit [] s h = h
add_attr-KeepsFit (c ∷ cs) s h =
    let out = s.info.attributes in
    let spaced = if s.first_attr then out else out ++ (b' ' ∷ []) in
    if_cases KeepsFit (s.first_attr || ltb (length out + 1) attributes_size) _ _
      (λ guard. copy-Fits spaced (c ∷ cs) (spaced-Fits s guard h)) (λ _. tt)

abbrev TurnFits : Option (Bytes × AttrState) → Type 0
TurnFits none = Unit
TurnFits (some (rest, s)) = Fits s.info

after_add :
    (cursor : Bytes) (o : Option AttrState) → KeepsFit o → TurnFits (o >>= λ s'. some (cursor, s'))
after_add cursor none k = tt
after_add cursor (some s) k = k

keep_attr-TurnFits :
    (name text cursor : Bytes) (s : AttrState)
    → Fits s.info
    → TurnFits (keep_attr name text cursor s)
unfolding keep_attr
keep_attr-TurnFits name text cursor s h =
    let inlined : AttrState = record s { info = record s.info { inline_style = true } } in
    let added = add_attr text s >>= λ s'. some (cursor, s') in
    if_cases TurnFits (length name == 0) none
      (if bytes_eq name (codes "setinline") then some (cursor, inlined) else added) (λ _. tt)
      (λ _.
        if_cases TurnFits (bytes_eq name (codes "setinline")) (some (cursor, inlined)) added
          (λ _. h) (λ _. after_add cursor (add_attr text s) (add_attr-KeepsFit text s h)))

attr_turn-TurnFits : (start : Bytes) (s : AttrState) → Fits s.info → TurnFits (attr_turn start s)
unfolding attr_turn
attr_turn-TurnFits start s h = keep_attr-TurnFits _ _ _ s h

after_turn :
    (fuel : ℕ) (o : Option (Bytes × AttrState)) (info : CstyleTagInfo)
    → ((cursor : Bytes) (s : AttrState) → Fits s.info → Fits (attr_loop fuel cursor s))
    → Fits info
    → TurnFits o
    → Fits (elim o [ none ↦ info | some (rest, s') ↦ attr_loop fuel rest s' ])
after_turn fuel none info loop h k = h
after_turn fuel (some (rest, s')) info loop h k = loop rest s' k

attr_loop-Fits :
    (fuel : ℕ) (cursor : Bytes) (s : AttrState) → Fits s.info → Fits (attr_loop fuel cursor s)
unfolding attr_loop
attr_loop-Fits zero cursor s h = h
attr_loop-Fits (suc fuel) cursor s h =
    after_turn fuel (attr_turn (skip_spaces cursor) s) s.info (attr_loop-Fits fuel) h
      (attr_turn-TurnFits (skip_spaces cursor) s h)

read_attributes-Fits : (start : Bytes) (o : Option ℕ) → Fits (read_attributes start o)
unfolding read_attributes
read_attributes-Fits start none = omega arith
read_attributes-Fits start (some raw_len) =
    let buffer = take 511 (take raw_len start) in
    attr_loop-Fits (length buffer) buffer (record { info = no_info; first_attr = true })
      (omega arith)

read_tag-Fits : (tag : Bytes) (o : Option ℕ) → Fits (read_tag tag o)
unfolding read_tag
read_tag-Fits tag none = omega arith
read_tag-Fits tag (some i) =
    read_attributes-Fits (drop (i + 7) tag) (strchr (drop (i + 7) tag) b'>')

-- Whatever the tag is, its attributes and the NUL behind them fit the array of 256 bytes that they are copied to.
pub parse_cstyle_tag_info-fits :
    (tag : Option Bytes) → length (parse_cstyle_tag_info tag).attributes + 1 ≤ 256
unfolding parse_cstyle_tag_info
parse_cstyle_tag_info-fits none = omega arith
parse_cstyle_tag_info-fits (some tag) = read_tag-Fits tag (strstr tag (codes "<cstyle"))
