-- ===== src/Template/Codegen/Style.antt =====
-- `parse_cstyle_tag_info` of framework/src/templatengine/codegen_css.c: the attributes of a cstyle tag.
pub mod Fits
pub mod Turns
use cweb.Base.{
  ℕ, zero, suc, ◌+◌, ◌-◌, Bool, true, false, not, ◌&&◌, ◌||◌, List, [], ◌∷◌, ◌++◌, Option, none,
  some, ltb, leb, ◌==◌, ◌>>=◌, if◌then◌else◌, length, take, drop, Bytes, codes, bytes_eq, strchr,
  strstr, is_space, skip_spaces,
}

pub record CstyleTagInfo : Type 0 where
  pub inline_style : Bool
  pub attributes : Bytes

-- sizeof(info->attributes)
abbrev pub attributes_size : ℕ
attributes_size = 256

-- `drop_to p s` goes on while `p` does not hold.
pub drop_to : (ℕ → Bool) → Bytes → Bytes
drop_to p [] = []
drop_to p (c ∷ cs) = let rest = drop_to p cs in if p c then c ∷ cs else rest

unfoldable pub trim_end : (ℕ → Bool) → Bytes → Bytes
trim_end p [] = []
trim_end p (c ∷ cs) = elim (trim_end p cs) [ [] ↦ if p c then [] else c ∷ [] | d ∷ ds ↦ c ∷ d ∷ ds ]

abbrev text_before : Bytes → Bytes → Bytes
text_before whole rest = take (length whole - length rest) whole

abbrev is_value_quote : ℕ → Bool
is_value_quote c = c == 34 || c == 39

-- The cursor behind a value that starts there.
abbrev skip_value : Bytes → Bytes
skip_value [] = []
skip_value (c ∷ cs) =
    if is_value_quote c then drop 1 (drop_to (λ x. x == c) cs) else drop_to is_space (c ∷ cs)

-- The cursor behind an attribute whose name has been read, and has_value.
abbrev skip_equals : Bytes → Bytes × Bool
skip_equals [] = ([], false)
skip_equals (c ∷ cs) = if c == b'=' then (skip_value (skip_spaces cs), true) else (c ∷ cs, false)

-- The text of an attribute that starts there, up to the cursor behind it.
abbrev attr_text : Bytes → Bool → Bytes
attr_text text has_value =
    if has_value then trim_end is_space text else trim_end (λ c. c == b'/') (trim_end is_space text)

-- The loop's variables: the info and first_attr.
pub record AttrState : Type 0 where
  pub info : CstyleTagInfo
  pub first_attr : Bool

-- The copy of an attribute to the output. `none` ends the loop.
pub add_attr : Bytes → AttrState → Option AttrState
add_attr [] s = some s
add_attr (c ∷ cs) s =
    let out = s.info.attributes in
    let spaced = if s.first_attr then out else out ++ (b' ' ∷ []) in
    let room = attributes_size - length spaced in
    let copy_len = if leb room (length (c ∷ cs)) then room - 1 else length (c ∷ cs) in
    let copied : AttrState = record {
      info = record s.info { attributes = spaced ++ take copy_len (c ∷ cs) };
      first_attr = false;
    } in
    if s.first_attr || ltb (length out + 1) attributes_size then some copied else none

-- What the loop does with an attribute of that name and text that ends at the cursor.
pub keep_attr : Bytes → Bytes → Bytes → AttrState → Option (Bytes × AttrState)
unfolding add_attr
keep_attr name text cursor s =
    let inlined : AttrState = record s { info = record s.info { inline_style = true } } in
    let added = add_attr text s >>= λ s'. some (cursor, s') in
    if length name == 0
    then none
    else if bytes_eq name (codes "setinline")
    then some (cursor, inlined)
    else added

-- A turn of the loop from the start of a name: the cursor behind the attribute and the state, if the loop goes on.
pub attr_turn : Bytes → AttrState → Option (Bytes × AttrState)
unfolding drop_to trim_end is_space skip_spaces keep_attr
attr_turn start s =
    let after_name = drop_to (λ c. is_space c || c == b'=') start in
    let (cursor, has_value) = skip_equals (skip_spaces after_name) in
    keep_attr (text_before start after_name) (attr_text (text_before start cursor) has_value) cursor
      s

-- while (*cursor): a turn reads a byte or ends the loop, so the length of the buffer is fuel enough.
pub attr_loop : ℕ → Bytes → AttrState → CstyleTagInfo
unfolding attr_turn
attr_loop zero cursor s = s.info
attr_loop (suc fuel) cursor s = elim (attr_turn (skip_spaces cursor) s) [
  | none ↦ s.info
  | some (rest, s') ↦ attr_loop fuel rest s'
]

abbrev pub no_info : CstyleTagInfo
no_info = record { inline_style = false; attributes = [] }

-- From behind the tag's name, with the place of the end of the tag. The buffer takes 511 bytes.
pub read_attributes : Bytes → Option ℕ → CstyleTagInfo
unfolding attr_loop
read_attributes start none = no_info
read_attributes start (some raw_len) =
    let buffer = take 511 (take raw_len start) in
    attr_loop (length buffer) buffer (record { info = no_info; first_attr = true })

-- With the place of the tag.
pub read_tag : Bytes → Option ℕ → CstyleTagInfo
unfolding strchr read_attributes
read_tag tag none = no_info
read_tag tag (some i) = read_attributes (drop (i + 7) tag) (strchr (drop (i + 7) tag) b'>')

unfoldable pub parse_cstyle_tag_info : Option Bytes → CstyleTagInfo
unfolding strstr read_tag
parse_cstyle_tag_info none = no_info
parse_cstyle_tag_info (some tag) = read_tag tag (strstr tag (codes "<cstyle"))
