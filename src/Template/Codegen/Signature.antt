-- ===== src/Template/Codegen/Signature.antt =====
-- framework/src/templatengine/codegen_signature.c: the header part of a template and the function that it declares.
pub mod Fits
pub mod Turns
use cweb.Base.{
  ℕ, zero, suc, ◌+◌, ◌-◌, Bool, true, false, not, ◌&&◌, ◌||◌, List, [], ◌∷◌, ◌++◌, Option, none,
  some, ltb, leb, ◌==◌, ◌>>=◌, if◌then◌else◌, length, take, drop, Bytes, codes, strchr, strstr,
  is_space, is_alnum, skip_spaces,
}
use cweb.PathUtils.RouteBase.{take_while}
use cweb.Template.Security.{contains}
use cweb.Template.Codegen.Style.{trim_end}

-- The header is the text between its marks; `header_end` is the place of the closing mark.
pub record TemplateSignature : Type 0 where
  pub func_name : Bytes
  pub param_signature : Bytes
  pub header_content : Option Bytes
  pub header_end : Option ℕ

abbrev pub no_signature : TemplateSignature
no_signature = record {
  func_name = [];
  param_signature = [];
  header_content = none;
  header_end = none;
}

-- The header's text in what starts at its opening mark, up to the closing one.
pub header_text : Bytes → Bytes
unfolding strchr skip_spaces
header_text header = elim (strchr header b'\n') [
  | none ↦ skip_spaces (drop 8 header)
  | some newline ↦ drop (suc newline) header
]

-- The place of the parenthesis that closes the `depth` open ones.
pub close_paren : ℕ → Bytes → Option ℕ
close_paren depth [] = none
close_paren depth (c ∷ cs) =
    let opened = close_paren (suc depth) cs >>= λ i. some (suc i) in
    let closed =
      if depth == 1 then some 0 else (close_paren (depth - 1) cs >>= λ i. some (suc i)) in
    let passed = close_paren depth cs >>= λ i. some (suc i) in
    if c == b'(' then opened else if c == b')' then closed else passed

-- What a turn of the search finds: nothing here, no declaration at all, or one.
pub data Found : Type 0 where
  goes_on : Found
  ends : Found
  found : (name params : Bytes) → Found

abbrev pub is_ident_char : ℕ → Bool
is_ident_char c = is_alnum c || c == b'_'

-- Behind the opening parenthesis.
pub read_params : Bytes → Bytes → Found
unfolding close_paren trim_end
read_params name rest = elim (close_paren 1 rest) [
  | none ↦ ends
  | some i ↦ found name (take 255 (trim_end is_space (skip_spaces (take i rest))))
]

-- Behind the asterisk; a name has to fit the array of 128 bytes.
pub read_name : Bytes → Found
unfolding read_params is_alnum is_space
read_name p =
    let name = take_while is_ident_char p in
    if length name == 0 || leb 128 (length name)
    then goes_on
    else elim (skip_spaces (drop (length name) p)) [
      | [] ↦ goes_on
      | c ∷ rest ↦ if c == b'(' then read_params name rest else goes_on
    ]

-- Behind the word char.
pub read_declaration : Bytes → Found
unfolding read_name
read_declaration p = elim (skip_spaces p) [
  | [] ↦ goes_on
  | c ∷ rest ↦ if c == b'*' then read_name (skip_spaces rest) else goes_on
]

-- while (*search): every turn passes a word, so the length of the text is fuel enough.
pub search_declaration : ℕ → Bytes → Option (Bytes × Bytes)
unfolding strstr read_declaration
search_declaration zero text = none
search_declaration (suc fuel) text = elim (strstr text (codes "char")) [
  | none ↦ none
  | some i ↦ elim (read_declaration (drop (i + 4) text)) [
    | goes_on ↦ search_declaration fuel (drop (i + 4) text)
    | ends ↦ none
    | found name params ↦ some (name, params)
  ]
]

-- The search in a header's text, of which the content and the end are known.
abbrev pub searched : Bytes → ℕ → Bool × TemplateSignature
searched content stop =
    let known : TemplateSignature = record no_signature {
      header_content = some content;
      header_end = some stop;
    } in
    elim (search_declaration (length content) content) [
      | none ↦ (false, known)
      | some (name, params) ↦ (true, record known { func_name = name; param_signature = params })
    ]

-- Whether a declaration was found, and what is known of the header even if not.
unfoldable pub extract_template_signature : Bytes → Bool × TemplateSignature
unfolding header_text search_declaration
extract_template_signature template_content = elim (strstr template_content (codes "<%header")) [
  | none ↦ (false, no_signature)
  | some start ↦ elim (strstr (drop start template_content) (codes "%>")) [
    | none ↦ (false, no_signature)
    | some stop ↦ searched (header_text (take stop (drop start template_content))) (start + stop)
  ]
]

-- The needle fits its buffer of 256 bytes.
pub header_contains_css_declaration : TemplateSignature → Bool
unfolding strstr
header_contains_css_declaration s = elim s.header_content [
  | none ↦ false
  | some content ↦
      not (length content == 0)
      && not (length s.func_name == 0)
      && contains content (s.func_name ++ codes "_css")
]

unfoldable pub template_body_start : TemplateSignature → Bytes → Bytes
template_body_start s template_content = elim s.header_end [
  | none ↦ template_content
  | some stop ↦ drop (stop + 2) template_content
]
