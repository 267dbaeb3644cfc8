-- ===== src/Template/Codegen/Signature/Fits.antt =====
-- The arrays of a signature are never overrun.
use cweb.Base.{
  ℕ, zero, suc, ◌+◌, ◌≤◌, Bool, true, false, ◌||◌, [], ◌∷◌, Option, none, some, leb, ◌==◌,
  if◌then◌else◌, if_cases, length, length-take, take, drop, Bytes, codes, strstr, skip_spaces,
  is_space, arith,
}
use cweb.PathUtils.RouteBase.{take_while}
use cweb.Template.Codegen.Style.{trim_end}
use cweb.Template.Codegen.Signature.{
  is_ident_char, TemplateSignature, no_signature, Found, goes_on, ends, found, close_paren,
  read_params, read_name, read_declaration, search_declaration, searched, header_text,
  extract_template_signature,
}

-- Both texts and the NUL behind each.
abbrev Both : Bytes → Bytes → Type 0
Both name params = (length name + 1 ≤ 128) × (length params + 1 ≤ 256)

abbrev FoundFits : Found → Type 0
FoundFits (found name params) = Both name params
FoundFits goes_on = Unit
FoundFits ends = Unit

option_cases {ℓ κ λ'} :
    {A : Type ℓ} {B : Type κ} (P : B → Type λ') (o : Option A) (x : B) (f : A → B)
    → P x
    → ((a : A) → P (f a))
    → P (elim o [ none ↦ x | some a ↦ f a ])
option_cases P none x f p q = p
option_cases P (some a) x f p q = q a

read_params-FoundFits :
    (name rest : Bytes) → length name + 1 ≤ 128 → FoundFits (read_params name rest)
unfolding read_params
read_params-FoundFits name rest h =
    let params = λ (i : ℕ). take 255 (trim_end is_space (skip_spaces (take i rest))) in
    option_cases FoundFits (close_paren 1 rest) ends (λ i. found name (params i)) tt
      (λ i. (h, omega (arith, length-take 255 (trim_end is_space (skip_spaces (take i rest))))))

after_name :
    (name rest : Bytes)
    → length name + 1 ≤ 128
    → FoundFits
        (elim rest [ [] ↦ goes_on | c ∷ cs ↦ if c == b'(' then read_params name cs else goes_on ])
after_name name [] h = tt
after_name name (c ∷ cs) h =
    if_cases FoundFits (c == b'(') (read_params name cs) goes_on
      (λ _. read_params-FoundFits name cs h) (λ _. tt)

read_name-FoundFits : (p : Bytes) → FoundFits (read_name p)
unfolding read_name
read_name-FoundFits p =
    let name = take_while is_ident_char p in
    let rest = skip_spaces (drop (length name) p) in
    if_cases FoundFits (length name == 0 || leb 128 (length name)) goes_on
      (elim rest [ [] ↦ goes_on | c ∷ cs ↦ if c == b'(' then read_params name cs else goes_on ])
      (λ _. tt) (λ short. after_name name rest (ground arith))

after_word :
    (text : Bytes)
    → FoundFits (elim text [
      | [] ↦ goes_on
      | c ∷ rest ↦ if c == b'*' then read_name (skip_spaces rest) else goes_on
    ])
after_word [] = tt
after_word (c ∷ rest) =
    if_cases FoundFits (c == b'*') (read_name (skip_spaces rest)) goes_on
      (λ _. read_name-FoundFits (skip_spaces rest)) (λ _. tt)

read_declaration-FoundFits : (p : Bytes) → FoundFits (read_declaration p)
unfolding read_declaration
read_declaration-FoundFits p = after_word (skip_spaces p)

abbrev SearchFits : Option (Bytes × Bytes) → Type 0
SearchFits none = Unit
SearchFits (some (name, params)) = Both name params

after_turn :
    (fuel : ℕ) (later : Bytes) (f : Found)
    → SearchFits (search_declaration fuel later)
    → FoundFits f
    → SearchFits (elim f [
      | goes_on ↦ search_declaration fuel later
      | ends ↦ none
      | found name params ↦ some (name, params)
    ])
after_turn fuel later goes_on s f = s
after_turn fuel later ends s f = tt
after_turn fuel later (found name params) s f = f

search_declaration-SearchFits :
    (fuel : ℕ) (text : Bytes) → SearchFits (search_declaration fuel text)
unfolding search_declaration
search_declaration-SearchFits zero text = tt
search_declaration-SearchFits (suc fuel) text =
    option_cases SearchFits (strstr text (codes "char")) none
      (λ i. elim (read_declaration (drop (i + 4) text)) [
        | goes_on ↦ search_declaration fuel (drop (i + 4) text)
        | ends ↦ none
        | found name params ↦ some (name, params)
      ])
      tt
      (λ i.
        after_turn fuel (drop (i + 4) text) (read_declaration (drop (i + 4) text))
          (search_declaration-SearchFits fuel (drop (i + 4) text))
          (read_declaration-FoundFits (drop (i + 4) text)))

abbrev SignatureFits : Bool × TemplateSignature → Type 0
SignatureFits (b, s) = Both s.func_name s.param_signature

with_search :
    (known : TemplateSignature) (o : Option (Bytes × Bytes))
    → SignatureFits (false, known)
    → SearchFits o
    → SignatureFits (elim o [
      | none ↦ (false, known)
      | some (name, params) ↦ (true, record known { func_name = name; param_signature = params })
    ])
with_search known none k h = k
with_search known (some (name, params)) k h = h

searched-SignatureFits : (content : Bytes) (stop : ℕ) → SignatureFits (searched content stop)
unfolding search_declaration
searched-SignatureFits content stop =
    let known : TemplateSignature = record no_signature {
      header_content = some content;
      header_end = some stop;
    } in
    with_search known (search_declaration (length content) content) (omega arith, omega arith)
      (search_declaration-SearchFits (length content) content)

-- Whatever the template is, the function's name and its parameters fit, with the NUL behind each, the arrays of 128
-- and 256 bytes that they are copied to.
pub extract_template_signature-fits :
    (template_content : Bytes)
    → (length (extract_template_signature template_content).1.func_name + 1 ≤ 128)
      × (length (extract_template_signature template_content).1.param_signature + 1 ≤ 256)
unfolding extract_template_signature
extract_template_signature-fits template_content =
    let nothing : SignatureFits (false, no_signature) = (omega arith, omega arith) in
    option_cases SignatureFits (strstr template_content (codes "<%header")) (false, no_signature)
      (λ start. elim (strstr (drop start template_content) (codes "%>")) [
        | none ↦ (false, no_signature)
        | some stop ↦
            searched (header_text (take stop (drop start template_content))) (start + stop)
      ])
      nothing
      (λ start.
        option_cases SignatureFits (strstr (drop start template_content) (codes "%>"))
          (false, no_signature)
          (λ stop. searched (header_text (take stop (drop start template_content))) (start + stop))
          nothing
          (λ stop.
            searched-SignatureFits (header_text (take stop (drop start template_content)))
              (start + stop)))
