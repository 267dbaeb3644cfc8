-- ===== src/Template/Codegen/Files/Static.antt =====
-- The C file of a template that has neither C, nor variables, nor control tags.
use cweb.Base.{
  ℕ, ◌≡◌, ap, ap₂, sym, ◌∙◌, inl, inr, true, false, [], ◌++◌, none, some, ◌>>=◌, if◌then◌else◌,
  if_true, if_false, Bool-cases, Bytes, codes,
}
use cweb.Template.Parser.{AstNode}
use cweb.Template.Codegen.Css.{template_has_external_css, emit_css_node}
use cweb.Template.Codegen.Html.Prints.{run_prints}
use cweb.Template.Codegen.Html.Static.{
  is_static, page_of, outer_sheet_of, generate_html_node-static, emit_css_node-static,
}
use cweb.Template.Codegen.Signature.{
  TemplateSignature, extract_template_signature, template_body_start,
}
use cweb.Template.Codegen.Files.{
  parse_body_text, includes_text, function_text, css_function, c_file_text, generate_c_file,
}

-- The second function of the file, which is there for external styles only.
abbrev second_function : TemplateSignature → AstNode → Bytes → Bytes
second_function s root css =
    if template_has_external_css root then function_text s (codes "_css") css [] else []

css_function_lem :
    (s : TemplateSignature) (root : AstNode) (css : Bytes)
    → emit_css_node root false ≡ some css
    → css_function s root ≡ some (second_function s root css)
css_function_lem s root css e =
    let external = template_has_external_css root in
    let written =
      emit_css_node root false >>= λ text. some (function_text s (codes "_css") text []) in
    let whole = function_text s (codes "_css") css [] in
    elim (Bool-cases external) [
      | inl yes' ↦
          if_true external written (some []) yes'
          ∙ ap (λ o. o >>= λ text. some (function_text s (codes "_css") text [])) e
          ∙ sym (ap some (if_true external whole [] yes'))
      | inr no' ↦
          if_false external written (some []) no' ∙ sym (ap some (if_false external whole [] no'))
    ]

-- The file of a template of HTML and styles is always generated. Its first function consists of prints that give the
-- page; where a style is external, the second consists of prints that give the external styles and nothing else.
pub generate_c_file-static :
    (template_content header_filename : Bytes) (s : TemplateSignature) (root : AstNode)
    → extract_template_signature template_content ≡ (true, s)
    → parse_body_text (template_body_start s template_content) ≡ some root
    → is_static root ≡ true
    → (html css : Bytes) × (generate_c_file template_content header_filename
        ≡ some (
            includes_text header_filename
            ++ (function_text s [] html (codes "\n")
                ++ (if template_has_external_css root
                    then function_text s (codes "_css") css []
                    else []))))
      × ((fuel : ℕ) × (run_prints fuel html ≡ some (page_of root)))
      × ((fuel : ℕ) × (run_prints fuel css ≡ some (outer_sheet_of root)))
unfolding generate_c_file c_file_text
generate_c_file-static template_content header_filename s root found parsed static =
    let (html, e, fuel, runs) = generate_html_node-static root static in
    let (css, e', fuel', runs') = emit_css_node-static root static in
    let whole = λ (h second : Bytes).
      some (includes_text header_filename ++ (function_text s [] h (codes "\n") ++ second)) in
    (
      html,
      css,
      ap
            (λ r.
              if r.0
              then (parse_body_text (template_body_start r.1 template_content) >>= λ n.
                  c_file_text header_filename r.1 n)
              else none)
            found
          ∙ ap (λ o. o >>= λ n. c_file_text header_filename s n) parsed
          ∙ ap₂ (λ a b. a >>= λ h. b >>= λ second. whole h second) e
              (css_function_lem s root css e'),
      (fuel, runs),
      (fuel', runs'),
    )
