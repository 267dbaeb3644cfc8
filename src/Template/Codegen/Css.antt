-- ===== src/Template/Codegen/Css.antt =====
-- framework/src/templatengine/codegen_css.c: what a template says about CSS, and the code that prints it. `none` is a
-- run that copies past the end of an array, or that takes the text of a tag that has none.
pub mod Silent
use cweb.Base.{
  ℕ, Bool, true, false, not, ◌&&◌, ◌||◌, List, [], ◌∷◌, ◌++◌, Option, none, some, ◌>>=◌,
  if◌then◌else◌, Bytes, codes,
}
use cweb.Template.Parser.{
  AstType, AstNode, AstNodes, ast_html, ast_c_code, ast_variable, ast_cloop, ast_cif, ast_celse,
  ast_cstyle, ast_root, ast_node, no_nodes, and_node,
}
use cweb.Template.Codegen.Output.{
  write_escaped_string, generate_variable_output, CloopParams, parse_cloop_params,
  parse_cif_condition,
}
use cweb.Template.Codegen.Style.{CstyleTagInfo, parse_cstyle_tag_info}

-- node->content && node->content[0] != '\0'
abbrev pub has_text : Option Bytes → Bool
has_text none = false
has_text (some []) = false
has_text (some (c ∷ cs)) = true

abbrev pub is_inline : Option Bytes → Bool
is_inline content = (parse_cstyle_tag_info content).inline_style

unfoldable mutual
  pub node_contains_css_content : AstNode → Bool → Bool
  node_contains_css_content (ast_node ast_html content children l c) inside =
      inside && has_text content
  node_contains_css_content (ast_node ast_variable content children l c) inside =
      inside && has_text content
  node_contains_css_content (ast_node ast_c_code content children l c) inside =
      inside && has_text content
  node_contains_css_content (ast_node ast_cstyle content children l c) inside =
      let found = any_contains_css children (if is_inline content then inside else true) in
      if is_inline content && not inside then false else found
  node_contains_css_content (ast_node ast_cloop content children l c) inside =
      any_contains_css children inside
  node_contains_css_content (ast_node ast_cif content children l c) inside =
      any_contains_css children inside
  node_contains_css_content (ast_node ast_celse content children l c) inside =
      any_contains_css children inside
  node_contains_css_content (ast_node ast_root content children l c) inside =
      any_contains_css children inside

  pub any_contains_css : AstNodes → Bool → Bool
  any_contains_css no_nodes inside = false
  any_contains_css (and_node n ns) inside =
      node_contains_css_content n inside || any_contains_css ns inside

abbrev is_cstyle : AstType → Bool
is_cstyle ast_cstyle = true
is_cstyle _ = false

unfoldable mutual
  pub template_has_external_css : AstNode → Bool
  template_has_external_css (ast_node type content children l c) =
      (is_cstyle type
        && not (is_inline content)
        && node_contains_css_content (ast_node type content children l c) false)
      || any_has_external_css children

  any_has_external_css : AstNodes → Bool
  any_has_external_css no_nodes = false
  any_has_external_css (and_node n ns) = template_has_external_css n || any_has_external_css ns

abbrev pub is_else_clause : AstNode → Bool
is_else_clause (ast_node ast_celse content children l c) = true
is_else_clause n = false

-- then_has_css: of the children that are no else clause.
pub then_has_css : AstNodes → Bool → Bool
unfolding node_contains_css_content
then_has_css no_nodes inside = false
then_has_css (and_node n ns) inside =
    (not (is_else_clause n) && node_contains_css_content n inside) || then_has_css ns inside

-- The last else clause.
pub else_node : AstNodes → Option AstNode
else_node no_nodes = none
else_node (and_node n ns) = elim (else_node ns) [
  | some e ↦ some e
  | none ↦ if is_else_clause n then some n else none
]

abbrev pub is_none : Option AstNode → Bool
is_none none = true
is_none (some n) = false

-- else_has_css
abbrev pub else_has_css : Option AstNode → Bool → Bool
else_has_css none inside = false
else_has_css (some e) inside = node_contains_css_content e inside

-- What generated code is made of: a print of a literal, a loop's head, a condition's head.
unfoldable pub print_literal : Bytes → Bytes
print_literal str = codes "    cweb_output_raw(" ++ (write_escaped_string str ++ codes ");\n")

loop_head : Bytes → CloopParams → Bytes
loop_head content p =
    codes "    // Loop: "
    ++ (content
        ++ (codes "\n    for (size_t i = 0; i < "
            ++ (p.count_expr
                ++ (codes "; i++) {\n" ++ elim p.array_expr [
                  | [] ↦ []
                  | c ∷ cs ↦
                      codes "        const char *"
                      ++ (p.var_name ++ (codes " = " ++ (p.array_expr ++ codes "[i];\n")))
                ]))))

cif_head : Bytes → Bytes → Bytes
cif_head content [] =
    codes "    // Warning: Empty condition in cif tag\n    // Tag content: "
    ++ (content ++ codes "\n    if (false) {\n")
cif_head content (c ∷ cs) =
    codes "    // Conditional: "
    ++ ((c ∷ cs) ++ (codes "\n    if (" ++ ((c ∷ cs) ++ codes ") {\n")))

abbrev else_text : Bytes
else_text = codes "    } else {\n"

abbrev end_text : Bytes
end_text = codes "    }\n"

-- The text of a piece of C with its end of line.
abbrev pub code_line : Option Bytes → Bytes
code_line none = []
code_line (some content) = content ++ codes "\n"

abbrev pub literal_text : Option Bytes → Bytes
literal_text none = []
literal_text (some content) = print_literal content

abbrev pub variable_text : Bool → Option Bytes → Bytes
variable_text escape_html none = []
variable_text escape_html (some content) = generate_variable_output content escape_html

-- The heads with the tag's parameters.
pub cloop_text : Option Bytes → Option Bytes
unfolding loop_head
cloop_text none = none
cloop_text (some content) = parse_cloop_params content >>= λ p. some (loop_head content p)

pub cif_text : Option Bytes → Option Bytes
unfolding cif_head
cif_text none = none
cif_text (some content) =
    parse_cif_condition content >>= λ condition. some (cif_head content condition)

abbrev pub written_if : Bool → Bytes → Option Bytes
written_if test text = some (if test then text else [])

-- A head, what it holds, a clause behind it and the closing brace.
abbrev pub wrapped : Option Bytes → Option Bytes → Option Bytes → Option Bytes
wrapped head body clause = do h ← head; b ← body; c ← clause; some (h ++ (b ++ (c ++ end_text)))

abbrev pub else_clause : Option Bytes → Option Bytes
else_clause body = body >>= λ b. some (else_text ++ b)

-- One text behind another.
abbrev pub then_text : Option Bytes → Option Bytes → Option Bytes
then_text text texts = text >>= λ t. texts >>= λ ts. some (t ++ ts)

unfoldable mutual
  pub emit_css_node : AstNode → Bool → Option Bytes
  emit_css_node (ast_node ast_html content children l c) inside =
      written_if (inside && has_text content) (literal_text content)
  emit_css_node (ast_node ast_c_code content children l c) inside =
      written_if (inside && has_text content) (code_line content)
  emit_css_node (ast_node ast_variable content children l c) inside =
      written_if (inside && has_text content) (variable_text false content)
  emit_css_node (ast_node ast_cloop content children l c) inside =
      let written = wrapped (cloop_text content) (emit_css_nodes children inside) (some []) in
      if any_contains_css children inside then written else some []
  emit_css_node (ast_node ast_cif content children l c) inside =
      let has_else = else_has_css (else_node children) inside in
      let kept = emit_css_branches children inside in
      let clause = emit_css_else children inside in
      let written =
        wrapped (cif_text content) kept (if has_else then else_clause clause else some []) in
      if then_has_css children inside || has_else then written else some []
  emit_css_node (ast_node ast_cstyle content children l c) inside =
      let written = emit_css_nodes children true in
      if is_inline content && not inside then some [] else written
  emit_css_node (ast_node ast_celse content children l c) inside = emit_css_nodes children inside
  emit_css_node (ast_node ast_root content children l c) inside = emit_css_nodes children inside

  pub emit_css_nodes : AstNodes → Bool → Option Bytes
  emit_css_nodes no_nodes inside = some []
  emit_css_nodes (and_node n ns) inside =
      then_text (emit_css_node n inside) (emit_css_nodes ns inside)

  -- The children of a condition but its last else clause.
  emit_css_branches : AstNodes → Bool → Option Bytes
  emit_css_branches no_nodes inside = some []
  emit_css_branches (and_node n ns) inside =
      let text = emit_css_node n inside in
      let rest = emit_css_branches ns inside in
      if is_else_clause n && is_none (else_node ns) then rest else then_text text rest

  -- The children of the last else clause.
  emit_css_else : AstNodes → Bool → Option Bytes
  emit_css_else no_nodes inside = some []
  emit_css_else (and_node (ast_node type content children l c) ns) inside =
      let text = emit_css_nodes children inside in
      let rest = emit_css_else ns inside in
      if is_none (else_node ns)
      then (if is_else_clause (ast_node type content children l c) then text else some [])
      else rest
