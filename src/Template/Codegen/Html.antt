-- ===== src/Template/Codegen/Html.antt =====
-- framework/src/templatengine/codegen_html.c: the code that prints the HTML of a template.
pub mod Prints
pub mod Static
use cweb.Base.{
  Bool, true, false, not, List, [], ◌∷◌, ◌++◌, Option, none, some, ◌>>=◌, if◌then◌else◌, Bytes,
  codes,
}
use cweb.Template.Parser.{
  AstType, AstNode, AstNodes, ast_html, ast_c_code, ast_variable, ast_cloop, ast_cif, ast_celse,
  ast_cstyle, ast_root, ast_node, no_nodes, and_node,
}
use cweb.Template.Codegen.Style.{CstyleTagInfo, parse_cstyle_tag_info}
use cweb.Template.Codegen.Css.{
  has_text, is_else_clause, is_none, else_node, print_literal, code_line, literal_text,
  variable_text, cloop_text, cif_text, written_if, wrapped, else_clause, then_text, emit_css_nodes,
}

-- Both fit the buffer of 512 bytes.
pub style_open : Bytes → Bytes
style_open [] = codes "<style>"
style_open (c ∷ cs) = codes "<style " ++ ((c ∷ cs) ++ codes ">")

pub style_text : CstyleTagInfo → Option Bytes → Option Bytes
unfolding style_open
style_text info children =
    let written =
      then_text (some (print_literal (style_open info.attributes)))
        (then_text children (some (print_literal (codes "</style>")))) in
    if info.inline_style then written else some []

unfoldable mutual
  pub generate_html_node : AstNode → Option Bytes
  generate_html_node (ast_node ast_html content children l c) =
      written_if (has_text content) (literal_text content)
  generate_html_node (ast_node ast_c_code content children l c) =
      written_if (has_text content) (code_line content)
  generate_html_node (ast_node ast_variable content children l c) =
      written_if (has_text content) (variable_text true content)
  generate_html_node (ast_node ast_cloop content children l c) =
      wrapped (cloop_text content) (generate_html_nodes children) (some [])
  generate_html_node (ast_node ast_cif content children l c) =
      let clause = html_else children in
      wrapped (cif_text content) (html_branches children)
        (if is_none (else_node children) then some [] else else_clause clause)
  generate_html_node (ast_node ast_cstyle content children l c) =
      style_text (parse_cstyle_tag_info content) (emit_css_nodes children true)
  generate_html_node (ast_node ast_celse content children l c) = generate_html_nodes children
  generate_html_node (ast_node ast_root content children l c) = generate_html_nodes children

  pub generate_html_nodes : AstNodes → Option Bytes
  generate_html_nodes no_nodes = some []
  generate_html_nodes (and_node n ns) = then_text (generate_html_node n) (generate_html_nodes ns)

  -- The children of a condition that are no else clause.
  html_branches : AstNodes → Option Bytes
  html_branches no_nodes = some []
  html_branches (and_node n ns) =
      let text = generate_html_node n in
      let rest = html_branches ns in if is_else_clause n then rest else then_text text rest

  -- The children of the last else clause.
  html_else : AstNodes → Option Bytes
  html_else no_nodes = some []
  html_else (and_node (ast_node type content children l c) ns) =
      let text = generate_html_nodes children in
      let rest = html_else ns in
      if is_none (else_node ns)
      then (if is_else_clause (ast_node type content children l c) then text else some [])
      else rest
