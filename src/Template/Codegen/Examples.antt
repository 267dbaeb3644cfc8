-- ===== src/Template/Codegen/Examples.antt =====
-- The code generator at concrete templates.
use cweb.Base.{
  ℕ, ◌+◌, ◌≤◌, ◌≡◌, refl, true, false, [], ◌++◌, none, some, if◌then◌else◌, length, Bytes, codes,
  strchr, strstr, starts_with, skip_spaces, is_space, is_alnum, bytes_eq,
}
use cweb.PathUtils.RouteBase.{take_while}
use cweb.Template.Lexer.{lexer_next_token}
use cweb.Template.Parser.{
  AstNode, ast_html, ast_cloop, ast_cstyle, ast_root, ast_node, no_nodes, and_node, parser_parse,
}
use cweb.Template.Codegen.Output.{parse_cloop_params}
use cweb.Template.Codegen.Style.{parse_cstyle_tag_info}
use cweb.Template.Codegen.Style.Fits.{parse_cstyle_tag_info-fits}
use cweb.Template.Codegen.Css.{node_contains_css_content, template_has_external_css, emit_css_node}
use cweb.Template.Codegen.Css.Silent.{emit_css_node-silent}
use cweb.Template.Codegen.Html.Prints.{run_prints}
use cweb.Template.Codegen.Html.Static.{is_static, page_of, outer_sheet_of}
use cweb.Template.Codegen.Signature.{
  TemplateSignature, extract_template_signature, template_body_start,
}
use cweb.Template.Codegen.Signature.Fits.{extract_template_signature-fits}
use cweb.Template.Codegen.Files.{parse_body_text, includes_text, function_text, generate_c_file}
use cweb.Template.Codegen.Files.Static.{generate_c_file-static}

abbrev template : Bytes
template = codes "<%header\nchar* home(int n);\n%><p>\"hi\"</p><cstyle>a{}</cstyle>"

abbrev signature : TemplateSignature
signature = record {
  func_name = codes "home";
  param_signature = codes "int n";
  header_content = some (codes "char* home(int n);\n");
  header_end = some 28;
}

abbrev root : AstNode
root =
    ast_node ast_root none
      (and_node (ast_node ast_html (some (codes "<p>\"hi\"</p>")) no_nodes 1 1) (
        and_node
          (ast_node ast_cstyle (some (codes "<cstyle>"))
            (and_node (ast_node ast_html (some (codes "a{}")) no_nodes 1 20) no_nodes) 1 12)
          no_nodes))
      0 0

signature_found : extract_template_signature template ≡ (true, signature)
unfolding extract_template_signature strstr strchr starts_with skip_spaces is_space is_alnum
    take_while
signature_found = refl

body_parses : parse_body_text (template_body_start signature template) ≡ some root
unfolding parse_body_text template_body_start parser_parse lexer_next_token
body_parses = refl

root_static : is_static root ≡ true
unfolding is_static
root_static = refl

parse_cstyle_tag_info-fits_example :
    length (parse_cstyle_tag_info (some (codes "<cstyle media='print' setinline>"))).attributes + 1
    ≤ 256
parse_cstyle_tag_info-fits_example =
    parse_cstyle_tag_info-fits (some (codes "<cstyle media='print' setinline>"))

inline_print :
    parse_cstyle_tag_info (some (codes "<cstyle media='print' setinline>"))
    ≡ record { inline_style = true; attributes = codes "media='print'" }
unfolding parse_cstyle_tag_info strstr strchr starts_with skip_spaces is_space bytes_eq
inline_print = refl

extract_template_signature-fits_example :
    (length (extract_template_signature template).1.func_name + 1 ≤ 128)
    × (length (extract_template_signature template).1.param_signature + 1 ≤ 256)
extract_template_signature-fits_example = extract_template_signature-fits template

generate_c_file-static_example :
    (html css : Bytes) × (generate_c_file template (codes "out/home.h")
      ≡ some (
          includes_text (codes "out/home.h")
          ++ (function_text signature [] html (codes "\n")
              ++ (if template_has_external_css root
                  then function_text signature (codes "_css") css []
                  else []))))
    × ((fuel : ℕ) × (run_prints fuel html ≡ some (page_of root)))
    × ((fuel : ℕ) × (run_prints fuel css ≡ some (outer_sheet_of root)))
generate_c_file-static_example =
    generate_c_file-static template (codes "out/home.h") signature root signature_found body_parses
      root_static

-- A loop over HTML, outside of a style.
abbrev plain_loop : AstNode
plain_loop =
    ast_node ast_cloop (some (codes "<cloop count=\"n\">"))
      (and_node (ast_node ast_html (some (codes "x")) no_nodes 1 1) no_nodes) 1 1

plain_loop_no_css : node_contains_css_content plain_loop false ≡ false
unfolding node_contains_css_content
plain_loop_no_css = refl

emit_css_node-silent_example : emit_css_node plain_loop false ≡ some []
emit_css_node-silent_example = emit_css_node-silent plain_loop false plain_loop_no_css

-- A name of 64 bytes fills the array of the loop's variable, and its NUL is written behind the end.
long_name_overruns :
    parse_cloop_params
      (codes "<cloop var=\"xxxxxxxxxxxxxxxxxxxxxxxxxxxxxxxxxxxxxxxxxxxxxxxxxxxxxxxxxxxxxxxx\">")
    ≡ none
unfolding parse_cloop_params strstr strchr starts_with
long_name_overruns = refl
