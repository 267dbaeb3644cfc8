-- ===== src/Template/Codegen/Files.antt =====
-- framework/src/templatengine/codegen.c: the texts of the header file and of the C file of a template. Opening, reading
-- and closing the files is not modelled.
pub mod Static
use cweb.Base.{
  ℕ, suc, ◌-◌, ◌+◌, Bool, true, false, not, ◌&&◌, ◌||◌, List, [], ◌∷◌, ◌++◌, map, Option, none,
  some, leb, ◌==◌, ◌>>=◌, if◌then◌else◌, length, take, drop, get_or, Bytes, codes,
}
use cweb.PathUtils.FileKind.{strrchr}
use cweb.Template.Lexer.{lexer_create, lexer_next_token}
use cweb.Template.Parser.{AstNode, AstNodes, ast_root, ast_node, parser_create, parser_parse}
use cweb.Template.Codegen.Css.{template_has_external_css, emit_css_node}
use cweb.Template.Codegen.Html.{generate_html_node}
use cweb.Template.Codegen.Signature.{
  TemplateSignature, extract_template_signature, header_contains_css_declaration,
  template_body_start,
}

-- The tree of a template's body, with fuel for one token more than it has bytes.
unfoldable pub parse_body_text : Bytes → Option AstNode
parse_body_text body = do
  children ←
      parser_parse lexer_next_token (suc (length body))
        (parser_create lexer_next_token (lexer_create body))
  some (ast_node ast_root none children 0 0)

-- The text behind the last slash.
abbrev base_name : Bytes → Bytes
base_name path = elim (strrchr path b'/') [ none ↦ path | some slash ↦ drop (suc slash) path ]

-- toupper, with an underscore for a full stop
abbrev guard_char : ℕ → ℕ
guard_char c = if c == b'.' then b'_' else if leb b'a' c && leb c b'z' then c - 32 else c

-- The buffer holds 255 bytes.
guard_name : Bytes → Bytes
unfolding strrchr
guard_name header_filename =
    map guard_char (take 255 (codes "_" ++ (base_name header_filename ++ codes "_H")))

abbrev includes : Bytes
includes =
    codes
      "#include <stdio.h>\n#include <stdlib.h>\n#include <string.h>\n#include <time.h>\n#include <stdbool.h>\n\n"

-- The header's own text, ended by an end of line.
header_block : Option Bytes → Bytes
header_block none = []
header_block (some []) = []
header_block (some (c ∷ cs)) =
    (c ∷ cs) ++ (if get_or (c ∷ cs) (length cs) 0 == b'\n' then [] else codes "\n")

-- The head of a function of the template, up to its parameters.
abbrev prototype : TemplateSignature → Bytes → Bytes
prototype s suffix =
    codes "char* " ++ (s.func_name ++ (suffix ++ (codes "(" ++ (s.param_signature ++ codes ")"))))

abbrev css_declaration : TemplateSignature → Bool → Bytes
css_declaration s css =
    if css && not (header_contains_css_declaration s)
    then prototype s (codes "_css") ++ codes ";\n"
    else []

abbrev header_around : Bytes → Bytes → Bytes → Bytes
header_around guard own declared =
    codes "#ifndef "
    ++ (guard
        ++ (codes "\n#define "
            ++ (guard
                ++ (codes "\n\n"
                    ++ (includes
                        ++ (own
                            ++ (declared ++ (codes "\n#endif // " ++ (guard ++ codes "\n")))))))))

generate_header : Bytes → Bytes → Option Bytes
unfolding guard_name header_block
generate_header template_content header_filename =
    let (has_signature, s) = extract_template_signature template_content in
    let text = header_around (guard_name header_filename) (header_block s.header_content) in
    let with_body = parse_body_text (template_body_start s template_content) >>= λ root.
    some (text (css_declaration s (template_has_external_css root))) in
    if has_signature then with_body else some (text [])

-- A function of the C file around its body.
abbrev pub function_text : TemplateSignature → Bytes → Bytes → Bytes → Bytes
function_text s suffix body after =
    prototype s suffix
    ++ (codes " {\n    cweb_output_init();\n\n"
        ++ (body ++ (codes "\n    return cweb_output_get();\n}\n" ++ after)))

-- snprintf(header_include, 256, ...)
abbrev header_include : Bytes → Bytes
header_include header_filename =
    take 255 (codes "#include \"" ++ (base_name header_filename ++ codes "\"\n"))

abbrev pub includes_text : Bytes → Bytes
includes_text header_filename =
    header_include header_filename ++ codes "#include <cweb/template.h>\n\n"

-- The CSS function, where a style is external.
abbrev pub css_function : TemplateSignature → AstNode → Option Bytes
css_function s root =
    let written =
      emit_css_node root false >>= λ css. some (function_text s (codes "_css") css []) in
    if template_has_external_css root then written else some []

-- The text of the C file of a tree.
pub c_file_text : Bytes → TemplateSignature → AstNode → Option Bytes
unfolding strrchr
c_file_text header_filename s root = do
  html ← generate_html_node root
  css ← css_function s root
  some (includes_text header_filename ++ (function_text s [] html (codes "\n") ++ css))

-- `none` where no signature is found, or where the code copies past the end of an array.
pub generate_c_file : Bytes → Bytes → Option Bytes
unfolding parse_body_text c_file_text
generate_c_file template_content header_filename =
    let (has_signature, s) = extract_template_signature template_content in
    let text = parse_body_text (template_body_start s template_content) >>= λ root.
    c_file_text header_filename s root in
    if has_signature then text else none
