-- ===== src/Template/Codegen/Output.antt =====
-- framework/src/templatengine/codegen_emit_common.c: the pieces of generated C, as the text that is written. A string
-- is its bytes before the NUL.
pub mod Literal
use cweb.Base.{
  ℕ, suc, ◌+◌, ◌-◌, Bool, true, false, not, ◌&&◌, ◌||◌, List, [], ◌∷◌, ◌++◌, Option, none, some,
  ltb, leb, ◌==◌, ◌>>=◌, if◌then◌else◌, length, take, drop, Bytes, codes, bytes_eq, strchr, strstr,
}
use cweb.Template.Security.{contains}

-- The switch of `write_escaped_string`.
pub escaped_char : ℕ → Bytes
escaped_char c =
    if c == 34
    then codes "\\\""
    else if c == 92
    then codes "\\\\"
    else if c == 10
    then codes "\\n"
    else if c == 13
    then codes "\\r"
    else if c == 9
    then codes "\\t"
    else c ∷ []

pub escaped_chars : Bytes → Bytes
unfolding escaped_char
escaped_chars [] = []
escaped_chars (c ∷ cs) = escaped_char c ++ escaped_chars cs

pub write_escaped_string : Bytes → Bytes
unfolding escaped_chars
write_escaped_string str = codes "\"" ++ (escaped_chars str ++ codes "\"")

remove_type_suffix : Bytes → Bytes → Bytes
remove_type_suffix var_expr suffix =
    let cut = length var_expr - length suffix in
    if leb (length suffix) (length var_expr) && bytes_eq (drop cut var_expr) suffix
    then take cut var_expr
    else var_expr

-- A block that prints the expression into a buffer first.
abbrev printed : Bytes → Bytes → Bytes → Bytes
printed format expr output_func =
    codes "    {\n        char temp_str[32];\n        snprintf(temp_str, sizeof(temp_str), \""
    ++ (format
        ++ (codes "\", "
            ++ (expr ++ (codes ");\n        " ++ (output_func ++ codes "(temp_str);\n    }\n")))))

abbrev printed_time : Bytes → Bytes → Bytes
printed_time expr output_func =
    codes "    {\n        char time_str[64];\n        struct tm *tm_info = localtime(&"
    ++ (expr
        ++ (codes
              ");\n        strftime(time_str, sizeof(time_str), \"%Y-%m-%d %H:%M:%S\", tm_info);\n        "
            ++ (output_func ++ codes "(time_str);\n    }\n")))

-- The suffix is cut off in place in the code; each variable of a tree is written at most once.
pub generate_variable_output : Bytes → Bool → Bytes
unfolding remove_type_suffix strstr
generate_variable_output var_expr escape_html =
    let output_func = if escape_html then codes "cweb_output_html" else codes "cweb_output_raw" in
    if contains var_expr (codes ":int")
    then printed (codes "%d") (remove_type_suffix var_expr (codes ":int")) output_func
    else if contains var_expr (codes ":long")
    then printed (codes "%ld") (remove_type_suffix var_expr (codes ":long")) output_func
    else if contains var_expr (codes ":size_t")
    then printed (codes "%zu") (remove_type_suffix var_expr (codes ":size_t")) output_func
    else if contains var_expr (codes ":float") || contains var_expr (codes ":double")
    then printed (codes "%f")
        (remove_type_suffix (remove_type_suffix var_expr (codes ":float")) (codes ":double"))
        output_func
    else if contains var_expr (codes ":number")
    then printed (codes "%d") (remove_type_suffix var_expr (codes ":number")) output_func
    else if contains var_expr (codes ":bool")
    then codes "    "
      ++ (output_func
          ++ (codes "("
              ++ (remove_type_suffix var_expr (codes ":bool")
                  ++ codes " ? \"true\" : \"false\");\n")))
    else if contains var_expr (codes ":time")
    then printed_time (remove_type_suffix var_expr (codes ":time")) output_func
    else if contains var_expr (codes ":string")
    then codes "    "
      ++ (output_func
          ++ (codes "(" ++ (remove_type_suffix var_expr (codes ":string") ++ codes ");\n")))
    else if contains var_expr (codes ":html")
    then codes "    cweb_output_raw("
      ++ (remove_type_suffix var_expr (codes ":html") ++ codes ");\n")
    else codes "    if ("
      ++ (var_expr ++ (codes ") " ++ (output_func ++ (codes "(" ++ (var_expr ++ codes ");\n")))))

pub record CloopParams : Type 0 where
  pub var_name : Bytes
  pub array_expr : Bytes
  pub count_expr : Bytes

-- The text from behind the marker to the next quote.
abbrev quoted : Bytes → Bytes → Option Bytes
quoted tag marker = do
  i ← strstr tag marker
  len ← strchr (drop (i + length marker) tag) 34
  some (take len (drop (i + length marker) tag))

-- The copy into an array of that many bytes that held `old`. `none` is a copy past the end of the array, which the
-- code does not guard against.
abbrev fill : ℕ → Bytes → Option Bytes → Option Bytes
fill size old none = some old
fill size old (some new) = if ltb (length new) size then some new else none

-- The arrays are those of the callers.
unfoldable pub parse_cloop_params : Bytes → Option CloopParams
unfolding strstr strchr
parse_cloop_params cloop_tag = do
  v ← fill 64 (codes "item") (quoted cloop_tag (codes "var=\""))
  a ← fill 256 [] (quoted cloop_tag (codes "array=\""))
  c ← fill 256 [] (quoted cloop_tag (codes "count=\""))
  some (record { var_name = v; array_expr = a; count_expr = c })

-- The first quote that no backslash stands before; the flag says whether one does.
closing_quote : Bool → Bytes → Option ℕ
closing_quote escaped [] = none
closing_quote escaped (c ∷ cs) =
    let rest = closing_quote (c == 92) cs >>= λ i. some (suc i) in
    if c == 34 && not escaped then some 0 else rest

-- The array is that of the callers.
pub parse_cif_condition : Bytes → Option Bytes
unfolding strstr closing_quote
parse_cif_condition cif_tag = elim (strstr cif_tag (codes "condition=\"")) [
  | none ↦ some []
  | some i ↦
      let cond_start = drop (i + 11) cif_tag in
      elim (closing_quote false cond_start) [
        | none ↦ some []
        | some len ↦ fill 256 [] (some (take len cond_start))
      ]
]
